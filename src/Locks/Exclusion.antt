-- ===== src/Locks/Exclusion.antt =====
-- Who holds a lock at the same time.
use tcabci_read_go_client.Prelude.{
  ℕ, suc, ◌+◌, ◌≤◌, ◌≡◌, refl, sym, ◌∙◌, subst, ◌⊎◌, inl, inr, Bool, true, false, List, [], ◌∷◌,
  ◌++◌, arith, Bool-cases,
}
use tcabci_read_go_client.Locks.{
  Resource, rank, index, same, Hold, holds, holds_exclusive, holds_shared, Instr, Thread, effect,
}
use tcabci_read_go_client.Locks.Programs.{user, session, reads_from, callback}
use tcabci_read_go_client.Locks.Steps.{
  count, is_held, is_written, free, advance, done, Starts, new_session, new_reader, dispatched,
  given_up, on_locks, on_unlocks, on_rlocks, on_runlocks, on_joins, on_closes, on_gets, on_puts,
  on_cancels, on_return, on_work, moves, Step, enters, goes, Reach, here, next,
}
use tcabci_read_go_client.Locks.Discipline.{is_mutex, advance_cases}
use tcabci_read_go_client.Locks.Waiting.{can_step_at}
use tcabci_read_go_client.Locks.Counts.{
  held_in_all, writers, readers, held_in_all-append, held_by_none, Gain, loses, writes_lock,
  reads_lock, gain,
}

-- Nobody writes, or one writes and nobody reads.
abbrev pub Exclusive : ℕ → ℕ → Type 0
Exclusive w n = (w ≡ 0) ⊎ ((w ≡ 1) × (n ≡ 0))

nobody_holds :
    (s : List Thread) (q r : Resource)
    → same q r ≡ true
    → is_held s q ≡ false
    → (writers s r ≡ 0) × (readers s r ≡ 0)
unfolding same
nobody_holds s q r e h = (
  held_by_none (holds_exclusive r) (holds q) s (λ x k. ground (arith, e, k)) h,
  held_by_none (holds_shared r) (holds q) s (λ x k. ground (arith, e, k)) h,
)

nobody_writes :
    (s : List Thread) (q r : Resource) → same q r ≡ true → is_written s q ≡ false → writers s r ≡ 0
unfolding same
nobody_writes s q r e h =
    held_by_none (holds_exclusive r) (holds_exclusive q) s (λ x k. ground (arith, e, k)) h

module _ (s : List Thread) (r : Resource) where
  -- What a step of a goroutine changes in its holds of the resource.
  data Change (x y : Thread) : Type 0 where
    less :
        count (holds_exclusive r) y.account.held ≤ count (holds_exclusive r) x.account.held
        → count (holds_shared r) y.account.held ≤ count (holds_shared r) x.account.held
        → Change x y
    alone :
        writers s r ≡ 0
        → readers s r ≡ 0
        → count (holds_exclusive r) y.account.held ≡ suc (count (holds_exclusive r) x.account.held)
        → count (holds_shared r) y.account.held ≡ count (holds_shared r) x.account.held
        → Change x y
    beside :
        writers s r ≡ 0
        → count (holds_exclusive r) y.account.held ≡ count (holds_exclusive r) x.account.held
        → Change x y

  change :
      (x : Thread) {i : Instr} (rest : List Instr)
      → free s x.announced i ≡ true
      → Gain r x.account (effect i x.account) i
      → Change x (advance x i rest)
  unfolding free done advance
  change x {i} rest f (loses w n) = elim (advance_cases x i rest) [
    | inl q ↦ subst (Change x) (sym q) (less w n)
    | inr (q, e, a, h) ↦ subst (Change x) (sym h) (less (omega arith) (omega arith))
  ]
  change x rest f (writes_lock q e w n) = elim (Bool-cases x.announced) [
    | inl a ↦ let (z, y) = nobody_holds s q r e (ground (arith, f, a)) in rw a (alone z y w n)
    | inr a ↦ rw a (less (omega arith) (omega arith))
  ]
  change x rest f (reads_lock q e w) = beside (nobody_writes s q r e (ground (arith, f))) w

  starts_none :
      {i : Instr} {new : List Thread}
      → is_mutex r ≡ true
      → Starts s i new
      → (held_in_all (holds_exclusive r) new ≡ 0) × (held_in_all (holds_shared r) new ≡ 0)
  unfolding held_in_all count session reads_from callback same rank index
  starts_none m (new_session n rounds) = (ground (arith, m), refl)
  starts_none m (new_reader n messages) = (ground (arith, m), refl)
  starts_none m (dispatched n calls free) = (refl, refl)
  starts_none m (given_up n over) = (refl, refl)
  starts_none m (on_locks r) = (refl, refl)
  starts_none m (on_unlocks r) = (refl, refl)
  starts_none m (on_rlocks r) = (refl, refl)
  starts_none m (on_runlocks r) = (refl, refl)
  starts_none m (on_joins r) = (refl, refl)
  starts_none m (on_closes r) = (refl, refl)
  starts_none m (on_cancels n) = (refl, refl)
  starts_none m on_return = (refl, refl)
  starts_none m (on_gets r) = (refl, refl)
  starts_none m (on_puts r) = (refl, refl)
  starts_none m on_work = (refl, refl)

module _ (r : Resource) (m : is_mutex r ≡ true) where
  -- A state in which nobody writes, or one goroutine, and nobody reads.
  abbrev Excludes : List Thread → Type 0
  Excludes s = Exclusive (writers s r) (readers s r)

  sums :
      (p : Hold → Bool) (xs ys new : List Thread) (x : Thread)
      → held_in_all p (xs ++ x ∷ (ys ++ new))
        ≡ held_in_all p xs + (count p x.account.held + (held_in_all p ys + held_in_all p new))
  unfolding held_in_all
  sums p xs ys new x =
      let a = held_in_all-append p xs (x ∷ (ys ++ new)) in
      let b = held_in_all-append p ys new in omega (arith, a, b)

  keeps :
      (xs ys new : List Thread) (x y : Thread)
      → Excludes (xs ++ x ∷ ys)
      → Change (xs ++ x ∷ ys) r x y
      → (held_in_all (holds_exclusive r) new ≡ 0) × (held_in_all (holds_shared r) new ≡ 0)
      → Excludes (xs ++ y ∷ (ys ++ new))
  unfolding held_in_all
  keeps xs ys new x y h c (a, b) =
      let w0 = held_in_all-append (holds_exclusive r) xs (x ∷ ys) in
      let n0 = held_in_all-append (holds_shared r) xs (x ∷ ys) in
      let w1 = sums (holds_exclusive r) xs ys new y in
      let n1 = sums (holds_shared r) xs ys new y in
      elim c [
        | less w n ↦ grind (arith, h, a, b, w0, n0, w1, n1, w, n)
        | alone z u w n ↦ inr (omega (arith, a, w0, w1, z, w), omega (arith, b, n0, n1, u, n))
        | beside z w ↦ inl (omega (arith, a, w0, w1, z, w))
      ]

  step-Excludes : {s t : List Thread} → Step s t → Excludes s → Excludes t
  unfolding held_in_all count user
  step-Excludes {s} (enters c e) h =
      let w = held_in_all-append (holds_exclusive r) s (user c ∷ []) in
      let n = held_in_all-append (holds_shared r) s (user c ∷ []) in
      subst Excludes (sym e) (grind (arith, h, w, n))
  step-Excludes {s} (goes (moves xs ys new x i rest e f can starts after)) h =
      subst Excludes (sym after) (
        keeps xs ys new x (advance x i rest) (subst Excludes e h)
          (subst (λ u. Change u r x (advance x i rest)) e
            (change s r x rest (sym (can_step_at s x f) ∙ can) (gain r x.account i)))
          (starts_none s r m starts))

  reach-Excludes : {s : List Thread} → Reach s → Excludes s
  unfolding held_in_all
  reach-Excludes here = inl refl
  reach-Excludes (next p st) = step-Excludes st (reach-Excludes p)

-- For each of the locks, in every state that the goroutines reach, nobody holds it for writing, or
-- exactly one hold of it is for writing and none is for reading.
pub mutual_exclusion :
    (r : Resource) {s : List Thread}
    → is_mutex r ≡ true
    → Reach s
    → Exclusive (writers s r) (readers s r)
mutual_exclusion r m p = reach-Excludes r m p
