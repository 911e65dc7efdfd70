-- ===== src/Locks/Waiting.antt =====
-- What the discipline says of goroutines that hold resources or wait for them.
use tcabci_read_go_client.Prelude.{
  ℕ, ◌≤◌, ◌<◌, ◌≡◌, refl, sym, ap, ◌∙◌, inl, inr, Bool, true, false, List, [], ◌∷◌, arith,
  Bool-cases, all, any,
}
use tcabci_read_go_client.Locks.Among.{any_found, any-Memᴰ, any-all}
use tcabci_read_go_client.Locks.{
  gets, puts, Resource, rank, index, same, Hold, holds, holds_exclusive, Instr, locks, unlocks,
  rlocks, runlocks, joins, closes, starts_session, starts_reader, cancels, takes_slot, returns_slot,
  works, Thread,
}
use tcabci_read_go_client.Locks.Steps.{unfinished, is_held, is_written, wants, free, can_step}
use tcabci_read_go_client.Locks.Discipline.{above, belongs}

-- What a resource that a goroutine holds says of another that it takes, or of its session.
pub held_below :
    (q r : Resource) (held : List Hold)
    → all (above q) held ≡ true
    → any (holds r) held ≡ true
    → rank r < rank q
unfolding same
held_below q r held a h =
    let (x, b, e) = any-all (above q) (holds r) held a h in ground (arith, b, e)

pub held_by_session :
    (n : ℕ) (r : Resource) (held : List Hold)
    → all (belongs n) held ≡ true
    → any (holds r) held ≡ true
    → (0 < rank r) × (rank r < 3) × (index r ≡ n)
unfolding same
held_by_session n r held a h =
    let (x, b, e) = any-all (belongs n) (holds r) held a h in
    (ground (arith, b, e), ground (arith, b, e), ground (arith, b, e))

written-held : (s : List Thread) (r : Resource) → is_written s r ≡ true → is_held s r ≡ true
written-held s r h =
    let (t, m, e) = any_found (λ t. any (holds_exclusive r) t.account.held) s h in
    let (x, n, f) = any_found (holds_exclusive r) t.account.held e in
    any-Memᴰ (λ t. any (holds r) t.account.held) m (any-Memᴰ (holds r) n (ground (arith, f)))

pub not_written : (s : List Thread) (r : Resource) → is_held s r ≡ false → is_written s r ≡ false
not_written s r f = elim (Bool-cases (is_written s r)) [
  | inl e ↦ let h = written-held s r e in cc
  | inr e ↦ e
]

pub rank-le : (r : Resource) → rank r ≤ 5
unfolding rank
rank-le r = ground arith

-- The instructions that may have to wait, and the others.
pub data View : Instr → Type 0 where
  at_locks : (r : Resource) → View (locks r)
  at_rlocks : (r : Resource) → View (rlocks r)
  at_joins : (r : Resource) → View (joins r)
  at_slot : (n : ℕ) → View (takes_slot n)
  plain :
      {i : Instr}
      → ((s : List Thread) (a : Bool) → free s a i ≡ true)
      → ((r : Resource) (p : List Instr) → wants r (i ∷ p) ≡ false)
      → View i

pub view : (i : Instr) → View i
unfolding free wants
view (locks r) = at_locks r
view (rlocks r) = at_rlocks r
view (joins r) = at_joins r
view (takes_slot n) = at_slot n
view (unlocks r) = plain (λ s a. refl) (λ r p. refl)
view (runlocks r) = plain (λ s a. refl) (λ r p. refl)
view (closes r) = plain (λ s a. refl) (λ r p. refl)
view (starts_session n) = plain (λ s a. refl) (λ r p. refl)
view (starts_reader n) = plain (λ s a. refl) (λ r p. refl)
view (cancels n) = plain (λ s a. refl) (λ r p. refl)
view returns_slot = plain (λ s a. refl) (λ r p. refl)
view (gets r) = plain (λ s a. refl) (λ r p. refl)
view (puts r) = plain (λ s a. refl) (λ r p. refl)
view works = plain (λ s a. refl) (λ r p. refl)

pub can_step_at :
    (s : List Thread) (t : Thread) {i : Instr} {rest : List Instr}
    → t.todo ≡ i ∷ rest
    → can_step s t ≡ free s t.announced i
unfolding can_step
can_step_at s t {i} {rest} e =
    ap (λ p. elim p as (λ x. Bool) [ [] ↦ false | ◌∷◌ j q ↦ free s t.announced j ]) e

-- A goroutine that is not at its end has a next step.
pub unfinished_todo :
    (t : Thread) → unfinished t ≡ true → (i : Instr) × (rest : List Instr) × (t.todo ≡ i ∷ rest)
unfolding unfinished
unfinished_todo t u = by_todo t.todo refl
  where
    by_todo :
        (p : List Instr) → t.todo ≡ p → (i : Instr) × (rest : List Instr) × (t.todo ≡ i ∷ rest)
    by_todo [] e =
        let n : false ≡ true =
          ap (λ p. elim p as (λ x. Bool) [ [] ↦ false | ◌∷◌ i rest ↦ true ]) (sym e) ∙ u in
        cc
    by_todo (i ∷ rest) e = (i, rest, e)

pub wants_cases :
    (r : Resource) (p : List Instr)
    → wants r p ≡ true
    → (q : Resource) × (rest : List Instr) × (p ≡ locks q ∷ rest) × (rank q ≡ rank r)
unfolding wants same
wants_cases r [] h = cc
wants_cases r (i ∷ rest) h = by_view (view i) h
  where
    by_view :
        {j : Instr}
        → View j
        → wants r (j ∷ rest) ≡ true
        → (q : Resource) × (p : List Instr) × ((j ∷ rest) ≡ locks q ∷ p) × (rank q ≡ rank r)
    by_view (at_locks q) h = (q, rest, refl, ground (arith, h))
    by_view (at_rlocks q) h = cc
    by_view (at_joins q) h = cc
    by_view (at_slot n) h = cc
    by_view (plain f g) h = let e = g r rest in cc
