-- ===== src/Locks/Races.antt =====
-- The steps that read or write what a lock guards.
use tcabci_read_go_client.Prelude.{
  ℕ, ◌+◌, ◌≤◌, ◌≡◌, refl, ◌⊎◌, inl, inr, Bool, true, false, List, [], ◌∷◌, arith, if◌then◌else◌,
  Bool-cases, any, All,
}
use tcabci_read_go_client.Locks.{
  Resource, same, holds, holds_exclusive, holds_shared, Hold, Instr, locks, unlocks, rlocks,
  runlocks, joins, closes, gets, puts, starts_session, starts_reader, cancels, takes_slot,
  returns_slot, works, Thread,
}
use tcabci_read_go_client.Locks.Steps.{count, Reach}
use tcabci_read_go_client.Locks.Discipline.{is_mutex, allowed, Disciplined, Disciplined-allowed}
use tcabci_read_go_client.Locks.Reachable.{reach-Disciplined}
use tcabci_read_go_client.Locks.Counts.{held_in_all, writers, readers}
use tcabci_read_go_client.Locks.Exclusion.{mutual_exclusion}

-- The next step writes the state that a lock guards, or reads or writes it.
unfoldable pub puts_next : Resource → List Instr → Bool
puts_next r (puts q ∷ rest) = same q r
puts_next r _ = false

unfoldable pub accesses_next : Resource → List Instr → Bool
accesses_next r (puts q ∷ rest) = same q r
accesses_next r (gets q ∷ rest) = same q r
accesses_next r _ = false

-- How many goroutines are at such a step.
abbrev pub putting : List Thread → Resource → ℕ
putting s r = count (λ t. puts_next r t.todo) s

abbrev pub accessing : List Thread → Resource → ℕ
accessing s r = count (λ t. accesses_next r t.todo) s

any-count :
    {A : Type 0} (p q : A → Bool) (xs : List A)
    → ((x : A) → p x ≡ true → q x ≡ true)
    → any p xs ≡ true
    → 1 ≤ count q xs
unfolding count
any-count p q [] i h = cc
any-count p q (x ∷ xs) i h = elim (Bool-cases (p x)) [
  | inl e ↦ let f = i x e in ground (arith, f)
  | inr e ↦ let k = any-count p q xs i (ground (arith, h, e)) in omega (arith, k)
]

holds_or :
    (r q : Resource) (held : List Hold)
    → same q r ≡ true
    → any (holds q) held ≡ true
    → 1 ≤ count (holds_exclusive r) held + count (holds_shared r) held
unfolding same count
holds_or r q [] e h = cc
holds_or r q (x ∷ held) e h = elim (Bool-cases (holds q x)) [
  | inl f ↦ ground (arith, e, f)
  | inr f ↦ let k = holds_or r q held e (ground (arith, h, f)) in omega (arith, k)
]

-- Whoever is at such a step is disciplined, and has the lock.
access_lock :
    (r : Resource) (t : Thread) (p : List Instr)
    → t.todo ≡ p
    → Disciplined t
    → ((if puts_next r p then 1 else 0) ≤ count (holds_exclusive r) t.account.held)
      × ((if accesses_next r p then 1 else 0)
          ≤ count (holds_exclusive r) t.account.held + count (holds_shared r) t.account.held)
      × ((if puts_next r p then 1 else 0) ≤ (if accesses_next r p then 1 else 0))
unfolding allowed puts_next accesses_next same
access_lock r t [] e d = (omega arith, omega arith, omega arith)
access_lock r t (i ∷ p) e d = by_step i (Disciplined-allowed t e d)
  where
    by_step :
        (i : Instr)
        → allowed t.slot t.account i ≡ true
        → ((if puts_next r (i ∷ p) then 1 else 0) ≤ count (holds_exclusive r) t.account.held)
          × ((if accesses_next r (i ∷ p) then 1 else 0)
              ≤ count (holds_exclusive r) t.account.held + count (holds_shared r) t.account.held)
          × ((if puts_next r (i ∷ p) then 1 else 0) ≤ (if accesses_next r (i ∷ p) then 1 else 0))
    by_step (gets q) a = elim (Bool-cases (same q r)) [
      | inl e ↦
          let k = holds_or r q t.account.held e a in (omega arith, ground (arith, k), omega arith)
      | inr e ↦ (omega arith, rw e (omega arith), omega arith)
    ]
    by_step (puts q) a = elim (Bool-cases (same q r)) [
      | inl e ↦
          let k =
            any-count (holds_exclusive q) (holds_exclusive r) t.account.held
              (λ x h. ground (arith, e, h)) a in
          (ground (arith, k), ground (arith, k), omega arith)
      | inr e ↦ (rw e (omega arith), rw e (omega arith), omega arith)
    ]
    by_step (locks q) a = (omega arith, omega arith, omega arith)
    by_step (unlocks q) a = (omega arith, omega arith, omega arith)
    by_step (rlocks q) a = (omega arith, omega arith, omega arith)
    by_step (runlocks q) a = (omega arith, omega arith, omega arith)
    by_step (joins q) a = (omega arith, omega arith, omega arith)
    by_step (closes q) a = (omega arith, omega arith, omega arith)
    by_step (starts_session n) a = (omega arith, omega arith, omega arith)
    by_step (starts_reader n) a = (omega arith, omega arith, omega arith)
    by_step (cancels n) a = (omega arith, omega arith, omega arith)
    by_step (takes_slot n) a = (omega arith, omega arith, omega arith)
    by_step returns_slot a = (omega arith, omega arith, omega arith)
    by_step works a = (omega arith, omega arith, omega arith)

putting_writers :
    (s : List Thread) (r : Resource)
    → All Disciplined s
    → (putting s r ≤ writers s r)
      × (accessing s r ≤ writers s r + readers s r)
      × (putting s r ≤ accessing s r)
unfolding count held_in_all
putting_writers [] r d = (omega arith, omega arith, omega arith)
putting_writers (t ∷ s) r (d, ds) =
    let (a, b, c) = putting_writers s r ds in
    let (e, f, g) = access_lock r t t.todo refl d in
    (omega (arith, a, e), omega (arith, b, f), omega (arith, c, g))

-- No data race: for each of the locks, in every state that the goroutines reach, in any order of their
-- steps, nobody is about to write the state that the lock guards, or exactly one goroutine is about to
-- read or write it.
pub race_free :
    (r : Resource) {s : List Thread}
    → is_mutex r ≡ true
    → Reach s
    → (putting s r ≡ 0) ⊎ (accessing s r ≡ 1)
race_free r {s} m p =
    let e = mutual_exclusion r m p in
    let (a, b, c) = putting_writers s r (reach-Disciplined p) in grind (arith, e, a, b, c)
