-- ===== src/Locks/Counts.antt =====
-- Counts of the holds of a resource, and what an instruction changes in them.
use tcabci_read_go_client.Prelude.{
  ℕ, suc, ◌+◌, ◌≤◌, ◌≡◌, refl, inl, inr, Bool, true, false, List, [], ◌∷◌, ◌++◌, arith, Bool-cases,
  any,
}
use tcabci_read_go_client.Locks.{
  gets, puts, Resource, same, Hold, holds_exclusive, holds_shared, Instr, locks, unlocks, rlocks,
  runlocks, joins, closes, starts_session, starts_reader, cancels, takes_slot, returns_slot, works,
  Account, Thread, release, effect,
}
use tcabci_read_go_client.Locks.Steps.{count}

-- The holds of all goroutines that pass a test.
unfoldable pub held_in_all : (Hold → Bool) → List Thread → ℕ
unfolding count
held_in_all p [] = 0
held_in_all p (t ∷ s) = count p t.account.held + held_in_all p s

-- How many write locks, or read locks, of a resource there are.
abbrev pub writers : List Thread → Resource → ℕ
writers s r = held_in_all (holds_exclusive r) s

abbrev pub readers : List Thread → Resource → ℕ
readers s r = held_in_all (holds_shared r) s

pub held_in_all-append :
    (p : Hold → Bool) (s t : List Thread)
    → held_in_all p (s ++ t) ≡ held_in_all p s + held_in_all p t
unfolding held_in_all
held_in_all-append p [] t = omega arith
held_in_all-append p (x ∷ s) t = ground (arith, held_in_all-append p s t)

count_none :
    {A : Type 0} (p q : A → Bool) (xs : List A)
    → ((x : A) → p x ≡ true → q x ≡ true)
    → any q xs ≡ false
    → count p xs ≡ 0
unfolding count
count_none p q [] i h = refl
count_none p q (x ∷ xs) i h = elim (Bool-cases (p x)) [
  | inl e ↦ let f = i x e in cc
  | inr e ↦ let k = count_none p q xs i (ground (arith, h)) in ground (arith, e, k)
]

pub held_by_none :
    (p q : Hold → Bool) (s : List Thread)
    → ((h : Hold) → p h ≡ true → q h ≡ true)
    → any (λ t. any q t.account.held) s ≡ false
    → held_in_all p s ≡ 0
unfolding held_in_all
held_by_none p q [] i h = refl
held_by_none p q (t ∷ s) i h =
    let a = count_none p q t.account.held i (ground (arith, h)) in
    let b = held_by_none p q s i (ground (arith, h)) in omega (arith, a, b)

count-release :
    (p test : Hold → Bool) (held : List Hold) → count p (release test held) ≤ count p held
unfolding count release
count-release p test [] = omega arith
count-release p test (h ∷ held) = elim (Bool-cases (test h)) [
  | inl e ↦ rw e (omega arith)
  | inr e ↦ rw e (let k = count-release p test held in omega (arith, k))
]

-- What an instruction does to the holds of a resource.
pub data Gain (r : Resource) (a b : Account) : Instr → Type 0 where
  loses :
      {i : Instr}
      → count (holds_exclusive r) b.held ≤ count (holds_exclusive r) a.held
      → count (holds_shared r) b.held ≤ count (holds_shared r) a.held
      → Gain r a b i
  writes_lock :
      (q : Resource)
      → same q r ≡ true
      → count (holds_exclusive r) b.held ≡ suc (count (holds_exclusive r) a.held)
      → count (holds_shared r) b.held ≡ count (holds_shared r) a.held
      → Gain r a b (locks q)
  reads_lock :
      (q : Resource)
      → same q r ≡ true
      → count (holds_exclusive r) b.held ≡ count (holds_exclusive r) a.held
      → Gain r a b (rlocks q)

pub gain : (r : Resource) (a : Account) (i : Instr) → Gain r a (effect i a) i
unfolding effect count
gain r a (locks q) = elim (Bool-cases (same q r)) [
  | inl e ↦ writes_lock q e (ground (arith, e)) (omega arith)
  | inr e ↦ loses (ground (arith, e)) (omega arith)
]
gain r a (rlocks q) = elim (Bool-cases (same q r)) [
  | inl e ↦ reads_lock q e (omega arith)
  | inr e ↦ loses (omega arith) (ground (arith, e))
]
gain r a (unlocks q) = loses (count-release _ _ a.held) (count-release _ _ a.held)
gain r a (closes q) = loses (count-release _ _ a.held) (count-release _ _ a.held)
gain r a (runlocks q) = loses (count-release _ _ a.held) (count-release _ _ a.held)
gain r a (joins q) = loses (omega arith) (omega arith)
gain r a (starts_session n) = loses (omega arith) (omega arith)
gain r a (starts_reader n) = loses (omega arith) (omega arith)
gain r a (cancels n) = loses (omega arith) (omega arith)
gain r a (takes_slot n) = loses (omega arith) (omega arith)
gain r a returns_slot = loses (omega arith) (omega arith)
gain r a (gets q) = loses (omega arith) (omega arith)
gain r a (puts q) = loses (omega arith) (omega arith)
gain r a works = loses (omega arith) (omega arith)
