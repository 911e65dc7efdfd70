-- ===== src/Locks/Deadlock.antt =====
-- Goroutines that wait for one another.
use mathlib.Core.List.{Memᴰ}
use tcabci_read_go_client.Prelude.{
  ℕ, ◌≡◌, refl, inl, inr, true, List, ◌∷◌, arith, ◌==◌, Bool-cases, any, All,
}
use tcabci_read_go_client.Locks.{Resource, rank, index, holds, Instr, joins, takes_slot, Thread}
use tcabci_read_go_client.Locks.Steps.{unfinished, uses_slot, is_held, free, can_step, Reach}
use tcabci_read_go_client.Locks.Among.{any_found, any-Memᴰ, count-any}
use tcabci_read_go_client.Locks.Discipline.{may_join, Disciplined}
use tcabci_read_go_client.Locks.Reachable.{reach-Disciplined}
use tcabci_read_go_client.Locks.Waiting.{held_below, unfinished_todo}
use tcabci_read_go_client.Locks.Holders.{
  Progress, session_Over, steps, joins_step, proceed, busy, holder,
}

module _ (s : List Thread) (d : All Disciplined s) where
  -- A goroutine that has cancelled the session waits for its end.
  session_joined :
      (t : Thread) (q : Resource) {rest : List Instr}
      → Memᴰ t s
      → t.todo ≡ joins q ∷ rest
      → (rank q ≡ 1) × (any (λ m. m == index q) t.account.cancelled ≡ true)
      → Progress s d
  session_joined t q m e c =
      joins_step s d 6 q t (holder s d 6) (omega arith) (λ a b. session_Over s d t (index q) m c.1)
        m e

  -- The goroutine of a callback.
  callback_goes_on : (t : Thread) → Memᴰ t s → uses_slot t ≡ true → Progress s d
  unfolding may_join
  callback_goes_on t m u =
      let (i, rest, e) = unfinished_todo t (ground (arith, u)) in
      proceed s d 6 t (holder s d 6) m (λ q a. omega arith)
        (λ q rest e a j. session_joined t q m e (ground (arith, j, u), ground (arith, j, u)))
        (λ n rest e f a. absurd (ground (arith, f, u))) e

  -- A dispatch waits for a slot.
  slot_step :
      (t : Thread) (n : ℕ) {rest : List Instr}
      → Memᴰ t s
      → t.todo ≡ takes_slot n ∷ rest
      → Progress s d
  unfolding free
  slot_step t n m e = elim (Bool-cases (free s t.announced (takes_slot n))) [
    | inl f ↦ steps s d t m e f
    | inr f ↦
        let (u, o, h) = any_found uses_slot s (count-any uses_slot s (ground (arith, f))) in
        callback_goes_on u o h
  ]

  -- A session waits for its reader, which holds what is waited for.
  reader_goes_on :
      (q : Resource) (t : Thread)
      → rank q ≡ 2
      → Memᴰ t s
      → any (holds q) t.account.held ≡ true
      → Progress s d
  unfolding may_join
  reader_goes_on q t two m h =
      let (i, rest, e) = busy s d q t m h in
      proceed s d 6 t (holder s d 6) m (λ r a. omega arith)
        (λ r rest e a j.
          let l = held_below r q t.account.held a h in absurd (ground (arith, l, j, two)))
        (λ n rest e f a. slot_step t n m e) e

  join_step :
      (t : Thread) (q : Resource) {rest : List Instr}
      → Memᴰ t s
      → t.todo ≡ joins q ∷ rest
      → may_join t.slot t.account q ≡ true
      → Progress s d
  unfolding may_join free
  join_step t q m e j = elim (Bool-cases (is_held s q)) [
    | inl h ↦ elim (Bool-cases (rank q == 1)) [
      | inl o ↦ session_joined t q m e (ground (arith, o), ground (arith, j, o))
      | inr o ↦
          let (u, n, k) = any_found (λ t. any (holds q) t.account.held) s h in
          reader_goes_on q u (ground (arith, j, o)) n k
    ]
    | inr h ↦ steps s d t m e (rw h refl)
  ]

  goes_on : (t : Thread) → Memᴰ t s → unfinished t ≡ true → Progress s d
  goes_on t m u =
      let (i, rest, e) = unfinished_todo t u in
      proceed s d 6 t (holder s d 6) m (λ q a. omega arith) (λ q rest e a j. join_step t q m e j)
        (λ n rest e f a. slot_step t n m e) e

-- No deadlock: in every state that the goroutines reach, in any order of their steps, as long as one of
-- them is not finished, one of them can take its next step.
pub no_deadlock : {s : List Thread} → Reach s → any unfinished s ≡ true → any (can_step s) s ≡ true
no_deadlock {s} r u =
    let (t, m, e) = any_found unfinished s u in
    let (p, n, f) = goes_on s (reach-Disciplined r) t m e in any-Memᴰ (can_step s) n f
