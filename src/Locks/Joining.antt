-- ===== src/Locks/Joining.antt =====
-- The goroutine that reads a connection, beside the goroutine of its session.
use tcabci_read_go_client.Prelude.{
  ℕ, ◌≡◌, refl, sym, ap, ◌∙◌, subst, ◌⊎◌, inl, inr, true, false, List, [], ◌∷◌, ◌++◌, arith,
  Bool-cases, any, All, any-append,
}
use tcabci_read_go_client.Locks.{session_done, read_done, holds, Thread}
use tcabci_read_go_client.Locks.Programs.{user}
use tcabci_read_go_client.Locks.Steps.{
  is_held, advance, moves, Step, enters, goes, Reach, here, next,
}
use tcabci_read_go_client.Locks.Discipline.{Disciplined, Disciplined-allowed}
use tcabci_read_go_client.Locks.Waiting.{can_step_at}
use tcabci_read_go_client.Locks.Among.{All-split, any_found, any-Memᴰ}
use tcabci_read_go_client.Locks.Owing.{joins_readers}
use tcabci_read_go_client.Locks.Reachable.{reach-Disciplined}
use tcabci_read_go_client.Locks.Attending.{
  attends, reads_on, attends_on, reads_on_before, Joins, reach-Joins, new_reads_on,
}

-- Whenever a reader runs, the goroutine of its session will wait for it.
abbrev Attended : ℕ → List Thread → Type 0
Attended n s = (any (reads_on n) s ≡ false) ⊎ (any (attends n) s ≡ true)

-- One step, in its place among the goroutines.
module _ (n : ℕ) (xs ys new : List Thread) (x y : Thread)
    (back : reads_on n y ≡ true → reads_on n x ≡ true)
    (fresh : any (reads_on n) new ≡ true → attends n y ≡ true) where
  move-quiet : any (reads_on n) (xs ++ x ∷ ys) ≡ false → Attended n (xs ++ y ∷ (ys ++ new))
  move-quiet z =
      let a = any-append (reads_on n) xs (x ∷ ys) in
      let b = any-append (reads_on n) xs (y ∷ (ys ++ new)) in
      let c = any-append (reads_on n) ys new in
      let d = any-append (attends n) xs (y ∷ (ys ++ new)) in
      elim (Bool-cases (any (reads_on n) new)) [
        | inl e ↦ let k = fresh e in inr (ground (arith, d, k))
        | inr e ↦ elim (Bool-cases (reads_on n y)) [
          | inl h ↦ let k = back h in absurd (ground (arith, a, z, k))
          | inr h ↦ inl (ground (arith, a, b, c, e, h, z))
        ]
      ]

  move-Attended :
      (attends n x ≡ true → (attends n y ≡ true) ⊎ (any (reads_on n) (xs ++ x ∷ ys) ≡ false))
      → Attended n (xs ++ x ∷ ys)
      → Attended n (xs ++ y ∷ (ys ++ new))
  move-Attended on (inl z) = move-quiet z
  move-Attended on (inr h) = elim (Bool-cases (attends n x)) [
    | inl e ↦ elim (on e) [
      | inl k ↦ inr (let d = any-append (attends n) xs (y ∷ (ys ++ new)) in ground (arith, d, k))
      | inr z ↦ move-quiet z
    ]
    | inr e ↦
        let a = any-append (attends n) xs (x ∷ ys) in
        let b = any-append (attends n) xs (y ∷ (ys ++ new)) in
        let c = any-append (attends n) ys new in inr (ground (arith, a, b, c, e, h))
  ]

step-Attended :
    (n : ℕ) {s t : List Thread}
    → All Disciplined s
    → All Joins s
    → Step s t
    → Attended n s
    → Attended n t
unfolding user
step-Attended n {s} d j (enters c e) h =
    let a = any-append (reads_on n) s (user c ∷ []) in
    let b = any-append (attends n) s (user c ∷ []) in
    subst (Attended n) (sym e) (grind (arith, h, a, b))
step-Attended n {s} d j (goes (moves xs ys new x i rest e f can starts after)) h =
    let disciplined = (All-split Disciplined xs (x ∷ ys) (subst (All Disciplined) e d)).1.0 in
    let joining = (All-split Joins xs (x ∷ ys) (subst (All Joins) e j)).1.0 in
    let l = Disciplined-allowed x f disciplined in
    subst (Attended n) (sym after) (
      move-Attended n xs ys new x (advance x i rest) (reads_on_before n x i rest l)
        (new_reads_on s n x rest l (ap joins_readers (sym f) ∙ joining) starts)
        (λ a.
          subst (λ u. (attends n (advance x i rest) ≡ true) ⊎ (any (reads_on n) u ≡ false)) e
            (attends_on s n x rest f (sym (can_step_at s x f) ∙ can) a))
        (subst (Attended n) e h))

reach-Attended : (n : ℕ) {s : List Thread} → Reach s → Attended n s
reach-Attended n here = inl refl
reach-Attended n (next p st) =
    step-Attended n (reach-Disciplined p) (reach-Joins p) st (reach-Attended n p)

-- A reader does not outlive its session: in every state that the goroutines reach, as long as the
-- goroutine that reads a connection has not ended, the channel of its session is not closed, so that
-- `Stop`, which waits for it, has not returned.
pub reader_joined :
    (n : ℕ) {s : List Thread}
    → Reach s
    → is_held s (read_done n) ≡ true
    → is_held s (session_done n) ≡ true
reader_joined n {s} p h = elim (reach-Attended n p) [
  | inl z ↦ cc
  | inr a ↦
      let (t, m, e) = any_found (attends n) s a in
      any-Memᴰ (λ t. any (holds (session_done n)) t.account.held) m (ground (arith, e))
]
