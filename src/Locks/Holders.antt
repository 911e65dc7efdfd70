-- ===== src/Locks/Holders.antt =====
-- What the holder of a resource waits for itself.
use mathlib.Core.List.{Memᴰ}
use tcabci_read_go_client.Prelude.{
  ℕ, zero, suc, ◌+◌, ◌≤◌, ◌<◌, ◌≡◌, refl, sym, ap, ◌∙◌, subst, inl, inr, true, false, ◌&&◌, some,
  List, [], ◌∷◌, arith, ◌==◌, Bool-cases, all, any, All,
}
use tcabci_read_go_client.Locks.Among.{any_found, any-Memᴰ, All-Memᴰ}
use tcabci_read_go_client.Locks.{
  Resource, rank, index, Hold, holds, Instr, locks, rlocks, joins, takes_slot, Thread,
}
use tcabci_read_go_client.Locks.Steps.{is_cancelled, is_held, wants, is_wanted, free, can_step}
use tcabci_read_go_client.Locks.Discipline.{
  above, belongs, is_mutex, may_join, allowed, follow, Disciplined, Disciplined-allowed,
}
use tcabci_read_go_client.Locks.Waiting.{
  View, at_locks, at_rlocks, at_joins, at_slot, plain, held_below, held_by_session, not_written,
  rank-le, view, can_step_at, wants_cases,
}

module _ (s : List Thread) (d : All Disciplined s) where
  -- Some goroutine can step.
  abbrev pub Progress : Type 0
  Progress = (t : Thread) × Memᴰ t s × (can_step s t ≡ true)

  -- Whoever waits for the end of a goroutine of a session has seen the session cancelled.
  abbrev Over : Resource → Type 0
  Over r = 0 < rank r → rank r < 3 → is_cancelled s (index r) ≡ true

  -- The holder of a resource above some rank brings progress.
  abbrev Holder : ℕ → Type 0
  Holder k =
      (r : Resource) (t : Thread)
      → 6 ≤ k + rank r
      → Memᴰ t s
      → any (holds r) t.account.held ≡ true
      → Over r
      → Progress

  -- A goroutine whose next step is free.
  pub steps :
      (t : Thread) {i : Instr} {rest : List Instr}
      → Memᴰ t s
      → t.todo ≡ i ∷ rest
      → free s t.announced i ≡ true
      → Progress
  steps t m e h = (t, m, can_step_at s t e ∙ h)

  held_or_free :
      (k : ℕ) (r : Resource)
      → Holder k
      → 6 ≤ k + rank r
      → Over r
      → (is_held s r ≡ false → Progress)
      → Progress
  held_or_free k r next b o f = elim (Bool-cases (is_held s r)) [
    | inl e ↦ let (t, m, h) = any_found (λ t. any (holds r) t.account.held) s e in next r t b m h o
    | inr e ↦ f e
  ]

  mutex_Over : (r : Resource) → is_mutex r ≡ true → Over r
  mutex_Over r h a b = absurd (ground (arith, h, a, b))

  locks_step :
      (k : ℕ) (r : Resource) (t : Thread) {rest : List Instr}
      → Holder k
      → 6 ≤ k + rank r
      → Over r
      → Memᴰ t s
      → t.todo ≡ locks r ∷ rest
      → Progress
  locks_step k r t next b o m e =
      held_or_free k r next b o (λ f. steps t m e (unfold free in ground (arith, f)))

  rlocks_step :
      (k : ℕ) (r : Resource) (t : Thread) {rest : List Instr}
      → Holder k
      → 6 ≤ k + rank r
      → is_mutex r ≡ true
      → Memᴰ t s
      → t.todo ≡ rlocks r ∷ rest
      → Progress
  rlocks_step k r t next b o m e = held_or_free k r next b (mutex_Over r o) (λ f.
      let unwritten = not_written s r f in
      elim (Bool-cases (is_wanted s r)) [
        | inl w ↦
            let (u, n, h) = any_found (λ t. t.announced && wants r t.todo) s w in
            let (q, rest, p, z) = wants_cases r u.todo (ground (arith, h)) in
            locks_step k q u next (omega (arith, b, z)) (mutex_Over q (ground (arith, o, z))) n p
        | inr w ↦ steps t m e (unfold free in rw (unwritten, w) refl)
      ])

  pub joins_step :
      (k : ℕ) (r : Resource) (t : Thread) {rest : List Instr}
      → Holder k
      → 6 ≤ k + rank r
      → Over r
      → Memᴰ t s
      → t.todo ≡ joins r ∷ rest
      → Progress
  joins_step k r t next b o m e =
      held_or_free k r next b o (λ f. steps t m e (unfold free in rw f refl))

  pub session_Over :
      (t : Thread) (m : ℕ)
      → Memᴰ t s
      → any (λ c. c == m) t.account.cancelled ≡ true
      → is_cancelled s m ≡ true
  session_Over t n m h = any-Memᴰ (λ t. any (λ c. c == n) t.account.cancelled) m h

  -- What the discipline says of the next step of a goroutine.
  next_allowed :
      (t : Thread) {i : Instr} {rest : List Instr}
      → Memᴰ t s
      → t.todo ≡ i ∷ rest
      → allowed t.slot t.account i ≡ true
  next_allowed t m e = Disciplined-allowed t e (All-Memᴰ Disciplined d m)

  holds_nothing : (t : Thread) → Memᴰ t s → t.todo ≡ [] → t.account.held ≡ []
  unfolding follow
  holds_nothing t m e =
      let (c, f) = All-Memᴰ Disciplined d m in
      let g : some t.account ≡ some (record { held = []; cancelled = c }) =
        ap (λ p. follow t.slot p t.account) (sym e) ∙ f in
      let k : t.account ≡ (record { held = []; cancelled = c }) = cc in ap (λ a. a.held) k

  -- A goroutine that holds a resource of a session which is over sees the session cancelled.
  Over-cancelled :
      (n : ℕ) (r : Resource) (held : List Hold)
      → all (belongs n) held ≡ true
      → any (holds r) held ≡ true
      → Over r
      → is_cancelled s n ≡ true
  Over-cancelled n r held a h o =
      let (x, y, z) = held_by_session n r held a h in subst (λ i. is_cancelled s i ≡ true) z (o x y)

  join_Over :
      (q r : Resource) (t : Thread)
      → Memᴰ t s
      → may_join t.slot t.account q ≡ true
      → any (holds r) t.account.held ≡ true
      → Over r
      → Over q
  unfolding may_join
  join_Over q r t m j h o a b = elim (Bool-cases (rank q == 1)) [
    | inl e ↦ session_Over t (index q) m (ground (arith, j, e))
    | inr e ↦ Over-cancelled (index q) r t.account.held (ground (arith, j, e)) h o
  ]

  -- A goroutine takes its next step, or whoever holds what it waits for goes on.
  pub proceed :
      (k : ℕ) (t : Thread)
      → Holder k
      → Memᴰ t s
      → ((q : Resource) → all (above q) t.account.held ≡ true → 6 ≤ k + rank q)
      → ((q : Resource) (rest : List Instr)
          → t.todo ≡ joins q ∷ rest
          → all (above q) t.account.held ≡ true
          → may_join t.slot t.account q ≡ true
          → Progress)
      → ((n : ℕ) (rest : List Instr)
          → t.todo ≡ takes_slot n ∷ rest
          → t.slot ≡ false
          → all (belongs n) t.account.held ≡ true
          → Progress)
      → {i : Instr} {rest : List Instr} → t.todo ≡ i ∷ rest
      → Progress
  unfolding allowed
  proceed k t next m higher joining slot {i} e = by_view (view i) e (next_allowed t m e)
    where
      by_view :
          {j : Instr} {rest : List Instr}
          → View j
          → t.todo ≡ j ∷ rest
          → allowed t.slot t.account j ≡ true
          → Progress
      by_view (at_locks q) e a =
          locks_step k q t next (higher q (ground (arith, a))) (mutex_Over q (ground (arith, a))) m
            e
      by_view (at_rlocks q) e a =
          rlocks_step k q t next (higher q (ground (arith, a))) (ground (arith, a)) m e
      by_view {rest} (at_joins q) e a = joining q rest e (ground (arith, a)) (ground (arith, a))
      by_view {rest} (at_slot n) e a = slot n rest e (ground (arith, a)) (ground (arith, a))
      by_view (plain f g) e a = steps t m e (f s t.announced)

  -- A goroutine that holds something is not at its end.
  pub busy :
      (r : Resource) (t : Thread)
      → Memᴰ t s
      → any (holds r) t.account.held ≡ true
      → (i : Instr) × (rest : List Instr) × (t.todo ≡ i ∷ rest)
  busy r t m h = by_todo t.todo refl
    where
      by_todo :
          (p : List Instr) → t.todo ≡ p → (i : Instr) × (rest : List Instr) × (t.todo ≡ i ∷ rest)
      by_todo [] e =
          let n : any (holds r) [] ≡ true = ap (any (holds r)) (sym (holds_nothing t m e)) ∙ h in cc
      by_todo (i ∷ rest) e = (i, rest, e)

  -- The holder of a resource goes on, or waits for the holder of one above it.
  Holder-suc : (k : ℕ) → Holder k → Holder (suc k)
  unfolding free
  Holder-suc k next r t b m h o =
      let (i, rest, e) = busy r t m h in proceed k t next m higher joining slot e
    where
      higher : (q : Resource) → all (above q) t.account.held ≡ true → 6 ≤ k + rank q
      higher q a = let l = held_below q r t.account.held a h in omega (arith, b, l)

      joining :
          (q : Resource) (rest : List Instr)
          → t.todo ≡ joins q ∷ rest
          → all (above q) t.account.held ≡ true
          → may_join t.slot t.account q ≡ true
          → Progress
      joining q rest e a j = joins_step k q t next (higher q a) (join_Over q r t m j h o) m e

      slot :
          (n : ℕ) (rest : List Instr)
          → t.todo ≡ takes_slot n ∷ rest
          → t.slot ≡ false
          → all (belongs n) t.account.held ≡ true
          → Progress
      slot n rest e f a = let c = Over-cancelled n r t.account.held a h o in steps t m e (rw c refl)

  pub holder : (k : ℕ) → Holder k
  holder zero = λ r t b m h o. let l = rank-le r in absurd (omega (arith, b, l))
  holder (suc k) = Holder-suc k (holder k)
