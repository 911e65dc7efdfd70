-- ===== src/Serve/Progress.antt =====
-- How soon the loop of a connection, left to itself, brings the connection up to date.
use tcabci_read_go_client.Prelude.{
  ℕ, suc, ◌-◌, ◌≤◌, ◌≡◌, refl, sym, ap, ◌∙◌, subst, ◌⊎◌, inl, inr, false, not, ◌||◌, Option, some,
  List, [], ◌∷◌, ◌++◌, arith, ◌==◌, Bool-cases, Str, str_mem,
}
use tcabci_read_go_client.Errors.{GoError}
use tcabci_read_go_client.Client.{Client, Session}
use tcabci_read_go_client.Sync.{ping}
use tcabci_read_go_client.Sync.Writing.{sync_subscription_succeeds, write_frame_succeeds}
use tcabci_read_go_client.Sync.Announced.{announced, wanted}
use tcabci_read_go_client.Serve.{
  Phase, ready, must_sync, waiting, start_loop, check_revision, sync_step, after_sync, tick,
  select_event, written, System, Reach, here, next,
}
use tcabci_read_go_client.Serve.Quiescence.{Inv, Reach-Inv, start-Inv}
use tcabci_read_go_client.Serve.Turns.{
  Own, own_checks, own_syncs, own_selects, Turns, rests, turns, own_Step, IsCurrent,
  select_event-Kept, sync_step-IsCurrent,
}

-- How many steps there are at most until the loop is current.
distance : Phase → ℕ
distance must_sync = 1
distance ready = 2
distance waiting = 3

Near : ℕ → System → Type 0
unfolding distance
Near n s = IsCurrent s ⊎ (distance s.loop.phase ≤ n)

checks-Near :
    (n : ℕ) (s : System)
    → s.loop.phase ≡ ready
    → Near (suc n) s
    → Near n (record s { loop = check_revision s.client s.loop })
unfolding Near distance check_revision
checks-Near n s w (inl c) = inl c
checks-Near n s w (inr d) =
    elim (Bool-cases
      (s.loop.first || not (s.loop.synced.revision == s.client.subscription_revision))) [
        | inl b ↦
            let g : 2 ≤ suc n = subst (λ p. distance p ≤ suc n) w d in inr (rw b (omega (arith, g)))
        | inr b ↦ inl (ground (arith, b), ground (arith, b))
      ]

Own-Near :
    {instance_id : Str} (n : ℕ) {s t : System}
    → Own instance_id s t
    → Inv s
    → Near (suc n) s
    → Near n t × (wanted t.client ≡ wanted s.client)
unfolding Near distance
Own-Near n {s} (own_checks w e) v h =
    subst (λ u. Near n u × (wanted u.client ≡ wanted s.client)) (sym e) (checks-Near n s w h, refl)
Own-Near {instance_id} n {s} (own_syncs l w h e) v k =
    subst (λ u. Near n u × (wanted u.client ≡ wanted s.client)) (sym e)
      (inl (sync_step-IsCurrent instance_id s l v h), refl)
Own-Near n {s} (own_selects x c l w h e) v k =
    let (p, f, y, r, q) = select_event-Kept x s.client c s.loop l h in
    subst (λ u. Near n u × (wanted u.client ≡ wanted s.client)) (sym e)
      (
        elim k [
          | inl a ↦ inl (f ∙ a.0, ap (λ z. z.revision) y ∙ a.1 ∙ sym r)
          | inr d ↦
              let g : 3 ≤ suc n = subst (λ p. distance p ≤ suc n) w d in
              inr (rw p (omega (arith, g)))
        ],
        q,
      )

Turns-IsCurrent :
    {instance_id : Str} {n : ℕ} (m : ℕ) {s t : System}
    → Turns instance_id n s t
    → m ≤ n
    → Inv s
    → Near m s
    → IsCurrent t × Inv t × (wanted t.client ≡ wanted s.client)
unfolding Near distance
Turns-IsCurrent m rests b v (inl c) = (c, v, refl)
Turns-IsCurrent m {s} rests b v (inr d) = absurd (some_step s.loop.phase (omega (arith, b, d)))
  where
    some_step : (p : Phase) → distance p ≤ 0 → ⊥
    some_step ready d = omega (arith, d)
    some_step must_sync d = omega (arith, d)
    some_step waiting d = omega (arith, d)
Turns-IsCurrent m (turns {n} {s} {t} {u} st r) b v h =
    let k : Near (suc (m - 1)) s = weaker h in
    let (a, w) = Own-Near (m - 1) st v k in
    let (c, i, q) =
      Turns-IsCurrent (m - 1) r (omega (arith, b)) (Reach-Inv v (next here (own_Step st))) a in
    (c, i, q ∙ w)
  where
    weaker : Near m s → Near (suc (m - 1)) s
    weaker (inl c) = inl c
    weaker (inr d) = inr (omega (arith, d))

-- The loop does not get stuck: unless a write fails it has a next step, since at its `select` the ticker
-- comes at the latest.
goes_on :
    (instance_id : Str) (s : System)
    → s.loop.conn.outcomes ≡ []
    → (t : System) × Own instance_id s t × (t.loop.conn.outcomes ≡ [])
unfolding sync_step after_sync check_revision select_event written
goes_on instance_id s o = by_phase s.loop.phase refl
  where
    by_phase :
        (p : Phase)
        → s.loop.phase ≡ p
        → (t : System) × Own instance_id s t × (t.loop.conn.outcomes ≡ [])
    by_phase ready w = (record s { loop = check_revision s.client s.loop }, own_checks w refl, o)
    by_phase must_sync w =
        let (d, z, e, q) =
          sync_subscription_succeeds instance_id s.client s.loop.synced s.loop.conn o in
        (
          record s {
            loop = record s.loop { synced = z; first = false; conn = d; phase = waiting };
          },
          own_syncs _ w (rw e refl) refl,
          q,
        )
    by_phase waiting w =
        let conn = record s.loop.conn { frames = s.loop.conn.frames ++ ping ∷ [] } in
        (
          record s { loop = record s.loop { conn = conn; phase = ready } },
          own_selects tick s.client (record s.loop { conn = conn; phase = ready }) w
              (ap (λ r. some (written s.client s.loop r)) (write_frame_succeeds ping s.loop.conn o))
              refl,
          o,
        )

-- In whatever state a connection's loop is, reached through fewer than 2^64 changes by a client with a
-- session: after three further steps of the loop, or more, with which no other goroutine interferes and
-- that do not end it, the addresses announced are exactly those that the client wants announced. At
-- its `select` the loop may take any of the cases that are ready: the notification, a queued message or
-- a tick.
pub settles :
    {instance_id : Str} {c : Client} {n : ℕ} {s t : System} (a : Session)
    (outcomes : List (Option GoError))
    → c.session ≡ some a
    → Reach instance_id (record { client = c; loop = start_loop outcomes }) s
    → Turns instance_id n s t
    → 3 ≤ n
    → (k : Str) → str_mem k (announced t.loop.conn.frames) ≡ str_mem k (wanted s.client)
unfolding Near distance
settles {c} {s} {t} a outcomes e r u b k =
    let (current, v, w) =
      Turns-IsCurrent 3 u b (Reach-Inv (start-Inv c a outcomes e) r) (inr (within s.loop.phase)) in
    v.current current.0 current.1 k ∙ ap (str_mem k) w
  where
    within : (p : Phase) → distance p ≤ 3
    within ready = omega arith
    within must_sync = omega arith
    within waiting = omega arith
