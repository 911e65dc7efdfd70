-- ===== src/Client/Lifecycle.antt =====
-- The life of a session, and the exact outcome of `Subscribe`, `Unsubscribe`, `Start` and `Stop`.
use tcabci_read_go_client.Prelude.{
  ◌+◌, ◌≤◌, ◌<◌, ◌≡◌, refl, ◌↔◌, ◌⊎◌, inl, inr, true, false, ◌||◌, none, some, List, [], ◌∷◌, arith,
  ltb, if◌then◌else◌, length, all, All, Str, codes, StrMap, str_mem, keys,
}
use tcabci_read_go_client.Errors.{
  Result, ok, err, canceled, wrapped, error, client_err, err_not_started,
}
use tcabci_read_go_client.Transaction.{TxType, is_valid}
use tcabci_read_go_client.Client.{
  Client, Session, u64, max_addresses, session_over, start, stop_begin, session_exit, stop_finish,
  stop, notify_subscription_locked, read_str, add_all, merge_types, subscribe_checks,
  subscribe_merge, with_mode, bump, subscribe, unsubscribe, unsubscribe_checks, check_session,
  clear_subscription, commit, count_new,
}
use tcabci_read_go_client.Client.Merge.{
  lookup-sign_all, str_mem-keys-add_all, count_new-length, Usable, all-address_ok_iff,
}
use tcabci_read_go_client.Client.Invariant.{
  IsValid, Counted-start, Call, IsChange, by_mode, by_subscribe, by_unsubscribe, step,
}

-- A session that has ended neither by itself nor with its client's context.
abbrev pub IsLive : Client → Type 0
IsLive c = (s : Session) × (c.session ≡ some s) × (session_over c s ≡ false)

-- What the arguments of a call and the room left must satisfy.
pub record Accepts (addresses : List Str) (signed : StrMap Str) (types : List TxType) (c : Client)
    : Type 0 where
  pub some_given : 0 < length addresses
  pub not_too_many : length addresses ≤ max_addresses
  pub usable : All (Usable signed) addresses
  pub typed : all is_valid types ≡ true
  pub room : length (add_all addresses c.subscribed_addresses) ≤ max_addresses

check_session-IsLive : (c : Client) {u : Unit {0}} → check_session c c.session ≡ ok u → IsLive c
unfolding check_session session_over
check_session-IsLive c h = ground arith

IsLive-check_session : (c : Client) → IsLive c → check_session c c.session ≡ ok tt
unfolding check_session session_over
IsLive-check_session c h = ground arith

merge_types_lem :
    (old new : List TxType) → merge_types old new ≡ (if ltb 0 (length new) then new else old)
unfolding merge_types
merge_types_lem old [] = refl
merge_types_lem old (t ∷ ts) = ground arith

module _ (addresses : List Str) (signed : StrMap Str) (types : List TxType) (c : Client) where
  counted :
      IsValid c
      → count_new c.subscribed_addresses [] addresses (length c.subscribed_addresses)
        ≡ length (add_all addresses c.subscribed_addresses)
  counted v =
      count_new-length c.subscribed_addresses [] addresses c.subscribed_addresses
        (Counted-start c.subscribed_addresses v.all_true)

  subscribe_checks-Accepts :
      {u : Unit {0}}
      → IsValid c
      → subscribe_checks addresses signed types c ≡ ok u
      → IsLive c × Accepts addresses signed types c
  unfolding subscribe_checks check_session session_over
  subscribe_checks-Accepts v h = ground (arith, counted v, all-address_ok_iff signed addresses)

  Accepts-subscribe_checks :
      IsValid c
      → IsLive c
      → Accepts addresses signed types c
      → subscribe_checks addresses signed types c ≡ ok tt
  unfolding subscribe_checks check_session session_over
  Accepts-subscribe_checks v l a =
      ground (arith, counted v, (all-address_ok_iff signed addresses).1 a.usable)

  -- On a well-formed client `Subscribe` returns no error exactly when the session is live, there are
  -- between 1 and 251 addresses, each non-empty, at most 2048 bytes long and signed, the types are
  -- valid, and at most 251 different addresses would then be subscribed in all.
  pub subscribe_ok_iff :
      IsValid c
      → ((subscribe addresses signed types c).1 ≡ ok tt)
        ↔ (IsLive c × Accepts addresses signed types c)
  unfolding subscribe
  subscribe_ok_iff v =
      (λ h. subscribe_checks-Accepts v (ground arith), λ h. rw (Accepts-subscribe_checks v h.0 h.1))

  subscribe_ok_merge :
      (subscribe addresses signed types c).1 ≡ ok tt
      → (subscribe addresses signed types c).0 ≡ subscribe_merge addresses signed types c
  unfolding subscribe
  subscribe_ok_merge h = ground arith

  -- With a session, a `Subscribe` that succeeds adds its addresses to the subscribed ones and gives each of them the
  -- signature of the call, while every other address keeps its own; a non-empty list of types
  -- replaces the filter, an empty one keeps it; the revision moves on, and the session is notified.
  pub subscribe_effect :
      (s : Session)
      → c.session ≡ some s
      → (subscribe addresses signed types c).1 ≡ ok tt
      → let d = (subscribe addresses signed types c).0 in
        ((k : Str)
          → str_mem k (keys d.subscribed_addresses)
            ≡ (str_mem k addresses || str_mem k (keys c.subscribed_addresses)))
        × ((k : Str)
            → read_str k d.subscribed_signed_data ≡ (
                if str_mem k addresses
                then read_str k signed
                else read_str k c.subscribed_signed_data))
        × (d.subscribed_types ≡ (if ltb 0 (length types) then types else c.subscribed_types))
        × (d.subscription_revision ≡ u64 (c.subscription_revision + 1))
        × (d.session ≡ some (record s { notified = true }))
  unfolding subscribe_merge notify_subscription_locked
  subscribe_effect s e h = rw (subscribe_ok_merge h) (
    (λ k. str_mem-keys-add_all k addresses c.subscribed_addresses),
    (λ k. ground (arith, lookup-sign_all k addresses signed c.subscribed_signed_data)),
    merge_types_lem c.subscribed_types types,
    refl,
    rw e,
  )

-- `Stop` fails only without a session. Otherwise it forgets the session, the addresses, the
-- signatures and the types, moves the revision on, and leaves a client that `Start` starts again,
-- unless the client's own context has ended.
pub stop-start :
    (c : Client) (s : Session)
    → c.session ≡ some s
    → let d = (stop c).0 in
      ((stop c).1 ≡ ok tt)
      × (d.session ≡ none)
      × (d.subscribed_addresses ≡ [])
      × (d.subscribed_signed_data ≡ [])
      × (d.subscribed_types ≡ [])
      × (d.subscription_revision ≡ u64 (c.subscription_revision + 1))
      × ((start d).1 ≡ (if c.ctx_done then err canceled else ok tt))
      × ((stop d).1
          ≡ err (wrapped (error client_err err_not_started (codes "not started yet") 3 0 none)))
unfolding stop stop_begin session_exit stop_finish start
stop-start c s e = ground arith

-- A call that may change what is wanted leaves the client as it was, or moves the revision on and
-- leaves its token with the session.
pub step-change :
    (c : Client) (x : Call) (s : Session)
    → IsChange x
    → c.session ≡ some s
    → (step c x ≡ c)
      ⊎ (((step c x).subscription_revision ≡ u64 (c.subscription_revision + 1))
          × ((step c x).session ≡ some (record s { notified = true })))
unfolding step with_mode subscribe subscribe_merge unsubscribe notify_subscription_locked
step-change c x s (by_mode m) e = inr (refl, rw e)
step-change c x s (by_subscribe addresses signed types) e =
    go (subscribe_checks addresses signed types c)
  where
    go :
        (r : Result (Unit {0}))
        → let d = (commit c (subscribe_merge addresses signed types c) r).0 in
          (d ≡ c)
          ⊎ ((d.subscription_revision ≡ u64 (c.subscription_revision + 1))
              × (d.session ≡ some (record s { notified = true })))
    go (err x) = inl refl
    go (ok u) = inr (refl, rw e)
step-change c x s by_unsubscribe e = go (unsubscribe_checks c)
  where
    go :
        (r : Result (Unit {0}))
        → let d = (commit c (notify_subscription_locked (bump (clear_subscription c))) r).0 in
          (d ≡ c)
          ⊎ ((d.subscription_revision ≡ u64 (c.subscription_revision + 1))
              × (d.session ≡ some (record s { notified = true })))
    go (err x) = inl refl
    go (ok u) = inr (refl, rw e)
