-- ===== src/Client/Invariant.antt =====
-- What holds of the client's subscription after any of its operations.
use tcabci_read_go_client.Prelude.{
  ◌≤◌, ◌≡◌, refl, subst, inl, inr, Bool, true, Option, none, some, List, [], ◌∷◌, arith, Bool-cases,
  length, all, All, Str, StrMap, str_mem, StrNodup, keys, all-str_mem, all_of_str_mem,
}
use tcabci_read_go_client.Errors.{Result, ok, err}
use tcabci_read_go_client.Transaction.{TxType, is_valid}
use tcabci_read_go_client.Client.{
  Client, Mode, Session, init, max_addresses, with_mode, start, stop_begin, session_exit,
  stop_finish, notify_subscription_locked, address_ok, count_new, merge_types, subscribe_checks,
  subscribe_merge, subscribe, unsubscribe, clear_subscription, commit, bump, running,
  unsubscribe_checks, stop_begin_at,
}
use tcabci_read_go_client.Client.Merge.{
  add_all-StrNodup, keys-sign_all, str_mem-keys-add_all, AllTrue, add_all-AllTrue, AllTrue-nil,
  Counted, count_new-length, address_ok-sign_all, Usable, all-address_ok_iff,
}

-- No address stands twice, and the two maps have the same addresses; an address is not empty, not
-- overlong, and has a signature; there are at most 251, and the transaction types are valid.
pub record Parts (addresses : StrMap Bool) (signatures : StrMap Str) (types : List TxType)
    : Type 0 where
  pub distinct : StrNodup (keys addresses)
  pub all_true : AllTrue addresses
  pub signed : keys signatures ≡ keys addresses
  pub few : length addresses ≤ max_addresses
  pub usable : All (Usable signatures) (keys addresses)
  pub typed : all is_valid types ≡ true

abbrev pub IsValid : Client → Type 0
IsValid c = Parts c.subscribed_addresses c.subscribed_signed_data c.subscribed_types

-- The operations, as labels.
pub data Call : Type 0 where
  set_mode : Mode → Call
  starts stops_begin exits stops_finish unsubscribes : Call
  subscribes : List Str → StrMap Str → List TxType → Call
  parent_done : Call

unfoldable pub step : Client → Call → Client
step c (set_mode m) = with_mode m c
step c starts = (start c).0
step c stops_begin = (stop_begin c).0
step c exits = session_exit c
step c stops_finish = stop_finish c
step c unsubscribes = (unsubscribe c).0
step c (subscribes addresses signed types) = (subscribe addresses signed types c).0
step c parent_done = record c { ctx_done = true }

-- What the caller is told.
unfoldable pub reply : Client → Call → Result (Unit {0})
reply c (set_mode m) = ok tt
reply c starts = (start c).1
reply c stops_begin = (stop_begin c).1
reply c exits = ok tt
reply c stops_finish = ok tt
reply c unsubscribes = (unsubscribe c).1
reply c (subscribes addresses signed types) = (subscribe addresses signed types c).1
reply c parent_done = ok tt

unfoldable pub run : Client → List Call → Client
run c [] = c
run c (x ∷ xs) = run (step c x) xs

-- The calls that change what the client wants announced.
pub data IsChange : Call → Type 0 where
  by_mode : (m : Mode) → IsChange (set_mode m)
  by_subscribe :
      (addresses : List Str) (signed : StrMap Str) (types : List TxType)
      → IsChange (subscribes addresses signed types)
  by_unsubscribe : IsChange unsubscribes

Parts-nil : Parts [] [] []
unfolding str_mem
Parts-nil = record {
  distinct = tt;
  all_true = AllTrue-nil;
  signed = refl;
  few = omega arith;
  usable = tt;
  typed = refl;
}

pub init-IsValid : IsValid init
unfolding init
init-IsValid = Parts-nil

merge_types-valid :
    (old new : List TxType)
    → all is_valid old ≡ true
    → all is_valid new ≡ true
    → all is_valid (merge_types old new) ≡ true
unfolding merge_types
merge_types-valid old [] h k = h
merge_types-valid old (t ∷ ts) h k = k

-- What a `Subscribe` that passes its checks has been tested for.
record Checked (addresses : List Str) (signed : StrMap Str) (types : List TxType) (c : Client)
    : Type 0 where
  usable : all (address_ok signed) addresses ≡ true
  typed : all is_valid types ≡ true
  room :
      count_new c.subscribed_addresses [] addresses (length c.subscribed_addresses) ≤ max_addresses

subscribe_checks-Checked :
    (addresses : List Str) (signed : StrMap Str) (types : List TxType) (c : Client) {u : Unit {0}}
    → subscribe_checks addresses signed types c ≡ ok u
    → Checked addresses signed types c
unfolding subscribe_checks
subscribe_checks-Checked addresses signed types c h = ground arith

pub Counted-start : (m : StrMap Bool) → AllTrue m → Counted m [] m
unfolding str_mem
Counted-start m h k = ground (arith, h k)

subscribe_merge-IsValid :
    (addresses : List Str) (signed : StrMap Str) (types : List TxType) (c : Client)
    → IsValid c
    → Checked addresses signed types c
    → IsValid (subscribe_merge addresses signed types c)
unfolding subscribe_merge
subscribe_merge-IsValid addresses signed types c v k = record {
  distinct = add_all-StrNodup addresses c.subscribed_addresses v.distinct;
  all_true = add_all-AllTrue addresses c.subscribed_addresses v.all_true;
  signed = keys-sign_all addresses signed c.subscribed_signed_data c.subscribed_addresses v.signed;
  few =
      subst (λ n. n ≤ max_addresses)
        (count_new-length c.subscribed_addresses [] addresses c.subscribed_addresses
          (Counted-start c.subscribed_addresses v.all_true))
        k.room;
  usable = (all-address_ok_iff _ _).0 (
      all_of_str_mem _ _ λ a m.
        address_ok-sign_all a addresses signed c.subscribed_signed_data k.usable λ n.
          all-str_mem (address_ok c.subscribed_signed_data) a (keys c.subscribed_addresses)
            ((all-address_ok_iff _ _).1 v.usable)
            (ground (arith, str_mem-keys-add_all a addresses c.subscribed_addresses)));
  typed = merge_types-valid c.subscribed_types types v.typed k.typed;
}

subscribe-IsValid :
    (addresses : List Str) (signed : StrMap Str) (types : List TxType) (c : Client)
    → IsValid c
    → IsValid (subscribe addresses signed types c).0
unfolding subscribe
subscribe-IsValid addresses signed types c v = go (subscribe_checks addresses signed types c) refl
  where
    go :
        (r : Result (Unit {0}))
        → subscribe_checks addresses signed types c ≡ r
        → IsValid (commit c (subscribe_merge addresses signed types c) r).0
    go (err e) h = v
    go (ok u) h =
        subscribe_merge-IsValid addresses signed types c v
          (subscribe_checks-Checked addresses signed types c h)

unsubscribe-IsValid : (c : Client) → IsValid c → IsValid (unsubscribe c).0
unfolding unsubscribe
unsubscribe-IsValid c v = go (unsubscribe_checks c)
  where
    go :
        (r : Result (Unit {0}))
        → IsValid (commit c (notify_subscription_locked (bump (clear_subscription c))) r).0
    go (err e) = v
    go (ok u) = Parts-nil

start-IsValid : (c : Client) → IsValid c → IsValid (start c).0
unfolding start
start-IsValid c v = elim (Bool-cases (running c.session)) [
  | inl e ↦ rw e v
  | inr n ↦ elim (Bool-cases c.ctx_done) [ inl e ↦ rw (n, e) v | inr m ↦ rw (n, m) v ]
]

stop_begin-IsValid : (c : Client) → IsValid c → IsValid (stop_begin c).0
unfolding stop_begin
stop_begin-IsValid c v = go c.session
  where
    go : (s : Option Session) → IsValid (stop_begin_at s c).0
    go none = v
    go (some s) = v

-- Every operation keeps the subscription well formed.
pub step-IsValid : (c : Client) (x : Call) → IsValid c → IsValid (step c x)
unfolding step with_mode session_exit stop_finish
step-IsValid c (set_mode m) v = v
step-IsValid c starts v = start-IsValid c v
step-IsValid c stops_begin v = stop_begin-IsValid c v
step-IsValid c exits v = v
step-IsValid c stops_finish v = Parts-nil
step-IsValid c unsubscribes v = unsubscribe-IsValid c v
step-IsValid c (subscribes addresses signed types) v = subscribe-IsValid addresses signed types c v
step-IsValid c parent_done v = v

-- From a well-formed client, after any sequence of the client's operations, in any interleaving of
-- their atomic steps, it is well formed: the two subscription maps hold the same addresses, none of them twice; each is non-empty, at most 2048
-- bytes long and has a non-empty signature; there are at most 251; and the types are valid.
pub run-IsValid : (c : Client) (xs : List Call) → IsValid c → IsValid (run c xs)
unfolding run
run-IsValid c [] v = v
run-IsValid c (x ∷ xs) v = run-IsValid (step c x) xs (step-IsValid c x v)
