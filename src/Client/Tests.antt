-- ===== src/Client/Tests.antt =====
-- Tests of the client's operations, and their theorems at concrete inputs.
use tcabci_read_go_client.Prelude.{
  ◌≡◌, refl, ◌↔◌, true, false, ◌||◌, none, some, List, [], ◌∷◌, if◌then◌else◌, Str, codes, str_eq,
  StrMap, str_mem, keys, lookup, put,
}
use tcabci_read_go_client.Errors.{ok, err, plain, wrapped, error, client_err, err_not_started}
use tcabci_read_go_client.Transaction.{TxType, is_valid, type_transfer}
use tcabci_read_go_client.Client.{
  Client, init, listen, start, stop, subscribe, subscribe_checks, count_new, add_all, address_ok,
  new_session, read_str, subscribe_merge,
}
use tcabci_read_go_client.Client.Invariant.{
  IsValid, init-IsValid, run, run-IsValid, Call, set_mode, starts, stops_begin, exits, stops_finish,
  unsubscribes, subscribes,
}
use tcabci_read_go_client.Client.Lifecycle.{
  IsLive, Accepts, subscribe_ok_iff, subscribe_effect, stop-start,
}

abbrev alice : Str
alice = codes "alice"

abbrev bob : Str
bob = codes "bob"

abbrev signatures : StrMap Str
signatures = (alice, codes "s1") ∷ (bob, codes "s2") ∷ []

abbrev both : List Str
both = alice ∷ bob ∷ alice ∷ []

abbrev transfers : List TxType
transfers = type_transfer ∷ []

started : Client
unfolding start init
started = (start init).0

calls : List Call
calls =
    starts
    ∷ subscribes both signatures transfers
    ∷ set_mode listen
    ∷ unsubscribes
    ∷ stops_begin
    ∷ exits
    ∷ stops_finish
    ∷ []

subscribe_runs : (subscribe both signatures transfers started).1 ≡ ok tt
unfolding subscribe started subscribe_checks count_new add_all address_ok is_valid str_eq str_mem
    lookup
subscribe_runs = refl

-- Two different addresses are counted, though three are given.
subscribe_counts :
    keys (subscribe both signatures transfers started).0.subscribed_addresses ≡ alice ∷ bob ∷ []
unfolding subscribe started subscribe_checks count_new add_all address_ok is_valid str_eq str_mem
    lookup put subscribe_merge
subscribe_counts = refl

subscribe_unsigned :
    (subscribe (codes "carol" ∷ []) signatures [] started).1
    ≡ err (plain (codes "missing address or signature"))
unfolding subscribe started subscribe_checks count_new add_all address_ok is_valid str_eq str_mem
    lookup
subscribe_unsigned = refl

run-IsValid_example : IsValid (run init calls)
run-IsValid_example = run-IsValid init calls init-IsValid

started-IsValid : IsValid started
unfolding started
started-IsValid = init-IsValid

subscribe_ok_iff_example :
    ((subscribe both signatures transfers started).1 ≡ ok tt)
    ↔ (IsLive started × Accepts both signatures transfers started)
subscribe_ok_iff_example = subscribe_ok_iff both signatures transfers started started-IsValid

subscribe_effect_example :
    let d = (subscribe both signatures transfers started).0 in
    ((k : Str) → str_mem k (keys d.subscribed_addresses) ≡ (str_mem k both || false))
    × ((k : Str)
        → read_str k d.subscribed_signed_data
          ≡ (if str_mem k both then read_str k signatures else []))
    × (d.subscribed_types ≡ transfers)
    × (d.subscription_revision ≡ 1)
    × (d.session ≡ some (record new_session { notified = true }))
unfolding started str_mem lookup
subscribe_effect_example =
    subscribe_effect both signatures transfers started new_session refl subscribe_runs

stop-start_example :
    let d = (stop started).0 in
    ((stop started).1 ≡ ok tt)
    × (d.session ≡ none)
    × (d.subscribed_addresses ≡ [])
    × (d.subscribed_signed_data ≡ [])
    × (d.subscribed_types ≡ [])
    × (d.subscription_revision ≡ 1)
    × ((start d).1 ≡ ok tt)
    × ((stop d).1
        ≡ err (wrapped (error client_err err_not_started (codes "not started yet") 3 0 none)))
unfolding started
stop-start_example = stop-start started new_session refl
