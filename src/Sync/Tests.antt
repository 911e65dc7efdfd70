-- ===== src/Sync/Tests.antt =====
-- Tests of `sync_subscription`, and its theorems at concrete inputs.
use tcabci_read_go_client.Prelude.{
  ◌≡◌, refl, true, false, [], ◌∷◌, Str, codes, str_eq, str_le, str_mem,
}
use mathlib.Core.List.Perm
use tcabci_read_go_client.Errors.{ok}
use tcabci_read_go_client.Client.{Client, init}
use tcabci_read_go_client.Sync.{
  message, Conn, Synced, sync_subscription, snapshot, unsubscribe_message, sort_strings,
  write_frame, is_listen, is_subscription,
}
use tcabci_read_go_client.Sync.Sorting.{snapshot_order, is_sorted}
use tcabci_read_go_client.Sync.Announced.{
  announced, announced-nil, wanted, sync_subscription-announced,
}

abbrev alice : Str
alice = codes "alice"

abbrev bob : Str
bob = codes "bob"

-- Subscribed to bob and alice; alice and carol were announced before.
client_now : Client
unfolding init
client_now = record init {
  subscribed_addresses = (bob, true) ∷ (alice, true) ∷ [];
  subscribed_signed_data = (bob, codes "s2") ∷ (alice, codes "s1") ∷ [];
  subscription_revision = 2;
}

abbrev before : Synced
before = record { previous = []; was_listening = false; revision = 0 }

abbrev fresh_conn : Conn
fresh_conn = record { outcomes = []; frames = [] }

sync_runs : sync_subscription (codes "id") client_now before fresh_conn ≡ (
  record { outcomes = []; frames = message (snapshot (codes "id") client_now) ∷ [] },
  ok (record { previous = alice ∷ bob ∷ []; was_listening = false; revision = 2 }),
)
unfolding sync_subscription client_now write_frame str_le str_mem str_eq
sync_runs = refl

withdraws :
    (sync_subscription
      (codes "id")
      init
      (record before { previous = bob ∷ [] })
      fresh_conn).0.frames
    ≡ message (unsubscribe_message (bob ∷ [])) ∷ []
unfolding sync_subscription init write_frame str_le str_mem str_eq
withdraws = refl

nothing_announced : (k : Str) → str_mem k (announced []) ≡ str_mem k []
nothing_announced k = rw announced-nil

sync_subscription-announced_example :
    let t = record before { previous = alice ∷ bob ∷ []; revision = 2 } in
    ((k : Str)
      → str_mem k (announced (message (snapshot (codes "id") client_now) ∷ []))
        ≡ str_mem k (bob ∷ alice ∷ []))
    × (t.previous ≡ sort_strings (wanted client_now))
    × (t.was_listening ≡ false)
    × (t.revision ≡ 2)
unfolding client_now is_listen is_subscription
sync_subscription-announced_example =
    sync_subscription-announced (codes "id") client_now before
      (record before { previous = alice ∷ bob ∷ []; revision = 2 }) fresh_conn
      (record { outcomes = []; frames = message (snapshot (codes "id") client_now) ∷ [] })
      nothing_announced sync_runs

snapshot_order_example :
    ((snapshot
        (codes "id")
        (record client_now { subscribed_addresses = (alice, true) ∷ (bob, true) ∷ [] })).addrs
      ≡ (snapshot (codes "id") client_now).addrs)
    × (is_sorted (snapshot (codes "id") client_now).addrs ≡ true)
unfolding client_now
snapshot_order_example =
    snapshot_order (codes "id") client_now ((alice, true) ∷ (bob, true) ∷ [])
      (Perm.swap bob alice [])
