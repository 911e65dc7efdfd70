-- ===== src/Serve/Tests.antt =====
-- The loop of a connection at concrete steps.
use tcabci_read_go_client.Prelude.{true, ◌∷◌, ◌≡◌, refl, false, some, [], arith, codes, str_mem}
use tcabci_read_go_client.Client.{Client, Session, init}
use tcabci_read_go_client.Sync.{ping, sync_subscription, write_frame}
use tcabci_read_go_client.Sync.Announced.{announced, wanted}
use tcabci_read_go_client.Serve.{
  ready, tick, select_event, Loop, start_loop, check_revision, sync_step, checks, syncs, Reach,
  here, next,
}
use tcabci_read_go_client.Serve.Quiescence.{quiescent}
use tcabci_read_go_client.Serve.Turns.{own_checks, own_syncs, own_selects, Turns, rests, turns}
use tcabci_read_go_client.Serve.Progress.{settles}

abbrev idle : Session
idle = record { cancelled = false; finished = false; notified = false; queued_bytes = 0; send = [] }

client_now : Client
unfolding init
client_now = record init {
  session = some idle;
  subscribed_addresses = (codes "alice", true) ∷ [];
  subscribed_signed_data = (codes "alice", codes "sig") ∷ [];
}

loop_synced : Loop
unfolding start_loop check_revision sync_step client_now
loop_synced = (sync_step (codes "id") client_now (check_revision client_now (start_loop []))).0

first_steps :
    Reach
      (codes "id")
      (record { client = client_now; loop = start_loop [] })
      (record { client = client_now; loop = loop_synced })
unfolding loop_synced sync_subscription client_now write_frame
first_steps = next (next here (checks refl refl)) (syncs _ refl refl refl)

quiescent_example :
    str_mem (codes "alice") (announced loop_synced.conn.frames)
    ≡ str_mem (codes "alice") (wanted client_now)
unfolding loop_synced client_now sync_subscription write_frame
quiescent_example = quiescent idle [] refl first_steps refl (λ n. ground arith) (codes "alice")

-- The first turns and a ping.
loop_pinged : Loop
unfolding loop_synced
loop_pinged = record loop_synced { conn = (write_frame ping loop_synced.conn).0; phase = ready }

first-Turns :
    Turns
      (codes "id")
      3
      (record { client = client_now; loop = start_loop [] })
      (record { client = client_now; loop = loop_pinged })
unfolding loop_pinged loop_synced sync_subscription client_now write_frame select_event
first-Turns =
    turns (own_checks refl refl)
      (turns (own_syncs _ refl refl refl) (turns (own_selects tick _ _ refl refl refl) rests))

settles_example :
    str_mem (codes "alice") (announced loop_pinged.conn.frames)
    ≡ str_mem (codes "alice") (wanted client_now)
unfolding client_now
settles_example = settles idle [] refl here first-Turns (omega arith) (codes "alice")
