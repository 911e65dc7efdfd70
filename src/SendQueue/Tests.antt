-- ===== src/SendQueue/Tests.antt =====
-- The send queue at concrete steps.
use tcabci_read_go_client.Prelude.{
  ◌+◌, ◌^◌, ◌≤◌, ◌<◌, ◌++◌, List, ◌≡◌, refl, ◌↔◌, ◌⊎◌, true, false, none, some, [], ◌∷◌, arith,
  length, Str, codes,
}
use tcabci_read_go_client.Errors.{GoError, ok, err}
use tcabci_read_go_client.Client.{Client, Session, init, session_over, end_session}
use tcabci_read_go_client.SendQueue.{
  max_message_size, queue_capacity, reserve, write, room, Writer, checked, reserved, Pipe,
  start_pipe, enters, reserves, enqueues, cancels, ends, Reach, here, next,
}
use tcabci_read_go_client.SendQueue.Accounting.{total, reserved_bytes, accounted, ended_empty}
use tcabci_read_go_client.SendQueue.Overflow.{no_overflow}
use tcabci_read_go_client.SendQueue.Outcome.{Fits, write_ok_iff, write_effect}

abbrev hello : Str
hello = codes "hello"

abbrev idle : Session
idle = record { cancelled = false; finished = false; notified = false; queued_bytes = 0; send = [] }

client_now : Client
unfolding init
client_now = record init { session = some idle }

write_ok_iff_example :
    ((write room hello client_now).1 ≡ ok tt) ↔ ((s : Session) × Fits room hello client_now s)
write_ok_iff_example = write_ok_iff room hello client_now

write_effect_example :
    ((e : GoError) × ((write room hello client_now).1 ≡ err e)
      × ((write room hello client_now).0 ≡ client_now))
    ⊎ (((write room hello client_now).1 ≡ ok tt)
        × ((write room hello client_now).0 ≡ record client_now {
          session = some (record idle { send = hello ∷ []; queued_bytes = 5 });
        }))
unfolding client_now
write_effect_example = write_effect room hello client_now idle refl

write_runs :
    (write room hello client_now).0
    ≡ record client_now { session = some (record idle { send = hello ∷ []; queued_bytes = 5 }) }
unfolding write client_now session_over
write_runs = refl

one_queued : Pipe
unfolding start_pipe
one_queued = record start_pipe { send = hello ∷ []; queued_bytes = 5 }

queues_one : Reach start_pipe one_queued
unfolding start_pipe one_queued reserve
queues_one =
    next
      (next (next here (enters hello refl (omega arith) refl))
        (reserves [] [] hello 5 refl refl refl))
      (enqueues [] [] hello refl (omega arith) refl)

closed : Pipe
unfolding start_pipe
closed = record start_pipe { over = true; finished = true }

closes : Reach start_pipe closed
unfolding one_queued closed start_pipe end_session
closes =
    next (next queues_one (cancels refl))
      (ends (record idle { send = hello ∷ []; queued_bytes = 5 }) refl refl refl refl refl)

accounted_example :
    (5 ≡ total (hello ∷ []) + 0 + reserved_bytes [])
    × (5 ≤ max_message_size)
    × (length (hello ∷ []) ≤ queue_capacity)
unfolding one_queued start_pipe
accounted_example = accounted queues_one

ended_empty_example :
    (closed.send ≡ [])
    × (closed.queued_bytes ≡ 0)
    × (closed.writers ≡ [])
    × (closed.taken ≡ none)
    × (closed.over ≡ true)
ended_empty_example = ended_empty closes (unfold closed in refl)

one_checked : Pipe
unfolding start_pipe
one_checked = record start_pipe { writers = checked hello ∷ [] }

checks_one : Reach start_pipe one_checked
unfolding start_pipe one_checked
checks_one = next here (enters hello refl (omega arith) refl)

no_overflow_example :
    ((xs ys : List Writer) (b : Str)
      → one_checked.writers ≡ xs ++ checked b ∷ ys
      → one_checked.queued_bytes + length b < 2 ^ 63)
    × ((xs ys : List Writer) (b : Str)
        → one_checked.writers ≡ xs ++ reserved b ∷ ys
        → length b ≤ one_checked.queued_bytes)
    × ((b : Str) → one_checked.taken ≡ some b → length b ≤ one_checked.queued_bytes)
no_overflow_example = no_overflow checks_one
