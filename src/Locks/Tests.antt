-- ===== src/Locks/Tests.antt =====
-- A `Write` that waits for room in the queue, and a `Subscribe` that waits for the `Write`; a session
-- whose reader runs; and a `Start` that is about to change the client.
use tcabci_read_go_client.Prelude.{
  ◌≡◌, refl, ◌⊎◌, true, false, none, some, List, [], ◌∷◌, ◌++◌, arith, any,
}
use tcabci_read_go_client.Locks.{
  starts_session, lifecycle, session_done, read_done, mut, exclusive, rank, index, same, release,
  effect, Instr, locks, unlocks, rlocks, runlocks, joins, closes, gets, puts, cancels, works,
  Thread,
}
use tcabci_read_go_client.Locks.Programs
use tcabci_read_go_client.Locks.Programs.{
  times, sequence, reads_state, writes_state, write, Call, starts, writes, sets, call,
  call_callbacks, Round, connection, serve_connection, report, round, run_session, user, session,
  reads_from,
}
use tcabci_read_go_client.Locks.Steps.{
  unfinished, is_held, wants, free, can_step, advance, done, Starts, new_session, new_reader,
  on_locks, on_unlocks, on_rlocks, on_runlocks, on_gets, on_puts, Move, moves, enters, goes, Reach,
  here, next,
}
use tcabci_read_go_client.Locks.Discipline.{is_mutex}
use tcabci_read_go_client.Locks.Deadlock.{no_deadlock}
use tcabci_read_go_client.Locks.Joining.{reader_joined}
use tcabci_read_go_client.Locks.Races.{putting, accessing, race_free}

-- The `Write`, with the read lock.
abbrev writer : Thread
writer = advance (user writes) (rlocks mut) (gets mut ∷ works ∷ gets mut ∷ runlocks mut ∷ [])

-- The `Subscribe`, whose call of `Lock` waits.
abbrev subscriber : Thread
subscriber = advance (user sets) (locks mut) (puts mut ∷ unlocks mut ∷ [])

abbrev waiting : List Thread
waiting = writer ∷ subscriber ∷ []

called-Reach : Reach (user writes ∷ user sets ∷ [])
called-Reach = next (next here (enters writes refl)) (enters sets refl)

writer-Move : Move (user writes ∷ user sets ∷ []) (writer ∷ user sets ∷ [])
unfolding user call write can_step free wants
writer-Move =
    moves [] (user sets ∷ []) [] (user writes) (rlocks mut)
      (gets mut ∷ works ∷ gets mut ∷ runlocks mut ∷ []) refl refl refl (on_rlocks mut) refl

subscriber-Move : Move (writer ∷ user sets ∷ []) waiting
unfolding user call writes_state can_step free advance
subscriber-Move =
    moves (writer ∷ []) [] [] (user sets) (locks mut) (puts mut ∷ unlocks mut ∷ []) refl refl refl
      (on_locks mut) refl

waiting-Reach : Reach waiting
waiting-Reach = next (next called-Reach (goes writer-Move)) (goes subscriber-Move)

waiting_unfinished : any unfinished waiting ≡ true
unfolding advance done unfinished
waiting_unfinished = refl

mut-is_mutex : is_mutex mut ≡ true
unfolding rank
mut-is_mutex = ground arith

-- The first goroutine goes on, or the second.
first :
    {x : Thread} {ys new : List Thread} {i : Instr} {rest : List Instr}
    → Reach (x ∷ ys)
    → x.todo ≡ i ∷ rest
    → can_step (x ∷ ys) x ≡ true
    → Starts (x ∷ ys) i new
    → Reach (advance x i rest ∷ (ys ++ new))
first {x} {ys} {new} {i} {rest} r e c n = next r (goes (moves [] ys new x i rest refl e c n refl))

second :
    {w x : Thread} {ys new : List Thread} {i : Instr} {rest : List Instr}
    → Reach (w ∷ x ∷ ys)
    → x.todo ≡ i ∷ rest
    → can_step (w ∷ x ∷ ys) x ≡ true
    → Starts (w ∷ x ∷ ys) i new
    → Reach (w ∷ advance x i rest ∷ (ys ++ new))
second {w} {x} {ys} {new} {i} {rest} r e c n =
    next r (goes (moves (w ∷ []) ys new x i rest refl e c n refl))

-- A session with one connection, whose reader has been started.
abbrev one_round : Round
one_round = record { retrievers = 0; handshakes = 0; connection = some []; errors = none }

abbrev starter : Thread
starter = record {
  account = record { held = exclusive lifecycle ∷ []; cancelled = [] };
  announced = false;
  slot = false;
  todo = unlocks lifecycle ∷ [];
}

abbrev listener : Thread
listener = record {
  account = record { held = exclusive (session_done 0) ∷ []; cancelled = [] };
  announced = false;
  slot = false;
  todo =
      works
      ∷ joins (read_done 0)
      ∷ cancels 0
      ∷ locks mut
      ∷ puts mut
      ∷ closes (session_done 0)
      ∷ unlocks mut
      ∷ [];
}

abbrev listening : List Thread
listening = starter ∷ listener ∷ reads_from 0 [] ∷ []

-- A `Start` that is about to change the client.
abbrev starting : List Thread
starting =
    record {
      account = record { held = exclusive mut ∷ exclusive lifecycle ∷ []; cancelled = [] };
      announced = false;
      slot = false;
      todo = puts mut ∷ starts_session 0 ∷ unlocks mut ∷ unlocks lifecycle ∷ [];
    }
    ∷ []

starting-Reach : Reach starting
unfolding user call Programs.start can_step free advance done effect release same rank index wants
starting-Reach =
    let a = next here (enters (starts 0) refl) in
    let b = first a refl refl (on_locks lifecycle) in
    let c = first b refl refl (on_locks lifecycle) in
    let d = first c refl refl (on_locks mut) in first d refl refl (on_locks mut)

session-Reach : Reach (starter ∷ session 0 (one_round ∷ []) ∷ [])
unfolding user call Programs.start can_step free advance done effect release same rank index wants
session-Reach =
    let f = first starting-Reach refl refl (on_puts mut) in
    let g = first f refl refl (new_session 0 (one_round ∷ [])) in first g refl refl (on_unlocks mut)

listening-Reach : Reach listening
unfolding session run_session sequence round call_callbacks reads_state times connection
    serve_connection report can_step free advance done effect release same rank index wants
listening-Reach =
    let a = second session-Reach refl refl (on_rlocks mut) in
    let b = second a refl refl (on_gets mut) in
    let c = second b refl refl (on_runlocks mut) in
    let d = second c refl refl (on_rlocks mut) in
    let e = second d refl refl (on_gets mut) in
    let f = second e refl refl (on_runlocks mut) in second f refl refl (new_reader 0 [])

listening_held : is_held listening (read_done 0) ≡ true
unfolding reads_from same rank index
listening_held = refl

reader_joined_example : is_held listening (session_done 0) ≡ true
reader_joined_example = reader_joined 0 listening-Reach listening_held

no_deadlock_example : any (can_step waiting) waiting ≡ true
no_deadlock_example = no_deadlock waiting-Reach waiting_unfinished

race_free_example : (putting starting mut ≡ 0) ⊎ (accessing starting mut ≡ 1)
race_free_example = race_free mut mut-is_mutex starting-Reach
