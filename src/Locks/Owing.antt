-- ===== src/Locks/Owing.antt =====
-- What a goroutine has still to wait for before it gives up its session's channel.
use tcabci_read_go_client.Prelude.{
  ℕ, zero, suc, ◌≡◌, refl, Bool, true, false, not, ◌&&◌, ◌||◌, Option, none, some, List, [], ◌∷◌,
  ◌++◌, arith, if◌then◌else◌,
}
use tcabci_read_go_client.Locks.{
  session_done, read_done, http_mu, rank, index, same, Instr, unlocks, rlocks, runlocks, joins,
  closes, gets, starts_reader, cancels, works,
}
use tcabci_read_go_client.Locks.Programs
use tcabci_read_go_client.Locks.Programs.{
  lists_pins, ends, unheard, times, sequence, writes_state, reads_state, refused, write, with_proxy,
  verify, set_fingerprints, do_request, request, Call, starts, stops, refuses, sets, reads, writes,
  proxies, pins, requests, call, dispatch, call_callbacks, Heard, tells, rejects, parse_incoming,
  reader, turn, serve_connection, Round, connection, report, round, run_session, user, session,
  reads_from, callback,
}

-- The step waits for the end of the session's reader.
unfoldable pub joins_end : ℕ → Instr → Bool
joins_end n (joins q) = same q (read_done n)
joins_end n _ = false

-- The step gives up the session's channel.
unfoldable pub gives_up : ℕ → Instr → Bool
gives_up n (closes q) = same q (session_done n)
gives_up n (unlocks q) = same q (session_done n)
gives_up n (runlocks q) = same q (session_done n)
gives_up n _ = false

-- The end of the reader is waited for before the session's channel is given up.
unfoldable pub owes : ℕ → List Instr → Bool
unfolding joins_end gives_up
owes n [] = false
owes n (i ∷ rest) = joins_end n i || (not (gives_up n i) && owes n rest)

unfoldable pub reader_of : Instr → Option ℕ
reader_of (starts_reader n) = some n
reader_of _ = none

unfoldable pub owed : List Instr → Option ℕ → Bool
unfolding owes
owed rest none = true
owed rest (some n) = owes n rest

-- The end of each reader that is started is waited for so.
unfoldable pub joins_readers : List Instr → Bool
unfolding owed reader_of
joins_readers [] = true
joins_readers (i ∷ rest) = owed rest (reader_of i) && joins_readers rest

owes-append : (n : ℕ) (p q : List Instr) → owes n p ≡ true → owes n (p ++ q) ≡ true
unfolding owes
owes-append n [] q h = cc
owes-append n (i ∷ p) q h = let k = owes-append n p q in ground (arith, h, k)

owed-append : (p q : List Instr) (o : Option ℕ) → owed p o ≡ true → owed (p ++ q) o ≡ true
unfolding owed
owed-append p q none h = refl
owed-append p q (some n) h = owes-append n p q h

joins_readers-append :
    (p q : List Instr)
    → joins_readers p ≡ true
    → joins_readers q ≡ true
    → joins_readers (p ++ q) ≡ true
unfolding joins_readers
joins_readers-append [] q h k = k
joins_readers-append (i ∷ p) q h k =
    let a = owed-append p q (reader_of i) (ground (arith, h)) in
    let b = joins_readers-append p q (ground (arith, h)) k in ground (arith, a, b)

joins_readers-times :
    (n : ℕ) (p : List Instr) → joins_readers p ≡ true → joins_readers (times n p) ≡ true
unfolding joins_readers times
joins_readers-times zero p h = refl
joins_readers-times (suc n) p h = joins_readers-append p (times n p) h (joins_readers-times n p h)

joins_readers-sequence :
    {A : Type 0} (body : A → List Instr) (xs : List A)
    → ((x : A) → joins_readers (body x) ≡ true)
    → joins_readers (sequence body xs) ≡ true
unfolding joins_readers sequence
joins_readers-sequence body [] h = refl
joins_readers-sequence body (x ∷ xs) h =
    joins_readers-append (body x) (sequence body xs) (h x) (joins_readers-sequence body xs h)

reads_state-joins_readers : joins_readers reads_state ≡ true
unfolding joins_readers reads_state reader_of owed
reads_state-joins_readers = refl

call_callbacks-joins_readers : (n k : ℕ) → joins_readers (call_callbacks n k) ≡ true
unfolding call_callbacks dispatch
call_callbacks-joins_readers n k =
    joins_readers-append reads_state (times k (dispatch n)) reads_state-joins_readers
      (joins_readers-times k (dispatch n) (unfold joins_readers reads_state reader_of owed in refl))

parse_incoming-joins_readers : (n : ℕ) (m : Heard) → joins_readers (parse_incoming n m) ≡ true
unfolding parse_incoming
parse_incoming-joins_readers n unheard = unfold joins_readers reader_of owed in refl
parse_incoming-joins_readers n (tells k) =
    joins_readers-append (works ∷ []) (call_callbacks n k)
      (unfold joins_readers reader_of owed in refl) (call_callbacks-joins_readers n k)
parse_incoming-joins_readers n (rejects k) =
    joins_readers-append (works ∷ reads_state) (call_callbacks n k ++ (cancels n ∷ []))
      (unfold joins_readers reads_state reader_of owed in refl)
      (joins_readers-append (call_callbacks n k) (cancels n ∷ []) (call_callbacks-joins_readers n k)
        (unfold joins_readers reader_of owed in refl))

call-joins_readers : (c : Call) → joins_readers (call c) ≡ true
unfolding call writes_state refused write with_proxy set_fingerprints joins_readers reader_of owed
    Programs.start Programs.stop
call-joins_readers (starts n) = refl
call-joins_readers (stops n) = refl
call-joins_readers refuses = refl
call-joins_readers sets = refl
call-joins_readers reads = reads_state-joins_readers
call-joins_readers writes = refl
call-joins_readers proxies = refl
call-joins_readers pins = refl
call-joins_readers lists_pins = unfold verify in refl
call-joins_readers (ends n) = refl
call-joins_readers (requests k fails) =
    unfold request do_request verify reads_state in
    joins_readers-append (reads_state ++ do_request k) (if fails then reads_state else [])
      (joins_readers-append (reads_state ++ (rlocks http_mu ∷ gets http_mu ∷ []))
        (times k verify ++ (works ∷ runlocks http_mu ∷ [])) refl
        (joins_readers-append (times k verify) (works ∷ runlocks http_mu ∷ [])
          (joins_readers-times k verify refl) refl))
      (if_joins fails)
  where
    if_joins : (b : Bool) → joins_readers (if b then reads_state else []) ≡ true
    if_joins true = refl
    if_joins false = refl

-- The goroutine of a session.
owes_reader :
    (n : ℕ) (turns : List Bool)
    → owes n (sequence turn turns ++ (works ∷ joins (read_done n) ∷ [])) ≡ true
unfolding owes sequence turn reads_state joins_end gives_up same rank index
owes_reader n [] = ground arith
owes_reader n (true ∷ turns) = let k = owes_reader n turns in k
owes_reader n (false ∷ turns) = let k = owes_reader n turns in k

turn-joins_readers : (b : Bool) → joins_readers (turn b) ≡ true
unfolding joins_readers turn reads_state reader_of owed
turn-joins_readers true = refl
turn-joins_readers false = refl

connection-joins_readers : (n : ℕ) (o : Option (List Bool)) → joins_readers (connection n o) ≡ true
unfolding connection serve_connection joins_readers reader_of owed
connection-joins_readers n none = refl
connection-joins_readers n (some turns) =
    let a = owes_reader n turns in
    let b =
      joins_readers-append (sequence turn turns) (works ∷ joins (read_done n) ∷ [])
        (joins_readers-sequence turn turns turn-joins_readers) refl in
    rw (a, b) refl

report-joins_readers : (n : ℕ) (o : Option ℕ) → joins_readers (report n o) ≡ true
unfolding report joins_readers reader_of owed
report-joins_readers n none = refl
report-joins_readers n (some k) =
    joins_readers-append (call_callbacks n k) (works ∷ []) (call_callbacks-joins_readers n k) refl

round-joins_readers : (n : ℕ) (r : Round) → joins_readers (round n r) ≡ true
unfolding round joins_readers reader_of owed verify
round-joins_readers n r =
    joins_readers-append (call_callbacks n r.retrievers) _
      (call_callbacks-joins_readers n r.retrievers)
      (joins_readers-append reads_state
        (times r.handshakes verify ++ (connection n r.connection ++ report n r.errors))
        reads_state-joins_readers
        (joins_readers-append (times r.handshakes verify)
          (connection n r.connection ++ report n r.errors)
          (joins_readers-times r.handshakes verify refl)
          (joins_readers-append (connection n r.connection) (report n r.errors)
            (connection-joins_readers n r.connection) (report-joins_readers n r.errors))))

-- Every goroutine at its start.
pub session-joins_readers :
    (n : ℕ) (rounds : List Round) → joins_readers (session n rounds).todo ≡ true
unfolding session run_session joins_readers reader_of owed
session-joins_readers n rounds =
    joins_readers-append (sequence (round n) rounds) _
      (joins_readers-sequence (round n) rounds (round-joins_readers n)) refl

pub reads_from-joins_readers :
    (n : ℕ) (messages : List Heard) → joins_readers (reads_from n messages).todo ≡ true
unfolding reads_from reader joins_readers reader_of owed
reads_from-joins_readers n messages =
    joins_readers-append (sequence (parse_incoming n) messages) _
      (joins_readers-sequence (parse_incoming n) messages (parse_incoming-joins_readers n)) refl

pub user-joins_readers : (c : Call) → joins_readers (user c).todo ≡ true
unfolding user
user-joins_readers c = call-joins_readers c

pub callback-joins_readers : (calls : List Call) → joins_readers (callback calls).todo ≡ true
unfolding callback joins_readers reader_of owed
callback-joins_readers calls =
    joins_readers-append (sequence call calls) _
      (joins_readers-sequence call calls call-joins_readers) refl
