-- ===== src/Locks/Programs.antt =====
-- What the operations of the client and its goroutines lock, wait for and start, in their order. An
-- early return under a lock waits for nobody either, so that it has no list of its own.
use tcabci_read_go_client.Prelude.{
  ℕ, zero, suc, Bool, true, false, Option, none, some, List, [], ◌∷◌, ◌++◌, if◌then◌else◌,
}
use tcabci_read_go_client.Locks.{
  gets, puts, lifecycle, session_done, read_done, http_mu, mut, fingerprints_mu, Hold, exclusive,
  Instr, locks, unlocks, rlocks, runlocks, joins, closes, starts_session, starts_reader, cancels,
  takes_slot, returns_slot, works, Thread,
}

-- So many rounds of a loop.
unfoldable pub times : ℕ → List Instr → List Instr
times zero body = []
times (suc n) body = body ++ times n body

unfoldable pub sequence : {A : Type 0} → (A → List Instr) → List A → List Instr
sequence body [] = []
sequence body (x ∷ xs) = body x ++ sequence body xs

-- The setters, `Subscribe`, `Unsubscribe` and `WithMode`: all that they do is under the write lock.
unfoldable pub writes_state : List Instr
writes_state = locks mut ∷ puts mut ∷ unlocks mut ∷ []

unfoldable pub reads_state : List Instr
reads_state = rlocks mut ∷ gets mut ∷ runlocks mut ∷ []

-- `Start`, which starts a session, or is refused.
unfoldable pub start : ℕ → List Instr
start n =
    locks lifecycle ∷ locks mut ∷ puts mut ∷ starts_session n ∷ unlocks mut ∷ unlocks lifecycle ∷ []

unfoldable pub refused : List Instr
refused = locks lifecycle ∷ locks mut ∷ gets mut ∷ unlocks mut ∷ unlocks lifecycle ∷ []

-- `Stop`, of a session that there is.
unfoldable pub stop : ℕ → List Instr
stop n =
    locks lifecycle
    ∷ locks mut
    ∷ gets mut
    ∷ cancels n
    ∷ unlocks mut
    ∷ joins (session_done n)
    ∷ locks mut
    ∷ puts mut
    ∷ unlocks mut
    ∷ locks http_mu
    ∷ puts http_mu
    ∷ unlocks http_mu
    ∷ unlocks lifecycle
    ∷ []

-- `Write`: under the read lock it waits for room in the queue, at most until its timer, and queues.
unfoldable pub write : List Instr
write = rlocks mut ∷ gets mut ∷ works ∷ gets mut ∷ runlocks mut ∷ []

unfoldable pub with_proxy : List Instr
with_proxy =
    locks http_mu ∷ locks mut ∷ puts http_mu ∷ puts mut ∷ unlocks mut ∷ unlocks http_mu ∷ []

-- `GetFormattedFingerprints`, which `verifyPeer` calls in a TLS handshake.
unfoldable pub verify : List Instr
verify = rlocks fingerprints_mu ∷ gets fingerprints_mu ∷ runlocks fingerprints_mu ∷ []

unfoldable pub set_fingerprints : List Instr
set_fingerprints = locks fingerprints_mu ∷ puts fingerprints_mu ∷ unlocks fingerprints_mu ∷ []

-- `do`, in which connections are made.
unfoldable pub do_request : ℕ → List Instr
unfolding times verify
do_request handshakes =
    (rlocks http_mu ∷ gets http_mu ∷ [])
    ++ times handshakes verify
    ++ (works ∷ runlocks http_mu ∷ [])

-- A request over HTTP: `copyHeaders`, `do` and, where it fails, `logError`.
unfoldable pub request : ℕ → Bool → List Instr
unfolding reads_state do_request
request handshakes fails =
    reads_state ++ do_request handshakes ++ (if fails then reads_state else [])

-- What a goroutine of the user calls; `ends` is the end of the user's context, for a session.
pub data Call : Type 0 where
  starts stops ends : ℕ → Call
  refuses sets reads writes proxies pins lists_pins : Call
  requests : ℕ → Bool → Call

unfoldable pub call : Call → List Instr
unfolding start stop refused writes_state reads_state write with_proxy verify set_fingerprints
    request
call (starts n) = start n
call (stops n) = stop n
call refuses = refused
call sets = writes_state
call reads = reads_state
call writes = write
call proxies = with_proxy
call pins = set_fingerprints
call lists_pins = verify
call (ends n) = cancels n ∷ []
call (requests handshakes fails) = request handshakes fails

unfoldable pub dispatch : ℕ → List Instr
unfolding reads_state
dispatch n = reads_state ++ (takes_slot n ∷ [])

-- One of the three loops over the callbacks.
unfoldable pub call_callbacks : ℕ → ℕ → List Instr
unfolding reads_state times dispatch
call_callbacks n callbacks = reads_state ++ times callbacks (dispatch n)

-- What `parseIncoming` does with a message: nothing, or some callbacks hear of it, and a rejected
-- listen cancels the session.
pub data Heard : Type 0 where
  unheard : Heard
  tells rejects : ℕ → Heard

unfoldable pub parse_incoming : ℕ → Heard → List Instr
unfolding reads_state call_callbacks
parse_incoming n unheard = works ∷ []
parse_incoming n (tells callbacks) = works ∷ call_callbacks n callbacks
parse_incoming n (rejects callbacks) =
    works ∷ (reads_state ++ call_callbacks n callbacks ++ (cancels n ∷ []))

-- The goroutine that reads a connection.
unfoldable pub reader : ℕ → List Heard → List Instr
unfolding sequence parse_incoming
reader n messages = sequence (parse_incoming n) messages ++ (works ∷ closes (read_done n) ∷ [])

-- A turn of the loop in `serveConnection`, with or without `syncSubscription`.
unfoldable pub turn : Bool → List Instr
unfolding reads_state
turn syncs = reads_state ++ (if syncs then reads_state else []) ++ (works ∷ [])

unfoldable pub serve_connection : ℕ → List Bool → List Instr
unfolding sequence turn
serve_connection n turns =
    (starts_reader n ∷ []) ++ sequence turn turns ++ (works ∷ joins (read_done n) ∷ [])

-- A round of `runSession`: the callbacks that hear of the retrieval, the handshakes of the dial, the
-- turns of the connection, if the dial succeeds, and the callbacks that hear of the error, if it is
-- reported.
pub record Round : Type 0 where
  pub retrievers : ℕ
  pub handshakes : ℕ
  pub connection : Option (List Bool)
  pub errors : Option ℕ

unfoldable pub connection : ℕ → Option (List Bool) → List Instr
unfolding serve_connection
connection n none = []
connection n (some turns) = serve_connection n turns

unfoldable pub report : ℕ → Option ℕ → List Instr
unfolding call_callbacks
report n none = []
report n (some callbacks) = call_callbacks n callbacks ++ (works ∷ [])

unfoldable pub round : ℕ → Round → List Instr
unfolding call_callbacks reads_state times verify connection report
round n r =
    call_callbacks n r.retrievers
    ++ (reads_state
        ++ (times r.handshakes verify ++ (connection n r.connection ++ report n r.errors)))

-- `runSession`, with its deferred function, which drains the queue when nobody is queueing.
unfoldable pub run_session : ℕ → List Round → List Instr
unfolding sequence round
run_session n rounds =
    sequence (round n) rounds
    ++ (cancels n ∷ locks mut ∷ puts mut ∷ closes (session_done n) ∷ unlocks mut ∷ [])

-- New goroutines: the user's; a session's and a reader's, each with the channel that it will close;
-- and a callback's, which may call the client.
abbrev pub fresh : List Hold → Bool → List Instr → Thread
fresh held slot todo = record {
  account = record { held = held; cancelled = [] };
  announced = false;
  slot = slot;
  todo = todo;
}

unfoldable pub user : Call → Thread
unfolding call
user c = fresh [] false (call c)

unfoldable pub session : ℕ → List Round → Thread
unfolding run_session
session n rounds = fresh (exclusive (session_done n) ∷ []) false (run_session n rounds)

unfoldable pub reads_from : ℕ → List Heard → Thread
unfolding reader
reads_from n messages = fresh (exclusive (read_done n) ∷ []) false (reader n messages)

unfoldable pub callback : List Call → Thread
unfolding sequence call
callback calls = fresh [] true (sequence call calls ++ (works ∷ returns_slot ∷ []))
