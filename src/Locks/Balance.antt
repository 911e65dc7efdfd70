-- ===== src/Locks/Balance.antt =====
-- What the operations and the goroutines take and give back.
use tcabci_read_go_client.Prelude.{
  ℕ, ◌≡◌, refl, ◌∙◌, Bool, true, false, Option, none, some, List, [], ◌∷◌, ◌++◌, arith,
  if◌then◌else◌, all,
}
use tcabci_read_go_client.Locks.{
  session_done, read_done, http_mu, mut, rank, index, same, Hold, exclusive, shared, release,
  effect, Instr, locks, unlocks, rlocks, runlocks, joins, closes, starts_reader, cancels,
  takes_slot, works, gets, puts,
}
use tcabci_read_go_client.Locks.Programs
use tcabci_read_go_client.Locks.Programs.{
  lists_pins, ends, unheard, times, sequence, writes_state, reads_state, refused, write, with_proxy,
  verify, set_fingerprints, do_request, request, Call, starts, stops, refuses, sets, reads, writes,
  proxies, pins, requests, call, dispatch, call_callbacks, Heard, tells, rejects, parse_incoming,
  reader, turn, serve_connection, Round, connection, report, round, run_session, fresh, user,
  session, reads_from, callback,
}
use tcabci_read_go_client.Locks.Discipline.{
  above, belongs, may_join, allowed, follow, follow-append, Disciplined,
}
use tcabci_read_go_client.Locks.Keeping.{
  Keeps, Keeps-append, Keeps-times, Keeps-sequence, works_Keeps, reads_state-Keeps, verify-Keeps,
  ==_refl, cancels_Keeps,
}

-- A goroutine that owns the channel of its session or of its reader, and holds no lock.
module _ (n : ℕ) (held : List Hold) (low : all (above mut) held ≡ true)
    (mine : all (belongs n) held ≡ true) where
  dispatch-Keeps : Keeps false held (dispatch n)
  unfolding dispatch
  dispatch-Keeps =
      Keeps-append false held reads_state (takes_slot n ∷ []) (reads_state-Keeps false held low)
        slot_Keeps
    where
      slot_Keeps : Keeps false held (takes_slot n ∷ [])
      slot_Keeps c = (c, unfold follow allowed effect in rw mine refl)

  call_callbacks-Keeps : (k : ℕ) → Keeps false held (call_callbacks n k)
  unfolding call_callbacks
  call_callbacks-Keeps k =
      Keeps-append false held reads_state (times k (dispatch n)) (reads_state-Keeps false held low)
        (Keeps-times false held k (dispatch n) dispatch-Keeps)

  parse_incoming-Keeps : (m : Heard) → Keeps false held (parse_incoming n m)
  unfolding parse_incoming
  parse_incoming-Keeps unheard = works_Keeps false held
  parse_incoming-Keeps (tells k) =
      Keeps-append false held (works ∷ []) (call_callbacks n k) (works_Keeps false held)
        (call_callbacks-Keeps k)
  parse_incoming-Keeps (rejects k) =
      Keeps-append false held (works ∷ []) (reads_state ++ call_callbacks n k ++ (cancels n ∷ []))
        (works_Keeps false held)
        (Keeps-append false held (reads_state ++ call_callbacks n k) (cancels n ∷ [])
          (Keeps-append false held reads_state (call_callbacks n k)
            (reads_state-Keeps false held low) (call_callbacks-Keeps k))
          (cancels_Keeps false held n))

  report-Keeps : (e : Option ℕ) → Keeps false held (report n e)
  unfolding report follow
  report-Keeps none = λ c. (c, refl)
  report-Keeps (some k) =
      Keeps-append false held (call_callbacks n k) (works ∷ []) (call_callbacks-Keeps k)
        (works_Keeps false held)

  turn-Keeps : (syncs : Bool) → Keeps false held (turn syncs)
  unfolding turn
  turn-Keeps true =
      Keeps-append false held (reads_state ++ reads_state) (works ∷ [])
        (Keeps-append false held reads_state reads_state (reads_state-Keeps false held low)
          (reads_state-Keeps false held low))
        (works_Keeps false held)
  turn-Keeps false =
      Keeps-append false held reads_state (works ∷ []) (reads_state-Keeps false held low)
        (works_Keeps false held)

-- The goroutine of a session, until its deferred function.
module _ (n : ℕ) where
  own : List Hold
  own = exclusive (session_done n) ∷ []

  low : all (above mut) own ≡ true
  unfolding own rank
  low = refl

  mine : all (belongs n) own ≡ true
  unfolding own rank index
  mine = ground arith

  join-Keeps : Keeps false own (works ∷ joins (read_done n) ∷ [])
  unfolding own rank index follow allowed effect may_join
  join-Keeps c = (c, rw (==_refl n) refl)

  start-Keeps : Keeps false own (starts_reader n ∷ [])
  unfolding follow allowed effect own same rank index
  start-Keeps c = (c, rw (==_refl n) refl)

  connection-Keeps : (o : Option (List Bool)) → Keeps false own (connection n o)
  unfolding connection serve_connection follow
  connection-Keeps none = λ c. (c, refl)
  connection-Keeps (some turns) =
      Keeps-append false own ((starts_reader n ∷ []) ++ sequence turn turns)
        (works ∷ joins (read_done n) ∷ [])
        (Keeps-append false own (starts_reader n ∷ []) (sequence turn turns) start-Keeps
          (Keeps-sequence false own turn turns (turn-Keeps n own low mine)))
        join-Keeps

  round-Keeps : (r : Round) → Keeps false own (round n r)
  unfolding round
  round-Keeps r =
      Keeps-append false own (call_callbacks n r.retrievers) _
        (call_callbacks-Keeps n own low mine r.retrievers)
        (Keeps-append false own reads_state _ (reads_state-Keeps false own low) (
          Keeps-append false own (times r.handshakes verify) _
            (Keeps-times false own r.handshakes verify
              (verify-Keeps false own (unfold own rank in refl)))
            (Keeps-append false own (connection n r.connection) (report n r.errors)
              (connection-Keeps r.connection) (report-Keeps n own low mine r.errors))))

  pub session-Disciplined : (rounds : List Round) → Disciplined (session n rounds)
  unfolding session run_session own
  session-Disciplined rounds =
      let r = Keeps-sequence false own (round n) rounds round-Keeps [] in
      (n ∷ r.0, follow-append false (sequence (round n) rounds) _ _ _ r.1 ∙ last r.0)
    where
      last :
          (m : List ℕ)
          → follow false
              (cancels n ∷ locks mut ∷ puts mut ∷ closes (session_done n) ∷ unlocks mut ∷ [])
              (record { held = exclusive (session_done n) ∷ []; cancelled = m })
            ≡ some (record { held = []; cancelled = n ∷ m })
      last m = unfold follow allowed effect rank index same release in rw (==_refl n) refl

-- The goroutine of a reader.
pub reads_from-Disciplined : (n : ℕ) (messages : List Heard) → Disciplined (reads_from n messages)
unfolding reads_from reader
reads_from-Disciplined n messages =
    let r =
      Keeps-sequence false own_reader (parse_incoming n) messages
        (parse_incoming-Keeps n own_reader low_reader mine_reader) [] in
    (r.0, follow-append false (sequence (parse_incoming n) messages) _ _ _ r.1 ∙ last r.0)
  where
    own_reader : List Hold
    own_reader = exclusive (read_done n) ∷ []

    low_reader : all (above mut) own_reader ≡ true
    low_reader = unfold rank in refl

    mine_reader : all (belongs n) own_reader ≡ true
    mine_reader = unfold rank index in rw (==_refl n) refl

    last :
        (m : List ℕ)
        → follow false
            (works ∷ closes (read_done n) ∷ [])
            (record { held = exclusive (read_done n) ∷ []; cancelled = m })
          ≡ some (record { held = []; cancelled = m })
    last m = unfold follow allowed effect rank index same release in rw (==_refl n) refl

-- The operations, called from anywhere, in a callback too.
do_request-Keeps : (slot : Bool) (k : ℕ) → Keeps slot [] (do_request k)
unfolding do_request same
do_request-Keeps slot k c =
    let r =
      Keeps-times slot in_request k verify (verify-Keeps slot in_request (unfold rank in refl)) c in
    (
      r.0,
      first (times k verify ++ (works ∷ runlocks http_mu ∷ []))
          ∙ (follow-append slot (times k verify) _ _ _ r.1 ∙ last r.0),
    )
  where
    in_request : List Hold
    in_request = shared http_mu ∷ []

    first :
        (p : List Instr)
        → follow slot (rlocks http_mu ∷ gets http_mu ∷ p) (record { held = []; cancelled = c })
          ≡ follow slot p (record { held = shared http_mu ∷ []; cancelled = c })
    first p = unfold follow allowed effect rank in refl

    last :
        (m : List ℕ)
        → follow slot
            (works ∷ runlocks http_mu ∷ [])
            (record { held = shared http_mu ∷ []; cancelled = m })
          ≡ some (record { held = []; cancelled = m })
    last m = unfold follow allowed effect rank index same release in refl

call-Keeps : (slot : Bool) (c : Call) → Keeps slot [] (call c)
unfolding call reads_state writes_state refused write with_proxy set_fingerprints follow allowed
    effect rank index same release may_join Programs.start Programs.stop
call-Keeps slot (starts n) = λ c. (c, refl)
call-Keeps slot (stops n) = λ c. (n ∷ c, rw (==_refl n) refl)
call-Keeps slot refuses = λ c. (c, refl)
call-Keeps slot sets = λ c. (c, refl)
call-Keeps slot reads = reads_state-Keeps slot [] refl
call-Keeps slot writes = λ c. (c, refl)
call-Keeps slot proxies = λ c. (c, refl)
call-Keeps slot pins = λ c. (c, refl)
call-Keeps slot lists_pins = verify-Keeps slot [] refl
call-Keeps slot (ends n) = cancels_Keeps slot [] n
call-Keeps slot (requests k fails) =
    unfold request in
    Keeps-append slot [] (reads_state ++ do_request k) (if fails then reads_state else [])
      (Keeps-append slot [] reads_state (do_request k) (reads_state-Keeps slot [] refl)
        (do_request-Keeps slot k))
      (if_Keeps fails)
  where
    if_Keeps : (b : Bool) → Keeps slot [] (if b then reads_state else [])
    if_Keeps true = reads_state-Keeps slot [] refl
    if_Keeps false = λ c. (c, refl)

pub user-Disciplined : (c : Call) → Disciplined (user c)
unfolding user
user-Disciplined c = call-Keeps false c []

pub callback-Disciplined : (calls : List Call) → Disciplined (callback calls)
unfolding callback
callback-Disciplined calls =
    let r = Keeps-sequence true [] call calls (call-Keeps true) [] in
    (
      r.0,
      follow-append true (sequence call calls) _ _ _ r.1 ∙ (unfold follow allowed effect in refl),
    )
