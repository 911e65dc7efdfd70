-- ===== src/Reconnect/Ending.antt =====
-- When `runSession` returns, and which errors it reports.
use tcabci_read_go_client.Prelude.{
  not, ℕ, ◌≡◌, refl, Bool, any, true, ◌||◌, List, [], ◌∷◌, ◌++◌, arith, if◌then◌else◌,
}
use tcabci_read_go_client.Errors.{GoError}
use tcabci_read_go_client.Reconnect.{
  Attempt, Action, retrieves, dials, serves, reports, waits, next_delay, connect, run_session,
}
use tcabci_read_go_client.Reconnect.Backoff.{round_error, connect-error}

-- The errors that the error callbacks are called with.
pub reported : List Action → List GoError
reported [] = []
reported (retrieves ∷ rest) = reported rest
reported (dials h ∷ rest) = reported rest
reported (serves ∷ rest) = reported rest
reported (reports e ∷ rest) = e ∷ reported rest
reported (waits d ∷ rest) = reported rest

connect-reported :
    (a : Attempt) (delay : ℕ) (rest : List Action)
    → (reported ((connect a delay).actions ++ rest) ≡ reported rest)
      × (reported (connect a delay).actions ≡ [])
unfolding connect reported
connect-reported a delay rest = ground arith

module _ (is_close : GoError → Bool) where
  -- A round in which the session's context ends, or the node closes the connection for good.
  pub ends_loop : Attempt → Bool
  ends_loop a = a.over_before || (a.over_after || (is_close (round_error a) || a.over_in_wait))

  -- The rounds that there are, up to the first that ends the loop.
  pub rounds_of : List Attempt → List Attempt
  rounds_of [] = []
  rounds_of (a ∷ rest) = let later = rounds_of rest in a ∷ (if ends_loop a then [] else later)

  -- A round that fails while the session lives, other than by the node closing the connection for good.
  pub fails : Attempt → Bool
  fails a = not (a.over_before || (a.over_after || is_close (round_error a)))

  -- The errors of those rounds among some.
  pub failures : List Attempt → List GoError
  failures [] = []
  failures (a ∷ rest) =
      let later = failures rest in if fails a then round_error a ∷ later else later

  -- The error callbacks hear the errors of the rounds that fail while the session lives, each once and in
  -- their order, up to and with the first round that ends the loop, whatever the delays. The error of
  -- that last round is among them exactly if what ends it is the session's context in the wait after the
  -- report; a normal closure and a policy violation are not reported.
  pub run_session-reports :
      (delay : ℕ) (xs : List Attempt)
      → reported (run_session is_close delay xs).0 ≡ failures (rounds_of xs)
  unfolding run_session reported rounds_of failures fails ends_loop
  run_session-reports delay [] = refl
  run_session-reports delay (a ∷ rest) =
      let r = connect a delay in
      let later = (run_session is_close (next_delay r.delay) rest).0 in
      ground (
        arith,
        connect-error a delay,
        connect-reported a delay (reports r.error ∷ waits r.delay ∷ []),
        connect-reported a delay (reports r.error ∷ waits r.delay ∷ later),
        run_session-reports (next_delay r.delay) rest,
      )

  -- Once the loop has returned it does nothing more, whatever would come next.
  pub run_session-final :
      (delay : ℕ) (xs ys : List Attempt)
      → (run_session is_close delay xs).1 ≡ true
      → run_session is_close delay (xs ++ ys) ≡ run_session is_close delay xs
  unfolding run_session
  run_session-final delay [] ys h = cc
  run_session-final delay (a ∷ rest) ys h =
      ground (arith, run_session-final (next_delay (connect a delay).delay) rest ys)

  -- The loop returns exactly if one of its rounds is such that the session's context ends in it, or
  -- that its error is a normal closure or a policy violation; the delays and all other errors do not
  -- matter.
  pub run_session-returns :
      (delay : ℕ) (xs : List Attempt) → (run_session is_close delay xs).1 ≡ any ends_loop xs
  unfolding run_session ends_loop
  run_session-returns delay [] = refl
  run_session-returns delay (a ∷ rest) =
      let r = connect a delay in
      ground (arith, connect-error a delay, run_session-returns (next_delay r.delay) rest)
