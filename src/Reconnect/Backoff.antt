-- ===== src/Reconnect/Backoff.antt =====
-- How long `runSession` waits.
use native.Mathlib.Nat.{pow-suc}
use tcabci_read_go_client.Prelude.{
  ℕ, suc, ◌*◌, ◌^◌, min, ◌≡◌, refl, ap, ◌∙◌, Bool, true, false, ◌||◌, Option, some, List, [], ◌∷◌,
  ◌++◌, arith, if◌then◌else◌, Str,
}
use tcabci_read_go_client.Errors.{GoError, Result, ok, err}
use tcabci_read_go_client.Reconnect.{
  Attempt, Action, retrieves, dials, serves, reports, waits, first_delay, max_delay, next_delay,
  connect, run_session,
}

-- The lengths of the waits among some actions.
unfoldable pub waited : List Action → List ℕ
waited [] = []
waited (retrieves ∷ rest) = waited rest
waited (dials h ∷ rest) = waited rest
waited (serves ∷ rest) = waited rest
waited (reports e ∷ rest) = waited rest
waited (waits d ∷ rest) = d ∷ waited rest

-- The wait after `k` failed dials in a row: 100 ms doubled each time, and 25 s at most.
abbrev pub backoff : ℕ → ℕ
backoff k = min (100 * 2 ^ k) max_delay

next_delay-backoff : (k : ℕ) → next_delay (backoff k) ≡ backoff (suc k)
unfolding next_delay
next_delay-backoff k = ground (arith, pow-suc 2 k)

-- Whether the round reached the node.
reaches_with : Option (Result Str) → Result (Unit {0}) → Bool
reaches_with (some (err e)) d = false
reaches_with a (err e) = false
reaches_with a (ok u) = true

pub reaches : Attempt → Bool
unfolding reaches_with
reaches a = reaches_with a.authority a.dial

connect-delay :
    (a : Attempt) (delay : ℕ) → (connect a delay).delay ≡ (if reaches a then first_delay else delay)
unfolding connect reaches
connect-delay a delay = ground arith

connect-waited :
    (a : Attempt) (delay : ℕ) (rest : List Action)
    → waited ((connect a delay).actions ++ rest) ≡ waited rest
unfolding connect waited
connect-waited a delay rest = ground arith

connect-waited_nil : (a : Attempt) (delay : ℕ) → waited (connect a delay).actions ≡ []
unfolding connect waited
connect-waited_nil a delay = ground arith

connect-backoff :
    (a : Attempt) (k : ℕ) → (connect a (backoff k)).delay ≡ backoff (if reaches a then 0 else k)
connect-backoff a k = connect-delay a (backoff k) ∙ either (reaches a)
  where
    either : (b : Bool) → (if b then first_delay else backoff k) ≡ backoff (if b then 0 else k)
    either true = refl
    either false = refl

-- The error of a round: of the authority, else of the dial, else of the connection.
round_error_with : Option (Result Str) → Attempt → GoError
round_error_with (some (err e)) a = e
round_error_with _ a = elim a.dial [ ok u ↦ a.serve | err e ↦ e ]

pub round_error : Attempt → GoError
unfolding round_error_with
round_error a = round_error_with a.authority a

pub connect-error : (a : Attempt) (delay : ℕ) → (connect a delay).error ≡ round_error a
unfolding connect round_error
connect-error a delay = ground arith

module _ (is_close : GoError → Bool) where
  -- The waits as a function of the number of dials that have failed in a row.
  pub expected_waits : ℕ → List Attempt → List ℕ
  expected_waits k [] = []
  expected_waits k (a ∷ rest) =
      let failed = if reaches a then 0 else k in
      let later = expected_waits (suc failed) rest in
      if a.over_before || (a.over_after || is_close (round_error a))
      then []
      else backoff failed ∷ (if a.over_in_wait then [] else later)

  waited-from :
      (k : ℕ) (xs : List Attempt)
      → waited (run_session is_close (backoff k) xs).0 ≡ expected_waits k xs
  unfolding run_session expected_waits waited
  waited-from k [] = refl
  waited-from k (a ∷ rest) =
      let failed = if reaches a then 0 else k in
      let r = connect a (backoff k) in
      let later = (run_session is_close (next_delay r.delay) rest).0 in
      ground (
        arith,
        connect-error a (backoff k),
        connect-backoff a k,
        connect-waited_nil a (backoff k),
        connect-waited a (backoff k) (reports r.error ∷ waits r.delay ∷ []),
        connect-waited a (backoff k) (reports r.error ∷ waits r.delay ∷ later),
        ap (λ d. waited (run_session is_close d rest).0)
            (ap next_delay (connect-backoff a k) ∙ next_delay-backoff failed),
        waited-from (suc failed) rest,
      )

  -- `runSession` waits 100 ms after a connection, and after `k` further failed dials in a row the
  -- minimum of 100 * 2^k ms and 25 s. It starts no wait in a round whose error is a normal closure or a
  -- policy violation, or before whose wait the session's context has ended; if that ends during a wait,
  -- the wait is the last.
  pub run_session-waits :
      (xs : List Attempt) → waited (run_session is_close first_delay xs).0 ≡ expected_waits 0 xs
  run_session-waits xs = waited-from 0 xs
