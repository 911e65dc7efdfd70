-- ===== src/Reconnect/Dialling.antt =====
-- The authority header that each dial carries: `runSession` together with `WithWSAuthority` and
-- `CreateWSAuthorityV3`.
use tcabci_read_go_client.Prelude.{
  str_eq, str_eq_refl, ℕ, ◌≡◌, refl, sym, subst, Bool, true, false, ◌||◌, Option, none, some, List,
  [], ◌∷◌, ◌++◌, map, arith, if◌then◌else◌, Str,
}
use mathlib.Core.List.{append-nil}
use tcabci_read_go_client.Errors.{GoError, Result, ok, err}
use tcabci_read_go_client.Authority.{Signer, Surroundings, no_authority, authority_for}
use tcabci_read_go_client.Authority.Header.{Fit, Signed}
use tcabci_read_go_client.Authority.Configured.{
  Setting, settings, authority_for_header, authority_for-none,
}
use tcabci_read_go_client.Reconnect.{
  Attempt, Action, retrieves, dials, serves, reports, waits, next_delay, connect, connect_with,
  dial_with, run_session, Headers, authority_key, set_header, drop_key,
}

-- A round of the loop: the calls of `WithWSAuthority` so far, what `CreateWSAuthorityV3` would meet, and
-- the rest of what happens.
pub record Dialling : Type 0 where
  pub calls : List Setting
  pub surroundings : Surroundings
  pub other : Attempt

pub attempt_of : Dialling → Attempt
attempt_of d = record d.other {
  authority = authority_for d.surroundings (settings d.calls no_authority);
}

-- The headers of the dials.
pub dialled : List Action → List Headers
dialled [] = []
dialled (dials h ∷ rest) = h ∷ dialled rest
dialled (retrieves ∷ rest) = dialled rest
dialled (serves ∷ rest) = dialled rest
dialled (reports e ∷ rest) = dialled rest
dialled (waits d ∷ rest) = dialled rest

-- The values that some headers have under a key, and the fields with other keys.
pub values : Str → Headers → List Str
values k [] = []
values k ((x, v) ∷ rest) = let others = values k rest in if str_eq x k then v ∷ others else others

pub without : Str → Headers → Headers
without k [] = []
without k ((x, v) ∷ rest) =
    let others = without k rest in if str_eq x k then others else (x, v) ∷ others

-- The headers that belong to a round: the user's alone without a signer; else the user's, but under
-- `X-Authority` one value alone, which the signer has signed in that very round, for an address
-- that fits.
pub data Carries (d : Dialling) : Headers → Type 0 where
  bare : (settings d.calls no_authority).signer ≡ none → Carries d d.other.ws_headers
  signs :
      (sign : Signer) (h : Str) (hs : Headers)
      → (settings d.calls no_authority).signer ≡ some sign
      → Fit (settings d.calls no_authority).address
      → Signed d.surroundings (settings d.calls no_authority).address sign h
      → values authority_key hs ≡ h ∷ []
      → without authority_key hs ≡ without authority_key d.other.ws_headers
      → Carries d hs

-- Dials in the order of their rounds, at most one in each.
pub data InTurn : List Dialling → List Headers → Type 0 where
  over : (ds : List Dialling) → InTurn ds []
  passes :
      {d : Dialling} {ds : List Dialling} {hs : List Headers} → InTurn ds hs → InTurn (d ∷ ds) hs
  takes :
      {d : Dialling} {ds : List Dialling} {h : Headers} {hs : List Headers}
      → Carries d h
      → InTurn ds hs
      → InTurn (d ∷ ds) (h ∷ hs)

values-set_header :
    (v : Str) (hs : Headers) → values authority_key (set_header authority_key v hs) ≡ v ∷ []
unfolding values set_header drop_key
values-set_header v [] = rw (str_eq_refl authority_key) refl
values-set_header v ((x, w) ∷ hs) = let k = values-set_header v hs in ground (arith, k)

without-set_header :
    (v : Str) (hs : Headers)
    → without authority_key (set_header authority_key v hs) ≡ without authority_key hs
unfolding without set_header drop_key
without-set_header v [] = rw (str_eq_refl authority_key) refl
without-set_header v ((x, w) ∷ hs) = let k = without-set_header v hs in ground (arith, k)

header_of : Option (Result Str) → Headers → List Headers
header_of none hs = hs ∷ []
header_of (some (ok h)) hs = set_header authority_key h hs ∷ []
header_of (some (err e)) hs = []

connect-dialled :
    (a : Attempt) (delay : ℕ) (rest : List Action)
    → dialled ((connect a delay).actions ++ rest)
      ≡ header_of a.authority a.ws_headers ++ dialled rest
unfolding connect connect_with dial_with dialled header_of
connect-dialled a delay rest = ground arith

connect-dialled_alone :
    (a : Attempt) (delay : ℕ)
    → dialled (connect a delay).actions ≡ header_of a.authority a.ws_headers
unfolding connect connect_with dial_with dialled header_of
connect-dialled_alone a delay = ground arith

header_of-InTurn :
    (d : Dialling) (o : Option (Result Str)) {ds : List Dialling} {hs : List Headers}
    → authority_for d.surroundings (settings d.calls no_authority) ≡ o
    → InTurn ds hs
    → InTurn (d ∷ ds) (header_of o d.other.ws_headers ++ hs)
unfolding header_of
header_of-InTurn d none e t =
    takes (bare (authority_for-none d.surroundings (settings d.calls no_authority) e)) t
header_of-InTurn d (some (ok h)) e t =
    let (sign, s, f, g) = authority_for_header d.surroundings (settings d.calls no_authority) h e in
    let hs = d.other.ws_headers in
    takes
      (signs sign h (set_header authority_key h hs) s f g (values-set_header h hs)
        (without-set_header h hs))
      t
header_of-InTurn d (some (err x)) e t = passes t

module _ (is_close : GoError → Bool) where
  rest_of : Dialling → GoError → List Headers → List Headers
  rest_of d e later =
      if d.other.over_after || is_close e then [] else if d.other.over_in_wait then [] else later

  run_session-dialled :
      (delay : ℕ) (d : Dialling) (rest : List Attempt)
      → let r = connect (attempt_of d) delay in
        dialled (run_session is_close delay (attempt_of d ∷ rest)).0 ≡ (
          if d.other.over_before
          then []
          else header_of (attempt_of d).authority d.other.ws_headers
            ++ rest_of d r.error (dialled (run_session is_close (next_delay r.delay) rest).0))
  unfolding run_session dialled rest_of attempt_of
  run_session-dialled delay d rest =
      let a = attempt_of d in
      let r = connect a delay in
      let later = (run_session is_close (next_delay r.delay) rest).0 in
      ground (
        arith,
        connect-dialled_alone a delay,
        append-nil (header_of a.authority a.ws_headers),
        connect-dialled a delay (reports r.error ∷ waits r.delay ∷ []),
        connect-dialled a delay (reports r.error ∷ waits r.delay ∷ later),
      )

  -- Whatever calls of `WithWSAuthority` and of the setters of headers come before each round: the dials
  -- follow the rounds in order, at most one in each. Without a signer a dial carries exactly the headers
  -- that the user has set for the websocket. With one it has a single value under `X-Authority`, which
  -- the signer set at that time has signed in that round, with that round's time and random bytes, for
  -- the address set at that time, which fits; its other headers are the user's.
  pub run_session-InTurn :
      (delay : ℕ) (ds : List Dialling)
      → InTurn ds (dialled (run_session is_close delay (map attempt_of ds)).0)
  unfolding dialled run_session rest_of attempt_of
  run_session-InTurn delay [] = over []
  run_session-InTurn delay (d ∷ rest) =
      let r = connect (attempt_of d) delay in
      let later = run_session-InTurn (next_delay r.delay) rest in
      subst (InTurn (d ∷ rest)) (sym (run_session-dialled delay d (map attempt_of rest))) (
        round d.other.over_before (
          header_of-InTurn d _ refl
            (ends (d.other.over_after || is_close r.error) d.other.over_in_wait later)))
    where
      round :
          {ds : List Dialling} {hs : List Headers} (b : Bool)
          → InTurn ds hs
          → InTurn ds (if b then [] else hs)
      round true t = over _
      round false t = t

      ends :
          {ds : List Dialling} {hs : List Headers} (b c : Bool)
          → InTurn ds hs
          → InTurn ds (if b then [] else if c then [] else hs)
      ends b c t = round b (round c t)
