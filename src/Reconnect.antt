-- ===== src/Reconnect.antt =====
-- The reconnecting loop of `runSession` (websocket.go). What the environment does in each round is an
-- `Attempt`; the loop's effects come back as a list of actions, in order.
pub mod Backoff
pub mod Ending
pub mod Dialling
pub mod Handshake
mod Tests
use tcabci_read_go_client.Prelude.{
  ℤ, ℕ, zero, suc, ◌+◌, ◌-◌, ◌*◌, ◌/◌, ◌%◌, ◌^◌, ◌≤◌, ◌<◌, min, String, ◌≡◌, refl, sym, ap, ◌∙◌,
  subst, ◌≢◌, ◌↔◌, ◌⊎◌, inl, inr, Bool, true, false, not, ◌&&◌, ◌||◌, Option, none, some, List, [],
  ◌∷◌, ◌++◌, map, arith, ltb, leb, ◌==◌, if◌then◌else◌, ltb→lt, lt→ltb, ltb→le, leb→le, ==_iff,
  Bool-cases, Option-cases, get_or, &&_true, length, length-append, take, drop, all, any, All,
  All-append, all-append, any-append, Str, codes, str_eq, str_eq_refl, str_eq→eq, str_eq_iff,
  str_le, StrMap, str_mem, StrNodup, keys, lookup, put, lookup-put, str_mem-keys-put, length-put,
  put-StrNodup, all-str_mem, all_of_str_mem,
}
use tcabci_read_go_client.Errors.{GoError, Result, ok, err}

-- The fields of a header in their order, with the keys as `http.Header` writes them.
abbrev pub Headers : Type 0
Headers = List (Str × Str)

abbrev pub authority_key : Str
authority_key = codes "X-Authority"

-- The loops of `runSession` add `ws_headers`, the user's. `authority` is what
-- `CreateWSAuthorityV3` returns, where a signer is configured. `serve` is the
-- error with which `serveConnection` returns; it always returns one. The flags say whether the
-- session's context is over at the loop's test, after the connection, and during the wait.
pub record Attempt : Type 0 where
  pub over_before : Bool
  pub ws_headers : Headers
  pub authority : Option (Result Str)
  pub dial : Result (Unit {0})
  pub serve : GoError
  pub over_after : Bool
  pub over_in_wait : Bool

-- A dial carries its headers. Waits are in milliseconds.
pub data Action : Type 0 where
  retrieves : Action
  dials : Headers → Action
  serves : Action
  reports : GoError → Action
  waits : ℕ → Action

abbrev pub first_delay : ℕ
first_delay = 100

abbrev pub max_delay : ℕ
max_delay = 25_000

pub next_delay : ℕ → ℕ
next_delay d = if ltb d max_delay then (if ltb max_delay (d * 2) then max_delay else d * 2) else d

-- The connection of one round: the actions, the error, and the delay, which a successful dial resets.
pub record Round : Type 0 where
  pub actions : List Action
  pub error : GoError
  pub delay : ℕ

-- `Header.Set`: the new field in place of those with its key.
drop_key : Str → Headers → Headers
drop_key k [] = []
drop_key k ((x, v) ∷ rest) =
    let others = drop_key k rest in if str_eq x k then others else (x, v) ∷ others

pub set_header : Str → Str → Headers → Headers
unfolding drop_key
set_header k v headers = drop_key k headers ++ (k, v) ∷ []

dial_with : Headers → Attempt → Result (Unit {0}) → ℕ → Round
dial_with headers a (ok u) delay = record {
  actions = dials headers ∷ serves ∷ [];
  error = a.serve;
  delay = first_delay;
}
dial_with headers a (err e) delay = record {
  actions = dials headers ∷ [];
  error = e;
  delay = delay;
}

connect_with : Option (Result Str) → Attempt → ℕ → Round
unfolding dial_with set_header
connect_with none a delay = dial_with a.ws_headers a a.dial delay
connect_with (some (ok header)) a delay =
    dial_with (set_header authority_key header a.ws_headers) a a.dial delay
connect_with (some (err e)) a delay = record { actions = []; error = e; delay = delay }

pub connect : Attempt → ℕ → Round
unfolding connect_with
connect a delay = connect_with a.authority a delay

-- `is_close` is `websocket.IsCloseError` for a normal closure and a policy violation. The second part
-- of the result says whether the loop has returned.
module _ (is_close : GoError → Bool) where
  pub run_session : ℕ → List Attempt → List Action × Bool
  run_session delay [] = ([], false)
  run_session delay (a ∷ rest) =
      let r = connect a delay in
      let later = run_session (next_delay r.delay) rest in
      if a.over_before
      then ([], true)
      else if a.over_after || is_close r.error
      then (retrieves ∷ r.actions, true)
      else if a.over_in_wait
      then (retrieves ∷ r.actions ++ reports r.error ∷ waits r.delay ∷ [], true)
      else (retrieves ∷ r.actions ++ reports r.error ∷ waits r.delay ∷ later.0, later.1)
