-- ===== src/Transport.antt =====
-- transport.go: what a verbose client prints about a request, and the log line of a failed one
-- (`logError` of client.go). The sending of requests is fasthttp's.
pub mod Discretion
mod Tests
use tcabci_read_go_client.Prelude.{
  ℤ, pos, negsuc, ℕ, zero, suc, ◌+◌, ◌-◌, ◌*◌, ◌/◌, ◌%◌, ◌^◌, ◌≤◌, ◌<◌, min, String, ◌≡◌, refl, sym,
  ap, ◌∙◌, subst, ◌≢◌, ◌↔◌, ◌⊎◌, inl, inr, Bool, true, false, not, ◌&&◌, ◌||◌, Option, none, some,
  List, [], ◌∷◌, ◌++◌, map, arith, ltb, leb, ◌==◌, if◌then◌else◌, ltb→lt, lt→ltb, ltb→le, leb→le,
  ==_iff, Bool-cases, Option-cases, get_or, &&_true, length, length-append, take, drop, all, any,
  All, All-append, all-append, any-append, Str, codes, str_eq, str_eq_refl, str_eq→eq, str_eq_iff,
  str_eq_sym, str_eq_nil, str_le, StrMap, str_mem, StrNodup, keys, lookup, put, lookup-put,
  str_mem-keys-put, length-put, put-StrNodup, all-str_mem, all_of_str_mem,
}
use tcabci_read_go_client.Errors.{GoError}
use tcabci_read_go_client.Decimal.{itoa}

-- What `DefaultTransport.RoundTrip` returns and leaves in the response.
pub record Trip : Type 0 where
  pub url : Str
  pub status : ℕ
  pub body : Str
  pub retry : Bool
  pub failure : Option GoError

-- `%t` of `err != nil`.
pub failed : Option GoError → Str
failed none = codes "false"
failed (some e) = codes "true"

pub trip_line : Trip → Str
unfolding failed
trip_line t =
    codes "tcabci HTTP status="
    ++ itoa t.status
    ++ codes " bytes="
    ++ itoa (length t.body)
    ++ codes " failed="
    ++ failed t.failure
    ++ (10 ∷ [])

-- The results, and what is printed to the standard error.
pub round_trip : Bool → Trip → (Bool × Option GoError) × Str
unfolding trip_line
round_trip verbose t = ((t.retry, t.failure), if verbose then trip_line t else [])

-- The text that a logger is given, whatever the error.
pub log_error : {Logger : Type 0} → Option Logger → GoError → Option (Logger × Str)
log_error none e = none
log_error (some lgr) e = some (lgr, codes "read node request failed")
