-- ===== src/Errors.antt =====
-- error.go: the client's error type, among the other values of Go's `error`.
pub mod Chain
pub mod Steps
use tcabci_read_go_client.Prelude.{
  ℕ, zero, suc, ◌+◌, ◌-◌, ◌*◌, ◌/◌, ◌%◌, ◌^◌, ◌≤◌, ◌<◌, min, String, ◌≡◌, refl, sym, ap, ◌∙◌, subst,
  ◌≢◌, ◌↔◌, ◌⊎◌, inl, inr, Bool, true, false, not, ◌&&◌, ◌||◌, Option, none, some, List, [], ◌∷◌,
  ◌++◌, map, arith, ltb, leb, ◌==◌, if◌then◌else◌, ltb→lt, lt→ltb, ltb→le, leb→le, ==_iff,
  Bool-cases, Option-cases, get_or, &&_true, length, length-append, take, drop, all, any, All,
  All-append, all-append, any-append, Str, codes, str_eq, str_eq_refl, str_eq→eq, str_eq_iff,
  str_le, StrMap, str_mem, StrNodup, keys, lookup, put, lookup-put, str_mem-keys-put, length-put,
  put-StrNodup,
}

pub data ErrCode : Type 0 where
  sys_err client_err parameter_err : ErrCode

-- What the client reads of a fasthttp response: `status` is what `StatusCode()` returns.
pub record HttpResponse : Type 0 where
  pub status : ℕ
  pub headers : StrMap Str
  pub body : Str

-- A response of its own that keeps the status only.
unfoldable pub response_snapshot : Option HttpResponse → Option HttpResponse
response_snapshot none = none
response_snapshot (some r) = some (record { status = r.status; headers = []; body = [] })

mutual
  -- `plain` is `errors.New`, `canceled` a context's error, `wrapped` a `*Error`, and `external` an
  -- error that code outside the repository returned, with its text.
  pub data GoError : Type 0 where
    plain : Str → GoError
    canceled : GoError
    external : Str → GoError
    wrapped : Error → GoError

  -- The fields `typ`, `origin`, `message`, `code`, `status` and `response`.
  pub data Error : Type 0 where
    error : ErrCode → GoError → Str → ℕ → ℕ → Option HttpResponse → Error

unfoldable pub type_of : Error → ErrCode
type_of (error typ origin message code status response) = typ

unfoldable pub origin_of : Error → GoError
origin_of (error typ origin message code status response) = origin

unfoldable pub message_of : Error → Str
message_of (error typ origin message code status response) = message

unfoldable pub code_of : Error → ℕ
code_of (error typ origin message code status response) = code

unfoldable pub status_of : Error → ℕ
status_of (error typ origin message code status response) = status

unfoldable pub response_of : Error → Option HttpResponse
unfolding response_snapshot
response_of (error typ origin message code status response) = response_snapshot response

unfoldable pub unwrap : Error → GoError
unwrap (error typ origin message code status response) = origin

-- `err.Error()`.
unfoldable pub text_of : GoError → Str
unfolding message_of
text_of (plain s) = s
text_of canceled = codes "context canceled"
text_of (external s) = s
text_of (wrapped e) = message_of e

abbrev pub err_not_started : GoError
err_not_started = plain (codes "not started yet")

abbrev pub err_already_started : GoError
err_already_started = plain (codes "already started")

-- What a call returns: a value or an error.
pub data Result {ℓ} (A : Type ℓ) : Type ℓ where
  ok : A → Result A
  err : GoError → Result A

-- `if !test { return e }`.
abbrev pub guard : Bool → GoError → Result (Unit {0})
guard false failure = err failure
guard true failure = ok tt

infixl 5 ◌>>=◌ ◌>>◌
-- A call whose error is returned at once, and whose value is used further on.
abbrev pub ◌>>=◌ {ℓ κ} : {A : Type ℓ} {B : Type κ} → Result A → (A → Result B) → Result B
err failure >>= next = err failure
ok a >>= next = next a

-- A call that has only an error.
abbrev pub ◌>>◌ {ℓ} : {B : Type ℓ} → Result (Unit {0}) → Result B → Result B
err failure >> next = err failure
ok u >> next = next
