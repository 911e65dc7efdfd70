-- ===== src/Request.antt =====
-- search.go, summary.go and broadcast.go: the bodies of the client's requests and their checks.
-- `Search.Height` is unsigned, so the check `s.Height < 0` is never met and has no counterpart.
pub mod Validity
mod Tests
use tcabci_read_go_client.Prelude.{
  ℤ, ℕ, zero, suc, ◌+◌, ◌-◌, ◌*◌, ◌/◌, ◌%◌, ◌^◌, ◌≤◌, ◌<◌, min, String, ◌≡◌, refl, sym, ap, ◌∙◌,
  subst, ◌≢◌, ◌↔◌, ◌⊎◌, inl, inr, Bool, true, false, not, ◌&&◌, ◌||◌, Option, none, some, List, [],
  ◌∷◌, ◌++◌, map, arith, ltb, leb, ◌==◌, if◌then◌else◌, ltb→lt, lt→ltb, ltb→le, leb→le, ==_iff,
  Bool-cases, Option-cases, get_or, &&_true, length, length-append, take, drop, all, any, All,
  All-append, all-append, any-append, Str, codes, str_eq, str_eq_refl, str_eq→eq, str_eq_iff,
  str_le, StrMap, str_mem, StrNodup, keys, lookup, put, lookup-put, str_mem-keys-put, length-put,
  put-StrNodup, all-str_mem, all_of_str_mem,
}
use tcabci_read_go_client.Transaction.{TxType, Transaction, is_valid}

abbrev pub OrderBy : Type 0
OrderBy = Str

abbrev pub asc : OrderBy
asc = codes "ASC"

abbrev pub desc : OrderBy
desc = codes "DESC"

-- `OrderBy.IsValid`.
unfoldable pub order_by_ok : OrderBy → Bool
order_by_ok t = if str_eq t asc then true else if str_eq t desc then true else false

abbrev pub HeightOperator : Type 0
HeightOperator = Str

abbrev pub equal : HeightOperator
equal = codes "="

abbrev pub less : HeightOperator
less = codes "<"

abbrev pub greater : HeightOperator
greater = codes ">"

abbrev pub equal_or_less : HeightOperator
equal_or_less = codes "<="

abbrev pub equal_or_greater : HeightOperator
equal_or_greater = codes ">="

-- `HeightOperator.IsValid`.
unfoldable pub height_operator_ok : HeightOperator → Bool
height_operator_ok ho =
    if str_eq ho equal
    then true
    else if str_eq ho less
    then true
    else if str_eq ho greater
    then true
    else if str_eq ho equal_or_less
    then true
    else if str_eq ho equal_or_greater
    then true
    else false

pub record Search : Type 0 where
  pub limit : ℕ
  pub height : ℕ
  pub offset : ℕ
  pub max_height : ℕ
  pub last_order : ℕ
  pub typ : TxType
  pub types : List TxType
  pub p_height : Str
  pub order_by : OrderBy
  pub order_field : Str
  pub height_operator : HeightOperator
  pub recipient_addresses : List Str
  pub sender_addresses : List Str
  pub signed_addresses : StrMap Str
  pub hashes : List Str
  pub chain_name : Option Str
  pub chain_version : Option Str

-- The loop over `s.Types`.
unfoldable pub types_ok : List TxType → Bool
types_ok [] = true
types_ok (t ∷ rest) = let later = types_ok rest in if not (is_valid t) then false else later

-- `Search.IsValid`.
unfoldable pub search_ok : Search → Bool
unfolding order_by_ok height_operator_ok types_ok
search_ok s =
    if not (height_operator_ok s.height_operator)
    then false
    else if length s.signed_addresses == 0
    then false
    else if ltb 251 (length s.recipient_addresses)
    then false
    else if ltb 251 (length s.sender_addresses)
    then false
    else if ltb 0 (length s.recipient_addresses)
        && not (length s.signed_addresses == length s.recipient_addresses)
    then false
    else if ltb 0 (length s.sender_addresses)
        && not (length s.signed_addresses == length s.sender_addresses)
    then false
    else if ltb 100 (length s.hashes)
    then false
    else if not (str_eq s.typ []) && not (is_valid s.typ)
    then false
    else if ltb 0 (length s.types) && not (types_ok s.types)
    then false
    else if ltb 100 s.limit
    then false
    else if not (str_eq s.order_by []) && not (order_by_ok s.order_by)
    then false
    else true

pub record Summary : Type 0 where
  pub recipient_addresses : List Str
  pub sender_addresses : List Str
  pub typ : TxType
  pub chain_name : Option Str
  pub chain_version : Option Str
  pub signed_addresses : StrMap Str

-- `Summary.IsValid`.
unfoldable pub summary_ok : Summary → Bool
summary_ok s =
    if ltb 251 (length s.recipient_addresses)
    then false
    else if ltb 251 (length s.sender_addresses)
    then false
    else if ltb 0 (length s.recipient_addresses)
        && not (length s.recipient_addresses == length s.signed_addresses)
    then false
    else if ltb 0 (length s.sender_addresses)
        && not (length s.sender_addresses == length s.signed_addresses)
    then false
    else if not (str_eq s.typ []) && not (is_valid s.typ)
    then false
    else true

pub record Broadcast : Type 0 where
  pub id : Str
  pub version : ℕ
  pub typ : TxType
  pub sender_addr : Str
  pub recipient_addr : Str
  pub payload : Str
  pub additional_data : Option Str
  pub cipher_data : Option Str
  pub sign : Str
  pub fee : ℕ

abbrev pub search_uri : Str
search_uri = codes "/v1/tx_search/p"

abbrev pub summary_uri : Str
summary_uri = codes "/v1/tx_summary"

-- `Broadcast.URI`.
unfoldable pub broadcast_uri : Bool → Bool → Str
broadcast_uri commit sync =
    if commit then codes "/v1/tx/commit" else if sync then codes "/v1/tx/sync" else codes "/v1/tx"
