-- ===== src/Http/Query.antt =====
-- The query strings of the requests, with `url.QueryEscape`.
pub mod Escape
use tcabci_read_go_client.Prelude.{
  ℤ, ℕ, zero, suc, ◌+◌, ◌-◌, ◌*◌, ◌/◌, ◌%◌, ◌^◌, ◌≤◌, ◌<◌, min, String, ◌≡◌, refl, sym, ap, ◌∙◌,
  subst, ◌≢◌, ◌↔◌, ◌⊎◌, inl, inr, Bool, true, false, not, ◌&&◌, ◌||◌, Option, none, some, List, [],
  ◌∷◌, ◌++◌, map, arith, ltb, leb, ◌==◌, if◌then◌else◌, ltb→lt, lt→ltb, ltb→le, leb→le, ==_iff,
  Bool-cases, Option-cases, get_or, &&_true, length, length-append, take, drop, all, any, All,
  All-append, all-append, any-append, Str, codes, str_eq, str_eq_refl, str_eq→eq, str_eq_iff,
  str_eq_sym, str_le, StrMap, str_mem, StrNodup, keys, lookup, put, lookup-put, str_mem-keys-put,
  length-put, put-StrNodup, all-str_mem, all_of_str_mem,
}

-- Letters, digits and `-_.~`.
pub unreserved : ℕ → Bool
unreserved c =
    (leb b'a' c && leb c b'z')
    || (leb b'A' c && leb c b'Z')
    || (leb b'0' c && leb c b'9')
    || (c == b'-')
    || (c == b'_')
    || (c == b'.')
    || (c == b'~')

pub upper_digit : ℕ → ℕ
upper_digit n = if ltb n 10 then n + b'0' else n - 10 + b'A'

pub escape_byte : ℕ → Str → Str
unfolding unreserved upper_digit
escape_byte c rest =
    if unreserved c
    then c ∷ rest
    else if c == b' '
    then b'+' ∷ rest
    else b'%' ∷ upper_digit (c / 16) ∷ upper_digit (c % 16) ∷ rest

-- `url.QueryEscape`.
unfoldable pub query_escape : Str → Str
unfolding escape_byte
query_escape [] = []
query_escape (c ∷ rest) = escape_byte c (query_escape rest)

pub pair_query : Str → Str → Str
unfolding query_escape
pair_query name version =
    codes "chain_name=" ++ (query_escape name ++ (codes "&chain_version=" ++ query_escape version))

-- The chain in a query: the given one if both its parts are given, and else the client's.
unfoldable pub chain_query : Str → Str → Option Str → Option Str → Str
unfolding pair_query
chain_query own_name own_version (some name) (some version) = pair_query name version
chain_query own_name own_version _ _ = pair_query own_name own_version
