-- ===== src/Hex.antt =====
-- encoding/hex, as certificate.go, authority.go, passkey.go and client.go use it.
pub mod Laws
use tcabci_read_go_client.Prelude.{
  ℤ, ℕ, zero, suc, ◌+◌, ◌-◌, ◌*◌, ◌/◌, ◌%◌, ◌^◌, ◌≤◌, ◌<◌, min, String, ◌≡◌, refl, sym, ap, ◌∙◌,
  subst, ◌≢◌, ◌↔◌, ◌⊎◌, inl, inr, Bool, true, false, not, ◌&&◌, ◌||◌, Option, none, some, List, [],
  ◌∷◌, ◌++◌, map, arith, ltb, leb, ◌==◌, if◌then◌else◌, ltb→lt, lt→ltb, ltb→le, leb→le, ==_iff,
  Bool-cases, Option-cases, get_or, &&_true, length, length-append, take, drop, all, any, All,
  All-append, all-append, any-append, Str, codes, str_eq, str_eq_refl, str_eq→eq, str_eq_iff,
  str_le, StrMap, str_mem, StrNodup, keys, lookup, put, lookup-put, str_mem-keys-put, length-put,
  put-StrNodup, all-str_mem, all_of_str_mem,
}

-- `fromHexChar`.
unfoldable pub nibble : ℕ → Option ℕ
nibble c =
    if leb b'0' c && leb c b'9'
    then some (c - b'0')
    else if leb b'a' c && leb c b'f'
    then some (c - b'a' + 10)
    else if leb b'A' c && leb c b'F'
    then some (c - b'A' + 10)
    else none

unfoldable pub join : Option ℕ → Option ℕ → Option Str → Option Str
join (some h) (some l) (some rest) = some ((h * 16 + l) ∷ rest)
join _ _ _ = none

-- `hex.DecodeString`; `none` stands for its error, on a byte that is no digit or on an odd length.
unfoldable pub hex_decode : Str → Option Str
unfolding nibble join
hex_decode [] = some []
hex_decode (h ∷ []) = none
hex_decode (h ∷ l ∷ rest) = join (nibble h) (nibble l) (hex_decode rest)

unfoldable pub digit : ℕ → ℕ
digit n = if ltb n 10 then n + b'0' else n - 10 + b'a'

-- `hex.EncodeToString`: lower case.
unfoldable pub hex_encode : Str → Str
unfolding digit
hex_encode [] = []
hex_encode (b ∷ rest) = digit (b / 16) ∷ digit (b % 16) ∷ hex_encode rest

-- ASCII lower case, in which `strings.EqualFold` compares ASCII strings.
pub to_lower : ℕ → ℕ
to_lower c = if leb b'A' c && leb c b'Z' then c + 32 else c

unfoldable pub equal_fold : Str → Str → Bool
unfolding to_lower
equal_fold s t = str_eq (map to_lower s) (map to_lower t)

abbrev pub IsBytes : Str → Type 0
IsBytes = All (λ b. b < 256)
