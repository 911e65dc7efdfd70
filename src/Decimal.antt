-- ===== src/Decimal.antt =====
-- Decimal numbers, as `strconv` and `fmt` write them.
pub mod Reading
mod Tests
use tcabci_read_go_client.Prelude.{
  ℤ, pos, negsuc, ℕ, zero, suc, ◌+◌, ◌-◌, ◌*◌, ◌/◌, ◌%◌, ◌^◌, ◌≤◌, ◌<◌, min, String, ◌≡◌, refl, sym,
  ap, ◌∙◌, subst, ◌≢◌, ◌↔◌, ◌⊎◌, inl, inr, Bool, true, false, not, ◌&&◌, ◌||◌, Option, none, some,
  List, [], ◌∷◌, ◌++◌, map, arith, ltb, leb, ◌==◌, if◌then◌else◌, ltb→lt, lt→ltb, ltb→le, leb→le,
  ==_iff, Bool-cases, Option-cases, get_or, &&_true, length, length-append, take, drop, all, any,
  All, All-append, all-append, any-append, Str, codes, str_eq, str_eq_refl, str_eq→eq, str_eq_iff,
  str_eq_sym, str_le, StrMap, str_mem, StrNodup, keys, lookup, put, lookup-put, str_mem-keys-put,
  length-put, put-StrNodup, all-str_mem, all_of_str_mem,
}

-- The decimal digits. With the fuel 20 every number of 64 bits fits.
decimal : ℕ → ℕ → Str
decimal zero n = []
decimal (suc f) n =
    let rest = decimal f (n / 10) in
    if ltb n 10 then (n + b'0') ∷ [] else rest ++ (n % 10 + b'0') ∷ []

-- `strconv.Itoa` of a number that is not negative.
unfoldable pub itoa : ℕ → Str
unfolding decimal
itoa n = decimal 20 n

-- `strconv.FormatInt` with the base 10.
unfoldable pub format_int : ℤ → Str
format_int (pos n) = itoa n
format_int (negsuc n) = b'-' ∷ itoa (n + 1)
