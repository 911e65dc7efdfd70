-- ===== src/Decimal/Reading.antt =====
-- Reading the decimal numbers back, as `strconv.ParseInt` does.
use native.Mathlib.Nat.{pow-suc}
use tcabci_read_go_client.Prelude.{
  ℤ, pos, negsuc, ℕ, zero, suc, ◌+◌, ◌-◌, ◌*◌, ◌/◌, ◌%◌, ◌^◌, ◌≤◌, ◌<◌, ◌≡◌, refl, sym, ap, ◌∙◌,
  subst, ◌≢◌, ◌⊎◌, inl, inr, Bool, true, ◌&&◌, Option, none, some, [], ◌∷◌, ◌++◌, arith, ltb, leb,
  ◌==◌, if◌then◌else◌, ltb→lt, Bool-cases, length, length-append, all, All, All-append, Str,
}
use tcabci_read_go_client.Splitting.{Without}
use tcabci_read_go_client.Decimal.{decimal, itoa, format_int}

pub is_digit : ℕ → Bool
is_digit c = leb b'0' c && leb c b'9'

-- The number that digits stand for, behind others of a known value.
pub value_from : ℕ → Str → ℕ
value_from acc [] = acc
value_from acc (c ∷ rest) = value_from (acc * 10 + (c - b'0')) rest

pub parse_nat : Str → Option ℕ
unfolding is_digit value_from
parse_nat [] = none
parse_nat (c ∷ rest) = if all is_digit (c ∷ rest) then some (value_from 0 (c ∷ rest)) else none

negated : ℕ → ℤ
negated zero = pos 0
negated (suc n) = negsuc n

signed_from : Option ℕ → Option ℤ
unfolding negated
signed_from none = none
signed_from (some n) = some (negated n)

unsigned_from : Option ℕ → Option ℤ
unsigned_from none = none
unsigned_from (some n) = some (pos n)

pub parse_int : Str → Option ℤ
unfolding signed_from unsigned_from parse_nat
parse_int [] = none
parse_int (c ∷ rest) =
    if c == b'-' then signed_from (parse_nat rest) else unsigned_from (parse_nat (c ∷ rest))

value_from-snoc :
    (acc : ℕ) (s : Str) (c : ℕ) → value_from acc (s ++ c ∷ []) ≡ value_from acc s * 10 + (c - b'0')
unfolding value_from
value_from-snoc acc [] c = refl
value_from-snoc acc (d ∷ s) c = value_from-snoc (acc * 10 + (d - b'0')) s c

-- One digit, or the digits of the tenth part and one more.
decimal_cases :
    (f n : ℕ)
    → ((n < 10) × (decimal (suc f) n ≡ (n + b'0') ∷ []))
      ⊎ ((10 ≤ n) × (decimal (suc f) n ≡ decimal f (n / 10) ++ (n % 10 + b'0') ∷ []))
unfolding decimal
decimal_cases f n = elim (Bool-cases (ltb n 10)) [
  | inl e ↦ inl (ltb→lt _ _ e, rw e refl)
  | inr e ↦ inr (ground arith, rw e refl)
]

tenth : (f n : ℕ) → n < 10 ^ suc f → n / 10 < 10 ^ f
tenth f n h = omega (arith, pow-suc 10 f)

value-decimal : (f n : ℕ) → n < 10 ^ f → value_from 0 (decimal f n) ≡ n
unfolding value_from decimal
value-decimal zero n h = omega arith
value-decimal (suc f) n h = elim (decimal_cases f n) [
  | inl (small, e) ↦ rw e (omega arith)
  | inr (large, e) ↦ rw e (
      value_from-snoc 0 (decimal f (n / 10)) (n % 10 + b'0')
      ∙ omega (arith, value-decimal f (n / 10) (tenth f n h)))
]

abbrev pub IsDigits : Str → Type 0
IsDigits = All (λ c. (b'0' ≤ c) × (c ≤ b'9'))

decimal-IsDigits : (f n : ℕ) → IsDigits (decimal f n)
unfolding decimal
decimal-IsDigits zero n = tt
decimal-IsDigits (suc f) n = elim (Bool-cases (ltb n 10)) [
  | inl e ↦ let s = ltb→lt n 10 e in rw e ((omega arith, omega arith), tt)
  | inr e ↦ rw e (
      All-append (λ c. (b'0' ≤ c) × (c ≤ b'9')) (decimal f (n / 10)) ((n % 10 + b'0') ∷ [])
        (decimal-IsDigits f (n / 10)) ((omega arith, omega arith), tt))
]

all-is_digit : (s : Str) → IsDigits s → all is_digit s ≡ true
unfolding is_digit
all-is_digit [] h = refl
all-is_digit (c ∷ s) h = ground (arith, h.0, all-is_digit s h.1)

parse_nat-digits : (s : Str) → 0 < length s → IsDigits s → parse_nat s ≡ some (value_from 0 s)
unfolding parse_nat
parse_nat-digits [] h d = absurd (omega arith)
parse_nat-digits (c ∷ s) h d = rw (all-is_digit (c ∷ s) d) refl

length-decimal : (f n : ℕ) → 0 < length (decimal (suc f) n)
length-decimal f n = elim (decimal_cases f n) [
  | inl (small, e) ↦ rw e (omega arith)
  | inr (large, e) ↦ rw e (omega (arith, length-append (decimal f (n / 10)) ((n % 10 + b'0') ∷ [])))
]

parse_nat-itoa : (n : ℕ) → n < 10 ^ 20 → parse_nat (itoa n) ≡ some n
unfolding itoa
parse_nat-itoa n h =
    parse_nat-digits (decimal 20 n) (length-decimal 19 n) (decimal-IsDigits 20 n)
    ∙ ap some (value-decimal 20 n h)

-- The numbers of 64 bits.
abbrev pub IsInt64 : ℤ → Type 0
IsInt64 (pos n) = n < 2 ^ 63
IsInt64 (negsuc n) = n < 2 ^ 63

no_sign : (s : Str) → 0 < length s → IsDigits s → parse_int s ≡ unsigned_from (parse_nat s)
unfolding parse_int
no_sign [] h d = absurd (omega arith)
no_sign (c ∷ s) h d = ground arith

-- What `FormatInt` writes is read back as the same number.
pub parse_int-format_int : (z : ℤ) → IsInt64 z → parse_int (format_int z) ≡ some z
unfolding format_int unsigned_from
parse_int-format_int (pos n) h =
    no_sign (itoa n) (unfold itoa in length-decimal 19 n) (unfold itoa in decimal-IsDigits 20 n)
    ∙ rw (parse_nat-itoa n (omega arith)) refl
parse_int-format_int (negsuc n) h =
    unfold parse_int signed_from negated in rw (parse_nat-itoa (n + 1) (omega arith)) (ground arith)

digits-Without :
    (sep : ℕ) (s : Str) → ((b'0' ≤ sep) × (sep ≤ b'9') → ⊥) → IsDigits s → Without sep s
digits-Without sep [] d h = tt
digits-Without sep (c ∷ s) d h =
    ((λ e. d (subst (λ x. (b'0' ≤ x) × (x ≤ b'9')) e h.0)), digits-Without sep s d h.1)

-- It holds no byte but digits and the sign.
pub format_int-Without :
    (sep : ℕ) (z : ℤ) → sep ≢ b'-' → ((b'0' ≤ sep) × (sep ≤ b'9') → ⊥) → Without sep (format_int z)
unfolding format_int itoa
format_int-Without sep (pos n) m d = digits-Without sep (decimal 20 n) d (decimal-IsDigits 20 n)
format_int-Without sep (negsuc n) m d =
    ((λ e. m (sym e)), digits-Without sep (decimal 20 (n + 1)) d (decimal-IsDigits 20 (n + 1)))
