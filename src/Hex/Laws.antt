-- ===== src/Hex/Laws.antt =====
-- Hexadecimal text: what decodes, and the round trip.
use tcabci_read_go_client.Prelude.{
  ℕ, ◌+◌, ◌*◌, ◌/◌, ◌%◌, ◌≤◌, ◌<◌, ◌≡◌, refl, sym, ap, ◌∙◌, ◌↔◌, ◌⊎◌, true, Option, none, some, [],
  ◌∷◌, map, arith, length, All, Str, str_eq_refl, str_eq→eq,
}
use tcabci_read_go_client.Hex.{
  nibble, join, hex_decode, digit, hex_encode, to_lower, equal_fold, IsBytes,
}

nibble-digit : (n : ℕ) → n < 16 → nibble (digit n) ≡ some n
unfolding nibble digit
nibble-digit n h = ground arith

-- Decoding undoes encoding.
pub hex_decode-encode : (s : Str) → IsBytes s → hex_decode (hex_encode s) ≡ some s
unfolding hex_decode hex_encode
hex_decode-encode [] h = refl
hex_decode-encode (b ∷ rest) h = ground (
  arith,
  nibble-digit (b / 16) (omega arith),
  nibble-digit (b % 16) (omega arith),
  hex_decode-encode rest h.1,
)

nibble-to_lower : (c : ℕ) → nibble (to_lower c) ≡ nibble c
unfolding nibble to_lower
nibble-to_lower c = ground arith

pub hex_decode-to_lower : (s : Str) → hex_decode (map to_lower s) ≡ hex_decode s
unfolding hex_decode
hex_decode-to_lower [] = refl
hex_decode-to_lower (h ∷ []) = refl
hex_decode-to_lower (h ∷ l ∷ rest) =
    rw (nibble-to_lower h, nibble-to_lower l, hex_decode-to_lower rest)

-- Texts that are equal but for their case decode alike.
pub equal_fold-hex_decode : (s t : Str) → equal_fold s t ≡ true → hex_decode s ≡ hex_decode t
unfolding equal_fold
equal_fold-hex_decode s t h =
    sym (hex_decode-to_lower s) ∙ ap hex_decode (str_eq→eq _ _ h) ∙ hex_decode-to_lower t

pub length-hex_encode : (s : Str) → length (hex_encode s) ≡ 2 * length s
unfolding hex_encode
length-hex_encode [] = refl
length-hex_encode (b ∷ rest) = omega (arith, length-hex_encode rest)

-- No byte of an encoding is one that no digit has.
pub hex_encode-digits :
    (s : Str) → IsBytes s → All (λ c. ((48 ≤ c) × (c ≤ 57)) ⊎ ((97 ≤ c) × (c ≤ 102))) (hex_encode s)
unfolding hex_encode
hex_encode-digits [] h = tt
hex_encode-digits (b ∷ rest) h =
    (in_range (b / 16) (omega arith), (in_range (b % 16) (omega arith), hex_encode-digits rest h.1))
  where
    in_range :
        (n : ℕ) → n < 16 → ((48 ≤ digit n) × (digit n ≤ 57)) ⊎ ((97 ≤ digit n) × (digit n ≤ 102))
    in_range n h = unfold digit in ground arith

digit-nibble : (c n : ℕ) → nibble c ≡ some n → digit n ≡ to_lower c
unfolding nibble digit to_lower
digit-nibble c n h = ground arith

nibble-lt : (c n : ℕ) → nibble c ≡ some n → n < 16
unfolding nibble
nibble-lt c n h = ground arith

join-some :
    (a b : Option ℕ) (r : Option Str) (d : Str)
    → join a b r ≡ some d
    → (n : ℕ) × (m : ℕ) × (t : Str) × (a ≡ some n)
      × (b ≡ some m)
      × (r ≡ some t)
      × ((n * 16 + m) ∷ t ≡ d)
unfolding join
join-some (some n) (some m) (some t) d h = (n, m, t, refl, refl, refl, cc)
join-some none b r d h = cc
join-some (some n) none r d h = cc
join-some (some n) (some m) none d h = cc

-- What decodes to some bytes is their encoding, but for its case.
pub hex_encode-decode : (s d : Str) → hex_decode s ≡ some d → hex_encode d ≡ map to_lower s
unfolding hex_decode hex_encode
hex_encode-decode [] d h = let e : [] ≡ d = cc in rw (← e)
hex_encode-decode (c ∷ []) d h = cc
hex_encode-decode (h ∷ l ∷ rest) d e =
    let (n, m, t, p, q, r, u) = join-some (nibble h) (nibble l) (hex_decode rest) d e in
    let small = nibble-lt l m q in
    let high : (n * 16 + m) / 16 ≡ n = omega arith in
    let low : (n * 16 + m) % 16 ≡ m = omega arith in
    rw (← u) (rw (high, low, digit-nibble h n p, digit-nibble l m q, hex_encode-decode rest t r))

to_lower_idem : (c : ℕ) → to_lower (to_lower c) ≡ to_lower c
unfolding to_lower
to_lower_idem c = ground arith

map-to_lower_idem : (s : Str) → map to_lower (map to_lower s) ≡ map to_lower s
map-to_lower_idem [] = refl
map-to_lower_idem (c ∷ s) = rw (to_lower_idem c, map-to_lower_idem s)

-- A text names some bytes exactly when it is their encoding, but for its case.
pub equal_fold-encode :
    (s d : Str) → IsBytes d → (equal_fold s (hex_encode d) ≡ true) ↔ (hex_decode s ≡ some d)
unfolding equal_fold
equal_fold-encode s d b = (
  (λ h. equal_fold-hex_decode s (hex_encode d) (unfold equal_fold in h) ∙ hex_decode-encode d b),
  λ h. rw (hex_encode-decode s d h, map-to_lower_idem s) (str_eq_refl (map to_lower s)),
)
