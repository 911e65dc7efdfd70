-- ===== src/Passkey/Layout.antt =====
-- The characters that stand for 16 random bytes are a UUID of version 4 in lower case.
use tcabci_read_go_client.Prelude.{
  ℕ, zero, suc, ◌/◌, ◌%◌, ◌<◌, ◌≡◌, refl, sym, ap, subst, Bool, true, ◌&&◌, [], ◌∷◌, arith, length,
  all, Str,
}
use tcabci_read_go_client.Passkey.Pattern.{
  repeat, lower_hex, hyphen, four, variant_digit, uuid_pattern, is_uuid, Classes, matches_complete,
}
use tcabci_read_go_client.Hex.{hex_encode, digit, IsBytes}
use tcabci_read_go_client.Passkey.{overwrite, update, version, variant, marked, uuid_ascii}

-- A test that holds of each byte, which evaluation shows.
bytes_pass : (ℕ → Bool) → ℕ → Bool
bytes_pass test zero = true
bytes_pass test (suc bound) = bytes_pass test bound && test bound

byte_passes :
    (test : ℕ → Bool) (bound b : ℕ) → bytes_pass test bound ≡ true → b < bound → test b ≡ true
unfolding bytes_pass
byte_passes test zero b e h = absurd (omega (arith, h))
byte_passes test (suc bound) b e h = ground (arith, byte_passes test bound b)

pub lower_hex-digit : (n : ℕ) → n < 16 → lower_hex (digit n) ≡ true
unfolding lower_hex digit
lower_hex-digit n h = ground arith

version_digit : (b : ℕ) → b < 256 → four (digit (version b / 16)) ≡ true
unfolding bytes_pass four digit version
version_digit b h = byte_passes (λ b. four (digit (version b / 16))) 256 b refl h

variant_digit-variant : (b : ℕ) → b < 256 → variant_digit (digit (variant b / 16)) ≡ true
unfolding bytes_pass variant_digit digit variant
variant_digit-variant b h = byte_passes (λ b. variant_digit (digit (variant b / 16))) 256 b refl h

high : (b : ℕ) → b < 256 → lower_hex (digit (b / 16)) ≡ true
high b h = lower_hex-digit (b / 16) (omega arith)

low : (b : ℕ) → lower_hex (digit (b % 16)) ≡ true
low b = lower_hex-digit (b % 16) (omega arith)

pub lower_hex-hex_encode : (s : Str) → IsBytes s → all lower_hex (hex_encode s) ≡ true
unfolding hex_encode
lower_hex-hex_encode [] h = refl
lower_hex-hex_encode (b ∷ s) h =
    let hi = high b h.0 in let lo = low b in let rest = lower_hex-hex_encode s h.1 in cc

-- So many bytes, one by one.
Tuple : ℕ → Type 0
Tuple zero = Unit
Tuple (suc n) = ℕ × Tuple n

list_of : (n : ℕ) → Tuple n → Str
unfolding Tuple
list_of zero t = []
list_of (suc n) t = t.0 ∷ list_of n t.1

Tuple-of : (n : ℕ) (s : Str) → length s ≡ n → (t : Tuple n) × (list_of n t ≡ s)
unfolding Tuple list_of
Tuple-of zero [] e = (tt, refl)
Tuple-of zero (x ∷ s) e = absurd (omega (arith, e))
Tuple-of (suc n) [] e = absurd (omega (arith, e))
Tuple-of (suc n) (x ∷ s) e =
    let r = Tuple-of n s (omega (arith, e)) in ((x, r.0), ap (λ z. x ∷ z) r.1)

uuid_of_Tuple :
    (t : Tuple 16) → IsBytes (list_of 16 t) → Classes uuid_pattern (uuid_ascii (list_of 16 t))
unfolding Tuple list_of uuid_ascii overwrite update marked hex_encode repeat uuid_pattern hyphen
    Classes
uuid_of_Tuple
      (
        b0,
        (
          b1,
          (
            b2,
            (b3, (b4, (b5, (b6, (b7, (b8, (b9, (b10, (b11, (b12, (b13, (b14, (b15, b))))))))))))),
          ),
        ),
      )
      (
        h0,
        (
          h1,
          (
            h2,
            (h3, (h4, (h5, (h6, (h7, (h8, (h9, (h10, (h11, (h12, (h13, (h14, (h15, h))))))))))))),
          ),
        ),
      ) =
    (
      high b0 h0,
      (
        low b0,
        (
          high b1 h1,
          (
            low b1,
            (
              high b2 h2,
              (
                low b2,
                (
                  high b3 h3,
                  (
                    low b3,
                    (
                      refl,
                      (
                        high b4 h4,
                        (
                          low b4,
                          (
                            high b5 h5,
                            (
                              low b5,
                              (
                                refl,
                                (
                                  version_digit b6 h6,
                                  (
                                    low (version b6),
                                    (
                                      high b7 h7,
                                      (
                                        low b7,
                                        (
                                          refl,
                                          (
                                            variant_digit-variant b8 h8,
                                            (
                                              low (variant b8),
                                              (
                                                high b9 h9,
                                                (
                                                  low b9,
                                                  (
                                                    refl,
                                                    (
                                                      high b10 h10,
                                                      (
                                                        low b10,
                                                        (
                                                          high b11 h11,
                                                          (
                                                            low b11,
                                                            (
                                                            high b12 h12,
                                                            (
                                                            low b12,
                                                            (
                                                            high b13 h13,
                                                            (
                                                            low b13,
                                                            (
                                                            high b14 h14,
                                                            (
                                                            low b14,
                                                            (high b15 h15, (low b15, tt)),
                                                            ),
                                                            ),
                                                            ),
                                                            ),
                                                            ),
                                                            ),
                                                          ),
                                                        ),
                                                      ),
                                                    ),
                                                  ),
                                                ),
                                              ),
                                            ),
                                          ),
                                        ),
                                      ),
                                    ),
                                  ),
                                ),
                              ),
                            ),
                          ),
                        ),
                      ),
                    ),
                  ),
                ),
              ),
            ),
          ),
        ),
      ),
    )

-- The characters that are written for 16 random bytes are a UUID of version 4 in lower case.
pub uuid_ascii-is_uuid :
    (random : Str) → length random ≡ 16 → IsBytes random → is_uuid (uuid_ascii random) ≡ true
unfolding is_uuid
uuid_ascii-is_uuid random e h =
    let r = Tuple-of 16 random e in
    let k = uuid_of_Tuple r.0 (subst IsBytes (sym r.1) h) in
    subst (λ s. is_uuid (uuid_ascii s) ≡ true) r.1
      (matches_complete uuid_pattern (uuid_ascii (list_of 16 r.0)) k)
