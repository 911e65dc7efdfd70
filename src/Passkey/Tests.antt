-- ===== src/Passkey/Tests.antt =====
-- An identifier from a constant source and a toy digest.
use tcabci_read_go_client.Prelude.{
  ℕ, zero, suc, ◌≡◌, refl, subst, true, Option, none, some, [], ◌∷◌, arith, ltb, if◌then◌else◌,
  length, all, All, Str, codes,
}
use tcabci_read_go_client.Errors.{ok, err, plain}
use tcabci_read_go_client.Hex.{hex_encode, IsBytes}
use tcabci_read_go_client.Passkey.{
  Sha512, uuid_ascii, zeros, overwrite, marked, version, variant, feed, read_full, update,
  create_client_instance_id,
}
use tcabci_read_go_client.Passkey.Pattern.{lower_hex, is_uuid}
use tcabci_read_go_client.Passkey.Identifier.{IsSource, create_client_instance_id_form}

abbrev noise : Str
noise = 0 ∷ 17 ∷ 34 ∷ 51 ∷ 68 ∷ 85 ∷ 255 ∷ 119 ∷ 255 ∷ 153 ∷ 170 ∷ 187 ∷ 204 ∷ 221 ∷ 238 ∷ 255 ∷ []

spelled : uuid_ascii noise ≡ codes "00112233-4455-4f77-bf99-aabbccddeeff"
unfolding uuid_ascii overwrite marked update version variant hex_encode
spelled = refl

zeros-IsBytes : IsBytes (zeros 64)
zeros-IsBytes = all_zero 64
  where
    all_zero : (n : ℕ) → IsBytes (zeros n)
    all_zero zero = tt
    all_zero (suc n) = (omega arith, all_zero n)

abbrev toy : Sha512
toy = record { sum = λ s. zeros 64; length-sum = λ s. refl; sum-IsBytes = λ s. zeros-IsBytes }

abbrev constant : ℕ → Option Str
constant n = some noise

-- The source fails at the third read.
abbrev failing : ℕ → Option Str
failing n = if ltb n 2 then some noise else none

refused :
    create_client_instance_id toy failing ≡ err (plain (codes "cannot generate client instance ID"))
unfolding create_client_instance_id feed read_full
refused = refl

abbrev identifier : Str
identifier = hex_encode (zeros 64)

succeeds : create_client_instance_id toy constant ≡ ok identifier
unfolding create_client_instance_id feed read_full
succeeds = refl

constant-IsSource : IsSource constant
constant-IsSource n entropy e =
    let h : noise ≡ entropy = cc in subst (λ s. (length s ≡ 16) × IsBytes s) h (refl, noise_IsBytes)
  where
    noise_IsBytes : IsBytes noise
    noise_IsBytes = (
      omega arith,
      (
        omega arith,
        (
          omega arith,
          (
            omega arith,
            (
              omega arith,
              (
                omega arith,
                (
                  omega arith,
                  (
                    omega arith,
                    (
                      omega arith,
                      (
                        omega arith,
                        (
                          omega arith,
                          (
                            omega arith,
                            (omega arith, (omega arith, (omega arith, (omega arith, tt)))),
                          ),
                        ),
                      ),
                    ),
                  ),
                ),
              ),
            ),
          ),
        ),
      ),
    )

create_client_instance_id_form_example :
    (length identifier ≡ 128)
    × (all lower_hex identifier ≡ true)
    × ((a b c d : Str) × (identifier ≡ hex_encode (zeros 64))
        × All (λ s. is_uuid s ≡ true) (a ∷ b ∷ c ∷ d ∷ []))
create_client_instance_id_form_example =
    create_client_instance_id_form toy constant identifier constant-IsSource succeeds
