-- ===== src/Certificate.antt =====
-- certificate.go, and the choice of the pin in `newClient` (client.go). SHA-256 and the X.509 library
-- are parameters: a digest of some bytes, and whether a certificate signed another.
pub mod Matching
pub mod Chain
pub mod Pins
pub mod Choice
mod Tests
use tcabci_read_go_client.Prelude.{
  ℤ, ℕ, zero, suc, ◌+◌, ◌-◌, ◌*◌, ◌/◌, ◌%◌, ◌^◌, ◌≤◌, ◌<◌, min, String, ◌≡◌, refl, sym, ap, ◌∙◌,
  subst, ◌≢◌, ◌↔◌, ◌⊎◌, inl, inr, Bool, true, false, not, ◌&&◌, ◌||◌, Option, none, some, List, [],
  ◌∷◌, ◌++◌, map, arith, ltb, leb, ◌==◌, if◌then◌else◌, ltb→lt, lt→ltb, ltb→le, leb→le, ==_iff,
  Bool-cases, Option-cases, get_or, &&_true, length, length-append, take, drop, all, any, All,
  All-append, all-append, any-append, Str, codes, str_eq, str_eq_refl, str_eq→eq, str_eq_iff,
  str_le, StrMap, str_mem, StrNodup, keys, lookup, put, lookup-put, str_mem-keys-put, length-put,
  put-StrNodup, all-str_mem, all_of_str_mem,
}
use tcabci_read_go_client.Errors.{GoError, Result, ok, err, ◌>>=◌, ◌>>◌, guard, plain}
use tcabci_read_go_client.Hex.{hex_decode, hex_encode, equal_fold}

-- `x509.Certificate`, of which the code reads `Raw` and asks `CheckSignatureFrom`.
pub record X509 : Type 1 where
  pub Cert : Type 0
  pub raw : Cert → Str
  -- `child.CheckSignatureFrom(parent) == nil`.
  pub signed_by : Cert → Cert → Bool
  pub sha256 : Str → Str
  -- A digest has 32 bytes.
  pub length-sha256 : (s : Str) → length (sha256 s) ≡ 32

abbrev pub sha256_size : ℕ
sha256_size = 32

abbrev pub default_fingerprints : List Str
default_fingerprints =
    codes "27dec11ab21f4299d56e5965a8dc28623d2441cb136fbe2b1ea3896c81b1a653"
    ∷ codes "75f6d90040cab176418687fdad09adb051010829f31008209c6cf9e8f7b52ef6"
    ∷ codes "5a927cc80015a0c096b52aa25156f9507187ad499576e6a9d7c62ccf284a71c9"
    ∷ codes "97658de8c68dfa98ace1e5028a63d54a1aae911b3e21471076c6850cd08cbab4"
    ∷ codes "13949634d99cd6fd6aa80bc034fefacceb1969feef986586713ecdbb05758d3f"
    ∷ []

-- The list of default pins is shared by all clients, under its own lock; a slice is a copy.
pub set_custom_fingerprint : List Str → List Str → List Str
set_custom_fingerprint fingerprints old = fingerprints

pub add_fingerprints : Str → List Str → List Str
add_fingerprints fingerprint old = old ++ fingerprint ∷ []

pub get_formatted_fingerprints : List Str → List Str
get_formatted_fingerprints defaults = defaults

-- `none` stands for the error, of a text that is not hexadecimal or not of 32 bytes.
unfoldable pub decode_pin : Str → Option Str
decode_pin pin = elim (hex_decode pin) [
  | none ↦ none
  | some decoded ↦ if length decoded == sha256_size then some decoded else none
]

module _ (x : X509) where
  open x use {Cert, raw, signed_by, sha256}

  -- The walk of `signedChain`, after a certificate.
  walk : Cert → List Cert → List Cert
  walk child [] = []
  walk child (parent ∷ rest) =
      let further = walk parent rest in if signed_by child parent then parent ∷ further else []

  pub signed_chain : List Cert → List Cert
  unfolding walk
  signed_chain [] = []
  signed_chain (leaf ∷ rest) = leaf ∷ walk leaf rest

  -- The inner loop of `verifyPeer`: a malformed pin never matches.
  pub matches_any : Str → List Str → Bool
  matches_any actual [] = false
  matches_any actual (pin ∷ pins) =
      let rest = matches_any actual pins in
      elim (decode_pin pin) [
        | none ↦ rest
        | some expected ↦ if str_eq expected actual then true else rest
      ]

  -- The outer loop.
  pub pinned : List Cert → List Str → Bool
  unfolding matches_any
  pinned [] pins = false
  pinned (c ∷ rest) pins =
      let later = pinned rest pins in if matches_any (sha256 (raw c)) pins then true else later

  pub verify_pins : List Cert → List Str → Option GoError
  unfolding pinned signed_chain
  verify_pins [] pins = some (plain (codes "invalid certificate pin"))
  verify_pins (leaf ∷ rest) pins =
      if pinned (signed_chain (leaf ∷ rest)) pins
      then none
      else some (plain (codes "certificate not verified"))

  verify_custom : List Cert → Str → Option GoError
  unfolding verify_pins
  verify_custom certs [] = none
  verify_custom certs (c ∷ cs) = elim (decode_pin (c ∷ cs)) [
    | none ↦ some (plain (codes "invalid certificate pin"))
    | some d ↦ verify_pins certs ((c ∷ cs) ∷ [])
  ]

  -- The custom fingerprint is a pointer; `none` among the results is a nil error.
  pub verify_peer : List Str → List Cert → Option Str → Option GoError
  unfolding verify_custom
  verify_peer defaults certs none = verify_pins certs (get_formatted_fingerprints defaults)
  verify_peer defaults certs (some pin) = verify_custom certs pin

-- What `newClient` takes from its argument `cert`: nothing, or what reading it gave, at most
-- 1 MiB + 1 bytes of it.
abbrev pub max_certificate : ℕ
max_certificate = 1024 * 1024

-- PEM and DER parsing are parameters: a block with its type and bytes, if the input is PEM; and a
-- certificate, if the bytes are one.
pub record Parsers (x : X509) : Type 1 where
  pub pem_decode : Str → Option (Str × Str)
  pub parse_certificate : Str → Option (X509.Cert x)

module _ (x : X509) (p : Parsers x) where
  open x use {raw, sha256}
  open p use {pem_decode, parse_certificate}

  -- A custom pin that is not empty must be well formed.
  pub check_custom : Option Str → Result (Unit {0})
  check_custom none = ok tt
  check_custom (some []) = ok tt
  check_custom (some (c ∷ cs)) = elim (decode_pin (c ∷ cs)) [
    | none ↦ err (plain (codes "invalid certificate pin"))
    | some d ↦ ok tt
  ]

  der_of : Str → Option (Str × Str) → Result Str
  der_of input none = ok input
  der_of input (some (type, bytes)) =
      if str_eq type (codes "CERTIFICATE")
      then ok bytes
      else err (plain (codes "expected server certificate"))

  parsed : Str → Result (X509.Cert x)
  parsed der = elim (parse_certificate der) [
    | none ↦ err (plain (codes "invalid server certificate"))
    | some c ↦ ok c
  ]

  merge_pin : Option Str → Str → Result (Option Str)
  merge_pin none cert_pin = ok (some cert_pin)
  merge_pin (some []) cert_pin = ok (some [])
  merge_pin (some (c ∷ cs)) cert_pin =
      if equal_fold (c ∷ cs) cert_pin
      then ok (some (c ∷ cs))
      else err (plain (codes "certificate and fingerprint disagree"))

  pin_of : Option Str → Result Str → Result (Option Str)
  unfolding der_of parsed merge_pin
  pin_of custom (err e) = err (plain (codes "cannot read server certificate"))
  pin_of custom (ok input) = do
    guard (leb (length input) max_certificate) (plain (codes "server certificate too large"))
    der ← der_of input (pem_decode input)
    c ← parsed der
    merge_pin custom (hex_encode (sha256 (raw c)))

  pub with_certificate : Option Str → Option (Result Str) → Result (Option Str)
  unfolding pin_of
  with_certificate custom none = ok custom
  with_certificate custom (some input) = pin_of custom input

  -- The fingerprint that the client's TLS configuration verifies with: `custom` is the argument
  -- `customFingerprint`, `input` what reading the argument `cert` gave.
  pub select_pin : Option Str → Option (Result Str) → Result (Option Str)
  unfolding check_custom with_certificate
  select_pin custom input = do check_custom custom; with_certificate custom input
