-- ===== src/Certificate/Choice.antt =====
-- The pin that `newClient` chooses, as README.md tabulates it.
use mathlib.Core.List.{Memᴰ}
use tcabci_read_go_client.Prelude.{
  ℕ, ◌≤◌, ◌≡◌, refl, sym, ◌∙◌, subst, ◌≢◌, ◌↔◌, ◌⊎◌, inl, inr, true, false, Option, none, some,
  List, [], ◌∷◌, arith, Bool-cases, Option-cases, length, Str, codes, str_eq_refl,
}
use tcabci_read_go_client.Errors.{Result, ok}
use tcabci_read_go_client.Errors.Steps.{then_inv}
use tcabci_read_go_client.Hex.{hex_decode, hex_encode, equal_fold, IsBytes}
use tcabci_read_go_client.Hex.Laws.{hex_decode-encode, equal_fold-encode}
use tcabci_read_go_client.Certificate.{
  X509, Parsers, max_certificate, decode_pin, verify_peer, check_custom, with_certificate, der_of,
  parsed, merge_pin, pin_of, select_pin,
}
use tcabci_read_go_client.Certificate.Matching.{leaf}
use tcabci_read_go_client.Certificate.Chain.{verify_peer_iff}

module _ (x : X509) (p : Parsers x) where
  open x use {Cert, raw, sha256, length-sha256}
  open p use {pem_decode, parse_certificate}

  -- The input is a certificate: small enough, and DER, or PEM of the right type.
  pub record Reads (input : Str) (c : Cert) : Type 0 where
    pub small : length input ≤ max_certificate
    pub der : Str
    pub block :
        ((pem_decode input ≡ none) × (der ≡ input))
        ⊎ (pem_decode input ≡ some (codes "CERTIFICATE", der))
    pub cert : parse_certificate der ≡ some c

  der_of-Reads :
      (input : Str) (c : Cert) (r : Reads input c)
      → der_of x p input (pem_decode input) ≡ ok (r.der)
  unfolding der_of
  der_of-Reads input c r = elim r.block [
    | inl (e, d) ↦ rw (e, d)
    | inr e ↦ rw e (rw (str_eq_refl (codes "CERTIFICATE")))
  ]

  pin_of-Reads :
      (custom : Option Str) (input : Str) (c : Cert)
      → Reads input c
      → pin_of x p custom (ok input) ≡ merge_pin x p custom (hex_encode (sha256 (raw c)))
  unfolding pin_of parsed
  pin_of-Reads custom input c r = ground (arith, r.small, der_of-Reads input c r, r.cert)

  -- The three ways to a fingerprint from an argument and a certificate with the given digest.
  pub data Chosen (digest : Str) : Option Str → Option Str → Type 0 where
    off : Chosen digest (some []) (some [])
    derived : Chosen digest none (some (hex_encode digest))
    agreed : (v : Str) → v ≢ [] → hex_decode v ≡ some digest → Chosen digest (some v) (some v)

  decode_pin-digest :
      (v : Str) (c : Cert)
      → hex_decode v ≡ some (sha256 (raw c))
      → decode_pin v ≡ some (sha256 (raw c))
  unfolding decode_pin
  decode_pin-digest v c h = rw (h, decode_pin) (ground (arith, length-sha256 (raw c)))

  select_pin-merge :
      (custom : Option Str) (input : Str) (c : Cert)
      → Reads input c
      → check_custom x p custom ≡ ok tt
      → select_pin x p custom (some (ok input)) ≡ merge_pin x p custom (hex_encode (sha256 (raw c)))
  unfolding select_pin
  select_pin-merge custom input c r h = rw h (pin_of-Reads custom input c r)

  check_custom-ok :
      (a : ℕ) (rest : Str) {d : Str}
      → decode_pin (a ∷ rest) ≡ some d
      → check_custom x p (some (a ∷ rest)) ≡ ok tt
  unfolding check_custom
  check_custom-ok a rest e = rw (e, check_custom)

  select_pin-malformed :
      (a : ℕ) (rest : Str) (input : Str) {pin : Option Str}
      → decode_pin (a ∷ rest) ≡ none
      → select_pin x p (some (a ∷ rest)) (some (ok input)) ≢ ok pin
  unfolding select_pin check_custom
  select_pin-malformed a rest input e h = ground arith

  -- A pin with the digest of the leaf accepts the chain.
  own_pin :
      (defaults : List Str) (c : Cert) (rest : List Cert) (v : Str)
      → hex_decode v ≡ some (sha256 (raw c))
      → verify_peer x defaults (c ∷ rest) (some v) ≡ none
  own_pin defaults c rest [] d = (verify_peer_iff x defaults (c ∷ rest) (some [])).1 (inl refl)
  own_pin defaults c rest (a ∷ v) d = (verify_peer_iff x defaults (c ∷ rest) (some (a ∷ v))).1 (
      inr (
        (λ z. cc),
        record {
          cert = c;
          vouched = leaf;
          pin = a ∷ v;
          listed = Memᴰ.head refl;
          decoded = decode_pin-digest (a ∷ v) c d;
        },
      ))

  Chosen-select_pin :
      (input : Str) (c : Cert) {custom pin : Option Str}
      → Reads input c
      → IsBytes (sha256 (raw c))
      → Chosen (sha256 (raw c)) custom pin
      → select_pin x p custom (some (ok input)) ≡ ok pin
  unfolding merge_pin check_custom
  Chosen-select_pin input c r b off = select_pin-merge (some []) input c r refl
  Chosen-select_pin input c r b derived = select_pin-merge none input c r refl
  Chosen-select_pin input c r b (agreed [] n d) = absurd (n refl)
  Chosen-select_pin input c r b (agreed (h ∷ t) n d) =
      select_pin-merge (some (h ∷ t)) input c r
        (check_custom-ok h t (decode_pin-digest (h ∷ t) c d))
      ∙ rw ((equal_fold-encode (h ∷ t) (sha256 (raw c)) b).1 d)

  select_pin-Chosen :
      (custom pin : Option Str) (input : Str) (c : Cert)
      → Reads input c
      → IsBytes (sha256 (raw c))
      → select_pin x p custom (some (ok input)) ≡ ok pin
      → Chosen (sha256 (raw c)) custom pin
  unfolding merge_pin
  select_pin-Chosen none pin input c r b h =
      subst (Chosen (sha256 (raw c)) none)
        (cc (select_pin-merge none input c r (unfold check_custom in refl))) derived
  select_pin-Chosen (some []) pin input c r b h =
      subst (Chosen (sha256 (raw c)) (some []))
        (cc (select_pin-merge (some []) input c r (unfold check_custom in refl))) off
  select_pin-Chosen (some (a ∷ rest)) pin input c r b h =
      elim (Option-cases (decode_pin (a ∷ rest))) [
        | inl e ↦ absurd (select_pin-malformed a rest input e h)
        | inr (d, e) ↦
            let m = select_pin-merge (some (a ∷ rest)) input c r (check_custom-ok a rest e) in
            elim (Bool-cases (equal_fold (a ∷ rest) (hex_encode (sha256 (raw c))))) [
              | inl q ↦ subst (Chosen (sha256 (raw c)) (some (a ∷ rest))) (named (sym m ∙ h) q) (
                  agreed (a ∷ rest) (λ z. cc)
                    ((equal_fold-encode (a ∷ rest) (sha256 (raw c)) b).0 q))
              | inr q ↦ absurd (differs (sym m ∙ h) q)
            ]
      ]
    where
      named :
          merge_pin x p (some (a ∷ rest)) (hex_encode (sha256 (raw c))) ≡ ok pin
          → equal_fold (a ∷ rest) (hex_encode (sha256 (raw c))) ≡ true
          → some (a ∷ rest) ≡ pin
      named h q = ground arith

      differs :
          merge_pin x p (some (a ∷ rest)) (hex_encode (sha256 (raw c))) ≡ ok pin
          → equal_fold (a ∷ rest) (hex_encode (sha256 (raw c))) ≡ false
          → ⊥
      differs h q = ground arith

  -- The fingerprint that `newClient` settles on, given a readable certificate: an empty fingerprint
  -- switches pinning off, none takes the certificate's own digest, and another one is kept exactly if
  -- it names that digest, in upper or lower case; everything else is refused.
  pub select_pin_iff :
      (custom pin : Option Str) (input : Str) (c : Cert)
      → Reads input c
      → IsBytes (sha256 (raw c))
      → (select_pin x p custom (some (ok input)) ≡ ok pin) ↔ Chosen (sha256 (raw c)) custom pin
  select_pin_iff custom pin input c r b =
      (select_pin-Chosen custom pin input c r b, Chosen-select_pin input c r b)

  Chosen-accepts :
      (defaults : List Str) (c : Cert) (rest : List Cert) {custom pin : Option Str}
      → IsBytes (sha256 (raw c))
      → Chosen (sha256 (raw c)) custom pin
      → verify_peer x defaults (c ∷ rest) pin ≡ none
  Chosen-accepts defaults c rest b off =
      (verify_peer_iff x defaults (c ∷ rest) (some [])).1 (inl refl)
  Chosen-accepts defaults c rest b derived =
      own_pin defaults c rest (hex_encode (sha256 (raw c))) (hex_decode-encode (sha256 (raw c)) b)
  Chosen-accepts defaults c rest b (agreed v n d) = own_pin defaults c rest v d

  -- Whatever the fingerprint given beside a certificate: if `newClient` accepts the two, the client
  -- accepts the server that presents that certificate as its leaf.
  pub select_pin-verify_peer :
      (defaults : List Str) (custom pin : Option Str) (input : Str) (c : Cert) (rest : List Cert)
      → Reads input c
      → IsBytes (sha256 (raw c))
      → select_pin x p custom (some (ok input)) ≡ ok pin
      → verify_peer x defaults (c ∷ rest) pin ≡ none
  select_pin-verify_peer defaults custom pin input c rest r b h =
      Chosen-accepts defaults c rest b (select_pin-Chosen custom pin input c r b h)

  -- A fingerprint is settled on exactly if the argument is well formed and goes with the certificate.
  pub select_pin_steps :
      (custom pin : Option Str) (input : Option (Result Str))
      → (select_pin x p custom input ≡ ok pin)
        ↔ ((check_custom x p custom ≡ ok tt) × (with_certificate x p custom input ≡ ok pin))
  unfolding select_pin
  select_pin_steps custom pin input = (
    (λ h. then_inv (check_custom x p custom) (with_certificate x p custom input) h),
    λ (h, k). rw h k,
  )
