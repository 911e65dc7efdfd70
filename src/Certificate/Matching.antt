-- ===== src/Certificate/Matching.antt =====
-- Which certificates of a chain vouch for its leaf, and how the loops of `verifyPeer` find one with a pin.
use mathlib.Core.Bool.{false≢true}
use mathlib.Core.List.{Memᴰ}
use tcabci_read_go_client.Prelude.{
  ◌≡◌, refl, subst, ◌↔◌, ◌⊎◌, inl, inr, true, Option, none, some, List, [], ◌∷◌, arith,
  if◌then◌else◌, Bool-cases, Str, str_eq, str_eq_iff,
}
use tcabci_read_go_client.Certificate.{
  X509, decode_pin, signed_chain, matches_any, pinned, verify_pins,
}

module _ (x : X509) where
  open x use {Cert, raw, signed_by, sha256}

  -- A certificate that the leaf of a chain leads to, each link signed by the next certificate.
  pub data Vouches : List Cert → Cert → Type 0 where
    leaf : {c : Cert} {rest : List Cert} → Vouches (c ∷ rest) c
    issuer :
        {c d e : Cert} {rest : List Cert}
        → signed_by c d ≡ true
        → Vouches (d ∷ rest) e
        → Vouches (c ∷ d ∷ rest) e

  -- The digest of the certificate is one of the pins.
  pub record Pinned (certs : List Cert) (pins : List Str) : Type 0 where
    pub cert : Cert
    pub vouched : Vouches certs cert
    pub pin : Str
    pub listed : Memᴰ pin pins
    pub decoded : decode_pin pin ≡ some (sha256 (raw cert))

  record Match (actual : Str) (pins : List Str) : Type 0 where
    pin : Str
    listed : Memᴰ pin pins
    decoded : decode_pin pin ≡ some actual

  matches_any-cons :
      (actual pin : Str) (pins : List Str)
      → matches_any x actual (pin ∷ pins) ≡ true
      → (decode_pin pin ≡ some actual) ⊎ (matches_any x actual pins ≡ true)
  unfolding matches_any
  matches_any-cons actual pin pins h = go (decode_pin pin) h
    where
      go :
          (o : Option Str)
          → (elim o [
            | none ↦ matches_any x actual pins
            | some e ↦ if str_eq e actual then true else matches_any x actual pins
          ])
            ≡ true
          → (o ≡ some actual) ⊎ (matches_any x actual pins ≡ true)
      go none h = inr h
      go (some e) h = ground (arith, str_eq_iff e actual)

  matches_any-nil : (actual : Str) → matches_any x actual [] ≡ true → ⊥
  unfolding matches_any
  matches_any-nil actual h = cc

  matches_any_sound :
      (actual : Str) (pins : List Str) → matches_any x actual pins ≡ true → Match actual pins
  matches_any_sound actual [] h = absurd (matches_any-nil actual h)
  matches_any_sound actual (pin ∷ pins) h = elim (matches_any-cons actual pin pins h) [
    | inl e ↦ record { pin = pin; listed = Memᴰ.head refl; decoded = e }
    | inr r ↦
        let m = matches_any_sound actual pins r in
        record { pin = m.pin; listed = Memᴰ.tail m.listed; decoded = m.decoded }
  ]

  matches_any_complete :
      (actual : Str) (pins : List Str) {pin : Str}
      → Memᴰ pin pins
      → decode_pin pin ≡ some actual
      → matches_any x actual pins ≡ true
  unfolding matches_any
  matches_any_complete actual [] m d = elim m [ ]
  matches_any_complete actual (p ∷ pins) (Memᴰ.head e) d =
      go (decode_pin p) (subst (λ z. decode_pin z ≡ some actual) e d)
    where
      go :
          (o : Option Str)
          → o ≡ some actual
          → (elim o [
            | none ↦ matches_any x actual pins
            | some e ↦ if str_eq e actual then true else matches_any x actual pins
          ])
            ≡ true
      go none h = cc
      go (some e) h = ground (arith, str_eq_iff e actual)
  matches_any_complete actual (p ∷ pins) (Memᴰ.tail m) d =
      go (decode_pin p) (matches_any_complete actual pins m d)
    where
      go :
          (o : Option Str)
          → matches_any x actual pins ≡ true
          → (elim o [
            | none ↦ matches_any x actual pins
            | some e ↦ if str_eq e actual then true else matches_any x actual pins
          ])
            ≡ true
      go none h = h
      go (some e) h = ground arith

  Match-Pinned :
      (c : Cert) (rest : List Cert) (pins : List Str)
      → Match (sha256 (raw c)) pins
      → Pinned (c ∷ rest) pins
  Match-Pinned c rest pins m = record {
    cert = c;
    vouched = leaf;
    pin = m.pin;
    listed = m.listed;
    decoded = m.decoded;
  }

  linked :
      (c d : Cert) (rest : List Cert) (pins : List Str)
      → signed_by c d ≡ true
      → Pinned (d ∷ rest) pins
      → Pinned (c ∷ d ∷ rest) pins
  linked c d rest pins s p = record {
    cert = p.cert;
    vouched = issuer s p.vouched;
    pin = p.pin;
    listed = p.listed;
    decoded = p.decoded;
  }

  pinned_sound :
      (c : Cert) (rest : List Cert) (pins : List Str)
      → pinned x (signed_chain x (c ∷ rest)) pins ≡ true
      → Pinned (c ∷ rest) pins
  unfolding pinned signed_chain
  pinned_sound c [] pins h = elim (Bool-cases (matches_any x (sha256 (raw c)) pins)) [
    | inl e ↦ Match-Pinned c [] pins (matches_any_sound (sha256 (raw c)) pins e)
    | inr n ↦ absurd (false≢true (rw n at h))
  ]
  pinned_sound c (d ∷ rest) pins h = elim (Bool-cases (matches_any x (sha256 (raw c)) pins)) [
    | inl e ↦ Match-Pinned c (d ∷ rest) pins (matches_any_sound (sha256 (raw c)) pins e)
    | inr n ↦ elim (Bool-cases (signed_by c d)) [
      | inl s ↦ linked c d rest pins s (pinned_sound d rest pins (rw s at rw n at h))
      | inr m ↦ absurd (false≢true (rw m at rw n at h))
    ]
  ]

  pinned_complete :
      {certs : List Cert} {e : Cert} (pins : List Str)
      → Vouches certs e
      → matches_any x (sha256 (raw e)) pins ≡ true
      → pinned x (signed_chain x certs) pins ≡ true
  unfolding pinned signed_chain
  pinned_complete pins leaf h = rw h
  pinned_complete pins (issuer {c} {d} {e} {rest} s v) h =
      let later = pinned_complete pins v h in ground (arith, later)

  pub verify_pins_iff :
      (certs : List Cert) (pins : List Str) → (verify_pins x certs pins ≡ none) ↔ Pinned certs pins
  unfolding verify_pins
  verify_pins_iff [] pins = ((λ h. cc), λ p. absurd (no_leaf p.vouched))
    where
      no_leaf : {c : Cert} → Vouches [] c → ⊥
      no_leaf v = elim v [ ]
  verify_pins_iff (c ∷ rest) pins = (
    (λ h. pinned_sound c rest pins (ground arith)),
    λ p. rw (pinned_complete pins p.vouched (matches_any_complete _ pins p.listed p.decoded)),
  )
