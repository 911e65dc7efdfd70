-- ===== src/Certificate/Pins.antt =====
-- The default pins, and the pins of newer releases.
use mathlib.Core.List.{Memᴰ}
use tcabci_read_go_client.Prelude.{
  ◌≡◌, refl, ◌≢◌, inl, inr, Option, none, some, List, [], ◌∷◌, ◌++◌, Str,
}
use tcabci_read_go_client.Certificate.{
  X509, add_fingerprints, set_custom_fingerprint, decode_pin, verify_peer,
}
use tcabci_read_go_client.Certificate.Matching.{leaf, Pinned}
use tcabci_read_go_client.Certificate.Chain.{in_force, verify_peer_iff}

Memᴰ-append_left {ℓ} : {A : Type ℓ} {a : A} (xs ys : List A) → Memᴰ a xs → Memᴰ a (xs ++ ys)
Memᴰ-append_left [] ys m = elim m [ ]
Memᴰ-append_left (x ∷ xs) ys (Memᴰ.head e) = Memᴰ.head e
Memᴰ-append_left (x ∷ xs) ys (Memᴰ.tail m) = Memᴰ.tail (Memᴰ-append_left xs ys m)

Memᴰ-append_self {ℓ} : {A : Type ℓ} (a : A) (xs : List A) → Memᴰ a (xs ++ a ∷ [])
Memᴰ-append_self a [] = Memᴰ.head refl
Memᴰ-append_self a (x ∷ xs) = Memᴰ.tail (Memᴰ-append_self a xs)

module _ (x : X509) where
  open x use {Cert, raw, sha256}

  more_pins :
      (defaults : List Str) (pin : Str) (certs : List Cert) (custom : Option Str)
      → Pinned x certs (in_force x defaults custom)
      → Pinned x certs (in_force x (defaults ++ pin ∷ []) custom)
  more_pins defaults pin certs none q = record {
    cert = q.cert;
    vouched = q.vouched;
    pin = q.pin;
    listed = Memᴰ-append_left defaults (pin ∷ []) q.listed;
    decoded = q.decoded;
  }
  more_pins defaults pin certs (some p) q = q

  -- Adding a default pin takes away no chain that was accepted, with a custom pin or without.
  pub add_fingerprints-keeps :
      (defaults : List Str) (pin : Str) (certs : List Cert) (custom : Option Str)
      → verify_peer x defaults certs custom ≡ none
      → verify_peer x (add_fingerprints pin defaults) certs custom ≡ none
  unfolding add_fingerprints
  add_fingerprints-keeps defaults pin certs custom h =
      (verify_peer_iff x (defaults ++ pin ∷ []) certs custom).1
        (elim ((verify_peer_iff x defaults certs custom).0 h) [
          | inl e ↦ inl e
          | inr (n, q) ↦ inr (n, more_pins defaults pin certs custom q)
        ])

  -- After a pin is added, a client without a custom pin accepts each chain whose leaf has the digest
  -- that the pin names; `SetCustomFingerprint` then replaces that list, and with an empty one nothing
  -- is accepted any more.
  pub default_list_in_use :
      (defaults : List Str) (pin : Str) (leaf_cert : Cert) (rest : List Cert)
      → decode_pin pin ≡ some (sha256 (raw leaf_cert))
      → (verify_peer x (add_fingerprints pin defaults) (leaf_cert ∷ rest) none ≡ none)
        × (verify_peer x
              (set_custom_fingerprint [] (add_fingerprints pin defaults))
              (leaf_cert ∷ rest)
              none
            ≢ none)
  unfolding add_fingerprints set_custom_fingerprint
  default_list_in_use defaults pin leaf_cert rest d = (
    (verify_peer_iff x (defaults ++ pin ∷ []) (leaf_cert ∷ rest) none).1 (
        inr (
          (λ e. cc),
          record {
            cert = leaf_cert;
            vouched = leaf;
            pin = pin;
            listed = Memᴰ-append_self pin defaults;
            decoded = d;
          },
        )),
    λ h. elim ((verify_peer_iff x [] (leaf_cert ∷ rest) none).0 h) [
      | inl e ↦ cc
      | inr (n, q) ↦ elim q.listed [ ]
    ],
  )
