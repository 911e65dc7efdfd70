-- ===== src/Certificate/Chain.antt =====
-- What `verifyPeer` accepts.
use mathlib.Core.List.{Memᴰ}
use tcabci_read_go_client.Prelude.{
  ℕ, ◌≡◌, refl, sym, ap, ◌∙◌, subst, ◌≢◌, ◌↔◌, ◌⊎◌, inl, inr, true, false, Option, none, some, List,
  [], ◌∷◌, ◌++◌, arith, if◌then◌else◌, Str, codes,
}
use tcabci_read_go_client.Errors.{GoError, plain}
use tcabci_read_go_client.Certificate.{
  X509, get_formatted_fingerprints, decode_pin, walk, signed_chain, pinned, verify_pins,
  verify_custom, verify_peer,
}
use tcabci_read_go_client.Certificate.Matching.{leaf, issuer, Pinned, verify_pins_iff}

module _ (x : X509) where
  open x use {Cert, raw, signed_by, sha256}

  abbrev checked : List Cert → List Str → Option Str → Option GoError
  checked certs pins none = some (plain (codes "invalid certificate pin"))
  checked certs pins (some d) = verify_pins x certs pins

  verify_custom-checked :
      (certs : List Cert) (c : ℕ) (cs : Str)
      → verify_custom x certs (c ∷ cs) ≡ checked certs ((c ∷ cs) ∷ []) (decode_pin (c ∷ cs))
  unfolding verify_custom
  verify_custom-checked certs c cs = ground arith

  verify_custom_iff :
      (certs : List Cert) (c : ℕ) (cs : Str)
      → (verify_custom x certs (c ∷ cs) ≡ none) ↔ Pinned x certs ((c ∷ cs) ∷ [])
  verify_custom_iff certs c cs = (
    (λ h. go (decode_pin (c ∷ cs)) (sym (verify_custom-checked certs c cs) ∙ h)),
    λ p. verify_custom-checked certs c cs ∙ back p,
  )
    where
      go :
          (o : Option Str) → checked certs ((c ∷ cs) ∷ []) o ≡ none → Pinned x certs ((c ∷ cs) ∷ [])
      go none h = cc
      go (some d) h = (verify_pins_iff x certs ((c ∷ cs) ∷ [])).0 h

      only : {pin : Str} → Memᴰ pin ((c ∷ cs) ∷ []) → pin ≡ c ∷ cs
      only (Memᴰ.head e) = e
      only (Memᴰ.tail m) = elim m [ ]

      back :
          Pinned x certs ((c ∷ cs) ∷ [])
          → checked certs ((c ∷ cs) ∷ []) (decode_pin (c ∷ cs)) ≡ none
      back p =
          subst (λ o. checked certs ((c ∷ cs) ∷ []) o ≡ none)
            (sym (subst (λ z. decode_pin z ≡ some (sha256 (raw p.cert))) (only p.listed) p.decoded))
            ((verify_pins_iff x certs ((c ∷ cs) ∷ [])).1 p)

  -- The pins that a client goes by: its own one, or the default list as it is at that moment.
  abbrev pub in_force : List Str → Option Str → List Str
  in_force defaults none = defaults
  in_force defaults (some pin) = pin ∷ []

  -- Pinning accepts a chain exactly when it is switched off by an empty custom pin, or some
  -- certificate that vouches for the leaf (the leaf itself, or one that a chain of valid signatures
  -- leads to) has the digest of a pin in force: of the custom pin if one is given, and else of an
  -- entry of the default list.
  pub verify_peer_iff :
      (defaults : List Str) (certs : List Cert) (custom : Option Str)
      → (verify_peer x defaults certs custom ≡ none)
        ↔ ((custom ≡ some []) ⊎ ((custom ≢ some []) × Pinned x certs (in_force defaults custom)))
  unfolding verify_peer get_formatted_fingerprints verify_custom
  verify_peer_iff defaults certs none = (
    (λ h. inr ((λ e. cc), (verify_pins_iff x certs defaults).0 h)),
    λ h. elim h [ inl e ↦ cc | inr (n, q) ↦ (verify_pins_iff x certs defaults).1 q ],
  )
  verify_peer_iff defaults certs (some []) = ((λ h. inl refl), λ h. refl)
  verify_peer_iff defaults certs (some (c ∷ cs)) = (
    (λ h. inr ((λ e. cc), (verify_custom_iff certs c cs).0 h)),
    λ h. elim h [ inl e ↦ cc | inr (n, q) ↦ (verify_custom_iff certs c cs).1 q ],
  )

  walk-broken :
      (b : Cert) (xs : List Cert) (c d : Cert) (ys : List Cert)
      → signed_by c d ≡ false
      → walk x b (xs ++ c ∷ d ∷ ys) ≡ walk x b (xs ++ c ∷ [])
  unfolding walk
  walk-broken b [] c d ys h = rw h
  walk-broken b (a ∷ xs) c d ys h = rw (walk-broken a xs c d ys h)

  signed_chain-broken :
      (xs : List Cert) (c d : Cert) (ys : List Cert)
      → signed_by c d ≡ false
      → signed_chain x (xs ++ c ∷ d ∷ ys) ≡ signed_chain x (xs ++ c ∷ [])
  unfolding signed_chain walk
  signed_chain-broken [] c d ys h = rw h
  signed_chain-broken (a ∷ xs) c d ys h = ap (λ l. a ∷ l) (walk-broken a xs c d ys h)

  verify_pins-broken :
      (xs : List Cert) (c d : Cert) (ys : List Cert) (pins : List Str)
      → signed_by c d ≡ false
      → verify_pins x (xs ++ c ∷ d ∷ ys) pins ≡ verify_pins x (xs ++ c ∷ []) pins
  unfolding verify_pins
  verify_pins-broken [] c d ys pins h =
      ap (λ l. if pinned x l pins then none else some (plain (codes "certificate not verified")))
        (signed_chain-broken [] c d ys h)
  verify_pins-broken (a ∷ xs) c d ys pins h =
      ap (λ l. if pinned x l pins then none else some (plain (codes "certificate not verified")))
        (signed_chain-broken (a ∷ xs) c d ys h)

  -- What a server appends behind the first broken link does not change the verdict: a certificate that
  -- did not sign the one before it, and all after it, may as well not be sent.
  pub verify_peer-unrelated :
      (defaults : List Str) (custom : Option Str) (xs : List Cert) (c d : Cert) (ys : List Cert)
      → signed_by c d ≡ false
      → verify_peer x defaults (xs ++ c ∷ d ∷ ys) custom
        ≡ verify_peer x defaults (xs ++ c ∷ []) custom
  unfolding verify_peer verify_custom get_formatted_fingerprints
  verify_peer-unrelated defaults custom xs c d ys h = go custom
    where
      go :
          (custom : Option Str)
          → verify_peer x defaults (xs ++ c ∷ d ∷ ys) custom
            ≡ verify_peer x defaults (xs ++ c ∷ []) custom
      go none = verify_pins-broken xs c d ys defaults h
      go (some []) = refl
      go (some (p ∷ ps)) =
          verify_custom-checked (xs ++ c ∷ d ∷ ys) p ps
          ∙ alike (decode_pin (p ∷ ps))
          ∙ sym (verify_custom-checked (xs ++ c ∷ []) p ps)
        where
          alike :
              (o : Option Str)
              → checked (xs ++ c ∷ d ∷ ys) ((p ∷ ps) ∷ []) o
                ≡ checked (xs ++ c ∷ []) ((p ∷ ps) ∷ []) o
          alike none = refl
          alike (some e) = verify_pins-broken xs c d ys ((p ∷ ps) ∷ []) h

  -- A pin of the issuer accepts every leaf that the issuer signed, whatever the leaf's own digest.
  pub issuer_pin_accepted :
      (defaults : List Str) (leaf_cert issuer_cert : Cert) (rest : List Cert) (pin : Str)
      → signed_by leaf_cert issuer_cert ≡ true
      → decode_pin pin ≡ some (sha256 (raw issuer_cert))
      → pin ≢ []
      → verify_peer x defaults (leaf_cert ∷ issuer_cert ∷ rest) (some pin) ≡ none
  issuer_pin_accepted defaults leaf_cert issuer_cert rest pin s d n =
      (verify_peer_iff defaults (leaf_cert ∷ issuer_cert ∷ rest) (some pin)).1 (
        inr (
          (λ e. n (ground arith)),
          record {
            cert = issuer_cert;
            vouched = issuer s leaf;
            pin = pin;
            listed = Memᴰ.head refl;
            decoded = d;
          },
        ))
