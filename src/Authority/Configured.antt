-- ===== src/Authority/Configured.antt =====
-- A client's signer never meets an address that it would refuse.
use tcabci_read_go_client.Prelude.{
  ◌≡◌, refl, ◌⊎◌, inl, inr, true, Option, none, some, List, [], ◌∷◌, Bool-cases, Option-cases, Str,
}
use mathlib.Core.Path.{◌∙◌}
use tcabci_read_go_client.Errors.{ok}
use tcabci_read_go_client.Authority.{
  Signer, Surroundings, address_bad, create_with, create_ws_authority_v3, Authority, no_authority,
  with_ws_authority, authority_for,
}
use tcabci_read_go_client.Authority.Header.{
  Signed, create_ws_authority_v3_ok_iff, Fit, address_bad-Fit,
}

-- The arguments of one `WithWSAuthority`.
abbrev pub Setting : Type 0
Setting = Str × Option Signer

pub settings : List Setting → Authority → Authority
unfolding with_ws_authority
settings [] a = a
settings ((address, sign) ∷ rest) a = settings rest (with_ws_authority address sign a).0

abbrev Configured : Authority → Type 0
Configured a =
    ((sign : Signer) → a.signer ≡ some sign → Fit a.address) × (a.signer ≡ none → a.address ≡ [])

with_ws_authority-Configured :
    (address : Str) (sign : Option Signer) (a : Authority)
    → Configured a
    → Configured (with_ws_authority address sign a).0
unfolding with_ws_authority
with_ws_authority-Configured address none a v = ((λ g e. cc), λ e. refl)
with_ws_authority-Configured address (some sign) a v = elim (Bool-cases (address_bad address)) [
  | inl q ↦ rw (q, with_ws_authority) v
  | inr q ↦ rw (q, with_ws_authority) ((λ g e. (address_bad-Fit address).0 q), λ e. cc)
]

settings-Configured :
    (xs : List Setting) (a : Authority) → Configured a → Configured (settings xs a)
unfolding settings
settings-Configured [] a v = v
settings-Configured ((address, sign) ∷ rest) a v =
    settings-Configured rest (with_ws_authority address sign a).0
      (with_ws_authority-Configured address sign a v)

-- After any calls of `WithWSAuthority`, those that fail included, a client without a signer keeps no
-- address, and `runSession` asks for no authority before a dial; with a signer, its address fits, so that
-- the authority is not refused for its configuration: it is what the signing of that address gives.
pub settings-authority_for :
    (xs : List Setting) (s : Surroundings)
    → s.has_context ≡ true
    → let a = settings xs no_authority in
      ((a.signer ≡ none) × (a.address ≡ []) × (authority_for s a ≡ none))
      ⊎ ((sign : Signer) × (a.signer ≡ some sign)
          × Fit a.address
          × (authority_for s a ≡ some (create_with s a.address sign)))
unfolding no_authority authority_for create_ws_authority_v3
settings-authority_for xs s c =
    go (settings xs no_authority) (settings-Configured xs no_authority ((λ g e. cc), λ e. refl))
  where
    go :
        (a : Authority)
        → Configured a
        → ((a.signer ≡ none) × (a.address ≡ []) × (authority_for s a ≡ none))
          ⊎ ((sign : Signer) × (a.signer ≡ some sign)
              × Fit a.address
              × (authority_for s a ≡ some (create_with s a.address sign)))
    go a v = elim (Option-cases a.signer) [
      | inl e ↦ inl (e, v.1 e, rw (e, authority_for) refl)
      | inr (sign, e) ↦
          let f = v.0 sign e in
          inr (sign, e, f, rw (e, authority_for) (rw (c, (address_bad-Fit a.address).1 f) refl))
    ]

-- What a dial without a header, and one with a header, tell of the configuration.
authority_for_with :
    (s : Surroundings) (a : Authority) (sign : Signer)
    → a.signer ≡ some sign
    → authority_for s a ≡ some (create_ws_authority_v3 s a.address (some sign))
unfolding authority_for
authority_for_with s a sign e = rw (e, authority_for) refl

pub authority_for-none :
    (s : Surroundings) (a : Authority) → authority_for s a ≡ none → a.signer ≡ none
authority_for-none s a e = elim (Option-cases a.signer) [
  | inl q ↦ q
  | inr (sign, q) ↦ let k = authority_for_with s a sign q in cc
]

pub authority_for_header :
    (s : Surroundings) (a : Authority) (h : Str)
    → authority_for s a ≡ some (ok h)
    → (sign : Signer) × (a.signer ≡ some sign) × Fit a.address × Signed s a.address sign h
unfolding authority_for
authority_for_header s a h e = elim (Option-cases a.signer) [
  | inl q ↦ let k : authority_for s a ≡ none = rw (q, authority_for) refl in cc
  | inr (sign, q) ↦
      let k = authority_for_with s a sign q in
      let m : create_ws_authority_v3 s a.address (some sign) ≡ ok h = cc in
      let (c, f, (other, o, g)) = (create_ws_authority_v3_ok_iff s a.address (some sign) h).0 m in
      let p : a.signer ≡ some other = q ∙ o in (other, p, f, g)
]
