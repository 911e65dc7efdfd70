-- ===== src/Authority/Header.antt =====
-- When a header is made, and what a reader finds in it.
use tcabci_read_go_client.Prelude.{
  ◌≤◌, ◌<◌, ◌≡◌, refl, sym, subst, ◌≢◌, ◌↔◌, inl, inr, true, false, not, ◌||◌, Option, none, some,
  [], ◌∷◌, arith, ltb, ◌==◌, if◌then◌else◌, Bool-cases, length, Str, str_eq_nil,
}
use tcabci_read_go_client.Errors.{GoError, Result, ok, err}
use tcabci_read_go_client.Errors.Steps.{bind_inv, guard_inv}
use tcabci_read_go_client.Splitting.{Without}
use tcabci_read_go_client.Authority.{
  Signer, Surroundings, contains_any, address_bad, max_signature, payload, header, random_bytes,
  signed, create_with, create_ws_authority_v3, refusal,
}

-- An address that can stand in a header and in an envelope.
pub record Fit (address : Str) : Type 0 where
  pub some_bytes : 0 < length address
  pub short : length address ≤ 2048
  pub no_semicolon : Without b';' address
  pub no_newline : Without 10 address
  pub no_return : Without 13 address

contains_any-Without :
    (s : Str) → (contains_any s ≡ false) ↔ (Without b';' s × Without 10 s × Without 13 s)
unfolding contains_any
contains_any-Without [] = ((λ h. (tt, tt, tt)), λ h. refl)
contains_any-Without (c ∷ s) =
    let ih = contains_any-Without s in
    (
      (λ h.
          let r = ih.0 (ground arith) in
          (((λ e. ground arith), r.0), ((λ e. ground arith), r.1), ((λ e. ground arith), r.2))),
      λ h. ground (arith, h.0.0, h.1.0, h.2.0, ih.1 (h.0.1, h.1.1, h.2.1)),
    )

pub address_bad-Fit : (address : Str) → (address_bad address ≡ false) ↔ Fit address
unfolding address_bad
address_bad-Fit address =
    let w = contains_any-Without address in
    (
      (λ h.
          let n = w.0 (ground arith) in
          record {
            some_bytes = ground (arith, str_eq_nil address);
            short = ground arith;
            no_semicolon = n.0;
            no_newline = n.1;
            no_return = n.2;
          }),
      λ f. ground (
        arith,
        (str_eq_nil address).1 f.some_bytes,
        f.short,
        w.1 (f.no_semicolon, f.no_newline, f.no_return),
      ),
    )

random_bytes_inv : (o : Option Str) {nonce : Str} → random_bytes o ≡ ok nonce → o ≡ some nonce
unfolding random_bytes
random_bytes_inv none h = cc
random_bytes_inv (some n) h = cc

signed_inv : (r : Result Str) {signature : Str} → signed r ≡ ok signature → r ≡ ok signature
unfolding signed
signed_inv (ok x) h = h
signed_inv (err e) h = cc

err≢ok {ℓ} : {A : Type ℓ} {e : GoError} {a : A} → err e ≢ ok a
err≢ok h = cc

some-injective {ℓ} : {A : Type ℓ} {a b : A} → some a ≡ some b → a ≡ b
some-injective h = cc

none≢some {ℓ} : {A : Type ℓ} {a : A} → none ≢ some a
none≢some h = cc

ok-injective {ℓ} : {A : Type ℓ} {a b : A} → ok a ≡ ok b → a ≡ b
ok-injective h = cc

module _ (s : Surroundings) where
  -- A signing that ends with a header.
  pub record Signed (address : Str) (sign : Signer) (h : Str) : Type 0 where
    pub in_time : (s.over_before ≡ false) × (s.over_after ≡ false)
    pub nonce : Str
    pub drawn : s.random ≡ some nonce
    pub signature : Str
    pub envelope : sign (payload address s.now nonce) ≡ ok signature
    pub sized : (0 < length signature) × (length signature ≤ 8192)
    pub result : h ≡ header address s.now nonce signature

  create_with-Signed :
      (address : Str) (sign : Signer) {h : Str}
      → create_with s address sign ≡ ok h
      → Signed address sign h
  unfolding create_with
  create_with-Signed address sign h =
      let (before, h) = guard_inv (not s.over_before) _ _ h in
      let (nonce, drawn, h) = bind_inv (random_bytes s.random) _ h in
      let (signature, envelope, h) = bind_inv (signed (sign (payload address s.now nonce))) _ h in
      let (after, h) = guard_inv (not s.over_after) _ _ h in
      let (sized, h) =
        guard_inv (not (length signature == 0 || ltb max_signature (length signature))) _ _ h in
      record {
        in_time = (ground arith, ground arith);
        nonce = nonce;
        drawn = random_bytes_inv s.random drawn;
        signature = signature;
        envelope = signed_inv (sign (payload address s.now nonce)) envelope;
        sized = (ground arith, ground arith);
        result = ok-injective (sym h);
      }

  Signed-create_with :
      (address : Str) (sign : Signer) {h : Str}
      → Signed address sign h
      → create_with s address sign ≡ ok h
  unfolding create_with random_bytes signed
  Signed-create_with address sign g =
      rw (g.in_time.0, g.drawn, g.envelope, g.in_time.1, g.result) (ground (arith, g.sized))

-- A header is made exactly when there is a signer and a context, the address fits, the context has not
-- ended before or after the signing, the random bytes come, and the signer returns between 1 and 8192
-- bytes for the envelope of that address, time and those random bytes; it is then made of these.
pub create_ws_authority_v3_ok_iff :
    (s : Surroundings) (address : Str) (signer : Option Signer) (h : Str)
    → (create_ws_authority_v3 s address signer ≡ ok h) ↔ (
        (s.has_context ≡ true)
        × Fit address
        × ((sign : Signer) × (signer ≡ some sign) × Signed s address sign h))
unfolding create_ws_authority_v3
create_ws_authority_v3_ok_iff s address none h = ((λ e. cc), λ a. absurd (none_given a.2))
  where
    none_given : ((sign : Signer) × (none ≡ some sign) × Signed s address sign h) → ⊥
    none_given a = let e = a.1 in absurd (none≢some e)
create_ws_authority_v3_ok_iff s address (some sign) h = (there, back)
  where
    there :
        (if not s.has_context || address_bad address
            then err refusal
            else create_with s address sign)
          ≡ ok h
        → (s.has_context ≡ true)
          × Fit address
          × ((g : Signer) × (some sign ≡ some g) × Signed s address g h)
    there e = elim (Bool-cases (not s.has_context || address_bad address)) [
      | inl q ↦ absurd (err≢ok (rw q at e))
      | inr q ↦ (
        ground arith,
        (address_bad-Fit address).0 (ground arith),
        (sign, refl, create_with-Signed s address sign (rw q at e)),
      )
    ]

    back :
        (s.has_context ≡ true)
          × Fit address
          × ((g : Signer) × (some sign ≡ some g) × Signed s address g h)
        → (if not s.has_context || address_bad address
            then err refusal
            else create_with s address sign)
          ≡ ok h
    back (c, f, (g, e, d)) =
        rw (c, (address_bad-Fit address).1 f)
          (Signed-create_with s address sign
            (subst (λ x. Signed s address x h) (sym (some-injective e)) d))
