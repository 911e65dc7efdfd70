-- ===== src/Authority/Reading.antt =====
-- What the node reads in a header and in an envelope.
use tcabci_read_go_client.Prelude.{
  ◌++◌, ℤ, ℕ, ◌≤◌, ◌<◌, ◌≡◌, refl, ap, ◌∙◌, ◌⊎◌, inl, inr, Option, none, some, List, [], ◌∷◌, arith,
  if◌then◌else◌, All, Str, codes, str_eq,
}
use tcabci_read_go_client.Errors.{ok}
use tcabci_read_go_client.Splitting.{
  Without, lacks, lacks-Without, split, split-append, split-whole,
}
use tcabci_read_go_client.Hex.{hex_decode, hex_encode, IsBytes}
use tcabci_read_go_client.Hex.Laws.{hex_decode-encode, hex_encode-digits}
use tcabci_read_go_client.Decimal.{format_int}
use tcabci_read_go_client.Decimal.Reading.{
  IsInt64, parse_int, parse_int-format_int, format_int-Without,
}
use tcabci_read_go_client.Authority.Header.{Fit, create_ws_authority_v3_ok_iff}
use tcabci_read_go_client.Authority.{Signer, Surroundings, payload, header, create_ws_authority_v3}

-- The address, the time, the random bytes and the signature.
abbrev pub Fields : Type 0
Fields = Str × ℤ × Str × Str

both : Str → Option ℤ → Option Str → Option Str → Option Fields
both address (some now) (some nonce) (some signature) = some (address, now, nonce, signature)
both _ _ _ _ = none

fields_from : List Str → Option Fields
unfolding both
fields_from (address ∷ version ∷ now ∷ nonce ∷ signature ∷ []) =
    if str_eq version (codes "v3")
    then both address (parse_int now) (hex_decode nonce) (hex_decode signature)
    else none
fields_from _ = none

-- A reader of headers: it splits at the semicolons.
pub read_header : Str → Option Fields
unfolding fields_from
read_header h = fields_from (split b';' h)

envelope_from : List Str → Option Fields
unfolding both
envelope_from (domain ∷ address ∷ now ∷ nonce ∷ []) =
    if str_eq domain (codes "read-node/ws-authority/v3")
    then both address (parse_int now) (hex_decode nonce) (some [])
    else none
envelope_from _ = none

-- A reader of envelopes, which have no signature: it splits at the newlines.
pub read_envelope : Str → Option Fields
unfolding envelope_from
read_envelope p = envelope_from (split 10 p)

hex_encode-Without :
    (sep : ℕ) (s : Str)
    → IsBytes s
    → sep < 48 ⊎ ((58 ≤ sep) × (sep < 97))
    → Without sep (hex_encode s)
hex_encode-Without sep s b d = go (hex_encode s) (hex_encode-digits s b)
  where
    go : (xs : Str) → All (λ c. ((48 ≤ c) × (c ≤ 57)) ⊎ ((97 ≤ c) × (c ≤ 102))) xs → Without sep xs
    go [] h = tt
    go (c ∷ xs) h = ((λ e. apart c h.0 e), go xs h.1)
      where
        apart : (c : ℕ) → ((48 ≤ c) × (c ≤ 57)) ⊎ ((97 ≤ c) × (c ≤ 102)) → c ≡ sep → ⊥
        apart c h e = omega (arith, h, d)

rebuilt_from : List Str → Option Str
rebuilt_from (address ∷ version ∷ now ∷ nonce ∷ signature ∷ []) =
    some (codes "read-node/ws-authority/v3" ++ (10 ∷ (address ++ (10 ∷ (now ++ (10 ∷ nonce))))))
rebuilt_from _ = none

-- The envelope that a server builds from the parts of a header as they stand there.
pub rebuild : Str → Option Str
unfolding rebuilt_from
rebuild h = rebuilt_from (split b';' h)

module _ (address : Str) (now : ℤ) (nonce signature : Str) (fit : Fit address) (small : IsInt64 now)
    (n : IsBytes nonce) (g : IsBytes signature) where
  split-header :
      split b';' (header address now nonce signature)
      ≡ address ∷ codes "v3" ∷ format_int now ∷ hex_encode nonce ∷ hex_encode signature ∷ []
  unfolding header lacks
  split-header =
      split-append b';' address _ fit.no_semicolon
      ∙ ap (λ x. address ∷ x)
          (split-append b';' (codes "v3") _ (lacks-Without b';' (codes "v3") refl)
            ∙ ap (λ x. codes "v3" ∷ x)
                (split-append b';' (format_int now) _
                    (format_int-Without b';' now (λ e. omega (arith, e)) (λ d. omega (arith, d.1)))
                  ∙ ap (λ x. format_int now ∷ x)
                      (split-append b';' (hex_encode nonce) _
                          (hex_encode-Without b';' nonce n (inr (omega arith, omega arith)))
                        ∙ ap (λ x. hex_encode nonce ∷ x)
                            (split-whole b';' (hex_encode signature) (
                              hex_encode-Without b';' signature g
                                (inr (omega arith, omega arith)))))))

  read_header-header :
      read_header (header address now nonce signature) ≡ some (address, now, nonce, signature)
  unfolding read_header fields_from both str_eq
  read_header-header =
      ap fields_from split-header
      ∙ rw
          (parse_int-format_int now small, hex_decode-encode nonce n, hex_decode-encode signature g)
          refl

  rebuild-header : rebuild (header address now nonce signature) ≡ some (payload address now nonce)
  unfolding rebuild rebuilt_from payload
  rebuild-header = ap rebuilt_from split-header

  split-payload :
      split 10 (payload address now nonce)
      ≡ codes "read-node/ws-authority/v3" ∷ address ∷ format_int now ∷ hex_encode nonce ∷ []
  unfolding payload lacks
  split-payload =
      split-append 10 (codes "read-node/ws-authority/v3") _
        (lacks-Without 10 (codes "read-node/ws-authority/v3") refl)
      ∙ ap (λ x. codes "read-node/ws-authority/v3" ∷ x)
          (split-append 10 address _ fit.no_newline
            ∙ ap (λ x. address ∷ x)
                (split-append 10 (format_int now) _
                    (format_int-Without 10 now (λ e. omega (arith, e)) (λ d. omega (arith, d.0)))
                  ∙ ap (λ x. format_int now ∷ x)
                      (split-whole 10 (hex_encode nonce)
                        (hex_encode-Without 10 nonce n (inl (omega arith))))))

  read_envelope-payload : read_envelope (payload address now nonce) ≡ some (address, now, nonce, [])
  unfolding read_envelope envelope_from both str_eq
  read_envelope-payload =
      ap envelope_from split-payload
      ∙ rw (parse_int-format_int now small, hex_decode-encode nonce n) refl

-- What a header of `CreateWSAuthorityV3` vouches for.
pub record Vouched (s : Surroundings) (address : Str) (signer : Option Signer) (h : Str)
    : Type 0 where
  pub sign : Signer
  pub given : signer ≡ some sign
  pub nonce : Str
  pub drawn : s.random ≡ some nonce
  pub envelope : Str
  pub signature : Str
  pub signed_by : sign envelope ≡ ok signature
  pub rebuilt : rebuild h ≡ some envelope
  pub envelope_read : read_envelope envelope ≡ some (address, s.now, nonce, [])
  pub header_read : read_header h ≡ some (address, s.now, nonce, signature)

-- A node that takes a header apart at its semicolons reads the address, the time in nanoseconds, the
-- random bytes and a signature. The signer has made it of exactly the bytes that the node gets by joining
-- the domain and the header's texts for the address, the time and the random bytes with newlines; and in
-- them the same address, time and random bytes are read: no address can pass for another one together
-- with a part of its neighbours. The time is one of 64 bits, and the random bytes and the signature consist of bytes.
pub create_ws_authority_v3-read :
    (s : Surroundings) (address : Str) (signer : Option Signer) (h : Str)
    → create_ws_authority_v3 s address signer ≡ ok h
    → IsInt64 s.now
    → ((nonce : Str) → s.random ≡ some nonce → IsBytes nonce)
    → ((sign : Signer) (p signature : Str)
        → signer ≡ some sign
        → sign p ≡ ok signature
        → IsBytes signature)
    → Vouched s address signer h
create_ws_authority_v3-read s address signer h e small n g =
    let (c, fit, (sign, given, d)) = (create_ws_authority_v3_ok_iff s address signer h).0 e in
    let bytes = n d.nonce d.drawn in
    record {
      sign = sign;
      given = given;
      nonce = d.nonce;
      drawn = d.drawn;
      envelope = payload address s.now d.nonce;
      signature = d.signature;
      signed_by = d.envelope;
      rebuilt =
          ap rebuild d.result
          ∙ rebuild-header address s.now d.nonce d.signature fit small bytes
              (g sign _ d.signature given d.envelope);
      envelope_read =
          read_envelope-payload address s.now d.nonce d.signature fit small bytes
            (g sign _ d.signature given d.envelope);
      header_read =
          ap read_header d.result
          ∙ read_header-header address s.now d.nonce d.signature fit small bytes
              (g sign _ d.signature given d.envelope);
    }
