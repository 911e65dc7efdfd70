-- ===== src/Authority/Tests.antt =====
-- The authority of a toy signer, which signs by the envelope's first two bytes.
use tcabci_read_go_client.Prelude.{
  pos, ◌≡◌, refl, ap, ◌∙◌, subst, ◌↔◌, true, false, some, [], ◌∷◌, arith, Str, codes, str_eq,
}
use tcabci_read_go_client.Errors.{ok}
use tcabci_read_go_client.Hex.{hex_encode, IsBytes}
use tcabci_read_go_client.Decimal.{itoa, format_int}
use tcabci_read_go_client.Authority.{
  with_ws_authority, contains_any, Signer, Surroundings, address_bad, create_ws_authority_v3,
  no_authority,
}
use tcabci_read_go_client.Authority.Header.{Fit, Signed, create_ws_authority_v3_ok_iff}
use tcabci_read_go_client.Authority.Reading.{Vouched, create_ws_authority_v3-read}

abbrev toy : Signer
toy p = ok (7 ∷ 255 ∷ [])

abbrev calm : Surroundings
calm = record {
  has_context = true;
  over_before = false;
  over_after = false;
  random = some (1 ∷ 2 ∷ []);
  now = pos 1700;
}

abbrev text : Str
text = codes "node;v3;1700;0102;07ff"

succeeds : create_ws_authority_v3 calm (codes "node") (some toy) ≡ ok text
unfolding create_ws_authority_v3 address_bad str_eq hex_encode itoa format_int
succeeds = refl

create_ws_authority_v3_ok_iff_example :
    (create_ws_authority_v3 calm (codes "node") (some toy) ≡ ok text) ↔ (
      (true ≡ true)
      × Fit (codes "node")
      × ((sign : Signer) × (some toy ≡ some sign) × Signed calm (codes "node") sign text))
create_ws_authority_v3_ok_iff_example =
    create_ws_authority_v3_ok_iff calm (codes "node") (some toy) text

random_IsBytes : (nonce : Str) → some (1 ∷ 2 ∷ []) ≡ some nonce → IsBytes nonce
random_IsBytes nonce e =
    let h : (1 ∷ 2 ∷ []) ≡ nonce = cc in subst IsBytes h (omega arith, (omega arith, tt))

signature_IsBytes :
    (sign : Signer) (p signature : Str)
    → some toy ≡ some sign
    → sign p ≡ ok signature
    → IsBytes signature
signature_IsBytes sign p signature e h =
    let g : toy ≡ sign = cc in
    let i : ok (7 ∷ 255 ∷ []) ≡ ok signature = ap (λ f. f p) g ∙ h in
    let j : (7 ∷ 255 ∷ []) ≡ signature = cc in subst IsBytes j (omega arith, (omega arith, tt))

create_ws_authority_v3-read_example : Vouched calm (codes "node") (some toy) text
create_ws_authority_v3-read_example =
    create_ws_authority_v3-read calm (codes "node") (some toy) text succeeds (omega arith)
      random_IsBytes signature_IsBytes

-- An address that would shift the fields of the header is refused.
refuses : (with_ws_authority (codes "bad;node") (some toy) no_authority).0 ≡ no_authority
unfolding with_ws_authority no_authority address_bad str_eq contains_any
refuses = refl
