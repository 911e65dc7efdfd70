-- ===== src/Request/Validity.antt =====
-- Which searches and summaries `IsValid` lets through.
use tcabci_read_go_client.Prelude.{
  ◌≤◌, ◌≡◌, refl, sym, ◌∙◌, ◌↔◌, ◌⊎◌, Bool, true, false, not, ◌&&◌, List, [], ◌∷◌, arith, ltb, leb,
  ◌==◌, length, All, Str, str_eq, str_eq→eq, str_eq_iff, str_eq_sym, StrMap, str_mem,
}
use tcabci_read_go_client.Transaction.{TxType, is_valid}
use tcabci_read_go_client.Request.{
  OrderBy, asc, desc, HeightOperator, equal, less, greater, equal_or_less, equal_or_greater,
  order_by_ok, height_operator_ok, Search, types_ok, search_ok, Summary, summary_ok,
}

-- A list of addresses is left out, or has one address for each signature, 251 at most.
abbrev pub Paired : List Str → StrMap Str → Type 0
Paired addresses signed =
    (length addresses ≡ 0) ⊎ ((length addresses ≡ length signed) × (length addresses ≤ 251))

-- A text that may be left empty, and is one of the given texts otherwise.
abbrev pub Optional : (Str → Bool) → Str → Type 0
Optional ok s = (s ≡ []) ⊎ (ok s ≡ true)

paired_ok : (addresses : List Str) (signed : StrMap Str) → Bool
paired_ok addresses signed =
    leb (length addresses) 251
    && not (ltb 0 (length addresses) && not (length signed == length addresses))

paired_ok_iff :
    (addresses : List Str) (signed : StrMap Str)
    → (paired_ok addresses signed ≡ true) ↔ Paired addresses signed
unfolding paired_ok
paired_ok_iff addresses signed = ((λ h. ground arith), λ h. ground arith)

optional_ok : (Str → Bool) → Str → Bool
optional_ok ok s = not (not (str_eq s []) && not (ok s))

optional_ok_iff : (ok : Str → Bool) (s : Str) → (optional_ok ok s ≡ true) ↔ Optional ok s
unfolding optional_ok
optional_ok_iff ok s = ((λ h. ground (arith, str_eq→eq s [])), λ h. ground (arith, str_eq_iff s []))

types_ok_iff : (ts : List TxType) → (types_ok ts ≡ true) ↔ All (λ t. is_valid t ≡ true) ts
unfolding types_ok
types_ok_iff [] = ((λ h. tt), λ h. refl)
types_ok_iff (t ∷ ts) = (
  (λ h. (ground arith, (types_ok_iff ts).0 (ground arith))),
  λ h. ground (arith, h.0, (types_ok_iff ts).1 h.1),
)

height_operator_ok-mem :
    (ho : HeightOperator)
    → height_operator_ok ho
      ≡ str_mem ho (equal ∷ less ∷ greater ∷ equal_or_less ∷ equal_or_greater ∷ [])
unfolding height_operator_ok str_mem
height_operator_ok-mem ho = ground (
  arith,
  str_eq_sym ho equal,
  str_eq_sym ho less,
  str_eq_sym ho greater,
  str_eq_sym ho equal_or_less,
  str_eq_sym ho equal_or_greater,
)

order_by_ok-mem : (o : OrderBy) → order_by_ok o ≡ str_mem o (asc ∷ desc ∷ [])
unfolding order_by_ok str_mem
order_by_ok-mem o = ground (arith, str_eq_sym o asc, str_eq_sym o desc)

pub record Admitted (s : Search) : Type 0 where
  operator :
      str_mem s.height_operator (equal ∷ less ∷ greater ∷ equal_or_less ∷ equal_or_greater ∷ [])
      ≡ true
  signed : 1 ≤ length s.signed_addresses
  recipients : Paired s.recipient_addresses s.signed_addresses
  senders : Paired s.sender_addresses s.signed_addresses
  hashes : length s.hashes ≤ 100
  typ : Optional is_valid s.typ
  types : All (λ t. is_valid t ≡ true) s.types
  limit : s.limit ≤ 100
  order : Optional (λ o. str_mem o (asc ∷ desc ∷ [])) s.order_by

types_checked :
    (ts : List TxType) → (ltb 0 (length ts) && not (types_ok ts)) ≡ false → types_ok ts ≡ true
unfolding types_ok
types_checked [] h = refl
types_checked (t ∷ ts) h = ground arith

search_ok-Admitted : (s : Search) → search_ok s ≡ true → Admitted s
unfolding search_ok
search_ok-Admitted s h = record {
  operator = sym (height_operator_ok-mem s.height_operator) ∙ ground arith;
  signed = ground arith;
  recipients = ground arith;
  senders = ground arith;
  hashes = ground arith;
  typ = ground (arith, str_eq→eq s.typ []);
  types = (types_ok_iff s.types).0 (types_checked s.types (ground arith));
  limit = ground arith;
  order = ground (arith, str_eq→eq s.order_by [], order_by_ok-mem s.order_by);
}

Admitted-search_ok : (s : Search) → Admitted s → search_ok s ≡ true
unfolding search_ok
Admitted-search_ok s a = ground (
  arith,
  height_operator_ok-mem s.height_operator,
  a.operator,
  a.signed,
  a.recipients,
  a.senders,
  a.hashes,
  a.typ,
  (types_ok_iff s.types).1 a.types,
  a.limit,
  a.order,
  str_eq_iff s.typ [],
  str_eq_iff s.order_by [],
  order_by_ok-mem s.order_by,
)

-- A search passes its check exactly when: its height operator is one of the five; at least one address
-- is signed, and the recipients and the senders are each left out or as many as the signatures, 251
-- at most; there are at most 100 hashes; the type is left out or valid, and so is each of the types;
-- the limit is at most 100; and the order is left out, ascending or descending.
pub search_ok_iff : (s : Search) → (search_ok s ≡ true) ↔ Admitted s
search_ok_iff s = (search_ok-Admitted s, Admitted-search_ok s)

-- A summary passes its check exactly when the recipients and the senders are each left out or as
-- many as the signatures, 251 at most, and the type is left out or valid.
pub summary_ok_iff :
    (s : Summary)
    → (summary_ok s ≡ true) ↔ (
        Paired s.recipient_addresses s.signed_addresses
        × Paired s.sender_addresses s.signed_addresses
        × Optional is_valid s.typ)
unfolding summary_ok
summary_ok_iff s = (
  (λ h. (ground arith, ground arith, ground (arith, str_eq→eq s.typ []))),
  λ h. ground (arith, h.0, h.1, str_eq_iff s.typ []),
)
