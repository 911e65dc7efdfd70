-- ===== src/Http/Query/Escape.antt =====
-- What a server reads from the escaped chain of a query, after `url.QueryUnescape`.
use tcabci_read_go_client.Prelude.{
  List, map, ℕ, ◌/◌, ◌%◌, ◌<◌, ◌≡◌, refl, ap, ◌∙◌, ◌≢◌, inl, inr, true, Option, none, some, [], ◌∷◌,
  ◌++◌, arith, ◌==◌, if◌then◌else◌, ==_iff, Bool-cases, All, Str, codes,
}
use tcabci_read_go_client.Hex.{nibble, join, IsBytes}
use tcabci_read_go_client.Splitting.{
  Without, cut, cut-append, split, split-append, split-whole, Without-append, lacks, lacks-Without,
}
use tcabci_read_go_client.Http.Query.{
  unreserved, upper_digit, escape_byte, query_escape, pair_query, chain_query,
}

-- Where in an escape sequence the next byte stands.
pub data Place : Type 0 where
  text first : Place
  second : ℕ → Place

next : Place → ℕ → Place
next text c = if c == b'%' then first else text
next first c = second c
next (second h) c = text

cons : ℕ → Option Str → Option Str
cons c none = none
cons c (some s) = some (c ∷ s)

emit : Place → ℕ → Option Str → Option Str
unfolding cons
emit text c r = if c == b'%' then r else if c == b'+' then cons b' ' r else cons c r
emit first c r = r
emit (second h) c r = join (nibble h) (nibble c) r

finish : Place → Option Str
finish text = some []
finish _ = none

-- The text that an escaped one stands for, if its escape sequences are complete and hexadecimal.
pub scan : Place → Str → Option Str
unfolding next emit finish
scan p [] = finish p
scan p (c ∷ rest) = emit p c (scan (next p c) rest)

abbrev pub query_unescape : Str → Option Str
query_unescape s = scan text s

nibble-upper_digit : (n : ℕ) → n < 16 → nibble (upper_digit n) ≡ some n
unfolding nibble upper_digit
nibble-upper_digit n h = ground arith

scan-plain :
    (c : ℕ) (rest : Str) → unreserved c ≡ true → scan text (c ∷ rest) ≡ cons c (scan text rest)
unfolding scan unreserved
scan-plain c rest h = ground arith

scan-percent :
    (c : ℕ) (rest : Str)
    → c < 256
    → scan text (b'%' ∷ upper_digit (c / 16) ∷ upper_digit (c % 16) ∷ rest)
      ≡ cons c (scan text rest)
unfolding scan join cons
scan-percent c rest h =
    rw (nibble-upper_digit (c / 16) (omega arith), nibble-upper_digit (c % 16) (omega arith))
      (joined (scan text rest))
  where
    joined : (r : Option Str) → join (some (c / 16)) (some (c % 16)) r ≡ cons c r
    joined none = refl
    joined (some s) = ap (λ n. some (n ∷ s)) (omega arith)

scan-escape_byte :
    (c : ℕ) (rest : Str) → c < 256 → scan text (escape_byte c rest) ≡ cons c (scan text rest)
unfolding escape_byte
scan-escape_byte c rest h = elim (Bool-cases (unreserved c)) [
  | inl e ↦ rw e (scan-plain c rest e)
  | inr n ↦ elim (Bool-cases (c == b' ')) [
    | inl e ↦ rw (n, e) (space ((==_iff c b' ').0 e))
    | inr m ↦ rw (n, m) (scan-percent c rest h)
  ]
]
  where
    space : c ≡ b' ' → scan text (b'+' ∷ rest) ≡ cons c (scan text rest)
    space e = rw e (unfold scan in refl)

-- `url.QueryUnescape` undoes `url.QueryEscape` on bytes.
query_unescape-escape : (s : Str) → IsBytes s → query_unescape (query_escape s) ≡ some s
unfolding query_escape cons
query_unescape-escape [] h = unfold scan in refl
query_unescape-escape (c ∷ rest) h =
    scan-escape_byte c (query_escape rest) h.0 ∙ ap (cons c) (query_unescape-escape rest h.1)

-- Neither of the separators of a query.
abbrev Safe : ℕ → Type 0
Safe c = (c ≢ b'&') × (c ≢ b'=')

upper_digit-Safe : (n : ℕ) → n < 16 → Safe (upper_digit n)
unfolding upper_digit
upper_digit-Safe n h = ((λ e. ground arith), λ e. ground arith)

unreserved-Safe : (c : ℕ) → unreserved c ≡ true → Safe c
unfolding unreserved
unreserved-Safe c h = ((λ e. ground arith), λ e. ground arith)

escape_byte-Safe : (c : ℕ) (rest : Str) → c < 256 → All Safe rest → All Safe (escape_byte c rest)
unfolding escape_byte
escape_byte-Safe c rest h s = elim (Bool-cases (unreserved c)) [
  | inl e ↦ rw e (unreserved-Safe c e, s)
  | inr n ↦ elim (Bool-cases (c == b' ')) [
    | inl e ↦ rw (n, e) (((λ d. omega arith), λ d. omega arith), s)
    | inr m ↦
        rw (n, m)
          (
            ((λ d. omega arith), λ d. omega arith),
            (upper_digit-Safe (c / 16) (omega arith), (upper_digit-Safe (c % 16) (omega arith), s)),
          )
  ]
]

query_escape-Safe : (s : Str) → IsBytes s → All Safe (query_escape s)
unfolding query_escape
query_escape-Safe [] h = tt
query_escape-Safe (c ∷ rest) h =
    escape_byte-Safe c (query_escape rest) h.0 (query_escape-Safe rest h.1)

Safe-Without_amp : (s : Str) → All Safe s → Without b'&' s
Safe-Without_amp [] h = tt
Safe-Without_amp (c ∷ s) h = (h.0.0, Safe-Without_amp s h.1)

Safe-Without_eq : (s : Str) → All Safe s → Without b'=' s
Safe-Without_eq [] h = tt
Safe-Without_eq (c ∷ s) h = (h.0.1, Safe-Without_eq s h.1)

-- A key and the value that stands behind its `=`.
pub field : Str → Str × Option Str
unfolding cut
field s = let r = cut b'=' s in (r.0, query_unescape r.1)

-- All fields of a query.
pub fields : Str → List (Str × Option Str)
unfolding field
fields q = map field (split b'&' q)

field-eq :
    (key v : Str)
    → Without b'=' key
    → IsBytes v
    → field (key ++ b'=' ∷ query_escape v) ≡ (key, some v)
unfolding field
field-eq key v k h = rw (cut-append b'=' key (query_escape v) k, query_unescape-escape v h)

pair_query-fields :
    (name version : Str)
    → IsBytes name
    → IsBytes version
    → fields (pair_query name version)
      ≡ (codes "chain_name", some name) ∷ (codes "chain_version", some version) ∷ []
unfolding fields pair_query lacks
pair_query-fields name version n v =
    ap (map field) (
      split-append b'&' (codes "chain_name" ++ b'=' ∷ query_escape name)
        (codes "chain_version" ++ b'=' ∷ query_escape version)
        (Without-append b'&' (codes "chain_name=") (query_escape name)
          (lacks-Without b'&' (codes "chain_name=") refl)
          (Safe-Without_amp (query_escape name) (query_escape-Safe name n)))
      ∙ ap (λ r. (codes "chain_name" ++ b'=' ∷ query_escape name) ∷ r)
          (split-whole b'&' (codes "chain_version" ++ b'=' ∷ query_escape version) (
            Without-append b'&' (codes "chain_version=") (query_escape version)
              (lacks-Without b'&' (codes "chain_version=") refl)
              (Safe-Without_amp (query_escape version) (query_escape-Safe version v)))))
    ∙ ap (λ a. a ∷ field (codes "chain_version" ++ b'=' ∷ query_escape version) ∷ [])
        (field-eq (codes "chain_name") name (lacks-Without b'=' (codes "chain_name") refl) n)
    ∙ ap (λ b. (codes "chain_name", some name) ∷ b ∷ [])
        (field-eq (codes "chain_version") version (lacks-Without b'=' (codes "chain_version") refl)
          v)

-- The chain that a query is about.
abbrev pub chosen_chain : Str → Str → Option Str → Option Str → Str × Str
chosen_chain own_name own_version (some name) (some version) = (name, version)
chosen_chain own_name own_version _ _ = (own_name, own_version)

-- A server that splits the query at every `&`, and each part at its first `=`, reads exactly two fields,
-- `chain_name` and `chain_version`, with the bytes of the chain given or, unless both its parts are
-- given, of the client's: no name or version adds a field, ends one early, or comes out changed.
pub chain_query-fields :
    (own_name own_version : Str) (name version : Option Str)
    → IsBytes (chosen_chain own_name own_version name version).0
    → IsBytes (chosen_chain own_name own_version name version).1
    → let c = chosen_chain own_name own_version name version in
      fields (chain_query own_name own_version name version)
      ≡ (codes "chain_name", some c.0) ∷ (codes "chain_version", some c.1) ∷ []
unfolding chain_query
chain_query-fields own_name own_version (some name) (some version) n v =
    pair_query-fields name version n v
chain_query-fields own_name own_version (some name) none n v =
    pair_query-fields own_name own_version n v
chain_query-fields own_name own_version none version n v =
    pair_query-fields own_name own_version n v
