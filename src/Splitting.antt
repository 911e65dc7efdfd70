-- ===== src/Splitting.antt =====
-- Texts with separators, as `strings.Cut` and `strings.Split` take them apart.
use tcabci_read_go_client.Prelude.{
  ℕ, ◌≡◌, refl, ◌≢◌, inl, inr, Bool, true, not, List, [], ◌∷◌, ◌++◌, arith, ◌==◌, if◌then◌else◌,
  Bool-cases, &&_true, all, All, All-append, Str,
}

-- A text without a separator.
abbrev pub Without : ℕ → Str → Type 0
Without sep = All (λ c. c ≢ sep)

-- The text before the first separator, and after it: `strings.Cut`.
unfoldable pub cut : ℕ → Str → Str × Str
cut sep [] = ([], [])
cut sep (c ∷ rest) = let r = cut sep rest in if c == sep then ([], rest) else (c ∷ r.0, r.1)

pub cut-append : (sep : ℕ) (s t : Str) → Without sep s → cut sep (s ++ sep ∷ t) ≡ (s, t)
unfolding cut
cut-append sep [] t h = ground arith
cut-append sep (c ∷ s) t h = ground (arith, h.0, cut-append sep s t h.1)

pub cut-whole : (sep : ℕ) (s : Str) → Without sep s → cut sep s ≡ (s, [])
unfolding cut
cut-whole sep [] h = refl
cut-whole sep (c ∷ s) h = ground (arith, h.0, cut-whole sep s h.1)

pub Without-append : (sep : ℕ) (s t : Str) → Without sep s → Without sep t → Without sep (s ++ t)
Without-append sep = All-append (λ c. c ≢ sep)

unfoldable pub lacks : ℕ → Str → Bool
lacks sep s = all (λ c. not (c == sep)) s

pub lacks-Without : (sep : ℕ) (s : Str) → lacks sep s ≡ true → Without sep s
unfolding lacks
lacks-Without sep [] h = tt
lacks-Without sep (c ∷ s) h = ((λ e. ground arith), lacks-Without sep s (&&_true _ _ h).1)

-- `strings.Split` at one byte.
unfoldable pub split : ℕ → Str → List Str
split sep [] = [] ∷ []
split sep (c ∷ rest) = elim (split sep rest) [
  | [] ↦ []
  | ◌∷◌ part parts ↦ if c == sep then [] ∷ part ∷ parts else (c ∷ part) ∷ parts
]

split_part : (sep : ℕ) (s : Str) → (part : Str) × (parts : List Str) × (split sep s ≡ part ∷ parts)
unfolding split
split_part sep [] = ([], [], refl)
split_part sep (c ∷ rest) =
    let r = split_part sep rest in
    elim (Bool-cases (c == sep)) [
      | inl e ↦ ([], r.0 ∷ r.1, rw (r.2, e) refl)
      | inr n ↦ (c ∷ r.0, r.1, rw (r.2, n) refl)
    ]

pub split-whole : (sep : ℕ) (s : Str) → Without sep s → split sep s ≡ s ∷ []
unfolding split
split-whole sep [] h = refl
split-whole sep (c ∷ s) h = ground (arith, h.0, split-whole sep s h.1)

pub split-append :
    (sep : ℕ) (s t : Str) → Without sep s → split sep (s ++ sep ∷ t) ≡ s ∷ split sep t
unfolding split
split-append sep [] t h = let r = split_part sep t in ground (arith, r.2)
split-append sep (c ∷ s) t h = ground (arith, h.0, split-append sep s t h.1)
