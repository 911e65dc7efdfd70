-- ===== src/Util/Searching.antt =====
-- What the helpers find.
use tcabci_read_go_client.Prelude.{
  pos, negsuc, ℕ, ◌+◌, ◌≡◌, refl, sym, ap, ◌∙◌, subst, ◌≢◌, ◌⊎◌, inl, inr, Bool, true, false, none,
  some, List, [], ◌∷◌, ◌++◌, arith, if◌then◌else◌, Bool-cases, length, All, Str,
}
use tcabci_read_go_client.Util.{string_or, Found, search_from, in_array}

-- `StringOR` gives the first text that is not empty, behind empty ones, or nothing if all are empty.
pub string_or_first :
    (values : List Str)
    → ((string_or values ≡ []) × All (λ v. v ≡ []) values)
      ⊎ ((xs ys : List Str) × (values ≡ xs ++ string_or values ∷ ys)
          × All (λ v. v ≡ []) xs
          × (string_or values ≢ []))
unfolding string_or
string_or_first [] = inl (refl, tt)
string_or_first ([] ∷ rest) = elim (string_or_first rest) [
  | inl (e, h) ↦ inl (e, (refl, h))
  | inr (xs, ys, e, h, n) ↦ inr ([] ∷ xs, ys, ap (λ z. [] ∷ z) e, (refl, h), n)
]
string_or_first ((c ∷ cs) ∷ rest) = inr ([], rest, refl, tt, λ e. cc)

module _ {A : Type 0} (deep_equal : A → A → Bool) where
  -- The result of a search: nothing in the list equals the value, or its first entry that does.
  abbrev pub Finds : ℕ → A → List A → Found → Type 0
  Finds i val values r =
      (r.error ≡ none)
      × (((r.exists ≡ false) × (r.index ≡ negsuc 0) × All (λ x. deep_equal val x ≡ false) values)
          ⊎ ((xs ys : List A) × (y : A) × (values ≡ xs ++ y ∷ ys)
              × (deep_equal val y ≡ true)
              × All (λ x. deep_equal val x ≡ false) xs
              × (r.exists ≡ true)
              × (r.index ≡ pos (i + length xs))))

  Finds-later :
      (i : ℕ) (val x : A) (rest : List A) (r : Found)
      → deep_equal val x ≡ false
      → Finds (i + 1) val rest r
      → Finds i val (x ∷ rest) r
  Finds-later i val x rest r h (e, inl (a, b, c)) = (e, inl (a, b, (h, c)))
  Finds-later i val x rest r h (e, inr (xs, ys, y, q, d, c, a, b)) =
      (e, inr (x ∷ xs, ys, y, ap (λ z. x ∷ z) q, d, (h, c), a, b ∙ ap pos (omega arith)))

  abbrev picked : Bool → ℕ → A → List A → Found
  picked b i val rest =
      if b
      then record { exists = true; index = pos i; error = none }
      else search_from deep_equal (i + 1) val rest

  search_from-Finds :
      (i : ℕ) (val : A) (values : List A) → Finds i val values (search_from deep_equal i val values)
  unfolding search_from
  search_from-Finds i val [] = (refl, inl (refl, refl, tt))
  search_from-Finds i val (x ∷ rest) = elim (Bool-cases (deep_equal val x)) [
    | inl h ↦
        subst (Finds i val (x ∷ rest)) (ap (λ b. picked b i val rest) (sym h))
          (refl, inr ([], rest, x, refl, h, tt, refl, ap pos index_here))
    | inr h ↦ subst (Finds i val (x ∷ rest)) (ap (λ b. picked b i val rest) (sym h)) (
        Finds-later i val x rest (search_from deep_equal (i + 1) val rest) h
          (search_from-Finds (i + 1) val rest))
  ]
    where
      index_here : i ≡ i + 0
      index_here = omega arith

  -- `InArray` on a slice reports no error, and the index of the first entry that equals the value, or
  -- -1 if none does.
  pub in_array-Finds :
      (val : A) (values : List A) → Finds 0 val values (in_array deep_equal val (some values))
  unfolding in_array
  in_array-Finds val values = search_from-Finds 0 val values
