-- ===== src/Sync/Sorting.antt =====
-- `sort.Strings` over Go's order of strings: what it returns, and that the order in which Go walks
-- the map of addresses does not matter.
use mathlib.Core.List.{Perm, Permᴰ}
use mathlib.Core.Logic.{∥∥₁_elim}
use mathlib.Core.HLevel.{hedberg}
use native.Mathlib.Decide.{ℕ_discrete}
use tcabci_read_go_client.Prelude.{
  ◌≡◌, refl, ap, ◌∙◌, inl, inr, Bool, true, false, ◌&&◌, ◌||◌, List, [], ◌∷◌, arith, Bool-cases,
  Str, str_eq, str_le, StrMap, str_mem, keys,
}
use tcabci_read_go_client.Client.{Client}
use tcabci_read_go_client.Sync.{insert, sort_strings, snapshot, is_subscription}

str_le_total : (s t : Str) → str_le s t ≡ false → str_le t s ≡ true
unfolding str_le
str_le_total [] t h = cc
str_le_total (x ∷ xs) [] h = refl
str_le_total (x ∷ xs) (y ∷ ys) h = ground (arith, str_le_total xs ys)

str_le_antisym : (s t : Str) → str_le s t ≡ true → str_le t s ≡ true → s ≡ t
unfolding str_le
str_le_antisym [] [] h k = refl
str_le_antisym [] (y ∷ ys) h k = cc
str_le_antisym (x ∷ xs) [] h k = cc
str_le_antisym (x ∷ xs) (y ∷ ys) h k = ground (arith, str_le_antisym xs ys)

str_le_trans : (s t u : Str) → str_le s t ≡ true → str_le t u ≡ true → str_le s u ≡ true
unfolding str_le
str_le_trans [] t u h k = refl
str_le_trans (x ∷ xs) [] u h k = cc
str_le_trans (x ∷ xs) (y ∷ ys) [] h k = cc
str_le_trans (x ∷ xs) (y ∷ ys) (z ∷ zs) h k = ground (arith, str_le_trans xs ys zs)

str_mem-insert :
    (k x : Str) (xs : List Str) → str_mem k (insert x xs) ≡ (str_eq x k || str_mem k xs)
unfolding insert str_mem
str_mem-insert k x [] = refl
str_mem-insert k x (y ∷ ys) = ground (arith, str_mem-insert k x ys)

-- Sorting keeps the members.
pub str_mem-sort_strings : (k : Str) (xs : List Str) → str_mem k (sort_strings xs) ≡ str_mem k xs
unfolding sort_strings str_mem
str_mem-sort_strings k [] = refl
str_mem-sort_strings k (x ∷ xs) =
    str_mem-insert k x (sort_strings xs) ∙ ap (λ b. str_eq x k || b) (str_mem-sort_strings k xs)

-- No entry is below the one before it.
abbrev below : Str → List Str → Bool
below x [] = true
below x (y ∷ ys) = str_le x y

abbrev pub is_sorted : List Str → Bool
is_sorted [] = true
is_sorted (x ∷ xs) = below x xs && is_sorted xs

insert-sorted : (x : Str) (xs : List Str) → is_sorted xs ≡ true → is_sorted (insert x xs) ≡ true
unfolding insert
insert-sorted x [] h = refl
insert-sorted x (y ∷ []) h = ground (arith, str_le_total x y)
insert-sorted x (y ∷ z ∷ zs) h = ground (arith, str_le_total x y, insert-sorted x (z ∷ zs))

pub sort_strings-sorted : (xs : List Str) → is_sorted (sort_strings xs) ≡ true
unfolding sort_strings
sort_strings-sorted [] = refl
sort_strings-sorted (x ∷ xs) = insert-sorted x (sort_strings xs) (sort_strings-sorted xs)

insert-insert : (x y : Str) (xs : List Str) → insert x (insert y xs) ≡ insert y (insert x xs)
unfolding insert
insert-insert x y [] = ground (arith, str_le_total x y, str_le_total y x, str_le_antisym x y)
insert-insert x y (z ∷ zs) = ground (
  arith,
  str_le_total x y,
  str_le_total y x,
  str_le_antisym x y,
  str_le_trans x y z,
  str_le_trans y x z,
  insert-insert x y zs,
)

sort_strings-Permᴰ : {xs ys : List Str} → Permᴰ xs ys → sort_strings xs ≡ sort_strings ys
unfolding sort_strings
sort_strings-Permᴰ Permᴰ.nil = refl
sort_strings-Permᴰ (Permᴰ.cons e p) = cc (sort_strings-Permᴰ p)
sort_strings-Permᴰ (Permᴰ.swap {a} {b} {l} e f) = insert-insert a b (sort_strings l) ∙ cc
sort_strings-Permᴰ (Permᴰ.trans p q) = sort_strings-Permᴰ p ∙ sort_strings-Permᴰ q

Str_list_discrete : Discrete (List Str)
Str_list_discrete = hlevel ℕ_discrete

-- The sorted addresses do not depend on the order in which the map is walked.
pub sort_strings-perm : (xs ys : List Str) → Perm xs ys → sort_strings xs ≡ sort_strings ys
sort_strings-perm xs ys p = ∥∥₁_elim p (hedberg Str_list_discrete _ _) sort_strings-Permᴰ

-- The addresses of a snapshot do not depend on the order in which Go walks the map: they are the same
-- for any other order of the same keys, and sorted.
pub snapshot_order :
    (instance_id : Str) (c : Client) (m : StrMap Bool)
    → Perm (keys m) (keys c.subscribed_addresses)
    → ((snapshot instance_id (record c { subscribed_addresses = m })).addrs
        ≡ (snapshot instance_id c).addrs)
      × (is_sorted (snapshot instance_id c).addrs ≡ true)
unfolding snapshot
snapshot_order instance_id c m p = elim (Bool-cases (is_subscription c.mode)) [
  | inl e ↦ rw e (
    sort_strings-perm (keys m) (keys c.subscribed_addresses) p,
    sort_strings-sorted (keys c.subscribed_addresses),
  )
  | inr n ↦ rw n (refl, sort_strings-sorted [])
]
