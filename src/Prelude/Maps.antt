-- ===== src/Prelude/Maps.antt =====
-- Go maps with string keys: association lists. A read of a missing key is `none`, and `put` writes
-- in place or at the end, so that keys stay distinct. Go's order of iteration is not specified;
-- what depends on it is proved for every order.
use Prim.Native.Nat.{suc}
use mathlib.Core.Path.{◌≡◌, refl, subst}
use mathlib.Core.Logic.{inl, inr}
use mathlib.Core.Bool.{Bool, true, false, ◌||◌}
use mathlib.Core.Option.{Option, none, some}
use mathlib.Core.List.{List, [], ◌∷◌, map}
use native.Mathlib.Omega.{arith}
use tcabci_read_go_client.Prelude.Tests.{if◌then◌else◌, Bool-cases, &&_true}
use tcabci_read_go_client.Prelude.Lists.{length, all}
use tcabci_read_go_client.Prelude.Strings.{Str, str_eq, str_eq_iff, str_eq_refl, str_eq→eq}

abbrev pub StrMap {ℓ} : Type ℓ → Type ℓ
StrMap V = List (Str × V)

unfoldable pub str_mem : Str → List Str → Bool
str_mem k [] = false
str_mem k (x ∷ xs) = str_eq x k || str_mem k xs

-- No string stands twice.
abbrev pub StrNodup : List Str → Type 0
StrNodup [] = Unit {0}
StrNodup (x ∷ xs) = (str_mem x xs ≡ false) × StrNodup xs

abbrev pub keys {ℓ} : {V : Type ℓ} → StrMap V → List Str
keys m = map (λ e. e.0) m

module _ {ℓ} {V : Type ℓ} where
  unfoldable pub lookup : Str → StrMap V → Option V
  lookup k [] = none
  lookup k ((j, v) ∷ m) = if str_eq j k then some v else lookup k m

  unfoldable pub put : Str → V → StrMap V → StrMap V
  put k v [] = (k, v) ∷ []
  put k v ((j, w) ∷ m) = if str_eq j k then (j, v) ∷ m else (j, w) ∷ put k v m

  pub lookup-put :
      (k j : Str) (v : V) (m : StrMap V)
      → lookup j (put k v m) ≡ (if str_eq k j then some v else lookup j m)
  unfolding lookup put
  lookup-put k j v [] = refl
  lookup-put k j v ((i, w) ∷ m) =
      ground (arith, str_eq_iff k j, str_eq_iff i k, str_eq_iff i j, lookup-put k j v m)

  pub str_mem-keys-put :
      (k j : Str) (v : V) (m : StrMap V)
      → str_mem j (keys (put k v m)) ≡ (str_eq k j || str_mem j (keys m))
  unfolding str_mem put
  str_mem-keys-put k j v [] = refl
  str_mem-keys-put k j v ((i, w) ∷ m) =
      ground (arith, str_eq_iff k j, str_eq_iff i k, str_eq_iff i j, str_mem-keys-put k j v m)

  pub length-put :
      (k : Str) (v : V) (m : StrMap V)
      → length (put k v m) ≡ (if str_mem k (keys m) then length m else suc (length m))
  unfolding put str_mem
  length-put k v [] = refl
  length-put k v ((i, w) ∷ m) = ground (arith, length-put k v m)

  pub put-StrNodup :
      (k : Str) (v : V) (m : StrMap V) → StrNodup (keys m) → StrNodup (keys (put k v m))
  unfolding put str_mem
  put-StrNodup k v [] h = (refl, tt)
  put-StrNodup k v ((i, w) ∷ m) h =
      ground (arith, str_mem-keys-put k i v m, put-StrNodup k v m, str_eq_iff i k, str_eq_iff k i)

-- A test that holds of every entry holds of a member.
pub all-str_mem :
    (p : Str → Bool) (k : Str) (xs : List Str) → all p xs ≡ true → str_mem k xs ≡ true → p k ≡ true
unfolding str_mem
all-str_mem p k [] h m = cc
all-str_mem p k (x ∷ xs) h m = elim (Bool-cases (str_eq x k)) [
  | inl e ↦ subst (λ z. p z ≡ true) (str_eq→eq x k e) (&&_true _ _ h).0
  | inr n ↦ all-str_mem p k xs (&&_true _ _ h).1 (rw n at m)
]

-- The other way round: what holds of every member holds of all.
pub all_of_str_mem :
    (p : Str → Bool) (xs : List Str)
    → ((k : Str) → str_mem k xs ≡ true → p k ≡ true)
    → all p xs ≡ true
unfolding str_mem
all_of_str_mem p [] h = refl
all_of_str_mem p (x ∷ xs) h =
    ground (arith, h x, str_eq_refl x, all_of_str_mem p xs (λ k m. h k (ground arith)))
