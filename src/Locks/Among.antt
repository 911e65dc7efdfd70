-- ===== src/Locks/Among.antt =====
-- Members of a list, by tests and counts.
use mathlib.Core.List.{Memᴰ}
use tcabci_read_go_client.Prelude.{
  ◌<◌, ◌≡◌, refl, sym, ap, ◌∙◌, subst, inl, inr, Bool, true, List, [], ◌∷◌, ◌++◌, arith, Bool-cases,
  all, any, All,
}
use tcabci_read_go_client.Locks.Steps.{count}

pub any_found :
    {A : Type 0} (test : A → Bool) (xs : List A)
    → any test xs ≡ true
    → (x : A) × Memᴰ x xs × (test x ≡ true)
any_found test [] h = cc
any_found test (x ∷ xs) h = elim (Bool-cases (test x)) [
  | inl e ↦ (x, Memᴰ.head refl, e)
  | inr e ↦ let r = any_found test xs (ground (arith, h)) in (r.0, Memᴰ.tail r.1, r.2)
]

pub any-Memᴰ :
    {A : Type 0} (test : A → Bool) {x : A} {xs : List A}
    → Memᴰ x xs
    → test x ≡ true
    → any test xs ≡ true
any-Memᴰ test {xs = []} m h = elim m [ ]
any-Memᴰ test {xs = y ∷ ys} (Memᴰ.head e) h = let k : test y ≡ true = ap test (sym e) ∙ h in cc
any-Memᴰ test {xs = y ∷ ys} (Memᴰ.tail m) h = let k = any-Memᴰ test m h in ground (arith, k)

pub All-Memᴰ : {A : Type 0} (P : A → Type 0) {x : A} {xs : List A} → All P xs → Memᴰ x xs → P x
All-Memᴰ P {xs = []} a m = elim m [ ]
All-Memᴰ P {xs = y ∷ ys} a (Memᴰ.head e) = subst P (sym e) a.0
All-Memᴰ P {xs = y ∷ ys} a (Memᴰ.tail m) = All-Memᴰ P a.1 m

pub any-all :
    {A : Type 0} (p q : A → Bool) (xs : List A)
    → all p xs ≡ true
    → any q xs ≡ true
    → (x : A) × (p x ≡ true) × (q x ≡ true)
any-all p q [] a h = cc
any-all p q (x ∷ xs) a h = elim (Bool-cases (q x)) [
  | inl e ↦ (x, ground (arith, a), e)
  | inr e ↦ any-all p q xs (ground (arith, a)) (ground (arith, h, e))
]

pub count-any :
    {A : Type 0} (test : A → Bool) (xs : List A) → 0 < count test xs → any test xs ≡ true
unfolding count
count-any test [] h = absurd (omega (arith, h))
count-any test (x ∷ xs) h = ground (arith, h, count-any test xs)

pub All-split :
    {A : Type 0} (P : A → Type 0) (xs ys : List A) → All P (xs ++ ys) → All P xs × All P ys
All-split P [] ys h = (tt, h)
All-split P (x ∷ xs) ys h = let r = All-split P xs ys h.1 in ((h.0, r.0), r.1)

pub Memᴰ-split :
    {A : Type 0} {x : A} {xs : List A}
    → Memᴰ x xs
    → (ys : List A) × (zs : List A) × (xs ≡ ys ++ x ∷ zs)
Memᴰ-split {xs = []} m = elim m [ ]
Memᴰ-split {xs = y ∷ xs} (Memᴰ.head e) = ([], xs, ap (λ z. z ∷ xs) (sym e))
Memᴰ-split {xs = y ∷ xs} (Memᴰ.tail m) =
    let (ys, zs, e) = Memᴰ-split m in (y ∷ ys, zs, ap (λ l. y ∷ l) e)
