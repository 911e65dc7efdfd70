-- ===== src/Client/Merge.antt =====
-- The loops of `Subscribe` that write the two maps and count the new addresses.
use tcabci_read_go_client.Prelude.{
  ◌<◌, ◌≤◌, ◌↔◌, [], All, &&_true, ◌+◌, ◌≡◌, refl, subst, inl, inr, Bool, true, false, not, ◌&&◌,
  ◌||◌, some, List, ◌∷◌, arith, if◌then◌else◌, Bool-cases, length, all, Str, str_eq_iff, str_eq_nil,
  StrMap, str_mem, StrNodup, keys, lookup, put, lookup-put, str_mem-keys-put, length-put,
  put-StrNodup, all-str_mem,
}
use tcabci_read_go_client.Client.{read_str, read_bool, address_ok, count_new, add_all, sign_all}

pub lookup-add_all :
    (k : Str) (xs : List Str) (m : StrMap Bool)
    → lookup k (add_all xs m) ≡ (if str_mem k xs then some true else lookup k m)
unfolding add_all str_mem
lookup-add_all k [] m = refl
lookup-add_all k (x ∷ xs) m =
    ground (arith, lookup-add_all k xs (put x true m), lookup-put x k true m)

pub lookup-sign_all :
    (k : Str) (xs : List Str) (signed m : StrMap Str)
    → lookup k (sign_all xs signed m)
      ≡ (if str_mem k xs then some (read_str k signed) else lookup k m)
unfolding sign_all str_mem
lookup-sign_all k [] signed m = refl
lookup-sign_all k (x ∷ xs) signed m = ground (
  arith,
  lookup-sign_all k xs signed (put x (read_str x signed) m),
  lookup-put x k (read_str x signed) m,
  str_eq_iff x k,
)

pub str_mem-keys-add_all :
    (k : Str) (xs : List Str) (m : StrMap Bool)
    → str_mem k (keys (add_all xs m)) ≡ (str_mem k xs || str_mem k (keys m))
unfolding add_all str_mem
str_mem-keys-add_all k [] m = refl
str_mem-keys-add_all k (x ∷ xs) m =
    ground (arith, str_mem-keys-add_all k xs (put x true m), str_mem-keys-put x k true m)

pub add_all-StrNodup :
    (xs : List Str) (m : StrMap Bool) → StrNodup (keys m) → StrNodup (keys (add_all xs m))
unfolding add_all
add_all-StrNodup [] m h = h
add_all-StrNodup (x ∷ xs) m h = add_all-StrNodup xs (put x true m) (put-StrNodup x true m h)

-- The keys that a write leaves do not depend on the values.
keys-put :
    {V W : Type 0} (k : Str) (v : V) (w : W) (m : StrMap V) (n : StrMap W)
    → keys m ≡ keys n
    → keys (put k v m) ≡ keys (put k w n)
unfolding put
keys-put k v w [] [] h = refl
keys-put k v w [] (e ∷ n) h = cc
keys-put k v w (e ∷ m) [] h = cc
keys-put k v w ((i, a) ∷ m) ((j, b) ∷ n) h = ground (arith, keys-put k v w m n)

pub keys-sign_all :
    (xs : List Str) (signed m : StrMap Str) (n : StrMap Bool)
    → keys m ≡ keys n
    → keys (sign_all xs signed m) ≡ keys (add_all xs n)
unfolding sign_all add_all
keys-sign_all [] signed m n h = h
keys-sign_all (x ∷ xs) signed m n h =
    keys-sign_all xs signed _ _ (keys-put x (read_str x signed) true m n h)

-- Every entry of the map is `true`, as the client writes no other.
abbrev pub AllTrue : StrMap Bool → Type 0
AllTrue m = (k : Str) → read_bool k m ≡ str_mem k (keys m)

pub add_all-AllTrue : (xs : List Str) (m : StrMap Bool) → AllTrue m → AllTrue (add_all xs m)
add_all-AllTrue xs m h k = ground (arith, lookup-add_all k xs m, str_mem-keys-add_all k xs m, h k)

pub AllTrue-nil : AllTrue []
unfolding lookup str_mem
AllTrue-nil k = refl

-- `seen` and the map at the start make up the keys of the map so far.
abbrev pub Counted : StrMap Bool → List Str → StrMap Bool → Type 0
Counted have seen m = (k : Str) → (read_bool k have || str_mem k seen) ≡ str_mem k (keys m)

Counted-put :
    (have : StrMap Bool) (seen : List Str) (m : StrMap Bool) (a : Str)
    → Counted have seen m
    → Counted have
        (if not (read_bool a have) && not (str_mem a seen) then a ∷ seen else seen)
        (put a true m)
unfolding str_mem
Counted-put have seen m a h k =
    ground (arith, h k, h a, str_mem-keys-put a k true m, str_eq_iff a k)

length-put_fresh :
    (have : StrMap Bool) (seen : List Str) (a : Str) (m : StrMap Bool)
    → Counted have seen m
    → length (put a true m)
      ≡ (if not (read_bool a have) && not (str_mem a seen) then length m + 1 else length m)
length-put_fresh have seen a m h = ground (arith, length-put a true m, h a)

-- The count is the size of the map that the writes leave.
pub count_new-length :
    (have : StrMap Bool) (seen : List Str) (xs : List Str) (m : StrMap Bool)
    → Counted have seen m
    → count_new have seen xs (length m) ≡ length (add_all xs m)
unfolding count_new add_all
count_new-length have seen [] m h = refl
count_new-length have seen (x ∷ xs) m h =
    let fresh = not (read_bool x have) && not (str_mem x seen) in
    subst
      (λ n.
        count_new have (if fresh then x ∷ seen else seen) xs n ≡ length (add_all xs (put x true m)))
      (length-put_fresh have seen x m h)
      (count_new-length have (if fresh then x ∷ seen else seen) xs (put x true m)
        (Counted-put have seen m x h))

-- After the writes, an address of the call has the call's signature, and any other the old one.
-- An address that `Subscribe` can take with these signatures.
abbrev pub Usable : StrMap Str → Str → Type 0
Usable signed a = (0 < length a) × (length a ≤ 2048) × (0 < length (read_str a signed))

address_ok_iff : (signed : StrMap Str) (a : Str) → (address_ok signed a ≡ true) ↔ Usable signed a
unfolding address_ok
address_ok_iff signed a = (
  (λ h. ground (arith, str_eq_nil a, str_eq_nil (read_str a signed))),
  λ h. ground (arith, str_eq_nil a, str_eq_nil (read_str a signed)),
)

pub all-address_ok_iff :
    (signed : StrMap Str) (xs : List Str)
    → (all (address_ok signed) xs ≡ true) ↔ All (Usable signed) xs
all-address_ok_iff signed [] = ((λ h. tt), λ h. refl)
all-address_ok_iff signed (a ∷ xs) = (
  (λ h. (
    (address_ok_iff signed a).0 (&&_true _ _ h).0,
    (all-address_ok_iff signed xs).0 (&&_true _ _ h).1,
  )),
  λ h. ground (arith, (address_ok_iff signed a).1 h.0, (all-address_ok_iff signed xs).1 h.1),
)

pub address_ok-sign_all :
    (k : Str) (xs : List Str) (signed old : StrMap Str)
    → all (address_ok signed) xs ≡ true
    → (str_mem k xs ≡ false → address_ok old k ≡ true)
    → address_ok (sign_all xs signed old) k ≡ true
unfolding address_ok
address_ok-sign_all k xs signed old h rest = elim (Bool-cases (str_mem k xs)) [
  | inl e ↦
      ground (arith, lookup-sign_all k xs signed old, all-str_mem (address_ok signed) k xs h e)
  | inr n ↦ ground (arith, lookup-sign_all k xs signed old, rest n)
]
