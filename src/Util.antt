-- ===== src/Util.antt =====
-- util.go: `StringOR` and `InArray`.
pub mod Searching
mod Tests
use tcabci_read_go_client.Prelude.{
  ℤ, pos, negsuc, ℕ, zero, suc, ◌+◌, ◌-◌, ◌*◌, ◌/◌, ◌%◌, ◌^◌, ◌≤◌, ◌<◌, min, String, ◌≡◌, refl, sym,
  ap, ◌∙◌, subst, ◌≢◌, ◌↔◌, ◌⊎◌, inl, inr, Bool, true, false, not, ◌&&◌, ◌||◌, Option, none, some,
  List, [], ◌∷◌, ◌++◌, map, arith, ltb, leb, ◌==◌, if◌then◌else◌, ltb→lt, lt→ltb, ltb→le, leb→le,
  ==_iff, Bool-cases, Option-cases, get_or, &&_true, length, length-append, take, drop, all, any,
  All, All-append, all-append, any-append, Str, codes, str_eq, str_eq_refl, str_eq→eq, str_eq_iff,
  str_eq_sym, str_eq_nil, str_le, StrMap, str_mem, StrNodup, keys, lookup, put, lookup-put,
  str_mem-keys-put, length-put, put-StrNodup, all-str_mem, all_of_str_mem,
}
use tcabci_read_go_client.Errors.{GoError, plain}

pub string_or : List Str → Str
string_or [] = []
string_or ([] ∷ rest) = string_or rest
string_or ((c ∷ cs) ∷ rest) = c ∷ cs

-- The results of `InArray`.
pub record Found : Type 0 where
  pub exists : Bool
  pub index : ℤ
  pub error : Option GoError

module _ {A : Type 0} (deep_equal : A → A → Bool) where
  -- The loop, from an index on.
  pub search_from : ℕ → A → List A → Found
  search_from i val [] = record { exists = false; index = negsuc 0; error = none }
  search_from i val (x ∷ rest) =
      let later = search_from (i + 1) val rest in
      if deep_equal val x then record { exists = true; index = pos i; error = none } else later

  -- An argument that is no slice is `none`; `deep_equal` is `reflect.DeepEqual`.
  pub in_array : A → Option (List A) → Found
  unfolding search_from
  in_array val none = record {
    exists = false;
    index = pos 0;
    error = some (plain (codes "invalid value. expected value type is slice"));
  }
  in_array val (some xs) = search_from 0 val xs
