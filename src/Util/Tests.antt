-- ===== src/Util/Tests.antt =====
-- The helpers on short lists.
use tcabci_read_go_client.Prelude.{pos, ◌≡◌, refl, false, none, some, [], ◌∷◌, ◌==◌, codes}
use tcabci_read_go_client.Util.{string_or, search_from, in_array}

second : string_or ([] ∷ codes "b" ∷ codes "c" ∷ []) ≡ codes "b"
unfolding string_or
second = refl

at_one : (in_array ◌==◌ 7 (some (5 ∷ 7 ∷ 7 ∷ []))).index ≡ pos 1
unfolding in_array search_from
at_one = refl

no_slice : (in_array ◌==◌ 7 none).exists ≡ false
unfolding in_array
no_slice = refl
