-- ===== src/Passkey/Pattern.antt =====
-- The form of a UUID of version 4, as a pattern of classes of characters.
use tcabci_read_go_client.Prelude.{
  ℕ, zero, suc, ◌≡◌, refl, Bool, true, false, ◌&&◌, ◌||◌, List, [], ◌∷◌, ◌++◌, leb, ◌==◌, Str,
}

-- A text that has a character of each given class, in their order.
pub matches : List (ℕ → Bool) → Str → Bool
matches [] [] = true
matches [] (c ∷ cs) = false
matches (p ∷ ps) [] = false
matches (p ∷ ps) (c ∷ cs) = p c && matches ps cs

unfoldable pub repeat : ℕ → (ℕ → Bool) → List (ℕ → Bool)
repeat zero p = []
repeat (suc n) p = p ∷ repeat n p

unfoldable pub lower_hex : ℕ → Bool
lower_hex c = (leb b'0' c && leb c b'9') || (leb b'a' c && leb c b'f')

unfoldable pub hyphen : ℕ → Bool
hyphen c = c == b'-'

unfoldable pub four : ℕ → Bool
four c = c == b'4'

-- The digits from 8 to b.
unfoldable pub variant_digit : ℕ → Bool
variant_digit c = c == b'8' || c == b'9' || c == b'a' || c == b'b'

-- xxxxxxxx-xxxx-4xxx-Nxxx-xxxxxxxxxxxx, where N is 8, 9, a or b.
unfoldable pub uuid_pattern : List (ℕ → Bool)
unfolding repeat
uuid_pattern =
    repeat 8 lower_hex
    ++ (hyphen ∷ repeat 4 lower_hex)
    ++ (hyphen ∷ four ∷ repeat 3 lower_hex)
    ++ (hyphen ∷ variant_digit ∷ repeat 3 lower_hex)
    ++ (hyphen ∷ repeat 12 lower_hex)

unfoldable pub is_uuid : Str → Bool
unfolding matches uuid_pattern
is_uuid = matches uuid_pattern

-- The same, as a product of one equation for each character.
unfoldable pub Classes : List (ℕ → Bool) → Str → Type 0
Classes [] [] = Unit
Classes [] (c ∷ cs) = ⊥
Classes (p ∷ ps) [] = ⊥
Classes (p ∷ ps) (c ∷ cs) = (p c ≡ true) × Classes ps cs

pub matches_complete : (ps : List (ℕ → Bool)) (s : Str) → Classes ps s → matches ps s ≡ true
unfolding Classes matches
matches_complete [] [] h = refl
matches_complete [] (c ∷ cs) h = absurd h
matches_complete (p ∷ ps) [] h = absurd h
matches_complete (p ∷ ps) (c ∷ cs) h = let k = matches_complete ps cs h.1 in let e = h.0 in cc
