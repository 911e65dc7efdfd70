-- ===== src/Callbacks/Order.antt =====
-- Which callbacks hear an event.
use tcabci_read_go_client.Prelude.{ℕ, suc, ◌≡◌, refl, ap, Bool, true, false, List, [], ◌∷◌, take}
use tcabci_read_go_client.Callbacks.{call_callbacks}

-- The answers up to the first refusal.
abbrev leading : List Bool → ℕ
leading [] = 0
leading (true ∷ rest) = suc (leading rest)
leading (false ∷ rest) = 0

-- The callbacks hear the event in the order of their registration, each once, up to the first that
-- meets the end of the context; from there on none does.
pub call_callbacks-take :
    (fs : List ℕ) (answers : List Bool) → call_callbacks fs answers ≡ take (leading answers) fs
unfolding call_callbacks
call_callbacks-take [] [] = refl
call_callbacks-take [] (true ∷ rest) = refl
call_callbacks-take [] (false ∷ rest) = refl
call_callbacks-take (f ∷ fs) [] = refl
call_callbacks-take (f ∷ fs) (false ∷ rest) = refl
call_callbacks-take (f ∷ fs) (true ∷ rest) = ap (λ l. f ∷ l) (call_callbacks-take fs rest)
