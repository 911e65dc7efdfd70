-- ===== src/Callbacks/Tests.antt =====
-- The callbacks at concrete steps.
use tcabci_read_go_client.Prelude.{ℕ, ◌≤◌, ◌≡◌, refl, false, [], ◌∷◌, length}
use tcabci_read_go_client.Callbacks.{
  Board, dispatch, calls, dispatches, Reach, here, next, start_board,
}
use tcabci_read_go_client.Callbacks.Slots.{at_most_sixteen}

one_running : Board
unfolding start_board
one_running = record {
  over = false;
  slots = 1;
  running = 7 ∷ [];
  callers = record { started = 7 ∷ []; pending = 8 ∷ [] } ∷ [];
}

runs_one : Reach start_board one_running
unfolding start_board one_running dispatch
runs_one =
    next (next here (calls (7 ∷ 8 ∷ []) refl)) (dispatches [] [] [] (8 ∷ []) 7 _ refl refl refl)

at_most_sixteen_example : (1 ≡ length {A = ℕ} (7 ∷ [])) × (length {A = ℕ} (7 ∷ []) ≤ 16)
unfolding one_running
at_most_sixteen_example = at_most_sixteen runs_one
