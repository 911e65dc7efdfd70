-- ===== src/Callbacks/Slots.antt =====
-- How many callbacks run at once.
use tcabci_read_go_client.Prelude.{ℕ, suc, ◌≤◌, ◌≡◌, refl, ap, List, [], ◌∷◌, ◌++◌, arith, length}
use tcabci_read_go_client.Callbacks.{
  Board, slot_capacity, dispatch, Step, calls, dispatches, abandons, returns, ends, Reach, here,
  next, start_board,
}

pub record Inv (b : Board) : Type 0 where
  pub counted : b.slots ≡ length b.running
  pub bounded : length b.running ≤ slot_capacity

length-middle : (xs ys : List ℕ) (f : ℕ) → length (xs ++ f ∷ ys) ≡ suc (length (xs ++ ys))
length-middle [] ys f = refl
length-middle (x ∷ xs) ys f = ap suc (length-middle xs ys f)

Step-Inv : {b d : Board} → Step b d → Inv b → Inv d
unfolding dispatch
Step-Inv (calls fs e) v = rw e (record { counted = v.counted; bounded = v.bounded })
Step-Inv (dispatches xs ys done fs f m c h e) v =
    rw e (record {
      counted = ground (arith, v.counted);
      bounded = ground (arith, v.counted, v.bounded);
    })
Step-Inv (abandons xs ys c o h e) v = rw e (record { counted = v.counted; bounded = v.bounded })
Step-Inv (returns xs ys f h e) v = rw e (record {
  counted = omega (arith, v.counted, ap length h, length-middle xs ys f);
  bounded = omega (arith, v.bounded, ap length h, length-middle xs ys f);
})
Step-Inv (ends e) v = rw e (record { counted = v.counted; bounded = v.bounded })

Reach-Inv : {b d : Board} → Inv b → Reach b d → Inv d
Reach-Inv v here = v
Reach-Inv v (next r st) = Step-Inv st (Reach-Inv v r)

start-Inv : Inv start_board
unfolding start_board
start-Inv = record { counted = refl; bounded = omega arith }

-- However many goroutines deliver events, and however the callbacks interleave with them, the slots in
-- use are as many as the callbacks that run, and those are never more than sixteen.
pub at_most_sixteen :
    {b : Board} → Reach start_board b → (b.slots ≡ length b.running) × (length b.running ≤ 16)
at_most_sixteen {b} r = (v.counted, v.bounded)
  where
    v : Inv b
    v = Reach-Inv start-Inv r
