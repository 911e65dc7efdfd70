-- ===== src/SendQueue/Overflow.antt =====
-- The count `queuedBytes` is a signed integer of 64 bits; it is never near the ends of that range, so
-- that the natural numbers of the model are the numbers of the code.
use tcabci_read_go_client.Prelude.{
  ℕ, ◌+◌, ◌^◌, ◌≤◌, ◌<◌, ◌≡◌, ap, subst, some, List, [], ◌∷◌, ◌++◌, arith, length, All, Str,
}
use tcabci_read_go_client.SendQueue.{
  max_message_size, Writer, checked, reserved, Pipe, start_pipe, Step, enters, reserves, refuses,
  enqueues, gives_up, takes, writes, cancels, ends, Reach, here, next,
}
use tcabci_read_go_client.SendQueue.Accounting.{
  reserved_bytes, taken_bytes, weight, reserved_bytes-middle, accounted,
}

abbrev size : Writer → ℕ
size (checked b) = length b
size (reserved b) = length b

-- No writer has a message above the limit.
abbrev Small : List Writer → Type 0
Small = All (λ w. size w ≤ max_message_size)

Small-middle :
    (xs : List Writer) (w : Writer) (ys : List Writer)
    → Small (xs ++ w ∷ ys)
    → (size w ≤ max_message_size) × Small (xs ++ ys)
Small-middle [] w ys h = h
Small-middle (x ∷ xs) w ys h = let r = Small-middle xs w ys h.1 in (r.0, (h.0, r.1))

middle-Small :
    (xs : List Writer) (w : Writer) (ys : List Writer)
    → size w ≤ max_message_size
    → Small (xs ++ ys)
    → Small (xs ++ w ∷ ys)
middle-Small [] w ys s h = (s, h)
middle-Small (x ∷ xs) w ys s h = (h.0, middle-Small xs w ys s h.1)

among :
    {ws : List Writer} (xs : List Writer) (w : Writer) (ys : List Writer)
    → ws ≡ xs ++ w ∷ ys
    → Small ws
    → (size w ≤ max_message_size) × Small (xs ++ ys)
among xs w ys e v = Small-middle xs w ys (subst Small e v)

Step-Small : {p q : Pipe} → Step p q → Small p.writers → Small q.writers
Step-Small (enters b o s e) v = rw e (s, v)
Step-Small (reserves xs ys b used w r e) v =
    let m = among xs (checked b) ys w v in rw e (middle-Small xs (reserved b) ys m.0 m.1)
Step-Small (refuses xs ys b w r e) v = rw e (among xs (checked b) ys w v).1
Step-Small (enqueues xs ys b w r e) v = rw e (among xs (reserved b) ys w v).1
Step-Small (gives_up xs ys b w e) v = rw e (among xs (reserved b) ys w v).1
Step-Small (takes b bs f t s e) v = rw e v
Step-Small (writes b t e) v = rw e v
Step-Small (cancels e) v = rw e v
Step-Small (ends s w t b q e) v = rw e v

Reach-Small : {p q : Pipe} → Small p.writers → Reach p q → Small q.writers
Reach-Small v here = v
Reach-Small v (next r st) = Step-Small st (Reach-Small v r)

-- In every interleaving the sum that a writer's reservation computes fits into a signed integer of 64
-- bits, and what is subtracted from the count, when a writer gives up or the loop has written a
-- message, is no more than the count: it neither overflows nor becomes negative.
pub no_overflow :
    {q : Pipe}
    → Reach start_pipe q
    → ((xs ys : List Writer) (b : Str)
        → q.writers ≡ xs ++ checked b ∷ ys
        → q.queued_bytes + length b < 2 ^ 63)
      × ((xs ys : List Writer) (b : Str)
          → q.writers ≡ xs ++ reserved b ∷ ys
          → length b ≤ q.queued_bytes)
      × ((b : Str) → q.taken ≡ some b → length b ≤ q.queued_bytes)
unfolding start_pipe weight
no_overflow {q} r =
    let v = accounted r in
    let small = Reach-Small {p = start_pipe} {q = q} tt r in
    (
      (λ xs ys b e. omega (arith, v.1, (among xs (checked b) ys e small).0)),
      (λ xs ys b e.
          omega (arith, v.0, ap reserved_bytes e, reserved_bytes-middle xs (reserved b) ys)),
      λ b e. omega (arith, v.0, ap taken_bytes e),
    )
