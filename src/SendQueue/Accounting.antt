-- ===== src/SendQueue/Accounting.antt =====
-- The byte count of the queue, over every interleaving.
use tcabci_read_go_client.Prelude.{
  ℕ, suc, ◌+◌, ◌-◌, ◌≤◌, ◌≡◌, refl, ap, ◌∙◌, true, false, Option, none, some, List, [], ◌∷◌, ◌++◌,
  arith, length, length-append, Str,
}
use tcabci_read_go_client.Client.{Session, end_session, drain}
use tcabci_read_go_client.SendQueue.{
  max_message_size, queue_capacity, reserve, Writer, checked, reserved, Pipe, start_pipe, Step,
  enters, reserves, refuses, enqueues, gives_up, takes, writes, cancels, ends, Reach, here, next,
}

pub total : List Str → ℕ
total [] = 0
total (b ∷ bs) = length b + total bs

pub reserved_bytes : List Writer → ℕ
reserved_bytes [] = 0
reserved_bytes (checked b ∷ ws) = reserved_bytes ws
reserved_bytes (reserved b ∷ ws) = length b + reserved_bytes ws

abbrev pub taken_bytes : Option Str → ℕ
taken_bytes none = 0
taken_bytes (some b) = length b

total-append : (xs ys : List Str) → total (xs ++ ys) ≡ total xs + total ys
unfolding total
total-append [] ys = omega arith
total-append (x ∷ xs) ys = omega (arith, total-append xs ys)

reserved_bytes-append :
    (xs ys : List Writer) → reserved_bytes (xs ++ ys) ≡ reserved_bytes xs + reserved_bytes ys
unfolding reserved_bytes
reserved_bytes-append [] ys = omega arith
reserved_bytes-append (checked b ∷ xs) ys = omega (arith, reserved_bytes-append xs ys)
reserved_bytes-append (reserved b ∷ xs) ys = omega (arith, reserved_bytes-append xs ys)

-- Every counted byte belongs to one message that is queued, being written, or about to be queued.
pub record Inv (p : Pipe) : Type 0 where
  pub counted : p.queued_bytes ≡ total p.send + taken_bytes p.taken + reserved_bytes p.writers
  pub budget : p.queued_bytes ≤ max_message_size
  pub capacity : length p.send ≤ queue_capacity
  pub ended :
      p.finished ≡ true
      → (p.over ≡ true) × (length p.send ≡ 0) × (p.taken ≡ none) × (length p.writers ≡ 0)

drain-total : (bs : List Str) (used : ℕ) → used ≡ total bs → drain bs used ≡ 0
unfolding drain total
drain-total [] used h = h
drain-total (b ∷ bs) used h = drain-total bs (used - length b) (omega arith)

unfoldable pub weight : Writer → ℕ
weight (checked b) = 0
weight (reserved b) = length b

pub reserved_bytes-middle :
    (xs : List Writer) (w : Writer) (ys : List Writer)
    → reserved_bytes (xs ++ w ∷ ys) ≡ weight w + reserved_bytes (xs ++ ys)
unfolding reserved_bytes weight
reserved_bytes-middle [] (checked b) ys = omega arith
reserved_bytes-middle [] (reserved b) ys = omega arith
reserved_bytes-middle (checked x ∷ xs) w ys = omega (arith, reserved_bytes-middle xs w ys)
reserved_bytes-middle (reserved x ∷ xs) w ys = omega (arith, reserved_bytes-middle xs w ys)

length-middle :
    (xs : List Writer) (w : Writer) (ys : List Writer)
    → length (xs ++ w ∷ ys) ≡ suc (length (xs ++ ys))
length-middle [] w ys = refl
length-middle (x ∷ xs) w ys = ap suc (length-middle xs w ys)

-- A writer among those under way, and its share of the reserved bytes.
module _ (p : Pipe) (xs : List Writer) (w : Writer) (ys : List Writer)
    (e : p.writers ≡ xs ++ w ∷ ys) where
  share : reserved_bytes p.writers ≡ weight w + reserved_bytes (xs ++ ys)
  share = ap reserved_bytes e ∙ reserved_bytes-middle xs w ys

  not_ended : Inv p → p.finished ≡ true → ⊥
  not_ended v f = omega (arith, (v.ended f).3, ap length e, length-middle xs w ys)

reserves-Inv :
    {p : Pipe} (xs ys : List Writer) (b : Str) (used : ℕ)
    → p.writers ≡ xs ++ checked b ∷ ys
    → reserve (length b) p.queued_bytes ≡ some used
    → Inv p
    → Inv (record p { queued_bytes = used; writers = xs ++ reserved b ∷ ys })
unfolding reserve weight
reserves-Inv {p} xs ys b used w r v = record {
  counted =
      ground
        (arith, share p xs (checked b) ys w, reserved_bytes-middle xs (reserved b) ys, v.counted);
  budget = ground arith;
  capacity = v.capacity;
  ended = λ f. absurd (not_ended p xs (checked b) ys w v f);
}

leaves-Inv :
    {p : Pipe} (xs ys : List Writer) (w : Writer) (send : List Str) (used : ℕ)
    → p.writers ≡ xs ++ w ∷ ys
    → used + weight w ≡ p.queued_bytes + (total send - total p.send)
    → total p.send ≤ total send
    → used ≤ max_message_size
    → length send ≤ queue_capacity
    → Inv p
    → Inv (record p { queued_bytes = used; send = send; writers = xs ++ ys })
leaves-Inv {p} xs ys w send used e h k small room v = record {
  counted = omega (arith, share p xs w ys e, v.counted);
  budget = small;
  capacity = room;
  ended = λ f. absurd (not_ended p xs w ys e v f);
}

takes-Inv :
    {p : Pipe} (b : Str) (bs : List Str)
    → p.finished ≡ false
    → p.taken ≡ none
    → p.send ≡ b ∷ bs
    → Inv p
    → Inv (record p { taken = some b; send = bs })
unfolding total
takes-Inv b bs f t s v = record {
  counted = ground (arith, ap total s);
  budget = v.budget;
  capacity = omega (arith, ap length s, v.capacity);
  ended = λ h. cc;
}

ends-Inv :
    {p : Pipe} (s : Session)
    → p.writers ≡ []
    → p.taken ≡ none
    → s.queued_bytes ≡ p.queued_bytes
    → s.send ≡ p.send
    → Inv p
    → Inv (record p {
      over = true;
      finished = true;
      queued_bytes = drain s.send s.queued_bytes;
      send = [];
    })
unfolding total reserved_bytes
ends-Inv {p} s w t b q v = record {
  counted = ground (arith, empty, ap reserved_bytes w, ap taken_bytes t);
  budget = omega (arith, empty);
  capacity = omega arith;
  ended = λ h. (refl, refl, t, ap length w);
}
  where
    empty : drain s.send s.queued_bytes ≡ 0
    empty =
        drain-total s.send s.queued_bytes
          (ground (arith, ap total q, ap reserved_bytes w, ap taken_bytes t))

Step-Inv : {p q : Pipe} → Step p q → Inv p → Inv q
unfolding total reserved_bytes end_session weight
Step-Inv {p} (enters b o s e) v = rw e (record {
  counted = v.counted;
  budget = v.budget;
  capacity = v.capacity;
  ended = λ f. ground (arith, v.ended f);
})
Step-Inv {p} (reserves xs ys b used w r e) v = rw e (reserves-Inv xs ys b used w r v)
Step-Inv {p} (refuses xs ys b w r e) v = rw e (
    leaves-Inv xs ys (checked b) p.send p.queued_bytes w (omega arith) (omega arith) v.budget
      v.capacity v)
Step-Inv {p} (enqueues xs ys b w r e) v = rw e (
    leaves-Inv xs ys (reserved b) (p.send ++ b ∷ []) p.queued_bytes w
      (omega (arith, total-append p.send (b ∷ []))) (omega (arith, total-append p.send (b ∷ [])))
      v.budget (omega (arith, length-append p.send (b ∷ []))) v)
Step-Inv {p} (gives_up xs ys b w e) v = rw e (
    leaves-Inv xs ys (reserved b) p.send (p.queued_bytes - length b) w
      (omega (arith, share p xs (reserved b) ys w, v.counted)) (omega arith)
      (omega (arith, v.budget)) v.capacity v)
Step-Inv {p} (takes b bs f t s e) v = rw e (takes-Inv b bs f t s v)
Step-Inv {p} (writes b t e) v = rw e (record {
  counted = ground (arith, v.counted, ap taken_bytes t);
  budget = omega (arith, v.budget);
  capacity = v.capacity;
  ended = λ f. ground (arith, v.ended f);
})
Step-Inv {p} (cancels e) v = rw e (record {
  counted = v.counted;
  budget = v.budget;
  capacity = v.capacity;
  ended = λ f. (refl, (v.ended f).1, (v.ended f).2, (v.ended f).3);
})
Step-Inv {p} (ends s w t b q e) v = rw e (ends-Inv s w t b q v)

Reach-Inv : {p q : Pipe} → Inv p → Reach p q → Inv q
Reach-Inv v here = v
Reach-Inv v (next r st) = Step-Inv st (Reach-Inv v r)

start-Inv : Inv start_pipe
unfolding start_pipe total reserved_bytes
start-Inv = record { counted = refl; budget = omega arith; capacity = omega arith; ended = λ h. cc }

-- In every interleaving of writers, the loop and the end of the session, the count is the number of
-- bytes queued, being written, or reserved by a writer; it never passes 16 MiB, and the queue never
-- holds more than 64 messages.
pub accounted :
    {q : Pipe}
    → Reach start_pipe q
    → (q.queued_bytes ≡ total q.send + taken_bytes q.taken + reserved_bytes q.writers)
      × (q.queued_bytes ≤ max_message_size)
      × (length q.send ≤ queue_capacity)
accounted r = let v = Reach-Inv start-Inv r in (v.counted, v.budget, v.capacity)

length-zero {ℓ} : {A : Type ℓ} (xs : List A) → length xs ≡ 0 → xs ≡ []
length-zero [] h = refl
length-zero (x ∷ xs) h = absurd (omega arith)

-- Once the session has ended, in every interleaving, no message is left behind: the queue is empty,
-- no byte is counted, no writer is under way, and no writer can get past its check any more.
pub ended_empty :
    {q : Pipe}
    → Reach start_pipe q
    → q.finished ≡ true
    → (q.send ≡ []) × (q.queued_bytes ≡ 0) × (q.writers ≡ []) × (q.taken ≡ none) × (q.over ≡ true)
unfolding total reserved_bytes
ended_empty {q} r f =
    let v = Reach-Inv start-Inv r in
    let e = v.ended f in
    let s = length-zero q.send (e.1) in
    let w = length-zero q.writers (e.3) in
    (s, ground (arith, v.counted, ap total s, ap reserved_bytes w, ap taken_bytes e.2), w, e.2, e.0)
