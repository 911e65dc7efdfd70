-- ===== src/SendQueue.antt =====
-- The send queue of a session (websocket.go): `Write`, the loop's receive and `runSession`'s drain.
-- `write` is a `Write` that nothing interferes with. The step relation has every interleaving: a
-- writer holds the read lock of `mut` from its check of the context to its return, and the drain
-- holds the write lock.
pub mod Accounting
pub mod Outcome
pub mod Overflow
mod Tests
use tcabci_read_go_client.Prelude.{
  ℤ, ℕ, zero, suc, ◌+◌, ◌-◌, ◌*◌, ◌/◌, ◌%◌, ◌^◌, ◌≤◌, ◌<◌, min, String, ◌≡◌, refl, sym, ap, ◌∙◌,
  subst, ◌≢◌, ◌↔◌, ◌⊎◌, inl, inr, Bool, true, false, not, ◌&&◌, ◌||◌, Option, none, some, List, [],
  ◌∷◌, ◌++◌, map, arith, ltb, leb, ◌==◌, if◌then◌else◌, ltb→lt, lt→ltb, ltb→le, leb→le, ==_iff,
  Bool-cases, Option-cases, get_or, &&_true, length, length-append, take, drop, all, any, All,
  All-append, all-append, any-append, Str, codes, str_eq, str_eq_refl, str_eq→eq, str_eq_iff,
  str_le, StrMap, str_mem, StrNodup, keys, lookup, put, lookup-put, str_mem-keys-put, length-put,
  put-StrNodup, all-str_mem, all_of_str_mem,
}
use tcabci_read_go_client.Errors.{
  GoError, Result, ok, err, ◌>>=◌, ◌>>◌, guard, plain, canceled, err_not_started,
}
use tcabci_read_go_client.Client.{Client, Session, session_over, end_session}

abbrev pub max_message_size : ℕ
max_message_size = 16 * 1024 * 1024

-- `make(chan []byte, 64)`.
abbrev pub queue_capacity : ℕ
queue_capacity = 64

-- One turn of the loop on `queuedBytes`: the new count, if the budget allows it.
pub reserve : ℕ → ℕ → Option ℕ
reserve size used = if ltb max_message_size (used + size) then none else some (used + size)

-- What the `select` of `Write` finds first: the session's end, the timer, or room in the queue.
pub data Race : Type 0 where
  ended timed_out room : Race

-- `s.queuedBytes.Add(-size)`, for a message that is abandoned.
give_back : Str → Session → Session
give_back b s = record s { queued_bytes = s.queued_bytes - length b }

-- The `select`, once the bytes are reserved. A send is ready only while the channel has room; with none,
-- the timer is what comes.
settle : Race → Str → Session → Session × Result (Unit {0})
unfolding give_back
settle ended b s = (give_back b s, err canceled)
settle timed_out b s = (give_back b s, err (plain (codes "websocket send queue full")))
settle room b s =
    if ltb (length s.send) queue_capacity
    then (record s { send = s.send ++ b ∷ [] }, ok tt)
    else (give_back b s, err (plain (codes "websocket send queue full")))

-- The body of `Write` for a session.
pub write_to : Race → Str → Bool → Session → Session × Result (Unit {0})
unfolding settle reserve
write_to race b over s =
    if over then (s, err canceled) else elim (reserve (length b) s.queued_bytes) [
      | none ↦ (s, err (plain (codes "websocket send byte budget exceeded")))
      | some used ↦ settle race b (record s { queued_bytes = used })
    ]

write_at : Option Session → Race → Str → Client → Client × Result (Unit {0})
unfolding write_to
write_at none race b c = (c, err err_not_started)
write_at (some s) race b c =
    let (s', r) = write_to race b (session_over c s) s in (record c { session = some s' }, r)

pub write : Race → Str → Client → Client × Result (Unit {0})
unfolding write_at
write race b c =
    if ltb max_message_size (length b)
    then (c, err (plain (codes "websocket message too large")))
    else write_at c.session race b c

queried : Race → Result Str → Client → Client × Result (Unit {0})
unfolding write
queried race (ok b) c = write race b c
queried race (err e) c = (c, err e)

-- `WSQuery`: `marshal` is `json.Marshal` of a message with a type and data.
pub ws_query : (Str → Str → Result Str) → Race → Str → Str → Client → Client × Result (Unit {0})
unfolding queried
ws_query marshal race type content c = queried race (marshal type content) c

-- A `Write` under way, with its message: past the check of the context; past the reservation.
pub data Writer : Type 0 where
  checked reserved : Str → Writer

-- The session as its writers and its loop share it. `taken` is the message that the loop writes.
pub record Pipe : Type 0 where
  pub over : Bool
  pub finished : Bool
  pub queued_bytes : ℕ
  pub send : List Str
  pub taken : Option Str
  pub writers : List Writer

pub start_pipe : Pipe
start_pipe = record {
  over = false;
  finished = false;
  queued_bytes = 0;
  send = [];
  taken = none;
  writers = [];
}

-- The new state is given by an equation, so that a step can be taken apart.
pub data Step (p : Pipe) (q : Pipe) : Type 0 where
  enters :
      (b : Str)
      → p.over ≡ false
      → length b ≤ max_message_size
      → q ≡ record p { writers = checked b ∷ p.writers }
      → Step p q
  reserves :
      (xs ys : List Writer) (b : Str) (used : ℕ)
      → p.writers ≡ xs ++ checked b ∷ ys
      → reserve (length b) p.queued_bytes ≡ some used
      → q ≡ record p { queued_bytes = used; writers = xs ++ reserved b ∷ ys }
      → Step p q
  refuses :
      (xs ys : List Writer) (b : Str)
      → p.writers ≡ xs ++ checked b ∷ ys
      → reserve (length b) p.queued_bytes ≡ none
      → q ≡ record p { writers = xs ++ ys }
      → Step p q
  enqueues :
      (xs ys : List Writer) (b : Str)
      → p.writers ≡ xs ++ reserved b ∷ ys
      → length p.send < queue_capacity
      → q ≡ record p { send = p.send ++ b ∷ []; writers = xs ++ ys }
      → Step p q
  gives_up :
      (xs ys : List Writer) (b : Str)
      → p.writers ≡ xs ++ reserved b ∷ ys
      → q ≡ record p { queued_bytes = p.queued_bytes - length b; writers = xs ++ ys }
      → Step p q
  takes :
      (b : Str) (bs : List Str)
      → p.finished ≡ false
      → p.taken ≡ none
      → p.send ≡ b ∷ bs
      → q ≡ record p { taken = some b; send = bs }
      → Step p q
  writes :
      (b : Str)
      → p.taken ≡ some b
      → q ≡ record p { taken = none; queued_bytes = p.queued_bytes - length b }
      → Step p q
  cancels : q ≡ record p { over = true } → Step p q
  ends :
      (s : Session)
      → p.writers ≡ []
      → p.taken ≡ none
      → s.queued_bytes ≡ p.queued_bytes
      → s.send ≡ p.send
      → q ≡ record p {
        over = (end_session s).cancelled;
        finished = (end_session s).finished;
        queued_bytes = (end_session s).queued_bytes;
        send = (end_session s).send;
      }
      → Step p q

pub data Reach (p : Pipe) : Pipe → Type 0 where
  here : Reach p p
  next : {q r : Pipe} → Reach p q → Step q r → Reach p r
