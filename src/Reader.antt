-- ===== src/Reader.antt =====
-- websocket.go: the goroutine of `serveConnection` that reads the connection.
pub mod Message
pub mod Hearing
mod Tests
use tcabci_read_go_client.Prelude.{
  ℤ, pos, negsuc, ℕ, zero, suc, ◌+◌, ◌-◌, ◌*◌, ◌/◌, ◌%◌, ◌^◌, ◌≤◌, ◌<◌, min, String, ◌≡◌, refl, sym,
  ap, ◌∙◌, subst, ◌≢◌, ◌↔◌, ◌⊎◌, inl, inr, Bool, true, false, not, ◌&&◌, ◌||◌, Option, none, some,
  List, [], ◌∷◌, ◌++◌, map, arith, ltb, leb, ◌==◌, if◌then◌else◌, ltb→lt, lt→ltb, ltb→le, leb→le,
  ==_iff, Bool-cases, Option-cases, get_or, &&_true, length, length-append, take, drop, all, any,
  All, All-append, all-append, any-append, Str, codes, str_eq, str_eq_refl, str_eq→eq, str_eq_iff,
  str_eq_sym, str_eq_nil, str_le, StrMap, str_mem, StrNodup, keys, lookup, put, lookup-put,
  str_mem-keys-put, length-put, put-StrNodup, all-str_mem, all_of_str_mem,
}
use tcabci_read_go_client.Errors.{GoError, Result, ok, err, ◌>>=◌, ◌>>◌, guard, plain}
use tcabci_read_go_client.Client.{Client}
use tcabci_read_go_client.SendQueue.{max_message_size}
use tcabci_read_go_client.Incoming.{Codec, Delivery, Reaction, parse_incoming, after_incoming}

-- In seconds.
abbrev pub pong_wait : ℕ
pong_wait = 30

-- What a message's reader gives: bytes, and then the end of the message or an error.
pub record Body : Type 0 where
  pub bytes : Str
  pub fault : Option GoError

-- What the connection gives to the calls of `NextReader`, in order: a message, which is text or binary;
-- a pong, at a time and with the error of `SetReadDeadline`; or an error of the connection, such as a
-- deadline that has passed.
pub data Arrival : Type 0 where
  message : Bool → Body → Arrival
  pong : ℕ → Option GoError → Arrival
  broken : GoError → Arrival

-- `io.ReadAll(io.LimitReader(reader, n))`: an error behind the first n bytes is not met.
read_limited : ℕ → Body → Result Str
read_limited n b =
    if leb n (length b.bytes)
    then ok (take n b.bytes)
    else elim b.fault [ none ↦ ok b.bytes | some e ↦ err e ]

pub read_message : Body → Result Str
unfolding read_limited
read_message b = do
  msg ← read_limited (max_message_size + 1) b
  guard (not (ltb max_message_size (length msg))) (plain (codes "websocket message too large"))
  ok msg

-- The goroutine's effects: the read deadline, what the callbacks hear, and the client's state.
pub record Reader : Type 0 where
  pub read_deadline : ℕ
  pub deliveries : List Delivery
  pub client : Client

-- The connection's first deadline; `serveConnection` returns the error of `SetReadDeadline`.
pub open_reader : Option GoError → ℕ → Client → Result Reader
open_reader none now c =
    ok (record { read_deadline = now + pong_wait; deliveries = []; client = c })
open_reader (some e) now c = err e

pub hear : Reaction → Reader → Reader
hear x r = record r {
  deliveries = r.deliveries ++ x.deliveries;
  client = after_incoming x r.client;
}

-- A binary message is read and dropped.
parse : Codec → Bool → Result Str → Reader → Reader × Option GoError
unfolding hear
parse k text (err e) r = (r, some e)
parse k true (ok msg) r = (hear (parse_incoming k msg) r, none)
parse k false (ok msg) r = (r, none)

-- The second component is the error with which the goroutine ends.
pub read_step : Codec → Arrival → Reader → Reader × Option GoError
unfolding parse
read_step k (message text b) r = parse k text (read_message b) r
read_step k (pong now none) r = (record r { read_deadline = now + pong_wait }, none)
read_step k (pong now (some e)) r = (r, some e)
read_step k (broken e) r = (r, some e)

then_read : (Reader → Reader × Option GoError) → Reader × Option GoError → Reader × Option GoError
then_read rest (r, none) = rest r
then_read rest (r, some e) = (r, some e)

-- Without an error, the goroutine waits for the next arrival.
pub read_loop : Codec → List Arrival → Reader → Reader × Option GoError
unfolding then_read read_step
read_loop k [] r = (r, none)
read_loop k (a ∷ rest) r = then_read (λ s. read_loop k rest s) (read_step k a r)
