-- ===== src/Reader/Message.antt =====
-- How one message of the connection is read.
use tcabci_read_go_client.Prelude.{
  ℕ, zero, suc, ◌+◌, ◌≤◌, ◌≡◌, refl, ap, Bool, not, Option, none, some, [], ◌∷◌, arith, ltb,
  if◌then◌else◌, length, take, Str, codes,
}
use tcabci_read_go_client.Errors.{GoError, ok, err, ◌>>=◌, ◌>>◌, guard, plain}
use tcabci_read_go_client.SendQueue.{max_message_size}
use tcabci_read_go_client.Reader.{Body, read_limited, read_message, Arrival, message, pong, broken}

-- The error that an arrival ends the goroutine with.
unfoldable pub fault_of : Arrival → Option GoError
fault_of (message text b) =
    if ltb max_message_size (length b.bytes)
    then some (plain (codes "websocket message too large"))
    else b.fault
fault_of (pong now e) = e
fault_of (broken e) = some e

length-take : (n : ℕ) (s : Str) → n ≤ length s → length (take n s) ≡ n
length-take zero s h = refl
length-take (suc n) [] h = absurd (omega (arith, h))
length-take (suc n) (x ∷ s) h = ap suc (length-take n s (omega (arith, h)))

-- For a limit that does not compute.
limited :
    (n : ℕ) (s : Str) (fault : Option GoError) (e : GoError)
    → (read_limited (n + 1) (record { bytes = s; fault = fault })
        >>= (λ msg. guard (not (ltb n (length msg))) e >> ok msg))
      ≡ elim (if ltb n (length s) then some e else fault) [ none ↦ ok s | some e ↦ err e ]
unfolding read_limited
limited n s none e = ground (arith, length-take (n + 1) s)
limited n s (some x) e = ground (arith, length-take (n + 1) s)

-- A message is read exactly if its reader reports no error and it is not too large, and then all of it.
pub read_message_lem :
    (text : Bool) (b : Body)
    → read_message b ≡ elim (fault_of (message text b)) [ none ↦ ok b.bytes | some e ↦ err e ]
unfolding read_message fault_of
read_message_lem text b =
    limited max_message_size b.bytes b.fault (plain (codes "websocket message too large"))
