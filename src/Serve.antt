-- ===== src/Serve.antt =====
-- The loop of `serveConnection` (websocket.go) for one connection, with what other goroutines do to
-- the client between its steps.
pub mod Quiescence
pub mod Turns
pub mod Progress
mod Tests
use tcabci_read_go_client.Prelude.{
  ℤ, ℕ, zero, suc, ◌+◌, ◌-◌, ◌*◌, ◌/◌, ◌%◌, ◌^◌, ◌≤◌, ◌<◌, min, String, ◌≡◌, refl, sym, ap, ◌∙◌,
  subst, ◌≢◌, ◌↔◌, ◌⊎◌, inl, inr, Bool, true, false, not, ◌&&◌, ◌||◌, Option, none, some, List, [],
  ◌∷◌, ◌++◌, map, arith, ltb, leb, ◌==◌, if◌then◌else◌, ltb→lt, lt→ltb, ltb→le, leb→le, ==_iff,
  Bool-cases, Option-cases, get_or, &&_true, length, length-append, take, drop, all, any, All,
  All-append, all-append, any-append, Str, codes, str_eq, str_eq_refl, str_eq→eq, str_eq_iff,
  str_le, StrMap, str_mem, StrNodup, keys, lookup, put, lookup-put, str_mem-keys-put, length-put,
  put-StrNodup, all-str_mem, all_of_str_mem,
}
use tcabci_read_go_client.Errors.{GoError, Result, ok, err, canceled}
use tcabci_read_go_client.Client.{Client, Session}
use tcabci_read_go_client.Client.Invariant.{Call, IsChange, step}
use tcabci_read_go_client.Sync.{Conn, Frame, raw, ping, Synced, sync_subscription, write_frame}

-- Where the loop stands: before it reads the revision; between that and the call of
-- `syncSubscription`; at the `select`.
pub data Phase : Type 0 where
  ready must_sync waiting : Phase

-- The loop's variables `previous`, `wasListening`, `revision` (in `synced`) and `first`.
pub record Loop : Type 0 where
  pub synced : Synced
  pub first : Bool
  pub conn : Conn
  pub phase : Phase

pub start_loop : List (Option GoError) → Loop
start_loop outcomes = record {
  synced = record { previous = []; was_listening = false; revision = 0 };
  first = true;
  conn = record { outcomes = outcomes; frames = [] };
  phase = ready;
}

-- `if first || revision != current`.
pub check_revision : Client → Loop → Loop
check_revision c l = record l {
  phase =
      if l.first || not (l.synced.revision == c.subscription_revision) then must_sync else waiting;
}

after_sync : Loop → Conn × Result Synced → Loop × Option GoError
after_sync l (conn, ok s) =
    (record l { synced = s; first = false; conn = conn; phase = waiting }, none)
after_sync l (conn, err e) = (record l { conn = conn }, some e)

pub sync_step : Str → Client → Loop → Loop × Option GoError
unfolding after_sync
sync_step instance_id c l = after_sync l (sync_subscription instance_id c l.synced l.conn)

-- The cases of the `select`.
pub data Event : Type 0 where
  done : Event
  read_done : GoError → Event
  notified : Event
  taken : Event
  tick : Event

take_token : Option Session → Option (Option Session)
take_token none = none
take_token (some s) = if s.notified then some (some (record s { notified = false })) else none

-- The oldest message leaves the queue, and after the write its bytes leave the count.
take_message : List Str → Session → Option (Str × Session)
take_message [] s = none
take_message (b ∷ bs) s = some (b, record s { send = bs; queued_bytes = s.queued_bytes - length b })

take_from : Option Session → Option (Str × Session)
unfolding take_message
take_from none = none
take_from (some s) = take_message s.send s

written : Client → Loop → Conn × Option GoError → Client × Loop × Option GoError
written c l (conn, none) = (c, record l { conn = conn; phase = ready }, none)
written c l (conn, some e) = (c, record l { conn = conn }, some e)

token_event : Option (Option Session) → Client → Loop → Option (Client × Loop × Option GoError)
token_event none c l = none
token_event (some s) c l = some (record c { session = s }, record l { phase = ready }, none)

taken_event : Option (Str × Session) → Client → Loop → Option (Client × Loop × Option GoError)
unfolding written
taken_event none c l = none
taken_event (some (b, s)) c l =
    some (written (record c { session = some s }) l (write_frame (raw b) l.conn))

-- `none` where the case is not ready; else the new state, and the error with which the loop returns.
pub select_event : Event → Client → Loop → Option (Client × Loop × Option GoError)
unfolding take_token take_from written token_event taken_event
select_event done c l = some (c, l, some canceled)
select_event (read_done e) c l = some (c, l, some e)
select_event notified c l = token_event (take_token c.session) c l
select_event taken c l = taken_event (take_from c.session) c l
select_event tick c l = some (written c l (write_frame ping l.conn))

pub record System : Type 0 where
  pub client : Client
  pub loop : Loop

-- One atomic step: the loop's own, a change by another goroutine, or a `Write` by one. The revision
-- is a uint64, and a run of fewer than 2^64 changes is meant.
pub data Step (instance_id : Str) (s : System) (t : System) : Type 0 where
  checks :
      s.loop.phase ≡ ready
      → t ≡ record s { loop = check_revision s.client s.loop }
      → Step instance_id s t
  syncs :
      (l : Loop)
      → s.loop.phase ≡ must_sync
      → sync_step instance_id s.client s.loop ≡ (l, none)
      → t ≡ record s { loop = l }
      → Step instance_id s t
  selects :
      (e : Event) (c : Client) (l : Loop)
      → s.loop.phase ≡ waiting
      → select_event e s.client s.loop ≡ some (c, l, none)
      → t ≡ record { client = c; loop = l }
      → Step instance_id s t
  changes :
      (x : Call)
      → IsChange x
      → s.client.subscription_revision + 1 < 2 ^ 64
      → t ≡ record s { client = step s.client x }
      → Step instance_id s t
  enqueues :
      (a b : Session)
      → s.client.session ≡ some a
      → b.notified ≡ a.notified
      → t ≡ record s { client = record s.client { session = some b } }
      → Step instance_id s t

pub data Reach (instance_id : Str) (s : System) : System → Type 0 where
  here : Reach instance_id s s
  next : {t u : System} → Reach instance_id s t → Step instance_id t u → Reach instance_id s u
