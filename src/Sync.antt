-- ===== src/Sync.antt =====
-- `syncSubscription` of websocket.go: what a connection is told after a change of the subscription.
pub mod Sorting
pub mod Announced
pub mod Writing
mod Tests
use tcabci_read_go_client.Prelude.{
  ℤ, ℕ, zero, suc, ◌+◌, ◌-◌, ◌*◌, ◌/◌, ◌%◌, ◌^◌, ◌≤◌, ◌<◌, min, String, ◌≡◌, refl, sym, ap, ◌∙◌,
  subst, ◌≢◌, ◌↔◌, ◌⊎◌, inl, inr, Bool, true, false, not, ◌&&◌, ◌||◌, Option, none, some, List, [],
  ◌∷◌, ◌++◌, map, arith, ltb, leb, ◌==◌, if◌then◌else◌, ltb→lt, lt→ltb, ltb→le, leb→le, ==_iff,
  Bool-cases, Option-cases, get_or, &&_true, length, length-append, take, drop, all, any, All,
  All-append, all-append, any-append, Str, codes, str_eq, str_eq_refl, str_eq→eq, str_eq_iff,
  str_le, StrMap, str_mem, StrNodup, keys, lookup, put, lookup-put, str_mem-keys-put, length-put,
  put-StrNodup, all-str_mem, all_of_str_mem,
}
use tcabci_read_go_client.Errors.{GoError, Result, ok, err}
use tcabci_read_go_client.Client.{Client, Mode, subscription, listen, push, unnamed, read_str}
use tcabci_read_go_client.Message.{Message, MessageType, subscribe, unsubscribe, listen_message}

-- `sort.Strings`.
pub insert : Str → List Str → List Str
insert x [] = x ∷ []
insert x (y ∷ ys) = if str_le x y then x ∷ y ∷ ys else y ∷ insert x ys

pub sort_strings : List Str → List Str
unfolding insert
sort_strings [] = []
sort_strings (x ∷ xs) = insert x (sort_strings xs)

-- What is written to a connection: a subscription message, a message of the caller, or a ping.
pub data Frame : Type 0 where
  message : Message → Frame
  raw : Str → Frame
  ping : Frame

-- A connection, to which frames are written: the outcomes of the next writes, which its environment
-- chooses (when they are used up, writes succeed), and the frames that it has accepted.
pub record Conn : Type 0 where
  pub outcomes : List (Option GoError)
  pub frames : List Frame

accept : Frame → Conn → Conn
accept m conn = record conn { frames = conn.frames ++ m ∷ [] }

write_at : List (Option GoError) → Frame → Conn → Conn × Option GoError
unfolding accept
write_at [] m conn = (accept m conn, none)
write_at (none ∷ rest) m conn = (accept m (record conn { outcomes = rest }), none)
write_at (some e ∷ rest) m conn = (record conn { outcomes = rest }, some e)

-- `writeFrame`, of a message in the form that it is marshalled from.
unfoldable pub write_frame : Frame → Conn → Conn × Option GoError
unfolding write_at
write_frame m conn = write_at conn.outcomes m conn

pub is_listen : Mode → Bool
is_listen listen = true
is_listen _ = false

pub is_subscription : Mode → Bool
is_subscription subscription = true
is_subscription _ = false

-- The loop over `subscribedAddresses` that fills `SignedAddrs`.
signed_for : List Str → StrMap Str → StrMap Str
signed_for [] signatures = []
signed_for (a ∷ rest) signatures = (a, read_str a signatures) ∷ signed_for rest signatures

-- The snapshot that the function takes under the lock, its addresses sorted afterwards.
unfoldable pub snapshot : Str → Client → Message
unfolding is_listen is_subscription signed_for sort_strings
snapshot instance_id c =
    let addresses = if is_subscription c.mode then keys c.subscribed_addresses else [] in
    record {
      client_instance_id = if is_subscription c.mode || is_listen c.mode then instance_id else [];
      is_web = false;
      type = if is_listen c.mode then listen_message else subscribe;
      addrs = sort_strings addresses;
      signed_addrs = signed_for addresses c.subscribed_signed_data;
      tx_types = c.subscribed_types;
      payload = [];
    }

-- The addresses of `previous` that the snapshot has not.
pub removed_from : List Str → Message → List Str
removed_from [] msg = []
removed_from (a ∷ rest) msg =
    let others = removed_from rest msg in
    if str_mem a (keys msg.signed_addrs) then others else a ∷ others

pub unsubscribe_message : List Str → Message
unsubscribe_message removed = record {
  client_instance_id = [];
  is_web = false;
  type = unsubscribe;
  addrs = removed;
  signed_addrs = [];
  tx_types = [];
  payload = [];
}

-- What the loop keeps between two calls.
pub record Synced : Type 0 where
  pub previous : List Str
  pub was_listening : Bool
  pub revision : ℕ

-- A frame that is written only if the test holds.
pub write_if : Bool → Message → Conn → Conn × Option GoError
write_if test m conn = if test then write_frame (message m) conn else (conn, none)

-- The second frame is written only where the first one met no error; after an error the loop returns,
-- and what it kept is not read again.
pub sync_frames : Bool → Message → Bool → Message → Conn → Conn × Option GoError
unfolding write_if
sync_frames first withdrawal second msg conn =
    let (conn', e) = write_if first withdrawal conn in
    elim e [ none ↦ write_if second msg conn' | some x ↦ (conn', some x) ]

abbrev is_empty {ℓ} : {A : Type ℓ} → List A → Bool
is_empty [] = true
is_empty (x ∷ xs) = false

unfoldable pub sync_subscription : Str → Client → Synced → Conn → Conn × Result Synced
unfolding snapshot removed_from sync_frames
sync_subscription instance_id c s conn =
    let msg = snapshot instance_id c in
    let listening = is_listen c.mode in
    let removed = removed_from s.previous msg in
    let (conn', e) =
      sync_frames (not (is_empty removed) || (s.was_listening && not listening))
        (unsubscribe_message removed) (not (is_empty msg.addrs) || listening) msg conn in
    elim e [
      | none ↦ (
        conn',
        ok (record {
          previous = msg.addrs;
          was_listening = listening;
          revision = c.subscription_revision;
        }),
      )
      | some x ↦ (conn', err x)
    ]
