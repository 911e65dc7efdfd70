-- ===== src/Client.antt =====
-- The client's state (client.go) and the operations of client.go and websocket.go that change what
-- it is subscribed to, and its session. Each operation runs under the lock `mut` and is one atomic
-- step; `Stop` is two, since it waits in between for the session to end.
pub mod Invariant
pub mod Merge
pub mod Lifecycle
mod Tests
use tcabci_read_go_client.Prelude.{
  ℤ, ℕ, zero, suc, ◌+◌, ◌-◌, ◌*◌, ◌/◌, ◌%◌, ◌^◌, ◌≤◌, ◌<◌, min, String, ◌≡◌, refl, sym, ap, ◌∙◌,
  subst, ◌≢◌, ◌↔◌, ◌⊎◌, inl, inr, Bool, true, false, not, ◌&&◌, ◌||◌, Option, none, some, List, [],
  ◌∷◌, ◌++◌, map, arith, ltb, leb, ◌==◌, if◌then◌else◌, ltb→lt, lt→ltb, ltb→le, leb→le, ==_iff,
  Bool-cases, Option-cases, get_or, &&_true, length, length-append, take, drop, all, any, All,
  All-append, all-append, any-append, Str, codes, str_eq, str_eq_refl, str_eq→eq, str_eq_iff,
  str_le, StrMap, str_mem, StrNodup, keys, lookup, put, lookup-put, str_mem-keys-put, length-put,
  put-StrNodup,
}
use tcabci_read_go_client.Errors.{
  Result, ok, err, ◌>>=◌, ◌>>◌, guard, GoError, plain, canceled, wrapped, error, client_err,
  err_not_started, err_already_started,
}
use tcabci_read_go_client.Transaction.{TxType, is_valid}

-- `type Mode int`; `unnamed` stands for every int without a name.
pub data Mode : Type 0 where
  subscription listen push : Mode
  unnamed : ℤ → Mode

-- `wsSession`: `cancelled` is its own cancel function's effect, `finished` says that `done` is
-- closed, `notified` that the channel `subscriptions`, of capacity one, holds its token.
pub record Session : Type 0 where
  pub cancelled : Bool
  pub finished : Bool
  pub notified : Bool
  pub queued_bytes : ℕ
  pub send : List Str

-- The fields of `client` that these operations read or write. `ctx_done` is the state of the
-- context that the client was made with. Callbacks are known by their identity.
pub record Client : Type 0 where
  pub ctx_done : Bool
  pub mode : Mode
  pub session : Option Session
  pub retrieve_callbacks : List ℕ
  pub listen_callbacks : List ℕ
  pub error_callbacks : List ℕ
  pub subscribed_addresses : StrMap Bool
  pub subscribed_signed_data : StrMap Str
  pub subscribed_types : List TxType
  pub subscription_revision : ℕ

-- The subscription's part of `newClient`.
unfoldable pub init : Client
init = record {
  ctx_done = false;
  mode = subscription;
  session = none;
  retrieve_callbacks = [];
  listen_callbacks = [];
  error_callbacks = [];
  subscribed_addresses = [];
  subscribed_signed_data = [];
  subscribed_types = [];
  subscription_revision = 0;
}

abbrev pub u64 : ℕ → ℕ
u64 n = n % 2 ^ 64

abbrev pub max_addresses : ℕ
max_addresses = 251

abbrev pub max_address_length : ℕ
max_address_length = 2048

-- `s.ctx.Err() != nil`: a session's context ends with its parent's.
unfoldable pub session_over : Client → Session → Bool
session_over c s = s.cancelled || c.ctx_done

abbrev notify : Option Session → Option Session
notify none = none
notify (some s) = some (record s { notified = true })

-- A send that does not block: where the token is there already, nothing changes.
unfoldable pub notify_subscription_locked : Client → Client
notify_subscription_locked c = record c { session = notify c.session }

abbrev bump : Client → Client
bump c = record c { subscription_revision = u64 (c.subscription_revision + 1) }

unfoldable pub with_mode : Mode → Client → Client
unfolding notify_subscription_locked
with_mode m c = notify_subscription_locked (bump (record c { mode = m }))

new_session : Session
new_session = record {
  cancelled = false;
  finished = false;
  notified = false;
  queued_bytes = 0;
  send = [];
}

running : Option Session → Bool
running none = false
running (some s) = not s.finished

pub start : Client → Client × Result (Unit {0})
unfolding new_session running
start c =
    if running c.session
    then (c, err err_already_started)
    else if c.ctx_done
    then (c, err canceled)
    else (record c { session = some new_session }, ok tt)

-- The locked part of `Stop` before the wait.
stop_begin_at : Option Session → Client → Client × Result (Unit {0})
stop_begin_at none c =
    (c, err (wrapped (error client_err err_not_started (codes "not started yet") 3 0 none)))
stop_begin_at (some s) c = (record c { session = some (record s { cancelled = true }) }, ok tt)

pub stop_begin : Client → Client × Result (Unit {0})
unfolding stop_begin_at
stop_begin c = stop_begin_at c.session c

-- The drain of `runSession`: each message leaves the queue, and its bytes leave the count.
unfoldable pub drain : List Str → ℕ → ℕ
drain [] used = used
drain (b ∷ bs) used = drain bs (used - length b)

-- The deferred function of `runSession`.
unfoldable pub end_session : Session → Session
unfolding drain
end_session s = record s {
  cancelled = true;
  finished = true;
  queued_bytes = drain s.send s.queued_bytes;
  send = [];
}

abbrev end_current : Option Session → Option Session
unfolding end_session
end_current none = none
end_current (some s) = some (if s.finished then s else end_session s)

pub session_exit : Client → Client
unfolding end_current
session_exit c = record c { session = end_current c.session }

clear_subscription : Client → Client
clear_subscription c = record c {
  subscribed_addresses = [];
  subscribed_signed_data = [];
  subscribed_types = [];
}

-- The locked part of `Stop` after the wait.
pub stop_finish : Client → Client
unfolding clear_subscription
stop_finish c = bump (clear_subscription (record c { session = none }))

-- `Stop` with nothing between: the session ends while it waits.
pub stop : Client → Client × Result (Unit {0})
unfolding stop_begin session_exit stop_finish
stop c = elim (stop_begin c).1 [
  | err e ↦ ((stop_begin c).0, err e)
  | ok u ↦ (stop_finish (session_exit (stop_begin c).0), ok u)
]

-- `m[k]` of a `map[string]string` and of a `map[string]bool`: the zero value where `k` is missing.
abbrev pub read_str : Str → StrMap Str → Str
read_str k m = get_or (lookup k m) []

abbrev pub read_bool : Str → StrMap Bool → Bool
read_bool k m = get_or (lookup k m) false

-- `address == "" || len(address) > 2048 || signedDatas[address] == ""`, negated.
pub address_ok : StrMap Str → Str → Bool
address_ok signed a =
    not (str_eq a []) && leb (length a) max_address_length && not (str_eq (read_str a signed) [])

-- The loop that counts the addresses which are new, each once.
pub count_new : StrMap Bool → List Str → List Str → ℕ → ℕ
count_new have seen [] total = total
count_new have seen (a ∷ rest) total =
    let fresh = not (read_bool a have) && not (str_mem a seen) in
    count_new have (if fresh then a ∷ seen else seen) rest (if fresh then total + 1 else total)

pub add_all : List Str → StrMap Bool → StrMap Bool
add_all [] m = m
add_all (a ∷ rest) m = add_all rest (put a true m)

pub sign_all : List Str → StrMap Str → StrMap Str → StrMap Str
sign_all [] signed m = m
sign_all (a ∷ rest) signed m = sign_all rest signed (put a (read_str a signed) m)

pub merge_types : List TxType → List TxType → List TxType
merge_types old [] = old
merge_types old (t ∷ ts) = t ∷ ts

-- `ErrNotStarted` without a session, the context's error with one that is over.
check_session : Client → Option Session → Result (Unit {0})
check_session c none = err err_not_started
check_session c (some s) = if s.cancelled || c.ctx_done then err canceled else ok tt

pub subscribe_checks : List Str → StrMap Str → List TxType → Client → Result (Unit {0})
unfolding check_session
subscribe_checks addresses signed types c = do
  guard (ltb 0 (length addresses) && leb (length addresses) max_addresses)
      (plain (codes "invalid addresses count"))
  guard (all (address_ok signed) addresses) (plain (codes "missing address or signature"))
  guard (all is_valid types) (plain (codes "invalid tx type"))
  check_session c c.session
  guard
      (leb (count_new c.subscribed_addresses [] addresses (length c.subscribed_addresses))
        max_addresses)
      (plain (codes "too many subscribed addresses"))

pub subscribe_merge : List Str → StrMap Str → List TxType → Client → Client
unfolding notify_subscription_locked
subscribe_merge addresses signed types c = notify_subscription_locked (
    bump (record c {
      subscribed_addresses = add_all addresses c.subscribed_addresses;
      subscribed_signed_data = sign_all addresses signed c.subscribed_signed_data;
      subscribed_types = merge_types c.subscribed_types types;
    }))

abbrev commit : Client → Client → Result (Unit {0}) → Client × Result (Unit {0})
commit old new (ok u) = (new, ok u)
commit old new (err e) = (old, err e)

pub subscribe : List Str → StrMap Str → List TxType → Client → Client × Result (Unit {0})
subscribe addresses signed types c =
    commit c (subscribe_merge addresses signed types c) (subscribe_checks addresses signed types c)

unsubscribe_checks : Client → Result (Unit {0})
unfolding check_session
unsubscribe_checks c = do
  check_session c c.session
  guard (ltb 0 (length c.subscribed_addresses)) (plain (codes "client has not yet subscribed"))

pub unsubscribe : Client → Client × Result (Unit {0})
unfolding unsubscribe_checks clear_subscription notify_subscription_locked
unsubscribe c =
    commit c (notify_subscription_locked (bump (clear_subscription c))) (unsubscribe_checks c)
