-- ===== src/Serve/Turns.antt =====
-- `serveConnection` of websocket.go: the steps of a connection's loop with which no other goroutine
-- interferes. Its `select` takes any case that is ready.
use tcabci_read_go_client.Prelude.{ℕ, suc, ◌≡◌, refl, ap, subst, false, Option, none, some, Str}
use tcabci_read_go_client.Errors.{GoError, Result, ok, err}
use tcabci_read_go_client.Client.{Client, Session}
use tcabci_read_go_client.Sync.{Conn, raw, ping, Synced, sync_subscription, write_frame}
use tcabci_read_go_client.Sync.Announced.{wanted, sync_subscription-announced}
use tcabci_read_go_client.Serve.{
  ready, must_sync, waiting, Loop, check_revision, sync_step, after_sync, Event, done, read_done,
  notified, taken, tick, take_token, take_from, written, token_event, taken_event, select_event,
  System, Step, checks, syncs, selects,
}
use tcabci_read_go_client.Serve.Quiescence.{Inv}

-- A step of the loop itself that does not end it.
pub data Own (instance_id : Str) (s : System) (t : System) : Type 0 where
  own_checks :
      s.loop.phase ≡ ready
      → t ≡ record s { loop = check_revision s.client s.loop }
      → Own instance_id s t
  own_syncs :
      (l : Loop)
      → s.loop.phase ≡ must_sync
      → sync_step instance_id s.client s.loop ≡ (l, none)
      → t ≡ record s { loop = l }
      → Own instance_id s t
  own_selects :
      (e : Event) (c : Client) (l : Loop)
      → s.loop.phase ≡ waiting
      → select_event e s.client s.loop ≡ some (c, l, none)
      → t ≡ record { client = c; loop = l }
      → Own instance_id s t

-- So many of them, one after the other.
pub data Turns (instance_id : Str) : ℕ → System → System → Type 0 where
  rests : {s : System} → Turns instance_id 0 s s
  turns :
      {n : ℕ} {s t u : System}
      → Own instance_id s t
      → Turns instance_id n t u
      → Turns instance_id (suc n) s u

pub own_Step : {instance_id : Str} {s t : System} → Own instance_id s t → Step instance_id s t
own_Step (own_checks w e) = checks w e
own_Step (own_syncs l w h e) = syncs l w h e
own_Step (own_selects x c l w h e) = selects x c l w h e

-- The loop has read the client's revision, and what it has announced is as of then.
abbrev pub IsCurrent : System → Type 0
IsCurrent s = (s.loop.first ≡ false) × (s.loop.synced.revision ≡ s.client.subscription_revision)

-- What a case of the `select` that does not end the loop leaves as it was.
abbrev pub Kept : Client → Loop → Client → Loop → Type 0
Kept c l d m =
    (m.phase ≡ ready)
    × (m.first ≡ l.first)
    × (m.synced ≡ l.synced)
    × (d.subscription_revision ≡ c.subscription_revision)
    × (wanted d ≡ wanted c)

written-Kept :
    (c d e : Client) (l m : Loop) (r : Conn × Option GoError)
    → d.subscription_revision ≡ c.subscription_revision
    → wanted d ≡ wanted c
    → written d l r ≡ (e, m, none)
    → Kept c l e m
unfolding written
written-Kept c d e l m (conn, some x) r w h = cc
written-Kept c d e l m (conn, none) r w h =
    subst (λ z. Kept c l (z.0) (z.1)) h (refl, refl, refl, r, w)

some-injective : {A : Type 0} {a b : A} → some a ≡ some b → a ≡ b
some-injective h = cc

pub select_event-Kept :
    (x : Event) (c d : Client) (l m : Loop) → select_event x c l ≡ some (d, m, none) → Kept c l d m
unfolding select_event
select_event-Kept done c d l m h = cc
select_event-Kept (read_done e) c d l m h = cc
select_event-Kept notified c d l m h = go (take_token c.session) h
  where
    go : (o : Option (Option Session)) → token_event o c l ≡ some (d, m, none) → Kept c l d m
    go none h = unfold token_event in cc
    go (some s) h =
        unfold token_event in
        subst (λ z. Kept c l (z.0) (z.1)) (some-injective h) (refl, refl, refl, refl, refl)
select_event-Kept taken c d l m h = go (take_from c.session) h
  where
    go : (o : Option (Str × Session)) → taken_event o c l ≡ some (d, m, none) → Kept c l d m
    go none h = unfold taken_event in cc
    go (some (b, s)) h =
        unfold taken_event in
        written-Kept c (record c { session = some s }) d l m (write_frame (raw b) l.conn) refl refl
          (some-injective h)
select_event-Kept tick c d l m h =
    written-Kept c c d l m (write_frame ping l.conn) refl refl (some-injective h)

pub sync_step-IsCurrent :
    (instance_id : Str) (s : System) (l : Loop)
    → Inv s
    → sync_step instance_id s.client s.loop ≡ (l, none)
    → IsCurrent (record s { loop = l })
unfolding sync_step after_sync
sync_step-IsCurrent instance_id s l v h =
    go (sync_subscription instance_id s.client s.loop.synced s.loop.conn) refl h
  where
    go :
        (r : Conn × Result Synced)
        → sync_subscription instance_id s.client s.loop.synced s.loop.conn ≡ r
        → after_sync s.loop r ≡ (l, none)
        → IsCurrent (record s { loop = l })
    go (conn, err e) p q = cc
    go (conn, ok z) p q =
        let a =
          sync_subscription-announced instance_id s.client s.loop.synced z s.loop.conn conn
            v.remembered p in
        subst (λ y. IsCurrent (record s { loop = y })) (ap (λ y. y.0) q) (refl, a.3)
