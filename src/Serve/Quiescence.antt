-- ===== src/Serve/Quiescence.antt =====
-- No change of the subscription is lost between the loop and the goroutines that make changes.
use tcabci_read_go_client.Prelude.{
  ◌+◌, ◌^◌, ◌≤◌, ◌<◌, ◌≡◌, refl, sym, ap, ◌∙◌, subst, ◌⊎◌, inl, inr, true, false, Option, none,
  some, List, arith, Str, str_mem,
}
use tcabci_read_go_client.Errors.{GoError, Result, ok, err}
use tcabci_read_go_client.Client.{Client, Session}
use tcabci_read_go_client.Client.Invariant.{Call, IsChange, step}
use tcabci_read_go_client.Client.Lifecycle.{step-change}
use tcabci_read_go_client.Sync.{Conn, Frame, raw, ping, Synced, sync_subscription, write_frame}
use tcabci_read_go_client.Sync.Sorting.{str_mem-sort_strings}
use tcabci_read_go_client.Sync.Announced.{
  announced, wanted, sync_subscription-announced, IsOther, announced-nil, announced-write_frame,
}
use tcabci_read_go_client.Serve.{
  ready, waiting, Loop, start_loop, check_revision, sync_step, after_sync, Event, done, read_done,
  notified, taken, tick, take_token, take_from, written, token_event, taken_event, select_event,
  System, Step, checks, syncs, selects, changes, enqueues, Reach, here, next,
}

abbrev pub IsNotified : Client → Type 0
IsNotified c = (s : Session) × (c.session ≡ some s) × (s.notified ≡ true)

-- The same addresses are announced and wanted.
abbrev pub Agrees : Client → Conn → Type 0
Agrees c conn = (k : Str) → str_mem k (announced conn.frames) ≡ str_mem k (wanted c)

pub record Inv (s : System) : Type 0 where
  pub remembered :
      (k : Str) → str_mem k (announced s.loop.conn.frames) ≡ str_mem k s.loop.synced.previous
  pub has_session : (a : Session) × (s.client.session ≡ some a)
  pub behind : s.loop.first ≡ false → s.loop.synced.revision ≤ s.client.subscription_revision
  pub current :
      s.loop.first ≡ false
      → s.loop.synced.revision ≡ s.client.subscription_revision
      → Agrees s.client s.loop.conn
  pub woken :
      s.loop.phase ≡ waiting
      → (s.loop.first ≡ false)
        × ((s.loop.synced.revision ≡ s.client.subscription_revision) ⊎ IsNotified s.client)

checks-Inv :
    (c : Client) (l : Loop)
    → Inv (record { client = c; loop = l })
    → Inv (record { client = c; loop = check_revision c l })
unfolding check_revision
checks-Inv c l v = record {
  remembered = v.remembered;
  has_session = v.has_session;
  behind = v.behind;
  current = v.current;
  woken = λ h. ground arith;
}

syncs-Inv :
    (instance_id : Str) (c : Client) (l l' : Loop)
    → Inv (record { client = c; loop = l })
    → sync_step instance_id c l ≡ (l', none)
    → Inv (record { client = c; loop = l' })
unfolding sync_step after_sync
syncs-Inv instance_id c l l' v h = go (sync_subscription instance_id c l.synced l.conn) refl h
  where
    go :
        (r : Conn × Result Synced)
        → sync_subscription instance_id c l.synced l.conn ≡ r
        → after_sync l r ≡ (l', none)
        → Inv (record { client = c; loop = l' })
    go (conn, err e) p q = cc
    go (conn, ok s) p q =
        let a = sync_subscription-announced instance_id c l.synced s l.conn conn v.remembered p in
        subst (λ z. Inv (record { client = c; loop = z })) (ap (λ z. z.0) q)
          (record {
            remembered = λ k. a.0 k ∙ sym (ap (str_mem k) a.1 ∙ str_mem-sort_strings k (wanted c));
            has_session = v.has_session;
            behind = λ _. ground arith;
            current = λ _ _. a.0;
            woken = λ _. (refl, inl a.3);
          })

changes-Inv :
    (c : Client) (l : Loop) (x : Call)
    → Inv (record { client = c; loop = l })
    → IsChange x
    → c.subscription_revision + 1 < 2 ^ 64
    → Inv (record { client = step c x; loop = l })
changes-Inv c l x v i small = elim (step-change c x v.has_session.0 i v.has_session.1) [
  | inl e ↦ rw e v
  | inr (r, s) ↦ record {
    remembered = v.remembered;
    has_session = (_, s);
    behind = λ f. omega (arith, v.behind f);
    current = λ f e. absurd (omega (arith, v.behind f));
    woken = λ w. ((v.woken w).0, inr (_, s, refl));
  }
]

-- Steps that leave what is announced, what is remembered and what is wanted.
written-Inv :
    (c d d' : Client) (l l' : Loop) (m : Frame)
    → Inv (record { client = c; loop = l })
    → IsOther m
    → wanted d ≡ wanted c
    → d.subscription_revision ≡ c.subscription_revision
    → ((a : Session) × (d.session ≡ some a))
    → written d l (write_frame m l.conn) ≡ (d', l', none)
    → Inv (record { client = d'; loop = l' })
unfolding written
written-Inv c d d' l l' m v o w r s h = go (write_frame m l.conn) refl h
  where
    go :
        (x : Conn × Option GoError)
        → write_frame m l.conn ≡ x
        → written d l x ≡ (d', l', none)
        → Inv (record { client = d'; loop = l' })
    go (conn, some e) p q = cc
    go (conn, none) p q =
        let same = announced-write_frame m l.conn conn none o p in
        subst (λ z. Inv (record { client = z.0; loop = z.1 })) q
          (record {
            remembered = λ k. rw same (v.remembered k);
            has_session = s;
            behind = λ f. rw r (v.behind f);
            current = λ f e. rw (same, w) (v.current f (e ∙ r));
            woken = λ h. cc;
          })

token-Inv :
    (c d : Client) (l l' : Loop) (r : Option (Option Session))
    → Inv (record { client = c; loop = l })
    → take_token c.session ≡ r
    → token_event r c l ≡ some (d, l', none)
    → Inv (record { client = d; loop = l' })
unfolding token_event take_token
token-Inv c d l l' none v p h = cc
token-Inv c d l l' (some none) v p h = absurd (ground (arith, v.has_session))
token-Inv c d l l' (some (some s)) v p h =
    let e : ◌≡◌ {A = Client × Loop × Option GoError}
        (record c { session = some s }, record l { phase = ready }, none) (d, l', none) =
      cc in
    subst (λ z. Inv (record { client = z.0; loop = z.1 })) e
      (record {
        remembered = v.remembered;
        has_session = (s, refl);
        behind = v.behind;
        current = v.current;
        woken = λ w. cc;
      })

selects-Inv :
    (e : Event) (c d : Client) (l l' : Loop)
    → Inv (record { client = c; loop = l })
    → l.phase ≡ waiting
    → select_event e c l ≡ some (d, l', none)
    → Inv (record { client = d; loop = l' })
unfolding select_event
selects-Inv done c d l l' v w h = cc
selects-Inv (read_done e) c d l l' v w h = cc
selects-Inv notified c d l l' v w h = token-Inv c d l l' (take_token c.session) v refl h
selects-Inv taken c d l l' v w h = go (take_from c.session) h
  where
    go :
        (o : Option (Str × Session))
        → taken_event o c l ≡ some (d, l', none)
        → Inv (record { client = d; loop = l' })
    go none h = cc
    go (some (b, s)) h =
        written-Inv c (record c { session = some s }) d l l' (raw b) v tt refl refl (s, refl) (cc)
selects-Inv tick c d l l' v w h = written-Inv c c d l l' ping v tt refl refl v.has_session (cc)

enqueues-Inv :
    (c : Client) (l : Loop) (a b : Session)
    → Inv (record { client = c; loop = l })
    → c.session ≡ some a
    → b.notified ≡ a.notified
    → Inv (record { client = record c { session = some b }; loop = l })
enqueues-Inv c l a b v p q = record {
  remembered = v.remembered;
  has_session = (b, refl);
  behind = v.behind;
  current = v.current;
  woken = λ w. ((v.woken w).0, still (v.woken w).1);
}
  where
    still :
        ((l.synced.revision ≡ c.subscription_revision) ⊎ IsNotified c)
        → (l.synced.revision ≡ c.subscription_revision) ⊎ IsNotified (record c { session = some b })
    still (inl e) = inl e
    still (inr (s, e, h)) = inr (b, refl, ground arith)

-- The invariant of a connection's loop holds after any interleaving of steps.
Step-Inv : {instance_id : Str} {s t : System} → Step instance_id s t → Inv s → Inv t
Step-Inv {s = s} (checks w e) v = rw e (checks-Inv s.client s.loop v)
Step-Inv {instance_id} {s = s} (syncs l w h e) v =
    rw e (syncs-Inv instance_id s.client s.loop l v h)
Step-Inv {s = s} (selects x c l w h e) v = rw e (selects-Inv x s.client c s.loop l v w h)
Step-Inv {s = s} (changes x i small e) v = rw e (changes-Inv s.client s.loop x v i small)
Step-Inv {s = s} (enqueues a b p q e) v = rw e (enqueues-Inv s.client s.loop a b v p q)

pub Reach-Inv : {instance_id : Str} {s t : System} → Inv s → Reach instance_id s t → Inv t
Reach-Inv v here = v
Reach-Inv v (next r st) = Step-Inv st (Reach-Inv v r)

pub start-Inv :
    (c : Client) (a : Session) (outcomes : List (Option GoError))
    → c.session ≡ some a
    → Inv (record { client = c; loop = start_loop outcomes })
unfolding start_loop
start-Inv c a outcomes e = record {
  remembered = λ k. rw announced-nil;
  has_session = (a, e);
  behind = λ f. cc;
  current = λ f. cc;
  woken = λ w. cc;
}

-- For a client with a session, from the start of a connection's loop and through fewer than 2^64
-- changes: whenever the loop waits in its `select` and no notification is pending, the addresses
-- announced on the connection are those that the client wants announced at that moment. Whatever the
-- interleaving of the loop with `Subscribe`, `Unsubscribe`, `WithMode` and `Write`, a change is
-- either on the wire already or has left the token that wakes the loop.
pub quiescent :
    {instance_id : Str} {c : Client} {t : System} (a : Session) (outcomes : List (Option GoError))
    → c.session ≡ some a
    → Reach instance_id (record { client = c; loop = start_loop outcomes }) t
    → t.loop.phase ≡ waiting
    → ¬ IsNotified t.client
    → (k : Str) → str_mem k (announced t.loop.conn.frames) ≡ str_mem k (wanted t.client)
quiescent {c} a outcomes e r w n =
    let v = Reach-Inv (start-Inv c a outcomes e) r in
    let (f, s) = v.woken w in elim s [ inl q ↦ v.current f q | inr p ↦ absurd (n p) ]
