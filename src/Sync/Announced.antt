-- ===== src/Sync/Announced.antt =====
-- The abstract view of a connection: the addresses that its frames have announced and not withdrawn.
-- `syncSubscription` keeps it equal to the client's subscription.
use tcabci_read_go_client.Prelude.{
  ◌≡◌, refl, ap, ◌∙◌, Bool, true, false, not, ◌&&◌, ◌||◌, Option, none, some, List, [], ◌∷◌, ◌++◌,
  arith, if◌then◌else◌, Str, str_eq_iff, StrMap, str_mem, keys,
}
use tcabci_read_go_client.Errors.{GoError, ok}
use tcabci_read_go_client.Client.{Client}
use tcabci_read_go_client.Message.{
  Message, MessageType, subscribe, unsubscribe, listen_message, custom,
}
use tcabci_read_go_client.Sync.{
  Frame, message, raw, ping, Conn, Synced, sort_strings, signed_for, is_subscription, is_listen,
  snapshot, removed_from, unsubscribe_message, write_frame, write_if, sync_frames,
  sync_subscription, is_empty, accept, write_at,
}
use tcabci_read_go_client.Sync.Sorting.{str_mem-sort_strings}

without : List Str → List Str → List Str
without removed [] = []
without removed (a ∷ rest) =
    let others = without removed rest in if str_mem a removed then others else a ∷ others

apply_to : MessageType → List Str → List Str → List Str
unfolding without
apply_to subscribe addrs held = addrs ++ held
apply_to unsubscribe addrs held = without addrs held
apply_to listen_message addrs held = held
apply_to (custom t) addrs held = held

apply_frame : List Str → Frame → List Str
unfolding apply_to
apply_frame held (message m) = apply_to m.type m.addrs held
apply_frame held (raw b) = held
apply_frame held ping = held

announced_from : List Str → List Frame → List Str
unfolding apply_frame
announced_from held [] = held
announced_from held (m ∷ ms) = announced_from (apply_frame held m) ms

pub announced : List Frame → List Str
unfolding announced_from
announced frames = announced_from [] frames

pub announced-nil : announced [] ≡ []
unfolding announced
announced-nil = refl

announced_from-append :
    (held : List Str) (ms : List Frame) (m : Frame)
    → announced_from held (ms ++ m ∷ []) ≡ apply_frame (announced_from held ms) m
unfolding announced_from
announced_from-append held [] m = refl
announced_from-append held (x ∷ ms) m = announced_from-append (apply_frame held x) ms m

str_mem-append :
    (k : Str) (xs ys : List Str) → str_mem k (xs ++ ys) ≡ (str_mem k xs || str_mem k ys)
unfolding str_mem
str_mem-append k [] ys = refl
str_mem-append k (x ∷ xs) ys = ground (arith, str_mem-append k xs ys)

str_mem-without :
    (k : Str) (removed held : List Str)
    → str_mem k (without removed held) ≡ (str_mem k held && not (str_mem k removed))
unfolding without str_mem
str_mem-without k removed [] = refl
str_mem-without k removed (a ∷ rest) =
    ground (arith, str_mem-without k removed rest, str_eq_iff a k)

str_mem-removed_from :
    (k : Str) (previous : List Str) (msg : Message)
    → str_mem k (removed_from previous msg)
      ≡ (str_mem k previous && not (str_mem k (keys msg.signed_addrs)))
unfolding removed_from str_mem
str_mem-removed_from k [] msg = refl
str_mem-removed_from k (a ∷ rest) msg =
    ground (arith, str_mem-removed_from k rest msg, str_eq_iff a k)

keys-signed_for : (xs : List Str) (signatures : StrMap Str) → keys (signed_for xs signatures) ≡ xs
unfolding signed_for
keys-signed_for [] signatures = refl
keys-signed_for (x ∷ xs) signatures = ap (λ l. x ∷ l) (keys-signed_for xs signatures)

-- A frame that was to be written is there after a write without an error, and nothing else is.
write_if_frames :
    (test : Bool) (m : Message) (conn conn' : Conn)
    → write_if test m conn ≡ (conn', none)
    → conn'.frames ≡ (if test then conn.frames ++ message m ∷ [] else conn.frames)
unfolding write_if write_frame accept
write_if_frames false m conn conn' h = ground arith
write_if_frames true m conn conn' h = go conn.outcomes h
  where
    go :
        (outcomes : List (Option GoError))
        → write_at outcomes (message m) conn ≡ (conn', none)
        → conn'.frames ≡ conn.frames ++ message m ∷ []
    go [] h = ground arith
    go (none ∷ rest) h = ground arith
    go (some e ∷ rest) h = cc

sync_frames_cases :
    (first second : Bool) (m n : Message) (conn conn' : Conn)
    → sync_frames first m second n conn ≡ (conn', none)
    → (mid : Conn) × (write_if first m conn ≡ (mid, none)) × (write_if second n mid ≡ (conn', none))
unfolding sync_frames
sync_frames_cases first second m n conn conn' h = go (write_if first m conn) refl
  where
    go :
        (r : Conn × Option GoError)
        → write_if first m conn ≡ r
        → (mid : Conn) × (write_if first m conn ≡ (mid, none))
          × (write_if second n mid ≡ (conn', none))
    go (mid, none) e = (mid, e, ground arith)
    go (mid, some x) e = absurd (ground arith)

Synced_ok :
    (instance_id : Str) (c : Client) (s t : Synced) (conn conn' : Conn)
    → sync_subscription instance_id c s conn ≡ (conn', ok t)
    → let msg = snapshot instance_id c in
      let removed = removed_from s.previous msg in
      (sync_frames
          (not (is_empty removed) || (s.was_listening && not (is_listen c.mode)))
          (unsubscribe_message removed)
          (not (is_empty msg.addrs) || is_listen c.mode)
          msg
          conn
        ≡ (conn', none))
      × (t.previous ≡ msg.addrs)
      × (t.was_listening ≡ is_listen c.mode)
      × (t.revision ≡ c.subscription_revision)
unfolding sync_subscription
Synced_ok instance_id c s t conn conn' h = ground arith

-- The addresses that a client wants announced: those subscribed in subscription mode, else none.
abbrev pub wanted : Client → List Str
wanted c = if is_subscription c.mode then keys c.subscribed_addresses else []

is_empty-str_mem : (k : Str) (xs : List Str) → is_empty xs ≡ true → str_mem k xs ≡ false
unfolding str_mem
is_empty-str_mem k [] h = refl
is_empty-str_mem k (x ∷ xs) h = cc

-- The withdrawal leaves of the announced addresses those that are still wanted.
withdrawn :
    (k : Str) (instance_id : Str) (c : Client) (previous : List Str) (also : Bool) (conn mid : Conn)
    → str_mem k (announced conn.frames) ≡ str_mem k previous
    → let removed = removed_from previous (snapshot instance_id c) in
      write_if (not (is_empty removed) || also) (unsubscribe_message removed) conn ≡ (mid, none)
      → str_mem k (announced mid.frames) ≡ (str_mem k previous && str_mem k (wanted c))
unfolding announced snapshot unsubscribe_message apply_frame
withdrawn k instance_id c previous also conn mid h e =
    let removed = removed_from previous (snapshot instance_id c) in
    ground (
      arith,
      write_if_frames (not (is_empty removed) || also) (unsubscribe_message removed) conn mid e,
      announced_from-append [] conn.frames (message (unsubscribe_message removed)),
      str_mem-without k removed (announced_from [] conn.frames),
      str_mem-removed_from k previous (snapshot instance_id c),
      keys-signed_for (wanted c) c.subscribed_signed_data,
      is_empty-str_mem k removed,
    )

-- The snapshot's frame then announces all that is wanted.
announces :
    (k : Str) (instance_id : Str) (c : Client) (mid conn' : Conn) (kept : Bool)
    → str_mem k (announced mid.frames) ≡ (kept && str_mem k (wanted c))
    → let msg = snapshot instance_id c in
      write_if (not (is_empty msg.addrs) || is_listen c.mode) msg mid ≡ (conn', none)
      → str_mem k (announced conn'.frames) ≡ str_mem k (wanted c)
unfolding announced snapshot apply_frame is_listen is_subscription
announces k instance_id c mid conn' kept h e =
    let msg = snapshot instance_id c in
    ground (
      arith,
      write_if_frames (not (is_empty msg.addrs) || is_listen c.mode) msg mid conn' e,
      announced_from-append [] mid.frames (message msg),
      str_mem-append k msg.addrs (announced_from [] mid.frames),
      str_mem-sort_strings k (wanted c),
      is_empty-str_mem k msg.addrs,
    )

-- Where the connection has announced exactly the addresses that the loop remembers, a call of
-- `syncSubscription` whose writes succeed leaves it with exactly the addresses that the client wants
-- announced: the subscribed ones in subscription mode, none in another mode. The loop then remembers
-- those, sorted, whether the mode is the listening one, and the revision that all was read at.
pub sync_subscription-announced :
    (instance_id : Str) (c : Client) (s t : Synced) (conn conn' : Conn)
    → ((k : Str) → str_mem k (announced conn.frames) ≡ str_mem k s.previous)
    → sync_subscription instance_id c s conn ≡ (conn', ok t)
    → ((k : Str) → str_mem k (announced conn'.frames) ≡ str_mem k (wanted c))
      × (t.previous ≡ sort_strings (wanted c))
      × (t.was_listening ≡ is_listen c.mode)
      × (t.revision ≡ c.subscription_revision)
sync_subscription-announced instance_id c s t conn conn' h e = (
  (λ k.
      announces k instance_id c split.0 conn' _
        (withdrawn k instance_id c s.previous _ conn split.0 (h k) split.1) split.2),
  fields.1 ∙ unfold snapshot in refl,
  fields.2,
  fields.3,
)
  where
    fields :
        let msg = snapshot instance_id c in
        let removed = removed_from s.previous msg in
        (sync_frames
            (not (is_empty removed) || (s.was_listening && not (is_listen c.mode)))
            (unsubscribe_message removed)
            (not (is_empty msg.addrs) || is_listen c.mode)
            msg
            conn
          ≡ (conn', none))
        × (t.previous ≡ msg.addrs)
        × (t.was_listening ≡ is_listen c.mode)
        × (t.revision ≡ c.subscription_revision)
    fields = Synced_ok instance_id c s t conn conn' e

    split :
        let msg = snapshot instance_id c in
        let removed = removed_from s.previous msg in
        (mid : Conn) × (write_if
            (not (is_empty removed) || (s.was_listening && not (is_listen c.mode)))
            (unsubscribe_message removed)
            conn
          ≡ (mid, none))
        × (write_if (not (is_empty msg.addrs) || is_listen c.mode) msg mid ≡ (conn', none))
    split = sync_frames_cases _ _ _ _ conn conn' fields.0

-- A frame that is no subscription message announces nothing.
abbrev pub IsOther : Frame → Type 0
IsOther (message m) = ⊥
IsOther _ = Unit

pub announced-write_frame :
    (m : Frame) (conn conn' : Conn) (e : Option GoError)
    → IsOther m
    → write_frame m conn ≡ (conn', e)
    → announced conn'.frames ≡ announced conn.frames
unfolding announced write_frame accept apply_frame
announced-write_frame m conn conn' e o h = go conn.outcomes h
  where
    same : announced_from [] (conn.frames ++ m ∷ []) ≡ announced_from [] conn.frames
    same = announced_from-append [] conn.frames m ∙ other m o
      where
        other :
            (m : Frame)
            → IsOther m
            → apply_frame (announced_from [] conn.frames) m ≡ announced_from [] conn.frames
        other (message m) o = absurd o
        other (raw b) o = refl
        other ping o = refl

    go :
        (outcomes : List (Option GoError))
        → write_at outcomes m conn ≡ (conn', e)
        → announced_from [] conn'.frames ≡ announced_from [] conn.frames
    go [] h = ground (arith, same)
    go (none ∷ rest) h = ground (arith, same)
    go (some x ∷ rest) h = ground arith
