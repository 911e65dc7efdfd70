-- ===== src/Sync/Writing.antt =====
-- Where no write fails, a synchronisation succeeds.
use tcabci_read_go_client.Prelude.{
  ◌++◌, ◌∷◌, ◌≡◌, refl, Bool, true, false, not, ◌&&◌, ◌||◌, Option, none, [], Str,
}
use tcabci_read_go_client.Errors.{GoError, ok}
use tcabci_read_go_client.Client.{Client}
use tcabci_read_go_client.Message.{Message}
use tcabci_read_go_client.Sync.{
  Frame, write_frame, write_at, accept, Conn, Synced, snapshot, removed_from, unsubscribe_message,
  is_listen, is_empty, sync_subscription, write_frame, write_at, accept, write_if, sync_frames,
}

-- Writes succeed once the outcomes that the environment chose are used up.
abbrev Succeeds : Conn × Option GoError → Type 0
Succeeds r = (r.1 ≡ none) × (r.0.outcomes ≡ [])

write_if-Succeeds :
    (b : Bool) (m : Message) (conn : Conn) → conn.outcomes ≡ [] → Succeeds (write_if b m conn)
unfolding write_if write_frame accept
write_if-Succeeds true m conn e = rw (e, write_at) (refl, refl)
write_if-Succeeds false m conn e = (refl, e)

sync_frames-Succeeds :
    (a b : Bool) (m w : Message) (conn : Conn)
    → conn.outcomes ≡ []
    → Succeeds (sync_frames a m b w conn)
unfolding sync_frames
sync_frames-Succeeds a b m w conn e =
    let f = write_if-Succeeds a m conn e in
    rw (f.0, sync_frames) (write_if-Succeeds b w (write_if a m conn).0 f.1)

pub sync_subscription_succeeds :
    (instance_id : Str) (c : Client) (s : Synced) (conn : Conn)
    → conn.outcomes ≡ []
    → (d : Conn) × (t : Synced) × (sync_subscription instance_id c s conn ≡ (d, ok t))
      × (d.outcomes ≡ [])
unfolding sync_subscription
sync_subscription_succeeds instance_id c s conn e =
    let msg = snapshot instance_id c in
    let removed = removed_from s.previous msg in
    let first = not (is_empty removed) || (s.was_listening && not (is_listen c.mode)) in
    let second = not (is_empty msg.addrs) || is_listen c.mode in
    let f = sync_frames-Succeeds first second (unsubscribe_message removed) msg conn e in
    (
      (sync_frames first (unsubscribe_message removed) second msg conn).0,
      record {
        previous = msg.addrs;
        was_listening = is_listen c.mode;
        revision = c.subscription_revision;
      },
      rw (f.0, sync_subscription) refl,
      f.1,
    )

pub write_frame_succeeds :
    (m : Frame) (conn : Conn)
    → conn.outcomes ≡ []
    → write_frame m conn ≡ (record conn { frames = conn.frames ++ m ∷ [] }, none)
unfolding write_frame write_at accept
write_frame_succeeds m conn e = rw e refl
