-- ===== src/Reconnect/Handshake.antt =====
-- `dialConnection` of websocket.go: how the session's end reaches a socket while the websocket's
-- handshake runs on it. The dialer dials one socket; `context.AfterFunc` runs its function, once, in a
-- goroutine of its own when the context ends, or has ended before; the function that it
-- returns prevents that if it has not begun.
use tcabci_read_go_client.Prelude.{
  ◌≡◌, refl, sym, ap, subst, ◌≢◌, ◌⊎◌, inl, inr, Bool, true, false, not, ◌||◌, arith,
}

pub data Socket : Type 0 where
  absent opened closed : Socket

-- `over`: the context has ended. `watched`: the function waits for that. `closing`: its goroutine has
-- begun. `returned`: `dialConnection` has returned, with its deferred call.
pub record Handshake : Type 0 where
  pub over : Bool
  pub watched : Bool
  pub closing : Bool
  pub socket : Socket
  pub returned : Bool

unfoldable pub start_dial : Bool → Handshake
start_dial over = record {
  over = over;
  watched = false;
  closing = false;
  socket = absent;
  returned = false;
}

-- The dial function succeeds.
unfoldable pub after_func : Handshake → Handshake
after_func s = record s { socket = opened; watched = not s.over; closing = s.over }

unfoldable pub context_ends : Handshake → Handshake
context_ends s = record s { over = true; watched = false; closing = s.closing || s.watched }

pub stop_cancel : Handshake → Handshake
stop_cancel s = record s { watched = false; returned = true }

pub data Step (s t : Handshake) : Type 0 where
  connects : s.returned ≡ false → s.socket ≡ absent → t ≡ after_func s → Step s t
  ends : s.over ≡ false → t ≡ context_ends s → Step s t
  closes : s.closing ≡ true → t ≡ record s { socket = closed; closing = false } → Step s t
  returns : s.returned ≡ false → t ≡ stop_cancel s → Step s t

pub data Reach (s : Handshake) : Handshake → Type 0 where
  here : Reach s s
  next : {t u : Handshake} → Reach s t → Step t u → Reach s u

-- The session's end closes the socket of a handshake, and nothing else does.
pub record Guarded (s : Handshake) : Type 0 where
  pub released : s.returned ≡ true → s.watched ≡ false
  pub unharmed : s.over ≡ false → (s.closing ≡ false) × (s.socket ≢ closed)
  pub reached :
      s.over ≡ true
      → s.returned ≡ false
      → (s.socket ≡ absent) ⊎ ((s.socket ≡ closed) ⊎ (s.closing ≡ true))
  pub waiting : s.over ≡ false → s.returned ≡ false → (s.socket ≡ absent) ⊎ (s.watched ≡ true)

Step-Guarded : {s t : Handshake} → Step s t → Guarded s → Guarded t
unfolding after_func context_ends stop_cancel
Step-Guarded {s} (connects r a e) v = subst Guarded (sym e) (record {
  released = λ q. cc;
  unharmed = λ q. (q, λ h. cc);
  reached = λ q n. inr (inr q);
  waiting = λ q n. inr (unlit q);
})
  where
    unlit : {b : Bool} → b ≡ false → not b ≡ true
    unlit q = ap not q
Step-Guarded {s} (ends o e) v = subst Guarded (sym e) (record {
  released = λ q. refl;
  unharmed = λ q. cc;
  reached = λ q n. elim (v.waiting o n) [ inl a ↦ inl a | inr w ↦ inr (inr (ground arith)) ];
  waiting = λ q n. cc;
})
Step-Guarded {s} (closes c e) v = subst Guarded (sym e) (record {
  released = v.released;
  unharmed = λ q. let k = (v.unharmed q).0 in cc;
  reached = λ q n. inr (inl refl);
  waiting = λ q n. let k = (v.unharmed q).0 in cc;
})
Step-Guarded {s} (returns r e) v = subst Guarded (sym e) (record {
  released = λ q. refl;
  unharmed = v.unharmed;
  reached = λ q n. cc;
  waiting = λ q n. cc;
})

-- In every interleaving of the dial, the session's end and the return of `dialConnection`: without the
-- session's end the socket is not closed; if the session ends before the return, the socket is closed
-- or about to be; until then it is watched; and after the return it is watched no more.
pub Reach-Guarded : (over : Bool) {s : Handshake} → Reach (start_dial over) s → Guarded s
unfolding start_dial
Reach-Guarded over here = record {
  released = λ e. cc;
  unharmed = λ e. (refl, λ h. cc);
  reached = λ e r. inl refl;
  waiting = λ e r. inl refl;
}
Reach-Guarded over (next r st) = Step-Guarded st (Reach-Guarded over r)
