-- ===== src/SendQueue/Outcome.antt =====
-- Every outcome of a `Write` that nothing interferes with.
use tcabci_read_go_client.Prelude.{
  ◌+◌, ◌≤◌, ◌<◌, ◌≡◌, refl, sym, ap, ◌∙◌, subst, ◌≢◌, ◌↔◌, ◌⊎◌, inl, inr, Bool, true, false, Option,
  none, some, [], ◌∷◌, ◌++◌, arith, ltb, ltb→lt, ltb→le, Bool-cases, length, Str, codes,
}
use tcabci_read_go_client.Errors.{GoError, Result, ok, err, plain, canceled}
use tcabci_read_go_client.Client.{Client, Session, session_over}
use tcabci_read_go_client.SendQueue.{
  max_message_size, queue_capacity, reserve, Race, ended, timed_out, room, give_back, settle,
  write_to, write_at, write, queried, ws_query,
}

-- What a `Write` needs to be accepted.
pub record Fits (race : Race) (b : Str) (c : Client) (s : Session) : Type 0 where
  pub session : c.session ≡ some s
  pub live : session_over c s ≡ false
  pub budget : s.queued_bytes + length b ≤ max_message_size
  pub space : length s.send < queue_capacity
  pub settled : race ≡ room

abbrev queued : Str → Session → Session
queued b s = record s { send = s.send ++ b ∷ []; queued_bytes = s.queued_bytes + length b }

abbrev Refused : Session → Session × Result (Unit {0}) → Type 0
Refused s r = (e : GoError) × (r ≡ (s, err e))

abbrev Accepted : Str → Session → Session × Result (Unit {0}) → Type 0
Accepted b s r = r ≡ (queued b s, ok tt)

-- The session once the bytes of the message are reserved; they can be given back.
abbrev with_bytes : Str → Session → Session
with_bytes b s = record s { queued_bytes = s.queued_bytes + length b }

give_back-with_bytes : (b : Str) (s : Session) → give_back b (with_bytes b s) ≡ s
unfolding give_back
give_back-with_bytes b s = ap (λ n. record s { queued_bytes = n }) (omega arith)

settle_cases :
    (race : Race) (b : Str) (s : Session)
    → Refused s (settle race b (with_bytes b s))
      ⊎ (Accepted b s (settle race b (with_bytes b s))
          × (length s.send < queue_capacity)
          × (race ≡ room))
unfolding settle
settle_cases ended b s = inl (_, ap (λ z. (z, err canceled)) (give_back-with_bytes b s))
settle_cases timed_out b s =
    inl
      (_, ap (λ z. (z, err (plain (codes "websocket send queue full")))) (give_back-with_bytes b s))
settle_cases room b s = elim (Bool-cases (ltb (length s.send) queue_capacity)) [
  | inl e ↦ rw e (inr (refl, ltb→lt _ _ e, refl))
  | inr n ↦ rw n (
      inl (
        _,
        ap (λ z. (z, err (plain (codes "websocket send queue full")))) (give_back-with_bytes b s),
      ))
]

write_to_cases :
    (race : Race) (b : Str) (over : Bool) (s : Session)
    → Refused s (write_to race b over s)
      ⊎ (Accepted b s (write_to race b over s)
          × (over ≡ false)
          × (s.queued_bytes + length b ≤ max_message_size)
          × (length s.send < queue_capacity)
          × (race ≡ room))
unfolding write_to reserve
write_to_cases race b true s = inl (_, refl)
write_to_cases race b false s =
    elim (Bool-cases (ltb max_message_size (s.queued_bytes + length b))) [
      | inl e ↦ rw e (inl (_, refl))
      | inr n ↦ rw n (elim (settle_cases race b s) [
        | inl r ↦ inl r
        | inr (a, l, e) ↦ inr (a, refl, ltb→le _ _ n, l, e)
      ])
    ]

write_accepted :
    (race : Race) (b : Str) (c : Client) (s : Session)
    → Fits race b c s
    → (write race b c).1 ≡ ok tt
unfolding write write_at write_to settle reserve
write_accepted race b c s f = ground arith

write_cases :
    (race : Race) (b : Str) (c : Client) (s : Session)
    → c.session ≡ some s
    → ((e : GoError) × ((write race b c).1 ≡ err e) × ((write race b c).0 ≡ c))
      ⊎ (((write race b c).1 ≡ ok tt)
          × ((write race b c).0 ≡ record c { session = some (queued b s) })
          × Fits race b c s)
unfolding write write_at
write_cases race b c s h = elim (Bool-cases (ltb max_message_size (length b))) [
  | inl e ↦ inl (plain (codes "websocket message too large"), rw e, rw e)
  | inr n ↦
      let r = write_to race b (session_over c s) s in
      let eq : write race b c ≡ (record c { session = some r.0 }, r.1) =
        rw n (ap (λ o. write_at o race b c) h) in
      elim (write_to_cases race b (session_over c s) s) [
        | inl (x, p) ↦ inl (x, ap (λ z. z.1) eq ∙ ap (λ z. z.1) p, ap (λ z. z.0) eq ∙ kept r.0 p)
        | inr (p, live, budget, space, won) ↦ inr (
          ap (λ z. z.1) eq ∙ ap (λ z. z.1) p,
          ap (λ z. z.0) eq ∙ ap (λ z. record c { session = some (z.0) }) p,
          record { session = h; live = live; budget = budget; space = space; settled = won },
        )
      ]
]
  where
    kept :
        {x : GoError} (s' : Session)
        → write_to race b (session_over c s) s ≡ (s, err x)
        → record c { session = some (write_to race b (session_over c s) s).0 } ≡ c
    kept s' p = ap (λ z. record c { session = some (z.0) }) p ∙ λ i. record c { session = sym h i }

write_missing : (race : Race) (b : Str) (c : Client) → c.session ≡ none → (write race b c).1 ≢ ok tt
unfolding write write_at
write_missing race b c e h = ground arith

-- A `Write` is accepted exactly when there is a live session, the message fits into what the byte
-- budget leaves (so it has at most 16 MiB), and the queue has room before the timer and the session
-- run out.
pub write_ok_iff :
    (race : Race) (b : Str) (c : Client)
    → ((write race b c).1 ≡ ok tt) ↔ ((s : Session) × Fits race b c s)
write_ok_iff race b c = (split c.session refl, λ f. write_accepted race b c f.0 f.1)
  where
    split :
        (o : Option Session)
        → c.session ≡ o
        → (write race b c).1 ≡ ok tt
        → (s : Session) × Fits race b c s
    split none e h = absurd (write_missing race b c e h)
    split (some s) e h = elim (write_cases race b c s e) [
      | inl (x, p, q) ↦ cc
      | inr (p, q, f) ↦ (s, f)
    ]

-- With a session, a `Write` that returns an error leaves the client as it was; an accepted message is queued last and
-- its bytes are counted, and nothing else changes.
pub write_effect :
    (race : Race) (b : Str) (c : Client) (s : Session)
    → c.session ≡ some s
    → ((e : GoError) × ((write race b c).1 ≡ err e) × ((write race b c).0 ≡ c))
      ⊎ (((write race b c).1 ≡ ok tt)
          × ((write race b c).0 ≡ record c {
            session =
                some
                  (record s { send = s.send ++ b ∷ []; queued_bytes = s.queued_bytes + length b });
          }))
write_effect race b c s e = elim (write_cases race b c s e) [
  | inl (x, p, q) ↦ inl (x, p, q)
  | inr (p, q, f) ↦ inr (p, q)
]

-- `WSQuery` succeeds exactly if the message can be marshalled and `Write` accepts it.
pub ws_query_ok_iff :
    (marshal : Str → Str → Result Str) (race : Race) (type content : Str) (c : Client)
    → ((ws_query marshal race type content c).1 ≡ ok tt)
      ↔ ((b : Str) × (marshal type content ≡ ok b) × ((s : Session) × Fits race b c s))
unfolding ws_query queried
ws_query_ok_iff marshal race type content c = go (marshal type content)
  where
    go :
        (r : Result Str)
        → ((queried race r c).1 ≡ ok tt)
          ↔ ((b : Str) × (r ≡ ok b) × ((s : Session) × Fits race b c s))
    go (ok b) = (
      (λ h. (b, refl, (write_ok_iff race b c).0 h)),
      λ (d, e, f).
          let k : b ≡ d = cc in
          (write_ok_iff race b c).1 (subst (λ z. (s : Session) × Fits race z c s) (sym k) f),
    )
    go (err e) = ((λ h. cc), λ (d, q, f). cc)
