-- ===== src/Reader/Hearing.antt =====
-- What the reader of a connection passes on, and when it ends.
use tcabci_read_go_client.Prelude.{
  ℕ, ◌+◌, ◌≡◌, refl, sym, ap, ◌∙◌, inl, inr, Bool, true, false, ◌||◌, Option, none, some, List, [],
  ◌∷◌, ◌++◌, if◌then◌else◌, Option-cases, any, any-append, Str,
}
use tcabci_read_go_client.Errors.{GoError}
use mathlib.Core.List.{append_assoc, append-nil}
use tcabci_read_go_client.Client.{Client, Session}
use tcabci_read_go_client.Incoming.{Codec, Delivery, parse_incoming, after_incoming, cancel_session}
use tcabci_read_go_client.Reader.Message.{fault_of, read_message_lem}
use tcabci_read_go_client.Reader.{
  Arrival, message, pong, broken, pong_wait, Reader, hear, parse, read_step, then_read, read_loop,
}

-- The arrivals before the first that has an error, and that error.
pub before_fault : List Arrival → List Arrival
before_fault [] = []
before_fault (a ∷ rest) =
    let later = before_fault rest in elim (fault_of a) [ none ↦ a ∷ later | some e ↦ [] ]

pub first_fault : List Arrival → Option GoError
first_fault [] = none
first_fault (a ∷ rest) =
    let later = first_fault rest in elim (fault_of a) [ none ↦ later | some e ↦ some e ]

-- The text messages among some arrivals.
text_of : Arrival → List Str
text_of (message true b) = b.bytes ∷ []
text_of (message false b) = []
text_of (pong now e) = []
text_of (broken e) = []

pub texts : List Arrival → List Str
unfolding text_of
texts [] = []
texts (a ∷ rest) = text_of a ++ texts rest

-- The deadline that the last pong has left.
deadline_by : ℕ → Arrival → ℕ
deadline_by d (message text b) = d
deadline_by d (pong now e) = now + pong_wait
deadline_by d (broken e) = d

pub deadline_after : ℕ → List Arrival → ℕ
unfolding deadline_by
deadline_after d [] = d
deadline_after d (a ∷ rest) = deadline_after (deadline_by d a) rest

pub heard : Codec → List Str → List Delivery
heard k [] = []
heard k (s ∷ rest) = (parse_incoming k s).deliveries ++ heard k rest

pub client_after : Codec → List Str → Client → Client
client_after k heard_texts c =
    if any (λ s. (parse_incoming k s).cancels) heard_texts
    then record c { session = cancel_session c.session }
    else c

-- The goroutine's state after some arrivals without an error.
pub after_arrivals : Codec → List Arrival → Reader → Reader
unfolding deadline_after heard client_after texts
after_arrivals k arrivals r = record {
  read_deadline = deadline_after r.read_deadline arrivals;
  deliveries = r.deliveries ++ heard k (texts arrivals);
  client = client_after k (texts arrivals) r.client;
}

heard-append : (k : Codec) (s t : List Str) → heard k (s ++ t) ≡ heard k s ++ heard k t
unfolding heard
heard-append k [] t = refl
heard-append k (x ∷ s) t =
    ap (λ z. (parse_incoming k x).deliveries ++ z) (heard-append k s t)
    ∙ sym (append_assoc (parse_incoming k x).deliveries (heard k s) (heard k t))

cancel_session_idem : (s : Option Session) → cancel_session (cancel_session s) ≡ cancel_session s
unfolding cancel_session
cancel_session_idem none = refl
cancel_session_idem (some s) = refl

client_after-append :
    (k : Codec) (s t : List Str) (c : Client)
    → client_after k (s ++ t) c ≡ client_after k t (client_after k s c)
unfolding client_after
client_after-append k s t c =
    let p : Str → Bool = λ s. (parse_incoming k s).cancels in
    rw (any-append p s t) (by_cases (any p s) (any p t))
  where
    cancelled : Client → Client
    cancelled c = record c { session = cancel_session c.session }

    by_cases :
        (a b : Bool)
        → (if a || b then cancelled c else c)
          ≡ (if b then cancelled (if a then cancelled c else c) else (if a then cancelled c else c))
    by_cases true true = ap (λ z. record c { session = z }) (sym (cancel_session_idem c.session))
    by_cases true false = refl
    by_cases false true = refl
    by_cases false false = refl

abbrev reader : ℕ → List Delivery → Client → Reader
reader d xs c = record { read_deadline = d; deliveries = xs; client = c }

reader_eq :
    (d : ℕ) {xs ys : List Delivery} {b c : Client} → xs ≡ ys → b ≡ c → reader d xs b ≡ reader d ys c
reader_eq d {xs} {ys} {b} {c} e h = ap (λ z. reader d z b) e ∙ ap (reader d ys) h

hears_one :
    (k : Codec) (s : Str) (r : Reader)
    → hear (parse_incoming k s) r ≡ record r {
      deliveries = r.deliveries ++ heard k (s ∷ []);
      client = client_after k (s ∷ []) r.client;
    }
unfolding hear heard client_after after_incoming
hears_one k s r =
    reader_eq r.read_deadline
      (ap (λ z. r.deliveries ++ z) (sym (append-nil (parse_incoming k s).deliveries)))
      (by_cases (parse_incoming k s).cancels r.client)
  where
    by_cases :
        (b : Bool) (c : Client)
        → (if b then record c { session = cancel_session c.session } else c)
          ≡ (if b || false then record c { session = cancel_session c.session } else c)
    by_cases true c = refl
    by_cases false c = refl

step_faulty :
    (k : Codec) (a : Arrival) (r : Reader) (e : GoError)
    → fault_of a ≡ some e
    → read_step k a r ≡ (r, some e)
unfolding read_step parse
step_faulty k (message text b) r e h = rw (read_message_lem text b, h) refl
step_faulty k (pong now none) r e h = unfold fault_of in cc
step_faulty k (pong now (some x)) r e h = unfold fault_of in cc
step_faulty k (broken x) r e h = unfold fault_of in cc

step_clear :
    (k : Codec) (a : Arrival) (r : Reader)
    → fault_of a ≡ none
    → read_step k a r ≡ (after_arrivals k (a ∷ []) r, none)
unfolding read_step parse after_arrivals
step_clear k (message true b) r h =
    rw (read_message_lem true b, h) (ap (λ z. (z, none)) (hears_one k b.bytes r))
step_clear k (message false b) r h =
    rw (read_message_lem false b, h)
      (ap (λ z. (record r { deliveries = z }, none)) (sym (append-nil r.deliveries)))
step_clear k (pong now none) r h =
    ap (λ z. (record r { read_deadline = now + pong_wait; deliveries = z }, none))
      (sym (append-nil r.deliveries))
step_clear k (pong now (some x)) r h = unfold fault_of in cc
step_clear k (broken x) r h = unfold fault_of in cc

after_arrivals-cons :
    (k : Codec) (a : Arrival) (rest : List Arrival) (r : Reader)
    → after_arrivals k rest (after_arrivals k (a ∷ []) r) ≡ after_arrivals k (a ∷ rest) r
unfolding after_arrivals
after_arrivals-cons k a rest r =
    let t = text_of a in
    let e : t ++ [] ≡ t = append-nil t in
    reader_eq (deadline_after (deadline_by r.read_deadline a) rest)
      (append_assoc r.deliveries (heard k (t ++ [])) (heard k (texts rest))
        ∙ ap (λ z. r.deliveries ++ z)
            (sym (heard-append k (t ++ []) (texts rest)) ∙ ap (λ z. heard k (z ++ texts rest)) e))
      (sym (client_after-append k (t ++ []) (texts rest) r.client)
        ∙ ap (λ z. client_after k (z ++ texts rest) r.client) e)

clear_first :
    (a : Arrival) (rest : List Arrival)
    → fault_of a ≡ none
    → (before_fault (a ∷ rest) ≡ a ∷ before_fault rest)
      × (first_fault (a ∷ rest) ≡ first_fault rest)
unfolding before_fault first_fault
clear_first a rest e = (rw (e, before_fault) refl, rw (e, first_fault) refl)

faulty_first :
    (a : Arrival) (rest : List Arrival) (x : GoError)
    → fault_of a ≡ some x
    → (before_fault (a ∷ rest) ≡ []) × (first_fault (a ∷ rest) ≡ some x)
unfolding before_fault first_fault
faulty_first a rest x e = (rw (e, before_fault) refl, rw (e, first_fault) refl)

no_arrivals : (k : Codec) (r : Reader) → after_arrivals k [] r ≡ r
unfolding after_arrivals client_after
no_arrivals k r = ap (λ z. record r { deliveries = z }) (append-nil r.deliveries)

-- The goroutine hears every text message before the first error, in order and whole, and nothing
-- else: what it passes on is what they give, one after another; it cancels the session exactly if one of
-- them says so; the read deadline is the last pong's; and it ends with that first error, which is
-- the connection's, the message's, or that the message is larger than the limit.
pub read_loop_heard :
    (k : Codec) (arrivals : List Arrival) (r : Reader)
    → read_loop k arrivals r ≡ (after_arrivals k (before_fault arrivals) r, first_fault arrivals)
unfolding read_loop then_read
read_loop_heard k [] r =
    unfold before_fault first_fault in ap (λ z. (z, none)) (sym (no_arrivals k r))
read_loop_heard k (a ∷ rest) r = elim (Option-cases (fault_of a)) [
  | inl e ↦
      let q = clear_first a rest e in
      rw (step_clear k a r e, q.0, q.1)
        (read_loop_heard k rest (after_arrivals k (a ∷ []) r)
          ∙ ap (λ z. (z, first_fault rest)) (after_arrivals-cons k a (before_fault rest) r))
  | inr (x, e) ↦
      let q = faulty_first a rest x e in
      rw (step_faulty k a r x e, q.0, q.1) (ap (λ z. (z, some x)) (sym (no_arrivals k r)))
]
