-- ===== src/Http/Blame.antt =====
-- What an error of `LastBlock` tells.
use tcabci_read_go_client.Prelude.{
  ℕ, ◌≤◌, ◌<◌, ◌≡◌, refl, sym, ap, ◌∙◌, subst, inl, inr, false, ◌&&◌, Option, none, some, [], arith,
  ltb, leb, leb→le, Bool-cases, Str, codes,
}
use tcabci_read_go_client.Errors.{
  HttpResponse, response_snapshot, GoError, plain, wrapped, Error, code_of, status_of, origin_of,
  response_of, Result, ok, err, ◌>>=◌,
}
use tcabci_read_go_client.Response.{Response}
use tcabci_read_go_client.Http.{
  Library, Config, client_error, relabel, last_block_status, last_block_reply, last_block,
}
use tcabci_read_go_client.Http.Outcomes.{run, Result-cases}

module _ (l : Library) where
  open l use {decode_response, decode_last_block, status_message}

  -- The error has the status of the response, and of the response itself nothing else.
  abbrev pub Keeps : HttpResponse → Error → Type 0
  Keeps r e =
      (status_of e ≡ r.status)
      × (response_of e ≡ some (record { status = r.status; headers = []; body = [] }))

  -- An answer of the network, and an error of the client's own that tells where it arose.
  pub data Blame : Result HttpResponse → Error → Type 0 where
    network_failed :
        {cause : GoError} {e : Error}
        → code_of e ≡ 5
        → origin_of e ≡ cause
        → response_of e ≡ none
        → Blame (err cause) e
    unreadable_rejection :
        {r : HttpResponse} {e : Error}
        → code_of e ≡ 6
        → 400 ≤ r.status
        → r.status < 500
        → decode_response r.body ≡ err (origin_of e)
        → Keeps r e
        → Blame (ok r) e
    server_failed :
        {r : HttpResponse} {e : Error}
        → code_of e ≡ 7
        → 500 ≤ r.status
        → origin_of e ≡ plain (status_message r.status)
        → Keeps r e
        → Blame (ok r) e
    unreadable_block :
        {r : HttpResponse} {e : Error}
        → code_of e ≡ 8
        → r.status ≡ 200
        → decode_last_block r.body ≡ err (origin_of e)
        → Keeps r e
        → Blame (ok r) e

  wrapped-injective : {a b : Error} → wrapped a ≡ wrapped b → a ≡ b
  wrapped-injective h = cc

  err-injective : {A : Type 0} {a b : GoError} → ◌≡◌ {A = Result A} (err a) (err b) → a ≡ b
  err-injective h = cc

  client_error-fields :
      (cause : GoError) (code : ℕ) (r : HttpResponse) {e : Error}
      → client_error l cause code r ≡ wrapped e
      → (code_of e ≡ code) × (origin_of e ≡ cause) × Keeps r e
  unfolding client_error code_of origin_of status_of response_of response_snapshot
  client_error-fields cause code r h =
      subst (λ z. (code_of z ≡ code) × (origin_of z ≡ cause) × Keeps r z) (wrapped-injective h)
        (refl, refl, (refl, refl))

  network-Blame :
      (cause : GoError) {e : Error}
      → last_block_reply l (err cause) ≡ err (wrapped e)
      → Blame (err cause) e
  unfolding last_block_reply code_of origin_of response_of response_snapshot
  network-Blame cause h =
      subst (Blame (err cause)) (wrapped-injective (err-injective h))
        (network_failed refl refl refl)

  -- What the two stages after the arrival of a response can fail with.
  relabel-err :
      {A : Type 0} (code : ℕ) (r : HttpResponse) (m : Result A) {x : GoError}
      → relabel l code r m ≡ err x
      → (cause : GoError) × (client_error l cause code r ≡ x) × (m ≡ err cause)
  unfolding relabel
  relabel-err code r (ok a) h = cc
  relabel-err code r (err y) h = (y, err-injective h, refl)

  block-Blame :
      (r : HttpResponse) {e : Error}
      → r.status ≡ 200
      → relabel l 8 r (decode_last_block r.body) ≡ err (wrapped e)
      → Blame (ok r) e
  block-Blame r s h =
      let (cause, x, d) = relabel-err 8 r (decode_last_block r.body) h in
      let (code, origin, kept) = client_error-fields cause 8 r x in
      unreadable_block code s (d ∙ ap err (sym origin)) kept

  abbrev rejection : Result (Unit {0})
  rejection = err (plain (codes "read node request rejected"))

  rejected :
      (r : HttpResponse) (m : Result (Response (l.Json))) {e : Error}
      → (relabel l 6 r m >>= (λ _. rejection)) ≡ err (wrapped e)
      → (cause : GoError) × (client_error l cause 6 r ≡ wrapped e) × (m ≡ err cause)
  unfolding relabel
  rejected r (ok a) h = cc
  rejected r (err y) h = (y, err-injective h, refl)

  status-Blame :
      (r : HttpResponse) {e : Error} → last_block_status l r ≡ err (wrapped e) → Blame (ok r) e
  unfolding last_block_status
  status-Blame r {e} h = elim (Bool-cases (leb 400 r.status && ltb r.status 500)) [
    | inl q ↦
        let (cause, x, d) = rejected r (decode_response r.body) (rw q at h) in
        let (code, origin, kept) = client_error-fields cause 6 r x in
        unreadable_rejection code (ground arith) (ground arith) (d ∙ ap err (sym origin)) kept
    | inr n ↦ elim (Bool-cases (leb 500 r.status)) [
      | inl q ↦
          let (code, origin, kept) = client_error-fields _ 7 r (err-injective (rw (n, q) at h)) in
          server_failed code (leb→le _ _ q) origin kept
      | inr m ↦ absurd (last h n m)
    ]
  ]
    where
      last :
          last_block_status l r ≡ err (wrapped e)
          → (leb 400 r.status && ltb r.status 500) ≡ false
          → leb 500 r.status ≡ false
          → ⊥
      last h n m = ground arith

  status_ok : (r : HttpResponse) {u : Unit {0}} → last_block_status l r ≡ ok u → r.status ≡ 200
  unfolding last_block_status
  status_ok r h = ground arith

  -- An error of `LastBlock` that is the client's own tells where it arose, and its origin is what went
  -- wrong there: code 5 is an error of the network, without a response; 6 that the body under a status
  -- from 400 to 499 cannot be read; 7 a status from 500 on, with the text for that status; 8 that the
  -- block under the status 200 cannot be read. The last three have the status of the response and keep
  -- neither its headers nor its body.
  pub last_block-Blame :
      (c : Config l) (name version : Option Str) (reply : Result HttpResponse) (e : Error)
      → run l (λ q. reply) (last_block l c name version) ≡ err (wrapped e)
      → Blame reply e
  unfolding last_block last_block_reply
  last_block-Blame c name version (err cause) e h = network-Blame cause h
  last_block-Blame c name version (ok r) e h = elim (Result-cases l (last_block_status l r)) [
    | inl (u, q) ↦ block-Blame r (status_ok r q) (rw q at h)
    | inr (x, q) ↦ status-Blame r (q ∙ ap err (err-injective (rw q at h)))
  ]
