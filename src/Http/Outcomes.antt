-- ===== src/Http/Outcomes.antt =====
-- What the requests of client.go return, for any answer of the network.
use tcabci_read_go_client.Prelude.{
  ap, ◌++◌, ◌∷◌, Option, none, get_or, codes, ℕ, ◌<◌, ◌≡◌, refl, sym, ◌∙◌, ◌≢◌, ◌↔◌, ◌⊎◌, inl, inr,
  true, false, some, List, [], arith, ◌==◌, Bool-cases, Str,
}
use tcabci_read_go_client.Transaction.{Transaction}
use tcabci_read_go_client.Errors.{HttpResponse, GoError, Result, ok, err, ◌>>=◌, ◌>>◌}
use tcabci_read_go_client.Request.{Search, search_ok, search_uri}
use tcabci_read_go_client.Request.Validity.{Admitted, search_ok_iff}
use tcabci_read_go_client.Http.{
  post, Library, Config, HttpRequest, Exchange, returns, sends, with_json, request, check_status,
  send_encoded, search_reply, search_for, tx_search, with_height, or_default,
}
use tcabci_read_go_client.Decimal.{itoa}

module _ (l : Library) where
  open l use {
    decode_response, decode_search, encode_search, encode_broadcast, decode_broadcast,
    decode_last_block, scheme, host, set,
  }

  -- An operation on a network that answers each request.
  abbrev pub run : {A : Type 0} → (HttpRequest l → Result HttpResponse) → Exchange l A → Result A
  run network (returns r) = r
  run network (sends q k) = k (network q)

  -- The network answers the request with this status and a body that decodes to the value.
  pub record Delivers {A : Type 0} (decode : Str → Result A) (status : ℕ)
      (reply : Result HttpResponse) (a : A) : Type 0 where
    pub response : HttpResponse
    pub arrived : reply ≡ ok response
    pub accepted : response.status ≡ status
    pub decoded : decode response.body ≡ ok a

  pub err≢ok : {A : Type 0} {e : GoError} {a : A} → err e ≢ ok a
  err≢ok h = cc

  ok-injective : {A : Type 0} {a b : A} → ok a ≡ ok b → a ≡ b
  ok-injective h = cc

  pub Result-cases :
      {A : Type 0} (r : Result A) → ((a : A) × (r ≡ ok a)) ⊎ ((e : GoError) × (r ≡ err e))
  Result-cases (ok a) = inl (a, refl)
  Result-cases (err e) = inr (e, refl)

  check_status_sound :
      (n : ℕ) (r : HttpResponse) → check_status l (r.status == n) r ≡ ok tt → r.status ≡ n
  unfolding check_status
  check_status_sound n r h = ground arith

  check_status_complete :
      (n : ℕ) (r : HttpResponse) → n < 400 → r.status ≡ n → check_status l (r.status == n) r ≡ ok tt
  unfolding check_status
  check_status_complete n r h e = ground arith

  unfoldable pub answer : {A : Type 0} → (Str → Result A) → ℕ → Result HttpResponse → Result A
  answer decode n reply = do r ← reply; check_status l (r.status == n) r; decode r.body

  pub answer_sound :
      {A : Type 0} (decode : Str → Result A) (n : ℕ) (reply : Result HttpResponse) {a : A}
      → answer decode n reply ≡ ok a
      → Delivers decode n reply a
  unfolding answer
  answer_sound decode n (err e) h = absurd (err≢ok h)
  answer_sound decode n (ok r) h = elim (Result-cases (check_status l (r.status == n) r)) [
    | inl (u, e) ↦ record {
      response = r;
      arrived = refl;
      accepted = check_status_sound n r e;
      decoded = rw e at h;
    }
    | inr (x, e) ↦ absurd (err≢ok (rw e at h))
  ]

  pub answer_complete :
      {A : Type 0} (decode : Str → Result A) (n : ℕ) (reply : Result HttpResponse) {a : A}
      → n < 400
      → Delivers decode n reply a
      → answer decode n reply ≡ ok a
  unfolding answer
  answer_complete decode n reply b d =
      rw d.arrived (rw (check_status_complete n d.response b d.accepted) d.decoded)

  pub found : Str → Result (List Transaction × ℕ)
  found body = do s ← decode_search body; ok (s.txs, s.total_count)

  -- A body that is encoded and then sent.
  pub record Sent {A : Type 0} (encoding : Result Str) (k : Str → Result A) (a : A) : Type 0 where
    pub body : Str
    pub encoded : encoding ≡ ok body
    pub answered : k body ≡ ok a

  pub sent :
      {A : Type 0} {a : A} (make : Str → HttpRequest l) (k : Result HttpResponse → Result A)
      (network : HttpRequest l → Result HttpResponse) (encoding : Result Str)
      → run network (send_encoded l encoding make k) ≡ ok a
      → Sent encoding (λ body. k (network (make body))) a
  unfolding send_encoded
  sent make k network (ok body) h = record { body = body; encoded = refl; answered = h }
  sent make k network (err e) h = absurd (err≢ok h)

  pub resent :
      {A : Type 0} {a : A} (make : Str → HttpRequest l) (k : Result HttpResponse → Result A)
      (network : HttpRequest l → Result HttpResponse) {encoding : Result Str} (body : Str)
      → encoding ≡ ok body
      → k (network (make body)) ≡ ok a
      → run network (send_encoded l encoding make k) ≡ ok a
  unfolding send_encoded
  resent make k network body e h = rw e h

  -- A POST of a body to a path of the node, with the client's headers and the type of JSON.
  abbrev pub posted : Config l → Str → Str → HttpRequest l
  posted c path body = record {
    method = post;
    scheme = scheme c.address;
    host = host c.address;
    path = path;
    query = [];
    headers = set (codes "Content-Type") (codes "application/json") c.headers;
    body = some body;
  }

  -- The search that goes on the wire: a chain's name or version that is missing is the client's, and the
  -- height stands behind its operator.
  abbrev pub on_wire : Config l → Search → Search
  on_wire c s = record s {
    chain_name = some (get_or s.chain_name c.chain_name);
    chain_version = some (get_or s.chain_version c.chain_version);
    p_height = s.height_operator ++ b' ' ∷ itoa s.height;
  }

  or_default-some : (d : Str) (o : Option Str) → or_default l d o ≡ some (get_or o d)
  unfolding or_default
  or_default-some d none = refl
  or_default-some d (some s) = refl

  search_for-on_wire : (c : Config l) (s : Search) → search_for l c s ≡ on_wire c s
  unfolding search_for with_height
  search_for-on_wire c s =
      rw
        (or_default-some c.chain_name s.chain_name, or_default-some c.chain_version s.chain_version)
        refl

  -- `TxSearch` as a request for a search that is to be sent.
  pub record Searched (c : Config l) (s : Search) (network : HttpRequest l → Result HttpResponse)
      (x : List Transaction × ℕ) : Type 0 where
    pub admitted : Admitted s
    pub body : Str
    pub encoded : encode_search (on_wire c s) ≡ ok body
    pub delivered : Delivers found 200 (network (posted c (codes "/v1/tx_search/p") body)) x

  module _ (c : Config l) (s : Search) (network : HttpRequest l → Result HttpResponse)
      (x : List Transaction × ℕ) where
    search_request : Str → HttpRequest l
    search_request body = request l c post search_uri [] (with_json l c.headers) (some body)

    opened :
        search_ok s ≡ true
        → run network (tx_search l c (some s))
          ≡ run network
              (send_encoded l (encode_search (search_for l c s)) search_request (search_reply l))
    unfolding tx_search search_request
    opened e = rw e refl

    refused : search_ok s ≡ false → run network (tx_search l c (some s)) ≢ ok x
    unfolding tx_search
    refused n h = absurd (err≢ok (rw n at h))

    searched :
        search_ok s ≡ true
        → Sent
            (encode_search (search_for l c s))
            (λ body. search_reply l (network (search_request body)))
            x
        → Searched c s network x
    unfolding search_reply search_request answer found request with_json
    searched e q = record {
      admitted = (search_ok_iff s).0 e;
      body = q.body;
      encoded = ap encode_search (sym (search_for-on_wire c s)) ∙ q.encoded;
      delivered = answer_sound found 200 _ q.answered;
    }

    answered :
        (body : Str)
        → Delivers found 200 (network (search_request body)) x
        → search_reply l (network (search_request body)) ≡ ok x
    unfolding search_reply answer found search_request
    answered body q = answer_complete found 200 (network (search_request body)) (omega arith) q

    search_complete : Searched c s network x → run network (tx_search l c (some s)) ≡ ok x
    unfolding search_request request with_json
    search_complete d =
        opened ((search_ok_iff s).1 d.admitted)
        ∙ resent search_request (search_reply l) network d.body
            (ap encode_search (search_for-on_wire c s) ∙ d.encoded) (answered d.body d.delivered)

  -- `TxSearch` returns transactions and a count exactly when the search is admitted and encodes, with
  -- the client's chain where it has none and its height written out, and the network answers the POST of that
  -- encoding to `/v1/tx_search/p`, with the client's headers and the content type of JSON, with the
  -- status 200 and a body that decodes to them.
  pub tx_search_ok_iff :
      (c : Config l) (s : Search) (network : HttpRequest l → Result HttpResponse)
      (x : List Transaction × ℕ)
      → (run network (tx_search l c (some s)) ≡ ok x) ↔ Searched c s network x
  unfolding search_request
  tx_search_ok_iff c s network x = (
    (λ h. elim (Bool-cases (search_ok s)) [
      | inl e ↦ searched c s network x e (
          sent (search_request c s network x) (search_reply l) network _
            (sym (opened c s network x e) ∙ h))
      | inr n ↦ absurd (refused c s network x n h)
    ]),
    search_complete c s network x,
  )
