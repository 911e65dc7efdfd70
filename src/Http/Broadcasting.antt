-- ===== src/Http/Broadcasting.antt =====
-- What the three broadcasts return, for any answer of the network.
use tcabci_read_go_client.Prelude.{
  codes, ◌≡◌, refl, sym, ◌∙◌, ◌≢◌, ◌↔◌, inl, inr, Bool, true, false, some, [], arith, Bool-cases,
  Str,
}
use tcabci_read_go_client.Transaction.{is_valid}
use tcabci_read_go_client.Errors.{HttpResponse, Result, ok}
use tcabci_read_go_client.Request.{Broadcast, broadcast_uri}
use tcabci_read_go_client.Response.{BroadcastResponse}
use tcabci_read_go_client.Http.{
  broadcast_async, broadcast_sync, broadcast_commit, Exchange, post, Library, Config, HttpRequest,
  with_json, request, send_encoded, broadcast_reply, broadcast,
}
use tcabci_read_go_client.Http.Outcomes.{
  posted, run, Delivers, err≢ok, answer, answer_sound, answer_complete, Sent, sent, resent,
}

module _ (l : Library) where
  open l use {encode_broadcast, decode_broadcast}

  -- The broadcast is sent to the path, and the node has taken it.
  pub record Taken (c : Config l) (b : Broadcast) (path : Str)
      (network : HttpRequest l → Result HttpResponse) (x : BroadcastResponse) : Type 0 where
    pub typed : is_valid b.typ ≡ true
    pub body : Str
    pub encoded : encode_broadcast b ≡ ok body
    pub delivered : Delivers l decode_broadcast 201 (network (posted l c path body)) x

  module _ (c : Config l) (b : Broadcast) (commit sync : Bool)
      (network : HttpRequest l → Result HttpResponse) (x : BroadcastResponse) where
    broadcast_request : Str → HttpRequest l
    broadcast_request body =
        request l c post (broadcast_uri commit sync) [] (with_json l c.headers) (some body)

    opened :
        is_valid b.typ ≡ true
        → run l network (broadcast l c b commit sync)
          ≡ run l network
              (send_encoded l (encode_broadcast b) broadcast_request (broadcast_reply l))
    unfolding broadcast broadcast_request
    opened e = rw e refl

    refused : is_valid b.typ ≡ false → run l network (broadcast l c b commit sync) ≢ ok x
    unfolding broadcast
    refused n h = absurd (err≢ok l (rw n at h))

    taken :
        is_valid b.typ ≡ true
        → Sent l
            (encode_broadcast b)
            (λ body. broadcast_reply l (network (broadcast_request body)))
            x
        → Taken c b (broadcast_uri commit sync) network x
    unfolding broadcast_reply broadcast_request answer request with_json
    taken e q = record {
      typed = e;
      body = q.body;
      encoded = q.encoded;
      delivered = answer_sound l decode_broadcast 201 _ q.answered;
    }

    answered :
        (body : Str)
        → Delivers l decode_broadcast 201 (network (broadcast_request body)) x
        → broadcast_reply l (network (broadcast_request body)) ≡ ok x
    unfolding broadcast_reply answer broadcast_request
    answered body q =
        answer_complete l decode_broadcast 201 (network (broadcast_request body)) (omega arith) q

    taken_iff :
        (run l network (broadcast l c b commit sync) ≡ ok x)
        ↔ Taken c b (broadcast_uri commit sync) network x
    unfolding broadcast_request request with_json
    taken_iff = (
      (λ h. elim (Bool-cases (is_valid b.typ)) [
        | inl e ↦
            taken e (sent l broadcast_request (broadcast_reply l) network _ (sym (opened e) ∙ h))
        | inr n ↦ absurd (refused n h)
      ]),
      λ d.
          opened d.typed
          ∙ resent l broadcast_request (broadcast_reply l) network d.body d.encoded
              (answered d.body d.delivered),
    )

  -- The three broadcasts, and where the node takes them.
  pub data Kind : Type 0 where
    asynchronous synchronous committed : Kind

  unfoldable pub broadcast_as : Kind → Config l → Broadcast → Exchange l BroadcastResponse
  broadcast_as asynchronous = broadcast_async l
  broadcast_as synchronous = broadcast_sync l
  broadcast_as committed = broadcast_commit l

  abbrev pub path_of : Kind → Str
  path_of asynchronous = codes "/v1/tx"
  path_of synchronous = codes "/v1/tx/sync"
  path_of committed = codes "/v1/tx/commit"

  -- `Broadcast`, `BroadcastSync` and `BroadcastCommit` return the node's answer exactly when the type is
  -- valid, the body encodes, and the network answers its POST, with the client's headers and the content
  -- type of JSON, to `/v1/tx`, `/v1/tx/sync` and `/v1/tx/commit`, with the status 201 and a body that
  -- decodes to that answer.
  pub broadcast_ok_iff :
      (kind : Kind) (c : Config l) (b : Broadcast) (network : HttpRequest l → Result HttpResponse)
      (x : BroadcastResponse)
      → (run l network (broadcast_as kind c b) ≡ ok x) ↔ Taken c b (path_of kind) network x
  unfolding broadcast_as broadcast_async broadcast_sync broadcast_commit broadcast_uri
  broadcast_ok_iff asynchronous c b network x = taken_iff c b false false network x
  broadcast_ok_iff synchronous c b network x = taken_iff c b false true network x
  broadcast_ok_iff committed c b network x = taken_iff c b true false network x
