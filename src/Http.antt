-- ===== src/Http.antt =====
-- The requests of client.go: `LastBlock`, `Tx`, `TxSummary`, `TxSearch`, `Query`, `FetchNS` and the
-- three broadcasts. What lies outside the repository is a parameter: fasthttp's
-- headers and status texts, the parser of URLs, and the JSON codec.
pub mod Query
pub mod Outcomes
pub mod Blame
pub mod Broadcasting
mod Tests
use tcabci_read_go_client.Prelude.{
  ℤ, ℕ, zero, suc, ◌+◌, ◌-◌, ◌*◌, ◌/◌, ◌%◌, ◌^◌, ◌≤◌, ◌<◌, min, String, ◌≡◌, refl, sym, ap, ◌∙◌,
  subst, ◌≢◌, ◌↔◌, ◌⊎◌, inl, inr, Bool, true, false, not, ◌&&◌, ◌||◌, Option, none, some, List, [],
  ◌∷◌, ◌++◌, map, arith, ltb, leb, ◌==◌, if◌then◌else◌, ltb→lt, lt→ltb, ltb→le, leb→le, ==_iff,
  Bool-cases, Option-cases, get_or, &&_true, length, length-append, take, drop, all, any, All,
  All-append, all-append, any-append, Str, codes, str_eq, str_eq_refl, str_eq→eq, str_eq_iff,
  str_eq_sym, str_le, StrMap, str_mem, StrNodup, keys, lookup, put, lookup-put, str_mem-keys-put,
  length-put, put-StrNodup, all-str_mem, all_of_str_mem,
}
use tcabci_read_go_client.Transaction.{TxType, Transaction, LastBlock, Ns, is_valid}
use tcabci_read_go_client.Errors.{
  client_err, parameter_err, HttpResponse, response_snapshot, GoError, plain, wrapped, error,
  text_of, Result, ok, err, ◌>>=◌, ◌>>◌, guard,
}
use tcabci_read_go_client.Response.{
  Response, get_data, SearchResponse, SummaryResponse, BroadcastResponse,
}
use tcabci_read_go_client.Request.{
  Search, search_ok, search_uri, Summary, summary_ok, summary_uri, Broadcast, broadcast_uri,
}
use tcabci_read_go_client.Decimal.{itoa}
use tcabci_read_go_client.Http.Query.{chain_query}

pub data Method : Type 0 where
  get post : Method

-- The libraries that the requests go through. `set` and `add` are `Header.Set` and `Header.Add`;
-- `scheme` and `host` are what `url.Parse` finds in the client's address.
pub record Library : Type 1 where
  pub Header : Type 0
  pub Json : Type 0
  pub set : Str → Str → Header → Header
  pub add : Str → Str → Header → Header
  pub status_message : ℕ → Str
  pub scheme : Str → Str
  pub host : Str → Str
  pub encode_search : Search → Result Str
  pub encode_summary : Summary → Result Str
  pub encode_broadcast : Broadcast → Result Str
  pub decode_response : Str → Result (Response Json)
  pub decode_last_block : Str → Result LastBlock
  pub decode_tx : Str → Result (Response Transaction)
  pub decode_ns : Str → Result (Response Ns)
  pub decode_summary : Str → Result SummaryResponse
  pub decode_search : Str → Result SearchResponse
  pub decode_broadcast : Str → Result BroadcastResponse

module _ (l : Library) where
  open l use {
    Header, Json, set, add, status_message, scheme, host, encode_search, encode_summary,
    encode_broadcast, decode_response, decode_last_block, decode_tx, decode_ns, decode_summary,
    decode_search, decode_broadcast,
  }

  -- What the requests read of the client; no operation changes the address or the chain.
  pub record Config : Type 0 where
    pub address : Str
    pub chain_name : Str
    pub chain_version : Str
    pub headers : Header

  pub record HttpRequest : Type 0 where
    pub method : Method
    pub scheme : Str
    pub host : Str
    pub path : Str
    pub query : Str
    pub headers : Header
    pub body : Option Str

  -- An operation returns without a request, or sends one and goes on with what `do` returns.
  pub data Exchange (A : Type 0) : Type 0 where
    returns : Result A → Exchange A
    sends : HttpRequest → (Result HttpResponse → Result A) → Exchange A

  pub with_json : Header → Header
  with_json h = set (codes "Content-Type") (codes "application/json") h

  pub request : Config → Method → Str → Str → Header → Option Str → HttpRequest
  request c method path query headers body = record {
    method = method;
    scheme = scheme c.address;
    host = host c.address;
    path = path;
    query = query;
    headers = headers;
    body = body;
  }

  -- The checks of a response that all operations but `LastBlock` make, with the test of a status
  -- that is neither a client's nor a server's error.
  pub check_status : Bool → HttpResponse → Result (Unit {0})
  check_status expected r =
      if leb 400 r.status && ltb r.status 500
      then decode_response r.body >>= (λ _. err (plain (codes "read node request rejected")))
      else if leb 500 r.status
      then err (plain (status_message r.status))
      else if not expected
      then err (plain (codes "unexpected status code: " ++ itoa r.status))
      else ok tt

  client_error : GoError → ℕ → HttpResponse → GoError
  client_error e code r =
      wrapped (error client_err e (text_of e) code r.status (response_snapshot (some r)))

  -- An error of `Unmarshal` becomes the client's own with this code.
  relabel : {A : Type 0} → ℕ → HttpResponse → Result A → Result A
  unfolding client_error
  relabel code r (ok a) = ok a
  relabel code r (err e) = err (client_error e code r)

  last_block_status : HttpResponse → Result (Unit {0})
  unfolding relabel client_error
  last_block_status r =
      if leb 400 r.status && ltb r.status 500
      then relabel 6 r (decode_response r.body)
        >>= (λ _. err (plain (codes "read node request rejected")))
      else if leb 500 r.status
      then err (client_error (plain (status_message r.status)) 7 r)
      else if not (r.status == 200)
      then err (plain (codes "unexpected status code: " ++ itoa r.status))
      else ok tt

  last_block_reply : Result HttpResponse → Result LastBlock
  unfolding last_block_status relabel
  last_block_reply (err e) = err (wrapped (error client_err e (text_of e) 5 0 none))
  last_block_reply (ok r) = do last_block_status r; relabel 8 r (decode_last_block r.body)

  -- `LastBlock`, whose request keeps the method GET that a request starts with.
  pub last_block : Config → Option Str → Option Str → Exchange LastBlock
  unfolding last_block_reply request with_json
  last_block c chain_name chain_version =
      sends
        (request c get (codes "/v1/blocks")
          (codes "limit=1&offset=0&"
            ++ chain_query c.chain_name c.chain_version chain_name chain_version)
          (with_json c.headers) none)
        last_block_reply

  -- `GetData` holds no transaction where the body has none.
  present : {A : Type 0} → Str → Option A → Result A
  present message none = err (plain message)
  present message (some a) = ok a

  tx_reply : Result HttpResponse → Result Transaction
  unfolding check_status present get_data
  tx_reply reply = do
    r ← reply
    check_status (r.status == 200) r
    response ← decode_tx r.body
    present (codes "invalid transaction response") (get_data response)

  pub tx : Config → Str → Str → Option Str → Option Str → Exchange Transaction
  unfolding tx_reply request with_json
  tx c [] signature chain_name chain_version = returns (
      err (
        wrapped
          (error parameter_err (plain (codes "invalid tx id")) (codes "invalid tx id") 9 0 none)))
  tx c (i ∷ d) signature chain_name chain_version =
      sends
        (request c get (codes "/v1/tx/" ++ i ∷ d)
          (chain_query c.chain_name c.chain_version chain_name chain_version)
          (set (codes "X-Signature") signature (with_json c.headers)) none)
        tx_reply

  -- A request with the encoded body, or the encoder's error.
  pub send_encoded :
      {A : Type 0}
      → Result Str
      → (Str → HttpRequest)
      → (Result HttpResponse → Result A)
      → Exchange A
  send_encoded (err e) make reply = returns (err e)
  send_encoded (ok body) make reply = sends (make body) reply

  -- A chain that is not given is the client's.
  or_default : Str → Option Str → Option Str
  or_default default none = some default
  or_default default (some s) = some s

  summary_reply : Result HttpResponse → Result (ℕ × Option Transaction × ℕ)
  unfolding check_status
  summary_reply reply = do
    r ← reply
    check_status (r.status == 200) r
    s ← decode_summary r.body
    ok (s.last_block_height, s.last_transaction, s.total_count)

  summary_for : Config → Summary → Summary
  unfolding or_default
  summary_for c s = record s {
    chain_name = or_default c.chain_name s.chain_name;
    chain_version = or_default c.chain_version s.chain_version;
  }

  -- `TxSummary`; `none` is a nil pointer.
  pub tx_summary : Config → Option Summary → Exchange (ℕ × Option Transaction × ℕ)
  unfolding summary_reply summary_for send_encoded request with_json
  tx_summary c none = returns (err (plain (codes "invalid parameters")))
  tx_summary c (some s) =
      if not (summary_ok s)
      then returns (err (plain (codes "invalid parameters")))
      else send_encoded (encode_summary (summary_for c s))
          (λ body. request c post summary_uri [] (with_json c.headers) (some body)) summary_reply

  search_reply : Result HttpResponse → Result (List Transaction × ℕ)
  unfolding check_status
  search_reply reply = do
    r ← reply
    check_status (r.status == 200) r
    s ← decode_search r.body
    ok (s.txs, s.total_count)

  -- The copy of `Search.ToJSON`, with the height written out.
  with_height : Search → Search
  with_height s = record s { p_height = s.height_operator ++ b' ' ∷ itoa s.height }

  -- The copy of `TxSearch` with the chain, as it is encoded.
  pub search_for : Config → Search → Search
  unfolding or_default with_height
  search_for c s = with_height (record s {
    chain_name = or_default c.chain_name s.chain_name;
    chain_version = or_default c.chain_version s.chain_version;
  })

  -- `TxSearch`.
  pub tx_search : Config → Option Search → Exchange (List Transaction × ℕ)
  unfolding search_reply search_for send_encoded request with_json
  tx_search c none = returns (err (plain (codes "invalid parameters")))
  tx_search c (some s) =
      if not (search_ok s)
      then returns (err (plain (codes "invalid parameters")))
      else send_encoded (encode_search (search_for c s))
          (λ body. request c post search_uri [] (with_json c.headers) (some body)) search_reply

  add_values : Str → List Str → Header → Header
  add_values k [] h = h
  add_values k (v ∷ vs) h = add_values k vs (add k v h)

  -- The loops over the given headers, in the order in which the map is walked.
  add_headers : List (Str × List Str) → Header → Header
  unfolding add_values
  add_headers [] h = h
  add_headers ((k, vs) ∷ rest) h = add_headers rest (add_values k vs h)

  query_reply : Result HttpResponse → Result (Response Json)
  unfolding check_status
  query_reply reply = do
    r ← reply
    check_status (leb 200 r.status && ltb r.status 300) r
    decode_response r.body

  -- `Query`, whose method is a text.
  pub query : Config → Str → Str → Option Str → List (Str × List Str) → Exchange (Response Json)
  unfolding query_reply add_headers request with_json
  query c method path payload headers =
      let built : Method → HttpRequest =
        (λ m. request c m path [] (add_headers headers (with_json c.headers)) payload) in
      if str_eq (codes "GET") method
      then sends (built get) query_reply
      else if str_eq (codes "POST") method
      then sends (built post) query_reply
      else returns (err (plain (codes "invalid method")))

  ns_reply : Result HttpResponse → Result Ns
  unfolding check_status present
  ns_reply reply = do
    r ← reply
    check_status (r.status == 200) r
    response ← decode_ns r.body
    present (codes "invalid namespace response") response.payload

  pub fetch_ns : Config → Str → Exchange Ns
  unfolding ns_reply request with_json
  fetch_ns c identifier =
      sends (request c get (codes "/v1/ns/" ++ identifier) [] (with_json c.headers) none) ns_reply

  broadcast_reply : Result HttpResponse → Result BroadcastResponse
  unfolding check_status
  broadcast_reply reply = do r ← reply; check_status (r.status == 201) r; decode_broadcast r.body

  -- The arguments of `broadcast` are the fields of the body that it builds.
  pub broadcast : Config → Broadcast → Bool → Bool → Exchange BroadcastResponse
  unfolding broadcast_reply send_encoded request with_json
  broadcast c b commit sync =
      if not (is_valid b.typ)
      then returns (err (plain (codes "invalid type")))
      else send_encoded (encode_broadcast b)
          (λ body. request c post (broadcast_uri commit sync) [] (with_json c.headers) (some body))
          broadcast_reply

  pub broadcast_async : Config → Broadcast → Exchange BroadcastResponse
  unfolding broadcast
  broadcast_async c b = broadcast c b false false

  pub broadcast_sync : Config → Broadcast → Exchange BroadcastResponse
  unfolding broadcast
  broadcast_sync c b = broadcast c b false true

  pub broadcast_commit : Config → Broadcast → Exchange BroadcastResponse
  unfolding broadcast
  broadcast_commit c b = broadcast c b true false
