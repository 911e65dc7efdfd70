-- ===== src/Http/Tests.antt =====
-- The requests over a library with toy encodings: a search becomes its height, and every body decodes.
use tcabci_read_go_client.Prelude.{
  ◌≡◌, refl, ◌↔◌, none, some, [], ◌∷◌, arith, get_or, length, Str, codes, str_eq, StrMap, put,
}
use tcabci_read_go_client.Transaction.{type_message, is_valid}
use tcabci_read_go_client.Errors.{
  client_err, HttpResponse, response_snapshot, external, wrapped, Error, error, text_of, Result, ok,
  err,
}
use tcabci_read_go_client.Request.{asc, greater, Search, search_ok, Broadcast}
use tcabci_read_go_client.Http.{
  Library, Config, HttpRequest, client_error, last_block, tx_search, broadcast_sync,
}
use tcabci_read_go_client.Response.{BroadcastResponse}
use tcabci_read_go_client.Http.Broadcasting.{
  Taken, synchronous, broadcast_as, path_of, broadcast_ok_iff,
}
use tcabci_read_go_client.Decimal.{itoa}
use tcabci_read_go_client.Http.Query.{chain_query}
use tcabci_read_go_client.Http.Query.Escape.{fields, chain_query-fields}
use tcabci_read_go_client.Http.Outcomes.{run, Searched, tx_search_ok_iff}
use tcabci_read_go_client.Http.Blame.{Blame, last_block-Blame}

abbrev toy : Library
toy = record {
  Header = StrMap Str;
  Json = Str;
  set = λ k v h. put k v h;
  add = λ k v h. (k, v) ∷ h;
  status_message = λ n. [];
  scheme = λ s. codes "https";
  host = λ s. s;
  encode_search = λ s. ok s.p_height;
  encode_summary = λ s. ok [];
  encode_broadcast = λ b. ok b.payload;
  decode_response = λ s. err (external (codes "bad json"));
  decode_last_block = λ s. ok (record { blocks = []; total_count = 3 });
  decode_tx = λ s. err (external (codes "bad json"));
  decode_ns = λ s. err (external (codes "bad json"));
  decode_summary =
      λ s. ok (record { last_block_height = 1; last_transaction = none; total_count = 2 });
  decode_search = λ s. ok (record { txs = []; total_count = length s });
  decode_broadcast =
      λ s. ok (record { hash = s; code = 0; payload = []; log = []; codespace = [] });
}

abbrev config : Config toy
config = record {
  address = codes "node";
  chain_name = codes "a&b = c";
  chain_version = codes "v1";
  headers = [];
}

abbrev echo : HttpRequest toy → Result HttpResponse
echo q = ok (record { status = 200; headers = []; body = get_or q.body [] })

abbrev gone : Result HttpResponse
gone = ok (record { status = 404; headers = []; body = [] })

abbrev recent : Search
recent = record {
  limit = 10;
  height = 42;
  offset = 0;
  max_height = 0;
  last_order = 0;
  typ = type_message;
  types = [];
  p_height = [];
  order_by = asc;
  order_field = [];
  height_operator = greater;
  recipient_addresses = [];
  sender_addresses = [];
  signed_addresses = (codes "alice", codes "sig") ∷ [];
  hashes = [];
  chain_name = none;
  chain_version = none;
}

-- The body is `> 42`.
recent_echoed : run toy echo (tx_search toy config (some recent)) ≡ ok ([], 4)
unfolding tx_search search_ok is_valid str_eq itoa
recent_echoed = refl

tx_search_ok_iff_example :
    (run toy echo (tx_search toy config (some recent)) ≡ ok ([], 4))
    ↔ Searched toy config recent echo ([], 4)
tx_search_ok_iff_example = tx_search_ok_iff toy config recent echo ([], 4)

abbrev unreadable : Error
unreadable =
    error client_err (external (codes "bad json")) (codes "bad json") 6 404
      (some (record { status = 404; headers = []; body = [] }))

gone_blamed : run toy (λ q. gone) (last_block toy config none none) ≡ err (wrapped unreadable)
unfolding last_block client_error text_of response_snapshot
gone_blamed = refl

last_block-Blame_example : Blame toy gone unreadable
last_block-Blame_example = last_block-Blame toy config none none gone unreadable gone_blamed

chain_query-fields_example :
    fields (chain_query (codes "a&b = c") (codes "v1") none (some (codes "v2")))
    ≡ (codes "chain_name", some (codes "a&b = c")) ∷ (codes "chain_version", some (codes "v1")) ∷ []
chain_query-fields_example =
    chain_query-fields (codes "a&b = c") (codes "v1") none (some (codes "v2"))
      (
        omega arith,
        (
          omega arith,
          (omega arith, (omega arith, (omega arith, (omega arith, (omega arith, tt))))),
        ),
      )
      (omega arith, (omega arith, tt))

abbrev created : HttpRequest toy → Result HttpResponse
created q = ok (record { status = 201; headers = []; body = get_or q.body [] })

abbrev note : Broadcast
note = record {
  id = codes "1";
  version = 0;
  typ = type_message;
  sender_addr = codes "alice";
  recipient_addr = codes "bob";
  payload = codes "hello";
  additional_data = none;
  cipher_data = none;
  sign = codes "sig";
  fee = 0;
}

abbrev noted : BroadcastResponse
noted = record { hash = codes "hello"; code = 0; payload = []; log = []; codespace = [] }

note_taken : run toy created (broadcast_sync toy config note) ≡ ok noted
unfolding broadcast_sync is_valid str_eq
note_taken = refl

broadcast_ok_iff_example :
    (run toy created (broadcast_as toy synchronous config note) ≡ ok noted)
    ↔ Taken toy config note (path_of toy synchronous) created noted
broadcast_ok_iff_example = broadcast_ok_iff toy synchronous config note created noted
