-- ===== src/Errors/Chain.antt =====
-- What an `*Error` keeps of the response and of the error behind it.
use tcabci_read_go_client.Prelude.{◌≡◌, none, some, [], arith}
use tcabci_read_go_client.Errors.{Error, error, HttpResponse, response_snapshot, response_of}

-- The response that an error hands out keeps the status of the response it was made from, and no
-- header and no byte of its body, whether or not the stored response was a snapshot already.
response_of_status_only :
    (e : Error) (r : HttpResponse)
    → response_of e ≡ some r
    → (r.headers ≡ []) × (r.body ≡ []) × (response_snapshot (response_of e) ≡ response_of e)
unfolding response_of response_snapshot
response_of_status_only (error t o m c s none) r h = cc
response_of_status_only (error t o m c s (some q)) r h = ground arith
