-- ===== src/Lib.antt =====
-- The read-node client of TransferChain: a Go library that keeps a websocket subscription to a read
-- node alive and sends HTTP requests to it. Paths are from the repository's root.
--
-- Its parts and the files that model them:
--
-- - Client (client.go, websocket.go, mode.go): the state that `Start`, `Stop`, `Subscribe`,
--   `Unsubscribe` and `WithMode` share under the lock `mut`. Each operation is a function from a
--   client to a client and a result. `Stop` is two atomic steps (`stop_begin`, `stop_finish`), and
--   between them the session ends (`session_exit`, the deferred function of `runSession`). Maps are
--   association lists without repeated keys. The revision wraps at 2^64.
-- - Sync (`syncSubscription`, `writeFrame` of websocket.go) and Message (message.go): the frames that
--   bring a connection up to date. The environment chooses which writes fail. A message stands for
--   its JSON text, since the marshalling of its fields cannot fail.
-- - Serve (`serveConnection` of websocket.go): the loop of a connection as a step relation, in which
--   the client's operations and `Write` may come between any two steps of the loop. Runs are of fewer
--   than 2^64 changes, so that the revision does not come round.
-- - SendQueue (`Write`, and the drain of `runSession`): `write` is a call that nothing interferes
--   with; the step relation over a `Pipe` has every interleaving of writers, loop and end.
-- - Reconnect (the loop of `runSession`): structural recursion on the environment's attempts, so
--   that no fuel is needed; the loop's effects are a list of actions, its waits in milliseconds.
--   Headers have their keys as `http.Header` writes them. Reconnect/Dialling joins it to Authority. Reconnect/Handshake (`dialConnection`) is a step relation
--   between the dial, the end of the session and the return.
-- - Incoming (`parseIncoming`, `decodeTransaction`): what a message of the node delivers, and whether
--   it cancels the session. The decoding of JSON is a parameter.
-- - Reader (the goroutine that `serveConnection` starts): the connection is a list of arrivals, in
--   the order in which `NextReader` meets them. A message is bytes and an end or an error behind them.
-- - Authority (authority.go): the signer, the random bytes and the clock are parameters, and so is
--   whether the context has ended before and after the signing.
-- - Passkey (passkey.go): SHA-512 and the random source are parameters; of the digest it is assumed
--   that it has 64 bytes.
-- - Construction (`newClient`): the URL parser, the system's certificate pool, the platform's names and
--   the random source are parameters. Headers are given by the calls of `Set`.
-- - Settings (the setters of client.go for headers, proxy, logger and verbosity): fasthttp's headers, a
--   proxy's URL and the logger are parameters. Transport (transport.go, and `logError` of
--   client.go): what is printed and logged. Util (util.go): deep equality is a parameter.
-- - Callbacks (`dispatch`, the three delivery loops, and the registration in client.go).
-- - Certificate and Hex (certificate.go, and the choice of the pin in `newClient`). SHA-256, the check
--   of a signature and the parsers of PEM and DER are parameters; of the digest only its length is
--   assumed, and, where it is written out, that it consists of bytes.
-- - Transaction (transaction.go, block.go, last_block.go, ns.go), Errors (error.go).
-- - Request (search.go, summary.go, broadcast.go): the bodies of requests and their checks.
-- - Response (response.go): the answers of the node.
-- - Http (client.go): each request is an `Exchange`, which returns at once or sends one
--   request and goes on with the answer. The JSON codec, fasthttp's headers and status texts, and the
--   scheme and host of an address are parameters.
-- - Decimal (strconv): digits are written with the fuel 20, which is enough for every number of 64
--   bits. Splitting: the cutting of a text at a separator, for the readers of queries and headers.
-- - Locks (websocket.go, client.go, certificate.go): all goroutines together, each as the list of its
--   locks, channels, `go` statements and slots (Locks/Programs), run in any interleaving
--   (Locks/Steps). How many callbacks, messages, turns and rounds a goroutine has is settled when it
--   starts, by any number; a loop that a session's end leaves early is one with fewer of them. The
--   network, timers and user code that does not call the client end by themselves.
-- - Prelude: shared helpers on numbers, lists, texts and maps.
--
-- How they interact: `Subscribe` and its kin change the client and leave a token for the loop of
-- the connection (Serve), which calls `syncSubscription` (Sync) when the revision has moved, and
-- takes the messages that `Write` has queued (SendQueue). `runSession` (Reconnect) makes
-- connections with a TLS configuration that verifies by `verifyPeer` (Certificate) and runs that
-- loop on each. `newClient` (Construction) settles on that configuration and on the identifier
-- (Passkey); before a dial `runSession` asks for a header (Authority); each connection has a
-- reader, which passes messages to `parseIncoming` (Incoming).
--
-- Not modelled: received.go, which nothing uses; logger.go, which only calls the logging library;
-- `ToRequest`; and all timing but the order of events, the read deadline and the length of the
-- waits.
pub mod Prelude
pub mod Transaction
pub mod Errors
pub mod Client
pub mod Message
pub mod Sync
pub mod Serve
pub mod SendQueue
pub mod Reconnect
pub mod Callbacks
pub mod Hex
pub mod Certificate
pub mod Request
pub mod Response
pub mod Http
pub mod Incoming
pub mod Splitting
pub mod Decimal
pub mod Authority
pub mod Passkey
pub mod Construction
pub mod Reader
pub mod Settings
pub mod Transport
pub mod Util
pub mod Locks
