-- ===== src/Construction.antt =====
-- client.go: `NewClient`, `NewClientContext` and `newClient`. The URL parser, the system's certificate
-- pool and the platform's names are parameters.
pub mod Conditions
pub mod Secured
mod Tests
use tcabci_read_go_client.Prelude.{
  ℤ, pos, negsuc, ℕ, zero, suc, ◌+◌, ◌-◌, ◌*◌, ◌/◌, ◌%◌, ◌^◌, ◌≤◌, ◌<◌, min, String, ◌≡◌, refl, sym,
  ap, ◌∙◌, subst, ◌≢◌, ◌↔◌, ◌⊎◌, inl, inr, Bool, true, false, not, ◌&&◌, ◌||◌, Option, none, some,
  List, [], ◌∷◌, ◌++◌, map, arith, ltb, leb, ◌==◌, if◌then◌else◌, ltb→lt, lt→ltb, ltb→le, leb→le,
  ==_iff, Bool-cases, Option-cases, get_or, &&_true, length, length-append, take, drop, all, any,
  All, All-append, all-append, any-append, Str, codes, str_eq, str_eq_refl, str_eq→eq, str_eq_iff,
  str_eq_sym, str_eq_nil, str_le, StrMap, str_mem, StrNodup, keys, lookup, put, lookup-put,
  str_mem-keys-put, length-put, put-StrNodup, all-str_mem, all_of_str_mem,
}
use tcabci_read_go_client.Errors.{GoError, Result, ok, err, ◌>>=◌, ◌>>◌, guard, plain}
use tcabci_read_go_client.Certificate.{X509, Parsers, check_custom, with_certificate, verify_peer}
use tcabci_read_go_client.Client.{Client, init}
use tcabci_read_go_client.Passkey.{Sha512, create_client_instance_id}

-- What the code reads of `url.URL`: `Scheme` and `Hostname()`.
pub record Url : Type 0 where
  pub scheme : Str
  pub hostname : Str

pub record Platform : Type 1 where
  pub Pool : Type 0
  pub system_cert_pool : Result Pool
  pub parse_url : Str → Result Url
  pub os : Str
  pub arch : Str
  -- What `io.ReadFull(rand.Reader, …)` gives in each round.
  pub random : ℕ → Option Str

-- The arguments of `newClient`: `certificate` is what reading `cert` gives, if it is not nil.
pub record Arguments : Type 0 where
  pub has_context : Bool
  pub address : Str
  pub ws_address : Str
  pub chain_name : Str
  pub chain_version : Str
  pub insecure : Bool
  pub fingerprint : Option Str
  pub certificate : Option (Result Str)

pub http_url : Url → Bool
http_url u = not (
    (not (str_eq u.scheme (codes "https")) && not (str_eq u.scheme (codes "http")))
    || str_eq u.hostname [])

pub websocket_url : Url → Bool
websocket_url u = not (
    (not (str_eq u.scheme (codes "wss")) && not (str_eq u.scheme (codes "ws")))
    || str_eq u.hostname [])

pub given : {A : Type 0} → Option A → Bool
given none = false
given (some x) = true

-- Whether there is a TLS configuration.
pub secure : Url → Url → Option (Result Str) → Bool
unfolding given
secure a w certificate =
    str_eq a.scheme (codes "https") || str_eq w.scheme (codes "wss") || given certificate

abbrev pub version : Str
version = codes "1.6.43"

-- `tls.VersionTLS12`.
abbrev pub tls12 : ℕ
tls12 = 0x0303

module _ (x : X509) (p : Parsers x) (h : Sha512) (m : Platform) where
  open m use {Pool, system_cert_pool, parse_url, os, arch, random}

  -- `tls.Config`; the function `VerifyConnection` is given by the fingerprint that it captures.
  pub record TlsConfig : Type 0 where
    pub root_cas : Pool
    pub min_version : ℕ
    pub insecure_skip_verify : Bool
    pub fingerprint : Option Str

  pub verify_connection : TlsConfig → List Str → List (X509.Cert x) → Option GoError
  verify_connection t defaults certs = verify_peer x defaults certs t.fingerprint

  -- Times are in milliseconds, sizes in bytes.
  pub record Dialer : Type 0 where
    pub tls_client_config : Option TlsConfig
    pub handshake_timeout : ℕ
    pub read_buffer_size : ℕ
    pub write_buffer_size : ℕ
    pub enable_compression : Bool

  pub record HttpClient : Type 0 where
    pub max_response_body_size : ℕ
    pub write_timeout : ℕ
    pub read_timeout : ℕ
    pub max_idle_conn_duration : ℕ
    pub concurrency : ℕ
    pub dns_cache_duration : ℕ
    pub tls_config : Option TlsConfig

  -- The new client; a header is given by what `Set` is called with.
  pub record Made : Type 0 where
    pub client_instance_id : Str
    pub subscription : Client
    pub callback_slots : ℕ
    pub address : Str
    pub chain_name : Str
    pub chain_version : Str
    pub ws_url : Url
    pub dialer : Dialer
    pub http_client : HttpClient
    pub headers : List (Str × Str)
    pub ws_headers : List (Str × Str)

  -- `fmt.Sprintf("tcabaci-read-go-client/%s (%s;%s)", …)`.
  agent : Str
  agent =
      codes "tcabaci-read-go-client/"
      ++ version
      ++ codes " ("
      ++ os
      ++ codes ";"
      ++ arch
      ++ codes ")"

  default_headers : List (Str × Str)
  unfolding agent
  default_headers = (codes "Client", agent) ∷ (codes "User-Agent", agent) ∷ []

  tls_with : Bool → Option Str → Pool → Option TlsConfig
  tls_with insecure pin pool = some (record {
    root_cas = pool;
    min_version = tls12;
    insecure_skip_verify = insecure;
    fingerprint = pin;
  })

  tls_for : Bool → Bool → Option Str → Result (Option TlsConfig)
  unfolding tls_with
  tls_for false insecure pin = ok none
  tls_for true insecure pin = do pool ← system_cert_pool; ok (tls_with insecure pin pool)

  pub made : Arguments → Url → Option TlsConfig → Str → Made
  unfolding default_headers
  made a w tls id = record {
    client_instance_id = id;
    subscription = init;
    callback_slots = 16;
    address = a.address;
    chain_name = a.chain_name;
    chain_version = a.chain_version;
    ws_url = w;
    dialer = record {
      tls_client_config = tls;
      handshake_timeout = 7_000;
      read_buffer_size = 5 * 1024 * 1024;
      write_buffer_size = 5 * 1024 * 1024;
      enable_compression = false;
    };
    http_client = record {
      max_response_body_size = 16 * 1024 * 1024;
      write_timeout = 7_000;
      read_timeout = 7_000;
      max_idle_conn_duration = 3_000;
      concurrency = 4096;
      dns_cache_duration = 3_600_000;
      tls_config = tls;
    };
    headers = default_headers;
    ws_headers = default_headers;
  }

  pub new_client : Arguments → Result Made
  unfolding http_url websocket_url secure made tls_for
  new_client a = do
    guard a.has_context (plain (codes "nil context"))
    check_custom x p a.fingerprint
    u ← parse_url a.address
    guard (http_url u) (plain (codes "invalid address"))
    w ← parse_url a.ws_address
    guard (websocket_url w) (plain (codes "invalid websocket address"))
    pin ← with_certificate x p a.fingerprint a.certificate
    tls ← tls_for (secure u w a.certificate) a.insecure pin
    id ← create_client_instance_id h random
    ok (made a w tls id)
