-- ===== src/Settings.antt =====
-- client.go: the calls that change how a client connects and reports: headers, proxies, the logger and
-- the verbose flag. fasthttp's headers, a proxy's URL and the logger are parameters.
pub mod Separate
mod Tests
use tcabci_read_go_client.Prelude.{
  ℤ, pos, negsuc, ℕ, zero, suc, ◌+◌, ◌-◌, ◌*◌, ◌/◌, ◌%◌, ◌^◌, ◌≤◌, ◌<◌, min, String, ◌≡◌, refl, sym,
  ap, ◌∙◌, subst, ◌≢◌, ◌↔◌, ◌⊎◌, inl, inr, Bool, true, false, not, ◌&&◌, ◌||◌, Option, none, some,
  List, [], ◌∷◌, ◌++◌, map, arith, ltb, leb, ◌==◌, if◌then◌else◌, ltb→lt, lt→ltb, ltb→le, leb→le,
  ==_iff, Bool-cases, Option-cases, get_or, &&_true, length, length-append, take, drop, all, any,
  All, All-append, all-append, any-append, Str, codes, str_eq, str_eq_refl, str_eq→eq, str_eq_iff,
  str_eq_sym, str_eq_nil, str_le, StrMap, str_mem, StrNodup, keys, lookup, put, lookup-put,
  str_mem-keys-put, length-put, put-StrNodup, all-str_mem, all_of_str_mem,
}

-- `Add` and `Del` of fasthttp's request headers.
pub record Wires : Type 1 where
  pub Header : Type 0
  pub add : Str → Str → Header → Header
  pub del : Str → Header → Header
  pub Proxy : Type 0
  pub Logger : Type 0

module _ (l : Wires) where
  open l use {Header, add, del, Proxy, Logger}

  -- The fields of the client; a proxy that is `none` stands for direct connections.
  pub record Settings : Type 0 where
    pub headers : Header
    pub ws_headers : Header
    pub http_proxy : Option Proxy
    pub ws_proxy : Option Proxy
    pub logger : Logger
    pub verbose : Bool

  pub add_header : Str → Str → Settings → Settings
  add_header key value s = record s { headers = add key value s.headers }

  pub remove_header : Str → Settings → Settings
  remove_header key s = record s { headers = del key s.headers }

  pub add_ws_header : Str → Str → Settings → Settings
  add_ws_header key value s = record s { ws_headers = add key value s.ws_headers }

  pub remove_ws_header : Str → Settings → Settings
  remove_ws_header key s = record s { ws_headers = del key s.ws_headers }

  -- The same proxy for the dial function of HTTP and for the websocket's dialer.
  pub with_proxy : Option Proxy → Settings → Settings
  with_proxy none s = record s { http_proxy = none; ws_proxy = none }
  with_proxy (some proxy) s = record s { http_proxy = some proxy; ws_proxy = some proxy }

  -- A nil logger is ignored.
  pub with_logger : Option Logger → Settings → Settings
  with_logger none s = s
  with_logger (some lgr) s = record s { logger = lgr }

  pub set_verbose : Bool → Settings → Settings
  set_verbose v s = record s { verbose = v }

  -- `copyHeaders`: what a request starts with.
  pub copy_headers : Settings → Header
  copy_headers s = s.headers

  -- The calls, and a sequence of them.
  pub data Setting : Type 0 where
    adds_header : Str → Str → Setting
    removes_header : Str → Setting
    adds_ws_header : Str → Str → Setting
    removes_ws_header : Str → Setting
    sets_proxy : Option Proxy → Setting
    sets_logger : Option Logger → Setting
    sets_verbose : Bool → Setting

  pub apply : Setting → Settings → Settings
  unfolding add_header remove_header add_ws_header remove_ws_header with_proxy with_logger
      set_verbose
  apply (adds_header key value) s = add_header key value s
  apply (removes_header key) s = remove_header key s
  apply (adds_ws_header key value) s = add_ws_header key value s
  apply (removes_ws_header key) s = remove_ws_header key s
  apply (sets_proxy p) s = with_proxy p s
  apply (sets_logger lgr) s = with_logger lgr s
  apply (sets_verbose v) s = set_verbose v s

  pub apply_all : List Setting → Settings → Settings
  unfolding apply
  apply_all [] s = s
  apply_all (x ∷ rest) s = apply_all rest (apply x s)
