-- ===== src/Settings/Separate.antt =====
-- The settings do not interfere with one another.
use tcabci_read_go_client.Prelude.{◌≡◌, refl, Bool, Option, none, some, List, [], ◌∷◌}
use tcabci_read_go_client.Settings.{
  Wires, Settings, add_header, remove_header, add_ws_header, remove_ws_header, with_proxy,
  with_logger, set_verbose, Setting, adds_header, removes_header, adds_ws_header, removes_ws_header,
  sets_proxy, sets_logger, sets_verbose, apply, apply_all,
}

module _ (l : Wires) where
  open l use {Header, add, del, Proxy, Logger}

  -- What the calls on the headers of HTTP alone make of them, in their order; and likewise the others.
  pub headers_after : List (Setting l) → Header → Header
  headers_after [] h = h
  headers_after (adds_header k v ∷ rest) h = headers_after rest (add k v h)
  headers_after (removes_header k ∷ rest) h = headers_after rest (del k h)
  headers_after (x ∷ rest) h = headers_after rest h

  pub ws_headers_after : List (Setting l) → Header → Header
  ws_headers_after [] h = h
  ws_headers_after (adds_ws_header k v ∷ rest) h = ws_headers_after rest (add k v h)
  ws_headers_after (removes_ws_header k ∷ rest) h = ws_headers_after rest (del k h)
  ws_headers_after (x ∷ rest) h = ws_headers_after rest h

  -- The argument of the last call of `WithProxy`, if there is one.
  pub proxy_after : List (Setting l) → Option Proxy → Option Proxy
  proxy_after [] p = p
  proxy_after (sets_proxy q ∷ rest) p = proxy_after rest q
  proxy_after (x ∷ rest) p = proxy_after rest p

  -- The last logger that is not nil.
  pub logger_after : List (Setting l) → Logger → Logger
  logger_after [] lgr = lgr
  logger_after (sets_logger (some other) ∷ rest) lgr = logger_after rest other
  logger_after (x ∷ rest) lgr = logger_after rest lgr

  pub verbose_after : List (Setting l) → Bool → Bool
  verbose_after [] v = v
  verbose_after (sets_verbose w ∷ rest) v = verbose_after rest w
  verbose_after (x ∷ rest) v = verbose_after rest v

  -- After any calls, in any order: the headers of HTTP are what the calls on them alone give, in their
  -- order, and so are the websocket's; both kinds of connection use the proxy of the last call of
  -- `WithProxy`; the logger is the last that was not nil, and the flag the last one set.
  pub apply_all_separate :
      (xs : List (Setting l)) (s : Settings l)
      → apply_all l xs s ≡ record {
        headers = headers_after xs s.headers;
        ws_headers = ws_headers_after xs s.ws_headers;
        http_proxy = proxy_after xs s.http_proxy;
        ws_proxy = proxy_after xs s.ws_proxy;
        logger = logger_after xs s.logger;
        verbose = verbose_after xs s.verbose;
      }
  unfolding apply_all apply add_header remove_header add_ws_header remove_ws_header with_proxy
      with_logger set_verbose headers_after ws_headers_after proxy_after logger_after verbose_after
  apply_all_separate [] s = refl
  apply_all_separate (adds_header k v ∷ rest) s = apply_all_separate rest (add_header l k v s)
  apply_all_separate (removes_header k ∷ rest) s = apply_all_separate rest (remove_header l k s)
  apply_all_separate (adds_ws_header k v ∷ rest) s = apply_all_separate rest (add_ws_header l k v s)
  apply_all_separate (removes_ws_header k ∷ rest) s =
      apply_all_separate rest (remove_ws_header l k s)
  apply_all_separate (sets_proxy none ∷ rest) s = apply_all_separate rest (with_proxy l none s)
  apply_all_separate (sets_proxy (some p) ∷ rest) s =
      apply_all_separate rest (with_proxy l (some p) s)
  apply_all_separate (sets_logger none ∷ rest) s = apply_all_separate rest s
  apply_all_separate (sets_logger (some g) ∷ rest) s =
      apply_all_separate rest (with_logger l (some g) s)
  apply_all_separate (sets_verbose v ∷ rest) s = apply_all_separate rest (set_verbose l v s)
