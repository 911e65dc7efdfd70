-- ===== src/Settings/Tests.antt =====
-- Some calls on headers that are lists of fields.
use tcabci_read_go_client.Prelude.{
  ℕ, ◌≡◌, refl, true, false, none, some, List, [], ◌∷◌, ◌++◌, if◌then◌else◌, Str, codes, str_eq,
  StrMap,
}
use tcabci_read_go_client.Settings.{
  Wires, Settings, Setting, adds_header, removes_header, adds_ws_header, sets_proxy, sets_logger,
  sets_verbose, apply_all,
}

without : Str → StrMap Str → StrMap Str
without k [] = []
without k ((j, v) ∷ rest) =
    let others = without k rest in if str_eq j k then others else (j, v) ∷ others

abbrev lists : Wires
lists = record {
  Header = List (Str × Str);
  add = λ k v h. h ++ (k, v) ∷ [];
  del = without;
  Proxy = Str;
  Logger = ℕ;
}

abbrev plain_settings : Settings lists
plain_settings = record {
  headers = [];
  ws_headers = [];
  http_proxy = none;
  ws_proxy = none;
  logger = 0;
  verbose = false;
}

abbrev calls : List (Setting lists)
calls =
    adds_header (codes "a") (codes "1")
    ∷ adds_ws_header (codes "b") (codes "2")
    ∷ sets_proxy (some (codes "http://proxy"))
    ∷ sets_logger (some 7)
    ∷ sets_logger none
    ∷ removes_header (codes "a")
    ∷ sets_verbose true
    ∷ []

calls_run : apply_all lists calls plain_settings ≡ record {
  headers = [];
  ws_headers = (codes "b", codes "2") ∷ [];
  http_proxy = some (codes "http://proxy");
  ws_proxy = some (codes "http://proxy");
  logger = 7;
  verbose = true;
}
unfolding apply_all without str_eq
calls_run = refl
