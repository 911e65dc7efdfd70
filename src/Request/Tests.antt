-- ===== src/Request/Tests.antt =====
-- The checks of a search and of a summary at concrete values.
use tcabci_read_go_client.Prelude.{◌≡◌, refl, ◌↔◌, true, false, none, [], ◌∷◌, codes, str_eq}
use tcabci_read_go_client.Transaction.{is_valid, type_message}
use tcabci_read_go_client.Request.{asc, greater, Search, search_ok, Summary, summary_ok}
use tcabci_read_go_client.Request.Validity.{Admitted, search_ok_iff}

abbrev inbox : Search
inbox = record {
  limit = 100;
  height = 7;
  offset = 0;
  max_height = 0;
  last_order = 0;
  typ = type_message;
  types = type_message ∷ [];
  p_height = [];
  order_by = asc;
  order_field = [];
  height_operator = greater;
  recipient_addresses = codes "alice" ∷ [];
  sender_addresses = [];
  signed_addresses = (codes "alice", codes "sig") ∷ [];
  hashes = [];
  chain_name = none;
  chain_version = none;
}

inbox_ok : search_ok inbox ≡ true
unfolding search_ok is_valid str_eq
inbox_ok = refl

search_ok_iff_example : (search_ok inbox ≡ true) ↔ Admitted inbox
search_ok_iff_example = search_ok_iff inbox

abbrev digest_of : Summary
digest_of = record {
  recipient_addresses = codes "alice" ∷ codes "bob" ∷ [];
  sender_addresses = [];
  typ = [];
  chain_name = none;
  chain_version = none;
  signed_addresses = (codes "alice", codes "sig") ∷ [];
}

unpaired : summary_ok digest_of ≡ false
unfolding summary_ok str_eq
unpaired = refl
