-- ===== src/Transaction/Tests.antt =====
-- Tests and instances for transaction.go.
use tcabci_read_go_client.Prelude.{◌≡◌, refl, true, false, codes, str_eq}
use tcabci_read_go_client.Transaction.{is_valid, type_data_v2_f}

is_valid_runs : (is_valid type_data_v2_f ≡ true) × (is_valid (codes "data") ≡ false)
unfolding is_valid str_eq
is_valid_runs = (refl, refl)
