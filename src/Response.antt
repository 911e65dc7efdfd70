-- ===== src/Response.antt =====
-- response.go, and the answers of the node to a search, a summary and a broadcast.
use tcabci_read_go_client.Prelude.{ℕ, Bool, Option, List, [], get_or, Str, StrMap}
use tcabci_read_go_client.Transaction.{Transaction}

-- `payload` is what the field `Data` holds, of a type that the caller fixes.
pub record Response (D : Type 0) : Type 0 where
  pub message : Option Str
  pub payload : Option D
  pub total_count : ℕ
  pub is_error : Bool
  pub errors : StrMap Str
  pub detail : Option Str

pub get_message : {D : Type 0} → Response D → Str
get_message r = get_or r.message []

unfoldable pub get_data : {D : Type 0} → Response D → Option D
get_data r = r.payload

pub get_detail : {D : Type 0} → Response D → Str
get_detail r = get_or r.detail []

pub record SearchResponse : Type 0 where
  pub txs : List Transaction
  pub total_count : ℕ

pub record SummaryResponse : Type 0 where
  pub last_block_height : ℕ
  pub last_transaction : Option Transaction
  pub total_count : ℕ

pub record BroadcastResponse : Type 0 where
  pub hash : Str
  pub code : ℕ
  pub payload : Str
  pub log : Str
  pub codespace : Str
