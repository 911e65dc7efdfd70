-- ===== src/Message.antt =====
-- message.go: the frames that the client sends, and the states that the node answers with.
use tcabci_read_go_client.Prelude.{ℤ, Bool, List, Str, StrMap}
use tcabci_read_go_client.Transaction.{TxType}

-- `type MessageType string`: the three constants, and any other text that a caller of `WSQuery` gives.
pub data MessageType : Type 0 where
  subscribe unsubscribe listen_message : MessageType
  custom : Str → MessageType

-- `type State int`: `ok` is 1 and `fail` is 2.
pub data State : Type 0 where
  ok fail : State
  unnamed : ℤ → State

-- `payload` is the field `Data`.
pub record Message : Type 0 where
  pub client_instance_id : Str
  pub is_web : Bool
  pub type : MessageType
  pub addrs : List Str
  pub signed_addrs : StrMap Str
  pub tx_types : List TxType
  pub payload : Str
