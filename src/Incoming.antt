-- ===== src/Incoming.antt =====
-- `parseIncoming` and `decodeTransaction` (websocket.go): what a message of the read node sets off. The
-- decoding of JSON is a parameter.
pub mod Effects
pub mod Cancelling
mod Tests
use tcabci_read_go_client.Prelude.{
  ℤ, pos, negsuc, ℕ, zero, suc, ◌+◌, ◌-◌, ◌*◌, ◌/◌, ◌%◌, ◌^◌, ◌≤◌, ◌<◌, min, String, ◌≡◌, refl, sym,
  ap, ◌∙◌, subst, ◌≢◌, ◌↔◌, ◌⊎◌, inl, inr, Bool, true, false, not, ◌&&◌, ◌||◌, Option, none, some,
  List, [], ◌∷◌, ◌++◌, map, arith, ltb, leb, ◌==◌, if◌then◌else◌, ltb→lt, lt→ltb, ltb→le, leb→le,
  ==_iff, Bool-cases, Option-cases, get_or, &&_true, length, length-append, take, drop, all, any,
  All, All-append, all-append, any-append, Str, codes, str_eq, str_eq_refl, str_eq→eq, str_eq_iff,
  str_eq_sym, str_le, StrMap, str_mem, StrNodup, keys, lookup, put, lookup-put, str_mem-keys-put,
  length-put, put-StrNodup, all-str_mem, all_of_str_mem,
}
use tcabci_read_go_client.Transaction.{Block, Transaction, TxId, text, other}
use tcabci_read_go_client.Errors.{GoError, plain, Result, ok, err}
use tcabci_read_go_client.Message.{State}
use tcabci_read_go_client.Client.{Client, Session}

-- The anonymous struct of `parseIncoming`. A raw field is empty if the message has none, and `state`,
-- a pointer, is `none` if it is nil.
pub record Envelope : Type 0 where
  pub id : Str
  pub type : Str
  pub payload : Str
  pub state : Option State

-- `json.Unmarshal` into an envelope, an int, a block and a transaction; `none` is its error.
pub record Codec : Type 0 where
  pub decode_envelope : Str → Option Envelope
  pub decode_int : Str → Option ℤ
  pub decode_block : Str → Option Block
  pub decode_tx : Str → Option Transaction

-- What the callbacks hear.
pub data Delivery : Type 0 where
  failure : GoError → Delivery
  block : Block → Delivery
  transaction : Transaction → Delivery

-- The deliveries, in order, and whether the session is cancelled afterwards.
pub record Reaction : Type 0 where
  pub deliveries : List Delivery
  pub cancels : Bool

-- The white space around JSON.
pub is_space : ℕ → Bool
is_space c = (leb 9 c && leb c 13) || (c == 32)

pub trim_left : Str → Str
unfolding is_space
trim_left [] = []
trim_left (c ∷ rest) = let shorter = trim_left rest in if is_space c then shorter else c ∷ rest

trim_right : Str → Str
unfolding is_space
trim_right [] = []
trim_right (c ∷ rest) = elim (trim_right rest) [
  | [] ↦ if is_space c then [] else c ∷ []
  | ◌∷◌ d ds ↦ c ∷ d ∷ ds
]

-- `bytes.TrimSpace`, of a text that is JSON.
pub trim_space : Str → Str
unfolding trim_left trim_right
trim_space s = trim_right (trim_left s)

abbrev pub null : Str
null = codes "null"

-- `len(raw) == 0 || bytes.Equal(bytes.TrimSpace(raw), []byte("null"))`.
unfoldable pub missing : Str → Bool
unfolding trim_space
missing s = str_eq s [] || str_eq (trim_space s) null

pub says : Str → Reaction
says s = record { deliveries = failure (plain s) ∷ []; cancels = false }

pub hears : Delivery → Reaction
hears d = record { deliveries = d ∷ []; cancels = false }

pub silent : Reaction
silent = record { deliveries = []; cancels = false }

-- `tx.ID.(string)`, which must be a text and not empty.
pub checked_id : TxId → Transaction → Result Transaction
checked_id (text (c ∷ cs)) t = ok t
checked_id (text []) t = err (plain (codes "invalid transaction id"))
checked_id other t = err (plain (codes "invalid transaction id"))

pub decode_transaction : Option Transaction → Result Transaction
unfolding checked_id
decode_transaction none = err (plain (codes "invalid transaction JSON"))
decode_transaction (some t) = checked_id t.id t

pub transaction_reaction : Result Transaction → Reaction
unfolding hears
transaction_reaction (ok t) = hears (transaction t)
transaction_reaction (err e) = hears (failure e)

pub block_reaction : Bool → Option Block → Reaction
unfolding hears says
block_reaction false (some b) = hears (block b)
block_reaction _ _ = says (codes "invalid block message")

pub listen_reaction : Option State → Reaction
unfolding silent
listen_reaction (some State.ok) = silent
listen_reaction _ = record {
  deliveries = failure (plain (codes "listen rejected")) ∷ [];
  cancels = true;
}

pub subscription_reaction : Option State → Reaction
unfolding says silent
subscription_reaction (some State.fail) = says (codes "subscription rejected")
subscription_reaction _ = silent

-- The `switch` on the type.
pub typed_reaction : Codec → Envelope → ℤ → Reaction
unfolding block_reaction transaction_reaction decode_transaction listen_reaction
    subscription_reaction says
typed_reaction k e (pos n) =
    if n == 0
    then block_reaction (missing e.payload) (k.decode_block e.payload)
    else if n == 1
    then transaction_reaction (decode_transaction (k.decode_tx e.payload))
    else if n == 2
    then subscription_reaction e.state
    else if n == 3
    then listen_reaction e.state
    else says (codes "unknown websocket message type")
typed_reaction k e (negsuc n) = says (codes "unknown websocket message type")

untyped_reaction : Codec → Envelope → Bool → Option ℤ → Reaction
unfolding typed_reaction says
untyped_reaction k e false (some n) = typed_reaction k e n
untyped_reaction k e _ _ = says (codes "invalid websocket message type")

-- A transaction on its own has an id.
pub envelope_reaction : Codec → Str → Envelope → Reaction
unfolding transaction_reaction decode_transaction untyped_reaction
envelope_reaction k raw e =
    if not (str_eq e.id []) && not (str_eq e.id null)
    then transaction_reaction (decode_transaction (k.decode_tx raw))
    else untyped_reaction k e (missing e.type) (k.decode_int e.type)

pub decoded_reaction : Codec → Str → Option Envelope → Reaction
unfolding envelope_reaction says
decoded_reaction k raw none = says (codes "invalid websocket JSON")
decoded_reaction k raw (some e) =
    if str_eq (trim_space raw) null
    then says (codes "invalid websocket JSON")
    else envelope_reaction k raw e

pub parse_incoming : Codec → Str → Reaction
unfolding decoded_reaction
parse_incoming k raw = decoded_reaction k raw (k.decode_envelope raw)

unfoldable pub cancel_session : Option Session → Option Session
cancel_session none = none
cancel_session (some s) = some (record s { cancelled = true })

-- The effect on the client.
unfoldable pub after_incoming : Reaction → Client → Client
unfolding cancel_session
after_incoming r c = if r.cancels then record c { session = cancel_session c.session } else c
