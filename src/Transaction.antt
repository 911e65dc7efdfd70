-- ===== src/Transaction.antt =====
-- transaction.go, block.go, last_block.go and ns.go: the transaction types, their validity test,
-- and the records that the read node returns.
pub mod Validity
mod Tests
use tcabci_read_go_client.Prelude.{
  ℤ, ℕ, zero, suc, ◌+◌, ◌-◌, ◌*◌, ◌/◌, ◌%◌, ◌^◌, ◌≤◌, ◌<◌, min, String, ◌≡◌, refl, sym, ap, ◌∙◌,
  subst, ◌≢◌, ◌↔◌, ◌⊎◌, inl, inr, Bool, true, false, not, ◌&&◌, ◌||◌, Option, none, some, List, [],
  ◌∷◌, ◌++◌, map, arith, ltb, leb, ◌==◌, if◌then◌else◌, ltb→lt, lt→ltb, ltb→le, leb→le, ==_iff,
  Bool-cases, Option-cases, get_or, &&_true, length, length-append, take, drop, all, any, All,
  All-append, all-append, any-append, Str, codes, str_eq, str_eq_refl, str_eq→eq, str_eq_iff,
  str_le, StrMap, str_mem, StrNodup, keys, lookup, put, lookup-put, str_mem-keys-put, length-put,
  put-StrNodup,
}

-- `type Type string`: any string is a value of it.
abbrev pub TxType : Type 0
TxType = Str

abbrev pub type_master : TxType
type_master = codes "initial_storage"

abbrev pub type_address : TxType
type_address = codes "interim_storage"

abbrev pub type_addresses : TxType
type_addresses = codes "interim_storages"

abbrev pub type_sub_master : TxType
type_sub_master = codes "initial_sub_storage"

abbrev pub type_sub_addresses : TxType
type_sub_addresses = codes "interim_sub_storages"

abbrev pub type_account : TxType
type_account = codes "initial_account"

abbrev pub type_account_initial_txs : TxType
type_account_initial_txs = codes "initial_account_txs"

abbrev pub type_ns : TxType
type_ns = codes "ns"

abbrev pub type_message : TxType
type_message = codes "message"

abbrev pub type_message_sent : TxType
type_message_sent = codes "inherit_message"

abbrev pub type_message_thread_delete : TxType
type_message_thread_delete = codes "inherit_message_recv"

abbrev pub type_transfer : TxType
type_transfer = codes "transfer"

abbrev pub type_transfer_cancel : TxType
type_transfer_cancel = codes "transfer_Cancel"

abbrev pub type_transfer_sent : TxType
type_transfer_sent = codes "transfer_sent"

abbrev pub type_transfer_receive_delete : TxType
type_transfer_receive_delete = codes "transfer_receive_delete"

abbrev pub type_transfer_info : TxType
type_transfer_info = codes "transfer_info"

abbrev pub type_storage : TxType
type_storage = codes "storage"

abbrev pub type_storage_delete : TxType
type_storage_delete = codes "storage_delete"

abbrev pub type_backup : TxType
type_backup = codes "backup"

abbrev pub type_contact : TxType
type_contact = codes "interim_message"

abbrev pub type_file_virtual : TxType
type_file_virtual = codes "fs_virt"

abbrev pub type_file_fs : TxType
type_file_fs = codes "fs_real"

abbrev pub type_rfile_virtual : TxType
type_rfile_virtual = codes "fs_rvirt"

abbrev pub type_rfile_fs : TxType
type_rfile_fs = codes "fs_rreal"

abbrev pub type_dfile_virtual : TxType
type_dfile_virtual = codes "fs_dvirt"

abbrev pub type_dfile_fs : TxType
type_dfile_fs = codes "fs_dreal"

abbrev pub type_pfile_virtual : TxType
type_pfile_virtual = codes "fs_pvirt"

abbrev pub type_request : TxType
type_request = codes "request"

abbrev pub type_request_in : TxType
type_request_in = codes "request_in"

abbrev pub type_request_upload : TxType
type_request_upload = codes "request_upload"

abbrev pub type_request_cancel : TxType
type_request_cancel = codes "request_Cancel"

abbrev pub type_data_room : TxType
type_data_room = codes "data_room"

abbrev pub type_data_room_policy : TxType
type_data_room_policy = codes "data_room_policy"

abbrev pub type_data_room_f : TxType
type_data_room_f = codes "data_roomF"

abbrev pub type_data_room_data : TxType
type_data_room_data = codes "data_room_data"

abbrev pub type_data_room_data_delete : TxType
type_data_room_data_delete = codes "data_room_data_delete"

abbrev pub type_data_room_data_policy : TxType
type_data_room_data_policy = codes "data_room_data_policy"

abbrev pub type_data_room_e : TxType
type_data_room_e = codes "data_roomE"

abbrev pub type_data_room_e_data : TxType
type_data_room_e_data = codes "data_roomE_data"

abbrev pub type_multi_storage : TxType
type_multi_storage = codes "multi_storage"

abbrev pub type_multi_transfer : TxType
type_multi_transfer = codes "multi_transfer"

abbrev pub type_multi_transfer_sent : TxType
type_multi_transfer_sent = codes "multi_transfer_sent"

abbrev pub type_multi_backup : TxType
type_multi_backup = codes "multi_backup"

abbrev pub type_multi_data_room : TxType
type_multi_data_room = codes "multi_data_room"

abbrev pub type_multi_collection : TxType
type_multi_collection = codes "multi_collection"

abbrev pub type_multi_data_v2 : TxType
type_multi_data_v2 = codes "multi_dataV2"

abbrev pub type_multi_passwd : TxType
type_multi_passwd = codes "multi_passwd"

abbrev pub type_passwd_data : TxType
type_passwd_data = codes "passwd_data"

abbrev pub type_passwd_room : TxType
type_passwd_room = codes "passwd_room"

abbrev pub type_passwd_room_policy : TxType
type_passwd_room_policy = codes "passwd_room_policy"

abbrev pub type_passwd_room_f : TxType
type_passwd_room_f = codes "passwd_roomF"

abbrev pub type_passwd_room_data : TxType
type_passwd_room_data = codes "passwd_room_data"

abbrev pub type_passwd_room_data_delete : TxType
type_passwd_room_data_delete = codes "passwd_room_data_delete"

abbrev pub type_passwd_room_data_policy : TxType
type_passwd_room_data_policy = codes "passwd_room_data_policy"

abbrev pub type_data_v2 : TxType
type_data_v2 = codes "datav2"

abbrev pub type_data_v2_policy : TxType
type_data_v2_policy = codes "datav2_policy"

abbrev pub type_collection : TxType
type_collection = codes "coll"

abbrev pub type_collection_policy : TxType
type_collection_policy = codes "coll_policy"

abbrev pub type_collection_f : TxType
type_collection_f = codes "collF"

abbrev pub type_data_v2_collection : TxType
type_data_v2_collection = codes "datav2_coll"

abbrev pub type_data_v2_f : TxType
type_data_v2_f = codes "datav2F"

pub types_slice : List TxType
types_slice =
    type_master ∷ type_address ∷ type_addresses ∷ type_sub_master ∷ type_sub_addresses
    ∷ type_account ∷ type_account_initial_txs ∷ type_ns ∷ type_message ∷ type_message_sent
    ∷ type_message_thread_delete ∷ type_transfer ∷ type_transfer_cancel ∷ type_transfer_sent
    ∷ type_transfer_receive_delete ∷ type_transfer_info ∷ type_storage ∷ type_storage_delete
    ∷ type_backup ∷ type_contact ∷ type_file_virtual ∷ type_file_fs ∷ type_rfile_virtual
    ∷ type_rfile_fs ∷ type_dfile_virtual ∷ type_dfile_fs ∷ type_pfile_virtual ∷ type_request
    ∷ type_request_in ∷ type_request_upload ∷ type_request_cancel ∷ type_data_room
    ∷ type_data_room_policy ∷ type_data_room_f ∷ type_data_room_data ∷ type_data_room_data_delete
    ∷ type_data_room_data_policy ∷ type_data_room_e ∷ type_data_room_e_data ∷ type_multi_storage
    ∷ type_multi_transfer ∷ type_multi_transfer_sent ∷ type_multi_backup ∷ type_multi_data_room
    ∷ type_multi_collection ∷ type_multi_data_v2 ∷ type_passwd_data ∷ type_passwd_room
    ∷ type_passwd_room_policy ∷ type_passwd_room_f ∷ type_passwd_room_data
    ∷ type_passwd_room_data_delete ∷ type_passwd_room_data_policy ∷ type_data_v2
    ∷ type_data_v2_policy ∷ type_collection ∷ type_collection_policy ∷ type_data_v2_collection
    ∷ type_data_v2_f ∷ type_multi_passwd ∷ type_collection_f ∷ []

-- The loop of `IsValid`: `valid` turns true and the loop breaks at the first equal entry.
is_valid_from : TxType → List TxType → Bool
is_valid_from t [] = false
is_valid_from t (x ∷ xs) = let rest = is_valid_from t xs in if str_eq x t then true else rest

unfoldable pub is_valid : TxType → Bool
unfolding is_valid_from types_slice
is_valid t = is_valid_from t types_slice

pub record Bytea : Type 0 where
  pub bytes : Str
  pub status : ℤ

-- The `interface{}` of `Transaction.ID` after JSON decoding: a text, or something else.
pub data TxId : Type 0 where
  text : Str → TxId
  other : TxId

-- The JSON field order is the source's. `order`, `additional_data` and `cipher_data` are pointers.
-- `inserted_at` is a point in time, kept as a number.
pub record Transaction : Type 0 where
  pub order : Option ℕ
  pub id : TxId
  pub height : ℕ
  pub identifier : Str
  pub version : ℕ
  pub typ : TxType
  pub sender_addr : Str
  pub recipient_addr : Str
  pub payload : Bytea
  pub additional_data : Option Bytea
  pub cipher_data : Option Bytea
  pub sign : Bytea
  pub fee : ℕ
  pub hash : Str
  pub inserted_at : ℕ

pub record Block : Type 0 where
  pub height : ℕ
  pub txs : ℤ
  pub hash : Option Str
  pub transactions : List Transaction
  pub chain_name : Option Str
  pub chain_version : Option Str

pub record LastBlock : Type 0 where
  pub blocks : List Transaction
  pub total_count : ℕ

pub record Ns : Type 0 where
  pub identifier : Str
  pub public_ids : List Str
