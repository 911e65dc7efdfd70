-- ===== src/Transaction/Validity.antt =====
-- What `Type.IsValid` of transaction.go accepts.
use tcabci_read_go_client.Prelude.{
  ◌≡◌, refl, ◌∙◌, subst, inl, inr, Bool, true, List, [], ◌∷◌, arith, Bool-cases, &&_true, all, Str,
  str_eq, str_eq→eq, str_mem,
}
use tcabci_read_go_client.Transaction.{
  TxType, types_slice, is_valid_from, is_valid, type_master, type_address, type_addresses,
  type_sub_master, type_sub_addresses, type_account, type_account_initial_txs, type_ns,
  type_message, type_message_sent, type_message_thread_delete, type_transfer, type_transfer_cancel,
  type_transfer_sent, type_transfer_receive_delete, type_transfer_info, type_storage,
  type_storage_delete, type_backup, type_contact, type_file_virtual, type_file_fs,
  type_rfile_virtual, type_rfile_fs, type_dfile_virtual, type_dfile_fs, type_pfile_virtual,
  type_request, type_request_in, type_request_upload, type_request_cancel, type_data_room,
  type_data_room_policy, type_data_room_f, type_data_room_data, type_data_room_data_delete,
  type_data_room_data_policy, type_data_room_e, type_data_room_e_data, type_multi_storage,
  type_multi_transfer, type_multi_transfer_sent, type_multi_backup, type_multi_data_room,
  type_multi_collection, type_multi_data_v2, type_multi_passwd, type_passwd_data, type_passwd_room,
  type_passwd_room_policy, type_passwd_room_f, type_passwd_room_data, type_passwd_room_data_delete,
  type_passwd_room_data_policy, type_data_v2, type_data_v2_policy, type_collection,
  type_collection_policy, type_collection_f, type_data_v2_collection, type_data_v2_f,
}

-- The constants in the order of the `const` block.
abbrev pub declared_types : List TxType
declared_types =
    type_master ∷ type_address ∷ type_addresses ∷ type_sub_master ∷ type_sub_addresses
    ∷ type_account ∷ type_account_initial_txs ∷ type_ns ∷ type_message ∷ type_message_sent
    ∷ type_message_thread_delete ∷ type_transfer ∷ type_transfer_cancel ∷ type_transfer_sent
    ∷ type_transfer_receive_delete ∷ type_transfer_info ∷ type_storage ∷ type_storage_delete
    ∷ type_backup ∷ type_contact ∷ type_file_virtual ∷ type_file_fs ∷ type_rfile_virtual
    ∷ type_rfile_fs ∷ type_dfile_virtual ∷ type_dfile_fs ∷ type_pfile_virtual ∷ type_request
    ∷ type_request_in ∷ type_request_upload ∷ type_request_cancel ∷ type_data_room
    ∷ type_data_room_policy ∷ type_data_room_f ∷ type_data_room_data ∷ type_data_room_data_delete
    ∷ type_data_room_data_policy ∷ type_data_room_e ∷ type_data_room_e_data ∷ type_multi_storage
    ∷ type_multi_transfer ∷ type_multi_transfer_sent ∷ type_multi_backup ∷ type_multi_data_room
    ∷ type_multi_collection ∷ type_multi_data_v2 ∷ type_multi_passwd ∷ type_passwd_data
    ∷ type_passwd_room ∷ type_passwd_room_policy ∷ type_passwd_room_f ∷ type_passwd_room_data
    ∷ type_passwd_room_data_delete ∷ type_passwd_room_data_policy ∷ type_data_v2
    ∷ type_data_v2_policy ∷ type_collection ∷ type_collection_policy ∷ type_collection_f
    ∷ type_data_v2_collection ∷ type_data_v2_f ∷ []

is_valid_from-eq : (t : TxType) (xs : List TxType) → is_valid_from t xs ≡ str_mem t xs
unfolding is_valid_from str_mem
is_valid_from-eq t [] = refl
is_valid_from-eq t (x ∷ xs) = ground (arith, is_valid_from-eq t xs)

-- Every entry of the first list stands in the second.
abbrev subset : List Str → List Str → Bool
subset xs ys = all (λ x. str_mem x ys) xs

subset_sound :
    (t : Str) (xs ys : List Str) → subset xs ys ≡ true → str_mem t xs ≡ true → str_mem t ys ≡ true
unfolding str_mem
subset_sound t [] ys h m = cc
subset_sound t (x ∷ xs) ys h m = elim (Bool-cases (str_eq x t)) [
  | inl e ↦ subst (λ z. str_mem z ys ≡ true) (str_eq→eq x t e) (&&_true _ _ h).0
  | inr n ↦ subset_sound t xs ys (&&_true _ _ h).1 (rw n at m)
]

eq_of_subsets :
    (t : Str) (xs ys : List Str)
    → subset xs ys ≡ true
    → subset ys xs ≡ true
    → str_mem t xs ≡ str_mem t ys
eq_of_subsets t xs ys h k = elim (Bool-cases (str_mem t xs)) [
  | inl e ↦ ground (arith, subset_sound t xs ys h e)
  | inr n ↦ ground (arith, subset_sound t ys xs k)
]

slice-declared :
    (subset types_slice declared_types ≡ true) × (subset declared_types types_slice ≡ true)
unfolding types_slice str_mem str_eq
slice-declared = (refl, refl)

-- A type is valid exactly when it is one of the constants that the file declares: the table that
-- `IsValid` walks, whose order is another, leaves none out and adds none.
pub is_valid-declared : (t : TxType) → is_valid t ≡ str_mem t declared_types
unfolding is_valid
is_valid-declared t =
    is_valid_from-eq t types_slice
    ∙ eq_of_subsets t types_slice declared_types slice-declared.0 slice-declared.1
