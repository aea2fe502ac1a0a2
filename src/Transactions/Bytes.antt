-- ===== src/Transactions/Bytes.antt =====
-- The bytes of a transaction: `GetBytes` of TxParam, TxData and Transaction, and the hash of
-- transaction.go.
use qwid_node.Base.{Bool, List, [], err, false, if◌then◌else◌, ite, ltb, ok, true, ℕ, ◌++◌, ◌∷◌}
use qwid_node.Types.{Address, Hash, bytes_discrete}
use qwid_node.Wire.{bytes_to_len_and_bytes, get_byte_int64}
use qwid_node.Wire.Fields.{FullAddress, get_byte_int16, get_bytes_with_primary, join}
use qwid_node.Delegated.{all_zero, int_delegated_account_from_address}
use qwid_node.Transactions.{Transaction, TxData, TxParam}

abbrev pub param_fields : TxParam → List (List ℕ)
param_fields tp =
    get_byte_int16 tp.chain_id
    ∷ get_bytes_with_primary tp.sender
    ∷ get_byte_int64 tp.sending_time
    ∷ get_byte_int64 tp.nonce
    ∷ []

abbrev pub param_sizes : List ℕ
param_sizes = 2 ∷ 21 ∷ 8 ∷ 8 ∷ []

unfoldable pub tx_param_bytes : TxParam → List ℕ
tx_param_bytes tp = join (param_fields tp) ++ bytes_to_len_and_bytes tp.multi_sign_tx

-- The loop over the signers, and the part of the data behind the amount, as it is before its length
-- is put in front.
abbrev pub signers_bytes : List Address → List ℕ
signers_bytes [] = []
signers_bytes (a ∷ ms) = bytes_to_len_and_bytes a ++ signers_bytes ms

abbrev pub data_parts : TxData → List (List ℕ)
data_parts md =
    bytes_to_len_and_bytes md.opt_data
    ∷ bytes_to_len_and_bytes (get_bytes_with_primary md.pubkey.main_address)
    ∷ bytes_to_len_and_bytes md.pubkey.byte_value
    ∷ bytes_to_len_and_bytes (get_byte_int64 md.locked_amount)
    ∷ bytes_to_len_and_bytes (get_byte_int64 md.release_per_block)
    ∷ bytes_to_len_and_bytes md.delegated_account_for_locking.byte_value
    ∷ bytes_to_len_and_bytes (get_byte_int64 md.escrow_transactions_delay)
    ∷ bytes_to_len_and_bytes (md.multi_sign_number ∷ [])
    ∷ []

unfoldable pub data_body : TxData → List ℕ
data_body md = join (data_parts md) ++ signers_bytes md.multi_sign_addresses

abbrev pub data_fields : TxData → List (List ℕ)
data_fields md = get_bytes_with_primary md.recipient ∷ get_byte_int64 md.amount ∷ []

abbrev pub data_sizes : List ℕ
data_sizes = 21 ∷ 8 ∷ []

unfoldable pub tx_data_bytes : TxData → List ℕ
unfolding data_body
tx_data_bytes md =
    join (data_fields md)
    ++ (if all_zero (data_body md) then [] else bytes_to_len_and_bytes (data_body md))

abbrev pub fixed_fields : Transaction → List (List ℕ)
fixed_fields tx =
    get_byte_int64 tx.height ∷ get_byte_int64 tx.gas_price ∷ get_byte_int64 tx.gas_usage ∷ []

abbrev pub fixed_sizes : List ℕ
fixed_sizes = 8 ∷ 8 ∷ 8 ∷ 32 ∷ []

unfoldable pub get_bytes_without_signature : Transaction → Bool → List ℕ
unfolding tx_param_bytes tx_data_bytes
get_bytes_without_signature tx with_hash =
    tx_param_bytes tx.tx_param
    ++ (tx_data_bytes tx.tx_data ++ (join (fixed_fields tx) ++ (if with_hash then tx.hash else [])))

unfoldable pub transaction_bytes : Transaction → List ℕ
unfolding get_bytes_without_signature
transaction_bytes tx =
    get_bytes_without_signature tx true
    ++ (bytes_to_len_and_bytes tx.signature.byte_value
        ++ (tx.contract_address.byte_value ++ bytes_to_len_and_bytes tx.output_logs))

unfoldable pub is_dex_operation : FullAddress → Bool
is_dex_operation recipient = elim (int_delegated_account_from_address recipient.byte_value) [
  | err e ↦ false
  | ok n ↦ ltb 512 n
]

unfoldable pub hash_preimage : Transaction → List ℕ
unfolding get_bytes_without_signature is_dex_operation
hash_preimage tx =
    get_bytes_without_signature tx false
    ++ (if is_dex_operation tx.tx_data.recipient then tx.contract_address.byte_value else [])

-- `CalcHashAndSet` and `HashMatchesBody`, given the hash of common.CalcHashFromBytes.
module _ (calc_hash : List ℕ → Hash) where
  unfoldable pub calc_hash_and_set : Transaction → Transaction
  unfolding hash_preimage
  calc_hash_and_set tx = record tx { hash = calc_hash (hash_preimage tx) }

  unfoldable pub hash_matches_body : Transaction → Bool
  unfolding hash_preimage
  hash_matches_body tx = ite (bytes_discrete (calc_hash (hash_preimage tx)) tx.hash) true false
