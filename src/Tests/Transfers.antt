-- ===== src/Tests/Transfers.antt =====
-- A transfer with a policy of two signers, written and read on concrete values.
use qwid_node.Wire.{bytes_to_len_and_bytes, get_byte_int64}
use qwid_node.Base.{
  Bool, List, [], arith, inl, length, ok, refl, take, true, ℕ, ◌++◌, ◌<◌, ◌^◌, ◌∷◌, ◌≡◌,
}
use qwid_node.Base.Int.{pos}
use qwid_node.Types.{Address, zero_address, zero_hash}
use qwid_node.Wire.Fields.{FullAddress, get_bytes_with_primary, join}
use qwid_node.Transactions.{Transaction, TxData, TxParam, zero_full_address, zero_pub_key}
use qwid_node.Transactions.Reading.{transaction_from_bytes}
use qwid_node.Transactions.Bytes.{
  calc_hash_and_set, data_body, hash_matches_body, hash_preimage, transaction_bytes,
}
use qwid_node.Transactions.Params.{IsTypedParam}
use qwid_node.Transactions.Data.{IsTypedData}
use qwid_node.Transactions.RoundTrip.{
  IsTypedTransaction, received, transaction_from_bytes-transaction_bytes,
}
use qwid_node.Transactions.Hashed.{hash_matches_body-received}
use qwid_node.Tests.Samples.{alice, bob, length-marked_hash, marked_hash}

abbrev primary_of : Address → FullAddress
primary_of a = record { byte_value = a; primary = true }

abbrev sample_param : TxParam
sample_param = record {
  chain_id = pos 23;
  sender = primary_of alice;
  sending_time = pos 1_700_000_000;
  nonce = pos 9;
  multi_sign_tx = zero_hash;
}

abbrev sample_data : TxData
sample_data = record {
  recipient = primary_of bob;
  amount = pos 500;
  opt_data = 1 ∷ 2 ∷ 3 ∷ [];
  pubkey = zero_pub_key;
  locked_amount = pos 0;
  release_per_block = pos 0;
  delegated_account_for_locking = zero_full_address;
  escrow_transactions_delay = pos 0;
  multi_sign_number = 2;
  multi_sign_addresses = alice ∷ bob ∷ [];
}

abbrev sample_tx : Transaction
sample_tx = record {
  tx_data = sample_data;
  tx_param = sample_param;
  hash = zero_hash;
  signature = record { byte_value = 0 ∷ 7 ∷ []; address = primary_of alice; primary = true };
  height = pos 12;
  gas_price = pos 3;
  gas_usage = pos 40_000;
  output_logs = [];
  contract_address = zero_full_address;
}

-- Stands for the Blake2b address of a key.
abbrev sample_address : List ℕ → Bool → FullAddress
sample_address b primary = record { byte_value = take 20 (b ++ zero_address); primary = primary }

typed_param : IsTypedParam sample_param
typed_param = ((omega arith, omega arith), refl, ground arith, ground arith, refl)

small_body : length (data_body sample_data) < 2 ^ 32
unfolding data_body join bytes_to_len_and_bytes get_bytes_with_primary get_byte_int64
small_body = omega arith

typed_data : IsTypedData sample_data
typed_data = (
  refl,
  ground arith,
  omega arith,
  inl refl,
  omega arith,
  refl,
  ground arith,
  ground arith,
  refl,
  ground arith,
  omega arith,
  (refl, (refl, tt)),
  λ (h : 0 < 2). omega arith,
  small_body,
)

typed_tx : IsTypedTransaction sample_tx
typed_tx = (
  typed_param,
  typed_data,
  refl,
  ground arith,
  ground arith,
  ground arith,
  omega arith,
  omega arith,
  refl,
  omega arith,
)

transaction_from_bytes-transaction_bytes_example :
    transaction_from_bytes 897 sample_address (transaction_bytes sample_tx ++ 5 ∷ [])
    ≡ ok (received 897 sample_address sample_tx, 5 ∷ [])
transaction_from_bytes-transaction_bytes_example =
    transaction_from_bytes-transaction_bytes 897 sample_address sample_tx (5 ∷ []) typed_tx

typed_set : IsTypedTransaction (calc_hash_and_set marked_hash sample_tx)
unfolding calc_hash_and_set
typed_set = (
  typed_param,
  typed_data,
  length-marked_hash (hash_preimage sample_tx),
  ground arith,
  ground arith,
  ground arith,
  omega arith,
  omega arith,
  refl,
  omega arith,
)

hash_matches_body-received_example :
    (r : Transaction) × (transaction_from_bytes 897 sample_address
        (transaction_bytes (calc_hash_and_set marked_hash sample_tx) ++ [])
      ≡ ok (r, []))
    × (hash_matches_body marked_hash r ≡ true)
hash_matches_body-received_example =
    hash_matches_body-received 897 sample_address marked_hash sample_tx [] typed_set
      (inl (refl, refl))
