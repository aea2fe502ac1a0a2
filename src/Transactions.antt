-- ===== src/Transactions.antt =====
-- Transactions: transactionsDefinition/baseTransaction.go, tx.go and transaction.go, with `PubKey` of
-- common/types.go. The parameters of the module Reading are the length of a primary key, which
-- the node's present scheme gives, and the address of a key, a Blake2b hash.
pub mod Bytes
pub mod Reading
pub mod Parts
pub mod Params
pub mod Data
pub mod RoundTrip
pub mod Hashed
pub mod Secrets
pub mod Recovering
pub mod Reveals
pub mod Revealed
pub mod FirstBind
pub mod OptData
use qwid_node.Base.{Bool, List, [], false, ℕ}
use qwid_node.Base.Int.{ℤ}
use qwid_node.Types.{Address, Hash, zero_address}
use qwid_node.Wire.Fields.{FieldError, FullAddress, Signature}

pub record PubKey : Type 0 where
  pub byte_value : List ℕ
  pub address : FullAddress
  pub main_address : FullAddress
  pub primary : Bool

-- `Address{}` and `PubKey{}`
abbrev pub zero_full_address : FullAddress
zero_full_address = record { byte_value = zero_address; primary = false }

abbrev pub zero_pub_key : PubKey
zero_pub_key = record {
  byte_value = [];
  address = zero_full_address;
  main_address = zero_full_address;
  primary = false;
}

pub record TxParam : Type 0 where
  pub chain_id : ℤ
  pub sender : FullAddress
  pub sending_time : ℤ
  pub nonce : ℤ
  pub multi_sign_tx : Hash

pub record TxData : Type 0 where
  pub recipient : FullAddress
  pub amount : ℤ
  pub opt_data : List ℕ
  pub pubkey : PubKey
  pub locked_amount : ℤ
  pub release_per_block : ℤ
  pub delegated_account_for_locking : FullAddress
  pub escrow_transactions_delay : ℤ
  pub multi_sign_number : ℕ
  pub multi_sign_addresses : List Address

pub record Transaction : Type 0 where
  pub tx_data : TxData
  pub tx_param : TxParam
  pub hash : Hash
  pub signature : Signature
  pub height : ℤ
  pub gas_price : ℤ
  pub gas_usage : ℤ
  pub output_logs : List ℕ
  pub contract_address : FullAddress

pub data TxError : Type 0 where
  not_enough_bytes bad_length bad_main_address key_too_short bad_signer too_many_signers : TxError
  threshold_too_high : TxError
  bad_field : FieldError → TxError
