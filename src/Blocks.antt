-- ===== src/Blocks.antt =====
-- Blocks and their encoding: blocks/baseBlock.go and blocks/Block.go. A slice of a fixed array is the
-- list of its bytes. The hash is a parameter where it is needed.
pub mod Slices
pub mod Bytes
pub mod Items
pub mod WellFormed
pub mod Parts
pub mod RoundTrip
use qwid_node.Base.{List, ℕ}
use qwid_node.Base.Int.{ℤ}
use qwid_node.Types.{Hash}
use qwid_node.Wire.Fields.{FieldError, FullAddress, Signature}

pub record BaseHeader : Type 0 where
  pub previous_hash : Hash
  pub difficulty : ℤ
  pub height : ℤ
  pub delegated_account : FullAddress
  pub operator_account : FullAddress
  pub root_merkle_tree : Hash
  pub body_hash : Hash
  pub state_root : Hash
  pub encryption1 : List ℕ
  pub encryption2 : List ℕ
  pub signature : Signature
  pub signature_message : List ℕ

pub record BaseBlock : Type 0 where
  pub base_header : BaseHeader
  pub block_header_hash : Hash
  pub block_time_stamp : ℤ
  pub reward_percentage : ℤ
  pub supply : ℤ
  pub price_oracle : ℤ
  pub rand_oracle : ℤ
  pub price_oracle_data : List ℕ
  pub rand_oracle_data : List ℕ
  pub oracle_proofs : List (List ℕ)
  pub rand_reveal : List ℕ
  pub rand_commit : Hash
  pub rand_mix : Hash

pub record Block : Type 0 where
  pub base_block : BaseBlock
  pub transactions_hashes : List Hash
  pub block_hash : Hash
  pub block_fee : ℤ

pub data BlockError : Type 0 where
  not_enough_bytes bad_length negative_count too_many_items : BlockError
  item_too_long payload_too_long : BlockError
  bad_field : FieldError → BlockError
