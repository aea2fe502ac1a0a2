-- ===== src/Blocks/WellFormed.antt =====
-- What the encoding of a block asks of its fields (blocks/baseBlock.go and blocks/Block.go).
use qwid_node.Base.{All, length, true, ◌<◌, ◌^◌, ◌∷◌, ◌≡◌, ◌≤◌}
use qwid_node.Base.Int.{neg_part, pos_part}
use qwid_node.Base.Int64.{Fits64}
use qwid_node.Wire.RoundTrip.{length-get_byte_int64}
use qwid_node.Wire.Fields.{
  AreSized, length-get_byte_int16, length-get_byte_int32, length-get_bytes_with_primary,
  starts_with_zero,
}
use qwid_node.Blocks.{BaseBlock, BaseHeader, Block}
use qwid_node.Blocks.Slices.{max_oracle_proof_bytes}
use qwid_node.Blocks.Bytes.{body_fields, body_sizes, header_fields, header_sizes}
use qwid_node.Blocks.Items.{AreSmall, total_length}

-- What Go's types and the producer give the fields of a header: arrays of 32 and 20 bytes, an int32
-- and an int64, a primary delegated address, slices below 2^32 bytes, and the operator's signature,
-- whose first byte says which scheme it is of.
pub record IsHeader (h : BaseHeader) : Type 0 where
  pub previous_hash : length h.previous_hash ≡ 32
  pub difficulty_top : pos_part h.difficulty < 2 ^ 31
  pub difficulty_bottom : neg_part h.difficulty ≤ 2 ^ 31
  pub height : Fits64 h.height
  pub delegated_account : length h.delegated_account.byte_value ≡ 20
  pub delegated_primary : h.delegated_account.primary ≡ true
  pub operator_account : length h.operator_account.byte_value ≡ 20
  pub root_merkle_tree : length h.root_merkle_tree ≡ 32
  pub body_hash : length h.body_hash ≡ 32
  pub state_root : length h.state_root ≡ 32
  pub encryption1 : length h.encryption1 < 2 ^ 32
  pub encryption2 : length h.encryption2 < 2 ^ 32
  pub signature_message : length h.signature_message < 2 ^ 32
  pub signature_nonempty : 0 < length h.signature.byte_value
  pub signature_short : length h.signature.byte_value ≤ 65536
  pub signature_address : h.operator_account ≡ h.signature.address
  pub signature_primary : starts_with_zero h.signature.byte_value ≡ h.signature.primary

pub record IsBaseBlock (bb : BaseBlock) : Type 0 where
  pub header : IsHeader bb.base_header
  pub block_header_hash : length bb.block_header_hash ≡ 32
  pub block_time_stamp : Fits64 bb.block_time_stamp
  pub reward_top : pos_part bb.reward_percentage < 2 ^ 15
  pub reward_bottom : neg_part bb.reward_percentage ≤ 2 ^ 15
  pub supply : Fits64 bb.supply
  pub price_oracle : Fits64 bb.price_oracle
  pub rand_oracle : Fits64 bb.rand_oracle
  pub price_oracle_data : length bb.price_oracle_data < 2 ^ 32
  pub rand_oracle_data : length bb.rand_oracle_data < 2 ^ 32
  pub few_proofs : length bb.oracle_proofs ≤ 255
  pub small_proofs : AreSmall bb.oracle_proofs
  pub proofs_size : total_length bb.oracle_proofs ≤ max_oracle_proof_bytes
  pub rand_reveal : length bb.rand_reveal < 2 ^ 32
  pub rand_commit : length bb.rand_commit ≡ 32
  pub rand_mix : length bb.rand_mix ≡ 32

pub record IsBlock (tb : Block) : Type 0 where
  pub base_block : IsBaseBlock tb.base_block
  pub transactions_hashes : All (λ hash. length hash ≡ 32) tb.transactions_hashes
  pub block_hash : length tb.block_hash ≡ 32
  pub block_fee : Fits64 tb.block_fee

pub header_fields-AreSized : (h : BaseHeader) → IsHeader h → AreSized header_sizes (header_fields h)
header_fields-AreSized h w = (
  w.previous_hash,
  (
    length-get_byte_int32 h.difficulty,
    (
      length-get_byte_int64 h.height,
      (
        w.delegated_account,
        (
          length-get_bytes_with_primary h.operator_account w.operator_account,
          (w.root_merkle_tree, (w.body_hash, (w.state_root, tt))),
        ),
      ),
    ),
  ),
)

pub body_fields-AreSized :
    (bb : BaseBlock) → IsBaseBlock bb → AreSized body_sizes (bb.block_header_hash ∷ body_fields bb)
body_fields-AreSized bb w = (
  w.block_header_hash,
  (
    length-get_byte_int64 bb.block_time_stamp,
    (
      length-get_byte_int16 bb.reward_percentage,
      (
        length-get_byte_int64 bb.supply,
        (length-get_byte_int64 bb.price_oracle, (length-get_byte_int64 bb.rand_oracle, tt)),
      ),
    ),
  ),
)
