-- ===== src/Blocks/Parts.antt =====
-- The fields of a header and the parts of a body, read behind the bytes in front of them
-- (blocks/baseBlock.go).
use qwid_node.Base.{
  List, ap, append_assoc, arith, drop, drop-append, length, length-append, ok, refl, sym,
  take-append, ℕ, ◌++◌, ◌∙◌, ◌∷◌, ◌≡◌, ◌≤◌,
}
use qwid_node.Wire.{bytes_to_len_and_bytes}
use qwid_node.Wire.Slices.{int64_of_lem, not_below}
use qwid_node.Wire.Fields.{
  bytes_to_address-byte_value, bytes_to_address-get_bytes_with_primary, get_hash_from_bytes_lem,
  get_int16_from_byte-get_byte_int16, get_int32_from_byte-get_byte_int32,
  get_signature_from_bytes-byte_value,
}
use qwid_node.Blocks.{BaseBlock, BaseHeader}
use qwid_node.Blocks.Slices.{bytes_slice_to_bytes}
use qwid_node.Blocks.Bytes.{body_fields, header_fields, randao_bytes, read_body, read_header}
use qwid_node.Blocks.Items.{bytes_slice_from_bytes-bytes_slice_to_bytes, read_bytes-bytes_to_len}
use qwid_node.Blocks.WellFormed.{IsBaseBlock, IsHeader}

-- The variable part of a header, with what follows it.
abbrev pub header_rest : BaseHeader → List ℕ → List ℕ
header_rest h rest =
    bytes_to_len_and_bytes h.encryption1
    ++ (bytes_to_len_and_bytes h.encryption2
        ++ (bytes_to_len_and_bytes h.signature_message
            ++ (bytes_to_len_and_bytes h.signature.byte_value ++ rest)))

pub read_header_lem :
    (h : BaseHeader) (rest : List ℕ)
    → IsHeader h
    → read_header (header_fields h) (header_rest h rest) ≡ ok (h, rest)
unfolding read_header
read_header_lem h rest w =
    let after_message = bytes_to_len_and_bytes h.signature.byte_value ++ rest in
    let after_second = bytes_to_len_and_bytes h.signature_message ++ after_message in
    let after_first = bytes_to_len_and_bytes h.encryption2 ++ after_second in
    rw
      (
        bytes_to_address-byte_value h.delegated_account w.delegated_account w.delegated_primary,
        bytes_to_address-get_bytes_with_primary h.operator_account w.operator_account,
        read_bytes-bytes_to_len h.encryption1 after_first w.encryption1,
        read_bytes-bytes_to_len h.encryption2 after_second w.encryption2,
        read_bytes-bytes_to_len h.signature_message after_message w.signature_message,
        read_bytes-bytes_to_len h.signature.byte_value rest (omega arith),
        get_signature_from_bytes-byte_value h.signature h.operator_account w.signature_nonempty
            w.signature_short w.signature_address w.signature_primary,
        get_hash_from_bytes_lem h.previous_hash w.previous_hash,
        get_hash_from_bytes_lem h.root_merkle_tree w.root_merkle_tree,
        get_hash_from_bytes_lem h.body_hash w.body_hash,
        get_hash_from_bytes_lem h.state_root w.state_root,
        get_int32_from_byte-get_byte_int32 h.difficulty w.difficulty_top w.difficulty_bottom,
        int64_of_lem h.height w.height,
      )
      refl

pub read_body_lem :
    (bb : BaseBlock) (rest : List ℕ)
    → IsBaseBlock bb
    → read_body bb.base_header (bb.block_header_hash ∷ body_fields bb) (
        bytes_to_len_and_bytes bb.price_oracle_data
        ++ (bytes_to_len_and_bytes bb.rand_oracle_data
            ++ (bytes_slice_to_bytes bb.oracle_proofs ++ (randao_bytes bb ++ rest))))
      ≡ ok (bb, rest)
unfolding read_body randao_bytes
read_body_lem bb rest w =
    let tail = bb.rand_commit ++ (bb.rand_mix ++ rest) in
    let after_proofs = randao_bytes bb ++ rest in
    let after_rand = bytes_slice_to_bytes bb.oracle_proofs ++ after_proofs in
    let after_price = bytes_to_len_and_bytes bb.rand_oracle_data ++ after_rand in
    let split : randao_bytes bb ++ rest ≡ bytes_to_len_and_bytes bb.rand_reveal ++ tail =
      append_assoc (bytes_to_len_and_bytes bb.rand_reveal) (bb.rand_commit ++ bb.rand_mix) rest
      ∙ ap (◌++◌ (bytes_to_len_and_bytes bb.rand_reveal))
          (append_assoc bb.rand_commit bb.rand_mix rest) in
    let enough : 64 ≤ length tail = omega (
      arith,
      length-append bb.rand_commit (bb.rand_mix ++ rest),
      length-append bb.rand_mix rest,
      w.rand_commit,
      w.rand_mix,
    ) in
    let gone : drop 64 tail ≡ rest =
      ap (drop 64) (sym (append_assoc bb.rand_commit bb.rand_mix rest))
      ∙ drop-append (bb.rand_commit ++ bb.rand_mix) rest 64
          (omega (arith, length-append bb.rand_commit bb.rand_mix, w.rand_commit, w.rand_mix)) in
    rw
      (
        read_bytes-bytes_to_len bb.price_oracle_data after_price w.price_oracle_data,
        read_bytes-bytes_to_len bb.rand_oracle_data after_rand w.rand_oracle_data,
        bytes_slice_from_bytes-bytes_slice_to_bytes bb.oracle_proofs after_proofs w.few_proofs
            w.small_proofs w.proofs_size,
        split,
        read_bytes-bytes_to_len bb.rand_reveal tail w.rand_reveal,
        not_below enough,
        gone,
        drop-append bb.rand_commit (bb.rand_mix ++ rest) 32 (sym w.rand_commit),
        take-append bb.rand_commit (bb.rand_mix ++ rest) 32 (sym w.rand_commit),
        take-append bb.rand_mix rest 32 (sym w.rand_mix),
        get_hash_from_bytes_lem bb.rand_commit w.rand_commit,
        get_hash_from_bytes_lem bb.rand_mix w.rand_mix,
        get_hash_from_bytes_lem bb.block_header_hash w.block_header_hash,
        get_int16_from_byte-get_byte_int16 bb.reward_percentage w.reward_top w.reward_bottom,
        int64_of_lem bb.block_time_stamp w.block_time_stamp,
        int64_of_lem bb.supply w.supply,
        int64_of_lem bb.price_oracle w.price_oracle,
        int64_of_lem bb.rand_oracle w.rand_oracle,
      )
      refl
