-- ===== src/Blocks/RoundTrip.antt =====
-- Encoding a block and decoding it again (blocks/baseBlock.go and blocks/Block.go).
use qwid_node.Base.{
  All, List, [], ap, append_assoc, arith, drop, drop-append, length, length-append, ok, refl, sym,
  take-append, true, ℕ, ◌%◌, ◌*◌, ◌++◌, ◌+◌, ◌/◌, ◌==◌, ◌∙◌, ◌∷◌, ◌≡◌, ◌≤◌,
}
use qwid_node.Types.{Hash}
use qwid_node.Wire.{bytes_to_len_and_bytes, get_byte_int64}
use qwid_node.Wire.RoundTrip.{length-get_byte_int64}
use qwid_node.Wire.Slices.{drop-join, int64_of-get_byte_int64, length-join_le, not_below}
use qwid_node.Wire.Fields.{cut-join, get_hash_from_bytes_lem, join, length-join}
use qwid_node.Blocks.{BaseBlock, BaseHeader, Block}
use qwid_node.Blocks.Slices.{bytes_slice_to_bytes}
use qwid_node.Blocks.Bytes.{
  base_block_bytes, base_block_from_bytes, block_bytes, block_from_bytes, body_bytes, body_fields,
  body_sizes, header_bytes, header_fields, header_from_bytes, header_sizes, randao_bytes,
  read_hashes, read_tail,
}
use qwid_node.Blocks.Items.{length-bytes_to_len_le}
use qwid_node.Blocks.WellFormed.{
  IsBaseBlock, IsBlock, IsHeader, body_fields-AreSized, header_fields-AreSized,
}
use qwid_node.Blocks.Parts.{header_rest, read_body_lem, read_header_lem}

read_hashes-join :
    (hs : List Hash) → All (λ hash. length hash ≡ 32) hs → read_hashes (length hs) (join hs) ≡ hs
unfolding read_hashes join
read_hashes-join [] w = refl
read_hashes-join (h ∷ hs) (e, w) = rw (
  take-append h (join hs) 32 (sym e),
  drop-append h (join hs) 32 (sym e),
  read_hashes-join hs w,
  get_hash_from_bytes_lem h e,
)

length-join_hashes :
    (hs : List Hash) → All (λ hash. length hash ≡ 32) hs → length (join hs) ≡ 32 * length hs
unfolding join
length-join_hashes [] w = refl
length-join_hashes (h ∷ hs) (e, w) =
    omega (arith, length-append h (join hs), length-join_hashes hs w)

header_bytes-append :
    (h : BaseHeader) (rest : List ℕ)
    → header_bytes h ++ rest ≡ join (header_fields h) ++ header_rest h rest
unfolding header_bytes
header_bytes-append h rest = simp append_assoc refl

header_from_bytes-header_bytes :
    (h : BaseHeader) (rest : List ℕ)
    → IsHeader h
    → header_from_bytes (header_bytes h ++ rest) ≡ ok (h, rest)
unfolding header_from_bytes
header_from_bytes-header_bytes h rest w =
    let sized = header_fields-AreSized h w in
    let fields = header_fields h in
    rw
      (
        header_bytes-append h rest,
        cut-join header_sizes fields (header_rest h rest) sized,
        drop-join header_sizes fields (header_rest h rest) sized,
        not_below (length-join_le header_sizes fields (header_rest h rest) sized),
      )
      (read_header_lem h rest w)

-- The bytes of a block behind its header.
abbrev body_rest : BaseBlock → List ℕ → List ℕ
body_rest bb rest =
    bytes_to_len_and_bytes bb.price_oracle_data
    ++ (bytes_to_len_and_bytes bb.rand_oracle_data
        ++ (bytes_slice_to_bytes bb.oracle_proofs ++ (randao_bytes bb ++ rest)))

base_block_bytes-append :
    (bb : BaseBlock) (rest : List ℕ)
    → base_block_bytes bb ++ rest
      ≡ header_bytes bb.base_header
        ++ (join (bb.block_header_hash ∷ body_fields bb) ++ body_rest bb rest)
unfolding base_block_bytes body_bytes join
base_block_bytes-append bb rest = simp append_assoc refl

length-header_rest :
    (h : BaseHeader) (rest : List ℕ) → 16 + length rest ≤ length (header_rest h rest)
length-header_rest h rest =
    let after_message = bytes_to_len_and_bytes h.signature.byte_value ++ rest in
    let after_second = bytes_to_len_and_bytes h.signature_message ++ after_message in
    let after_first = bytes_to_len_and_bytes h.encryption2 ++ after_second in
    omega (
      arith,
      length-bytes_to_len_le h.encryption1 after_first,
      length-bytes_to_len_le h.encryption2 after_second,
      length-bytes_to_len_le h.signature_message after_message,
      length-bytes_to_len_le h.signature.byte_value rest,
    )

-- A header is more than 181 bytes, and the fixed fields behind it are 66 more.
long_enough :
    (bb : BaseBlock) (behind : List ℕ)
    → IsBaseBlock bb
    → 66 ≤ length behind
    → 241 ≤ length (header_bytes bb.base_header ++ behind)
long_enough bb behind w tail =
    let fields = header_fields bb.base_header in
    let rest = header_rest bb.base_header behind in
    rw (header_bytes-append bb.base_header behind) (
      omega (
        arith,
        length-append (join fields) rest,
        length-join header_sizes fields (header_fields-AreSized bb.base_header w.header),
        length-header_rest bb.base_header behind,
      ))

pub base_block_from_bytes-base_block_bytes :
    (bb : BaseBlock) (rest : List ℕ)
    → IsBaseBlock bb
    → base_block_from_bytes (base_block_bytes bb ++ rest) ≡ ok (bb, rest)
unfolding base_block_from_bytes
base_block_from_bytes-base_block_bytes bb rest w =
    let fields = bb.block_header_hash ∷ body_fields bb in
    let after_fields = body_rest bb rest in
    let sized = body_fields-AreSized bb w in
    let behind = join fields ++ after_fields in
    let tail : 66 ≤ length behind = length-join_le body_sizes fields after_fields sized in
    rw
      (
        base_block_bytes-append bb rest,
        not_below (long_enough bb behind w tail),
        header_from_bytes-header_bytes bb.base_header behind w.header,
        not_below tail,
        cut-join body_sizes fields after_fields sized,
        drop-join body_sizes fields after_fields sized,
      )
      (read_body_lem bb rest w)

read_tail_lem :
    (tb : Block)
    → IsBlock tb
    → read_tail tb.base_block
        (tb.block_hash ++ (get_byte_int64 tb.block_fee ++ join tb.transactions_hashes))
      ≡ ok tb
unfolding read_tail
read_tail_lem tb w =
    let hashes = join tb.transactions_hashes in
    let after_hash = get_byte_int64 tb.block_fee ++ hashes in
    let sized : length hashes ≡ 32 * length tb.transactions_hashes =
      length-join_hashes tb.transactions_hashes w.transactions_hashes in
    let eight = length-get_byte_int64 tb.block_fee in
    let enough : 40 ≤ length (tb.block_hash ++ after_hash) = omega (
      arith,
      length-append tb.block_hash after_hash,
      length-append (get_byte_int64 tb.block_fee) hashes,
      eight,
      w.block_hash,
    ) in
    let gone : drop 40 (tb.block_hash ++ after_hash) ≡ hashes =
      ap (drop 40) (sym (append_assoc tb.block_hash (get_byte_int64 tb.block_fee) hashes))
      ∙ drop-append (tb.block_hash ++ get_byte_int64 tb.block_fee) hashes 40 (
          omega (
            arith,
            length-append tb.block_hash (get_byte_int64 tb.block_fee),
            eight,
            w.block_hash,
          )) in
    let number : length hashes / 32 ≡ length tb.transactions_hashes = omega (arith, sized) in
    let whole : (length hashes % 32 == 0) ≡ true = ground (arith, sized) in
    rw
      (
        not_below enough,
        gone,
        whole,
        number,
        read_hashes-join tb.transactions_hashes w.transactions_hashes,
        take-append tb.block_hash after_hash 32 (sym w.block_hash),
        drop-append tb.block_hash after_hash 32 (sym w.block_hash),
        get_hash_from_bytes_lem tb.block_hash w.block_hash,
        int64_of-get_byte_int64 tb.block_fee hashes w.block_fee,
      )
      refl

-- A well-formed block, whatever its oracle proofs and transactions, is decoded from its encoding
-- without an error, to itself.
pub block_from_bytes-block_bytes :
    (tb : Block) → IsBlock tb → block_from_bytes (block_bytes tb) ≡ ok tb
unfolding block_from_bytes block_bytes read_tail
block_from_bytes-block_bytes tb w =
    rw
      (base_block_from_bytes-base_block_bytes tb.base_block
        (tb.block_hash ++ (get_byte_int64 tb.block_fee ++ join tb.transactions_hashes))
        w.base_block)
      (read_tail_lem tb w)
