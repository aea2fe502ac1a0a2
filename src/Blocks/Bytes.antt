-- ===== src/Blocks/Bytes.antt =====
-- The bytes of a block and back: `GetBytes` and `GetFromBytes` of blocks/baseBlock.go and
-- blocks/Block.go.
use qwid_node.Base.{
  List, Result, [], drop, err, if◌then◌else◌, length, ltb, ok, suc, take, zero, ℕ, ◌%◌, ◌++◌, ◌+◌,
  ◌/◌, ◌==◌, ◌>>=◌, ◌∷◌,
}
use qwid_node.Types.{Hash}
use qwid_node.Wire.{bytes_to_len_and_bytes, get_byte_int64}
use qwid_node.Wire.Slices.{int64_of}
use qwid_node.Wire.Fields.{
  FieldError, bytes_to_address, cut, get_byte_int16, get_byte_int32, get_bytes_with_primary,
  get_hash_from_bytes, get_int16_from_byte, get_int32_from_byte, get_signature_from_bytes, join,
}
use qwid_node.Blocks.{
  BaseBlock, BaseHeader, Block, BlockError, bad_field, bad_length, not_enough_bytes,
}
use qwid_node.Blocks.Slices.{bytes_slice_from_bytes, bytes_slice_to_bytes, read_bytes}

-- The fields of a header before the two configurations.
abbrev pub header_fields : BaseHeader → List (List ℕ)
header_fields h =
    h.previous_hash
    ∷ get_byte_int32 h.difficulty
    ∷ get_byte_int64 h.height
    ∷ h.delegated_account.byte_value
    ∷ get_bytes_with_primary h.operator_account
    ∷ h.root_merkle_tree
    ∷ h.body_hash
    ∷ h.state_root
    ∷ []

abbrev pub header_sizes : List ℕ
header_sizes = 32 ∷ 4 ∷ 8 ∷ 20 ∷ 21 ∷ 32 ∷ 32 ∷ 32 ∷ []

unfoldable pub get_bytes_without_signature : BaseHeader → List ℕ
get_bytes_without_signature h =
    join (header_fields h)
    ++ (bytes_to_len_and_bytes h.encryption1 ++ bytes_to_len_and_bytes h.encryption2)

unfoldable pub header_bytes : BaseHeader → List ℕ
header_bytes h =
    join (header_fields h)
    ++ (bytes_to_len_and_bytes h.encryption1
        ++ (bytes_to_len_and_bytes h.encryption2
            ++ (bytes_to_len_and_bytes h.signature_message
                ++ bytes_to_len_and_bytes h.signature.byte_value)))

abbrev pub base_header_fixed_bytes : ℕ
base_header_fixed_bytes = 181

abbrev pub field {ℓ} : {A : Type ℓ} → Result FieldError A → Result BlockError A
field (ok a) = ok a
field (err e) = err (bad_field e)

-- The header from its eight fixed fields and the bytes behind them.
unfoldable pub read_header : List (List ℕ) → List ℕ → Result BlockError (BaseHeader × List ℕ)
read_header (p ∷ d ∷ h ∷ da ∷ oa ∷ rm ∷ bh ∷ sr ∷ []) b = do
  delegated ← field (bytes_to_address da)
  operator ← field (bytes_to_address oa)
  e1 ← read_bytes b
  e2 ← read_bytes (e1.1)
  m ← read_bytes (e2.1)
  s ← read_bytes (m.1)
  sig ← field (get_signature_from_bytes (s.0) operator)
  ok (
    record {
      previous_hash = get_hash_from_bytes p;
      difficulty = get_int32_from_byte d;
      height = int64_of h;
      delegated_account = delegated;
      operator_account = operator;
      root_merkle_tree = get_hash_from_bytes rm;
      body_hash = get_hash_from_bytes bh;
      state_root = get_hash_from_bytes sr;
      encryption1 = e1.0;
      encryption2 = e2.0;
      signature = sig;
      signature_message = m.0;
    },
    s.1,
  )
read_header _ b = err not_enough_bytes

unfoldable pub header_from_bytes : List ℕ → Result BlockError (BaseHeader × List ℕ)
header_from_bytes b =
    if ltb (length b) base_header_fixed_bytes
    then err not_enough_bytes
    else read_header (cut header_sizes b) (drop base_header_fixed_bytes b)

-- `BlockTimeStamp`, `RewardPercentage`, `Supply`, `PriceOracle` and `RandOracle`.
abbrev pub body_fields : BaseBlock → List (List ℕ)
body_fields bb =
    get_byte_int64 bb.block_time_stamp
    ∷ get_byte_int16 bb.reward_percentage
    ∷ get_byte_int64 bb.supply
    ∷ get_byte_int64 bb.price_oracle
    ∷ get_byte_int64 bb.rand_oracle
    ∷ []

unfoldable pub randao_bytes : BaseBlock → List ℕ
randao_bytes bb = bytes_to_len_and_bytes bb.rand_reveal ++ (bb.rand_commit ++ bb.rand_mix)

-- What `BodyHash` commits to.
unfoldable pub body_bytes : BaseBlock → List ℕ
body_bytes bb =
    join (body_fields bb)
    ++ (bytes_to_len_and_bytes bb.price_oracle_data
        ++ (bytes_to_len_and_bytes bb.rand_oracle_data
            ++ (bytes_slice_to_bytes bb.oracle_proofs ++ randao_bytes bb)))

unfoldable pub base_block_bytes : BaseBlock → List ℕ
base_block_bytes bb = header_bytes bb.base_header ++ (bb.block_header_hash ++ body_bytes bb)

abbrev pub body_sizes : List ℕ
body_sizes = 32 ∷ 8 ∷ 2 ∷ 8 ∷ 8 ∷ 8 ∷ []

-- The block from its header, the six fixed fields behind it and the bytes behind those.
unfoldable pub read_body :
    BaseHeader → List (List ℕ) → List ℕ → Result BlockError (BaseBlock × List ℕ)
read_body header (hh ∷ ts ∷ rp ∷ su ∷ po ∷ ro ∷ []) b = do
  pd ← read_bytes b
  rd ← read_bytes (pd.1)
  ps ← bytes_slice_from_bytes (rd.1)
  rv ← read_bytes (ps.1)
  if ltb (length (rv.1)) 64
      then err not_enough_bytes
      else ok (
        record {
          base_header = header;
          block_header_hash = get_hash_from_bytes hh;
          block_time_stamp = int64_of ts;
          reward_percentage = get_int16_from_byte rp;
          supply = int64_of su;
          price_oracle = int64_of po;
          rand_oracle = int64_of ro;
          price_oracle_data = pd.0;
          rand_oracle_data = rd.0;
          oracle_proofs = ps.0;
          rand_reveal = rv.0;
          rand_commit = get_hash_from_bytes (take 32 (rv.1));
          rand_mix = get_hash_from_bytes (take 32 (drop 32 (rv.1)));
        },
        drop 64 (rv.1),
      )
read_body header _ b = err not_enough_bytes

unfoldable pub base_block_from_bytes : List ℕ → Result BlockError (BaseBlock × List ℕ)
base_block_from_bytes b =
    if ltb (length b) (base_header_fixed_bytes + 44 + 16) then err not_enough_bytes else (do
      h ← header_from_bytes b
      if ltb (length (h.1)) 66
          then err not_enough_bytes
          else read_body (h.0) (cut body_sizes (h.1)) (drop 66 (h.1)))

unfoldable pub block_bytes : Block → List ℕ
block_bytes tb =
    base_block_bytes tb.base_block
    ++ (tb.block_hash ++ (get_byte_int64 tb.block_fee ++ join tb.transactions_hashes))

-- The loop over the transaction hashes, by the number of hashes left.
unfoldable pub read_hashes : ℕ → List ℕ → List Hash
read_hashes zero b = []
read_hashes (suc n) b = get_hash_from_bytes (take 32 b) ∷ read_hashes n (drop 32 b)

-- What stands behind a base block: the block's hash, its fee and the transaction hashes.
unfoldable pub read_tail : BaseBlock → List ℕ → Result BlockError Block
unfolding read_hashes
read_tail base b =
    let hashes = drop 40 b in
    if ltb (length b) 40
    then err not_enough_bytes
    else if length hashes % 32 == 0
    then ok (record {
      base_block = base;
      transactions_hashes = read_hashes (length hashes / 32) hashes;
      block_hash = get_hash_from_bytes (take 32 b);
      block_fee = int64_of (drop 32 b);
    })
    else err bad_length

unfoldable pub block_from_bytes : List ℕ → Result BlockError Block
block_from_bytes b = do p ← base_block_from_bytes b; read_tail (p.0) (p.1)
