-- ===== src/Blocks/Slices.antt =====
-- The lists of byte slices that a block carries: `bytesSliceToBytes` and `bytesSliceFromBytes` of
-- blocks/baseBlock.go.
use qwid_node.Base.{
  List, Result, [], drop, err, if◌then◌else◌, length, ltb, ok, suc, take, zero, ℕ, ◌*◌, ◌++◌, ◌+◌,
  ◌/◌, ◌>>=◌, ◌^◌, ◌∷◌,
}
use qwid_node.Base.Int.{ltb_ℤ, pos, pos_part, ℤ}
use qwid_node.Wire.{
  LenResult, bytes_to_len_and_bytes, bytes_with_len_to_bytes, fails, incorrect_length, parts,
  too_short,
}
use qwid_node.Wire.Fields.{get_byte_int32, get_int32_from_byte}
use qwid_node.Blocks.{
  BlockError, bad_length, item_too_long, negative_count, not_enough_bytes, payload_too_long,
  too_many_items,
}

abbrev pub max_oracle_proofs : ℤ
max_oracle_proofs = pos 255

abbrev pub max_oracle_proof_size : ℕ
max_oracle_proof_size = 2 ^ 20

abbrev pub max_oracle_proof_bytes : ℕ
max_oracle_proof_bytes = 16 * 2 ^ 20

abbrev pub items_bytes : List (List ℕ) → List ℕ
items_bytes [] = []
items_bytes (it ∷ items) = bytes_to_len_and_bytes it ++ items_bytes items

unfoldable pub bytes_slice_to_bytes : List (List ℕ) → List ℕ
bytes_slice_to_bytes items = get_byte_int32 (pos (length items)) ++ items_bytes items

-- A slice with its length in front, and what follows it.
abbrev pub of_parts : LenResult → Result BlockError (List ℕ × List ℕ)
of_parts (parts x rest) = ok (x, rest)
of_parts (fails too_short) = err not_enough_bytes
of_parts (fails incorrect_length) = err bad_length

unfoldable pub read_bytes : List ℕ → Result BlockError (List ℕ × List ℕ)
read_bytes b = of_parts (bytes_with_len_to_bytes b)

-- `int64(binary.BigEndian.Uint32(b[:4]))`; the loop has checked that the bytes are there.
abbrev pub item_length : List ℕ → ℕ
item_length (a ∷ b ∷ c ∷ d ∷ rest) = a * 2 ^ 24 + b * 2 ^ 16 + c * 2 ^ 8 + d
item_length _ = 0

-- The loop of `bytesSliceFromBytes`, by the number of items left.
unfoldable pub read_items :
    ℕ → ℕ → List ℕ → List (List ℕ) → Result BlockError (List (List ℕ) × List ℕ)
read_items zero total b items = ok (items, b)
read_items (suc n) total b items =
    let len = item_length b in
    let rest = (read_bytes b >>= (λ p. read_items n (total + len) (p.1) (items ++ p.0 ∷ []))) in
    if ltb (length b) 4
    then err not_enough_bytes
    else if ltb max_oracle_proof_size len
    then err item_too_long
    else if ltb max_oracle_proof_bytes (total + len)
    then err payload_too_long
    else rest

unfoldable pub bytes_slice_from_bytes : List ℕ → Result BlockError (List (List ℕ) × List ℕ)
unfolding read_items
bytes_slice_from_bytes b =
    if ltb (length b) 4
    then err not_enough_bytes
    else (let n = get_int32_from_byte (take 4 b) in
        if ltb_ℤ n (pos 0)
        then err negative_count
        else if ltb_ℤ max_oracle_proofs n
        then err too_many_items
        else if ltb (length (drop 4 b) / 4) (pos_part n)
        then err not_enough_bytes
        else read_items (pos_part n) 0 (drop 4 b) [])
