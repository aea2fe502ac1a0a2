-- ===== src/Blocks/Items.antt =====
-- Reading back what was written, for the parts of a block: fields at fixed offsets, slices with
-- their lengths, and lists of either (blocks/baseBlock.go).
use qwid_node.Base.{
  All, List, [], ap, append-nil, append_assoc, arith, drop-append, length, length-append, ok, suc,
  sym, take-append, ℕ, ◌*◌, ◌++◌, ◌+◌, ◌<◌, ◌^◌, ◌∙◌, ◌∷◌, ◌≡◌, ◌≤◌,
}
use qwid_node.Base.Int.{pos}
use qwid_node.Wire.{bytes_to_len_and_bytes}
use qwid_node.Wire.RoundTrip.{bytes_with_len-bytes_to_len}
use qwid_node.Wire.Fields.{
  get_byte_int32, get_int32_from_byte, get_int32_from_byte-get_byte_int32, length-get_byte_int32,
}
use qwid_node.Blocks.Slices.{
  bytes_slice_from_bytes, bytes_slice_to_bytes, item_length, items_bytes, max_oracle_proof_bytes,
  max_oracle_proof_size, of_parts, read_bytes, read_items,
}

pub read_bytes-bytes_to_len :
    (b rest : List ℕ)
    → length b < 2 ^ 32
    → read_bytes (bytes_to_len_and_bytes b ++ rest) ≡ ok (b, rest)
unfolding read_bytes
read_bytes-bytes_to_len b rest h = ap of_parts (bytes_with_len-bytes_to_len b rest h)

item_length-bytes_to_len :
    (b rest : List ℕ)
    → length b < 2 ^ 32
    → item_length (bytes_to_len_and_bytes b ++ rest) ≡ length b
unfolding bytes_to_len_and_bytes
item_length-bytes_to_len b rest h = omega arith

pub length-bytes_to_len : (b : List ℕ) → length (bytes_to_len_and_bytes b) ≡ 4 + length b
unfolding bytes_to_len_and_bytes
length-bytes_to_len b = omega arith

-- Every slice within the limit of one proof.
abbrev pub AreSmall : List (List ℕ) → Type 0
AreSmall = All (λ it. length it ≤ max_oracle_proof_size)

abbrev pub total_length : List (List ℕ) → ℕ
total_length [] = 0
total_length (it ∷ items) = length it + total_length items

pub length-bytes_to_len_le :
    (b rest : List ℕ) → 4 + length rest ≤ length (bytes_to_len_and_bytes b ++ rest)
length-bytes_to_len_le b rest =
    omega (arith, length-append (bytes_to_len_and_bytes b) rest, length-bytes_to_len b)

-- One round of the loop, within the limits.
read_items_step :
    (n total len : ℕ) (b x rest : List ℕ) (items : List (List ℕ))
    → 4 ≤ length b
    → item_length b ≡ len
    → len ≤ max_oracle_proof_size
    → total + len ≤ max_oracle_proof_bytes
    → read_bytes b ≡ ok (x, rest)
    → read_items (suc n) total b items ≡ read_items n (total + len) rest (items ++ x ∷ [])
unfolding read_items
read_items_step n total len b x rest items h4 el hl ht er = rw (er, el) (ground arith)

read_items-items_bytes :
    (items acc : List (List ℕ)) (total : ℕ) (rest : List ℕ)
    → AreSmall items
    → total + total_length items ≤ max_oracle_proof_bytes
    → read_items (length items) total (items_bytes items ++ rest) acc ≡ ok (acc ++ items, rest)
unfolding read_items
read_items-items_bytes [] acc total rest hs ht = ap (λ xs. ok (xs, rest)) (sym (append-nil acc))
read_items-items_bytes (it ∷ items) acc total rest (h, hs) ht =
    let more = items_bytes items ++ rest in
    let small : length it < 2 ^ 32 = omega (arith, h) in
    let within : (total + length it) + total_length items ≤ max_oracle_proof_bytes =
      omega (arith, ht) in
    let first : total + length it ≤ max_oracle_proof_bytes = omega (arith, within) in
    ap (λ b. read_items (suc (length items)) total b acc)
      (append_assoc (bytes_to_len_and_bytes it) (items_bytes items) rest)
    ∙ read_items_step (length items) total (length it) (bytes_to_len_and_bytes it ++ more) it more
        acc (omega (arith, length-bytes_to_len_le it more)) (item_length-bytes_to_len it more small)
        h first (read_bytes-bytes_to_len it more small)
    ∙ read_items-items_bytes items (acc ++ it ∷ []) (total + length it) rest hs within
    ∙ ap (λ xs. ok (xs, rest)) (append_assoc acc (it ∷ []) items)

length-items_bytes : (items : List (List ℕ)) → 4 * length items ≤ length (items_bytes items)
length-items_bytes [] = omega arith
length-items_bytes (it ∷ items) = omega (
  arith,
  length-append (bytes_to_len_and_bytes it) (items_bytes items),
  length-bytes_to_len it,
  length-items_bytes items,
)

pub bytes_slice_from_bytes-bytes_slice_to_bytes :
    (items : List (List ℕ)) (rest : List ℕ)
    → length items ≤ 255
    → AreSmall items
    → total_length items ≤ max_oracle_proof_bytes
    → bytes_slice_from_bytes (bytes_slice_to_bytes items ++ rest) ≡ ok (items, rest)
unfolding bytes_slice_from_bytes bytes_slice_to_bytes
bytes_slice_from_bytes-bytes_slice_to_bytes items rest hn hs ht =
    let count : List ℕ = get_byte_int32 (pos (length items)) in
    let payload : List ℕ = items_bytes items ++ rest in
    let four : 4 ≡ length count = sym (length-get_byte_int32 (pos (length items))) in
    let room : 4 * length items ≤ length payload =
      omega (arith, length-append (items_bytes items) rest, length-items_bytes items) in
    let read : get_int32_from_byte count ≡ pos (length items) =
      get_int32_from_byte-get_byte_int32 (pos (length items)) (omega arith) (omega arith) in
    rw
      (
        append_assoc count (items_bytes items) rest,
        take-append count payload 4 four,
        drop-append count payload 4 four,
        read,
      )
      (ground (
        arith,
        room,
        hn,
        length-append count payload,
        four,
        read_items-items_bytes items [] 0 rest hs (omega (arith, ht)),
      ))
