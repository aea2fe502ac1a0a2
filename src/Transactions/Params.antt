-- ===== src/Transactions/Params.antt =====
-- The parameters of a transaction, written and read again: transactionsDefinition/baseTransaction.go.
use qwid_node.Base.{
  List, append_assoc, arith, if_neg, if_pos, ite, length, length-append, ok, refl, sym, ℕ, ◌++◌,
  ◌<◌, ◌^◌, ◌∙◌, ◌≡◌, ◌≤◌,
}
use qwid_node.Base.Int.{neg_part, pos_part, ℤ}
use qwid_node.Base.Int64.{Fits64}
use qwid_node.Types.{Hash, bytes_discrete, zero_hash}
use qwid_node.Wire.{bytes_to_len_and_bytes}
use qwid_node.Wire.RoundTrip.{length-get_byte_int64}
use qwid_node.Wire.Fields.{
  AreSized, bytes_to_address-get_bytes_with_primary, cut-join, get_hash_from_bytes,
  get_hash_from_bytes_lem, get_int16_from_byte-get_byte_int16, join, length-get_byte_int16,
  length-get_bytes_with_primary, length-join,
}
use qwid_node.Wire.Slices.{drop-join, int64_of_lem, not_below}
use qwid_node.Blocks.Items.{length-bytes_to_len, length-bytes_to_len_le}
use qwid_node.Transactions.{TxParam}
use qwid_node.Transactions.Reading.{read_param, tx_param_from_bytes}
use qwid_node.Transactions.Bytes.{param_fields, param_sizes, tx_param_bytes}
use qwid_node.Transactions.Parts.{read_part-bytes_to_len}

abbrev pub FitsInt16 : ℤ → Type 0
FitsInt16 u = (pos_part u < 2 ^ 15) × (neg_part u ≤ 2 ^ 15)

-- What Go's types say of the parameters.
abbrev pub IsTypedParam : TxParam → Type 0
IsTypedParam tp =
    FitsInt16 tp.chain_id
    × (length tp.sender.byte_value ≡ 20)
    × Fits64 tp.sending_time
    × Fits64 tp.nonce
    × (length tp.multi_sign_tx ≡ 32)

param_sized : (tp : TxParam) → IsTypedParam tp → AreSized param_sizes (param_fields tp)
param_sized tp (c, s, t, n, m) = (
  length-get_byte_int16 tp.chain_id,
  (
    length-get_bytes_with_primary tp.sender s,
    (length-get_byte_int64 tp.sending_time, (length-get_byte_int64 tp.nonce, tt)),
  ),
)

same_multi_sign :
    (h : Hash)
    → length h ≡ 32
    → ite (bytes_discrete h zero_hash) zero_hash (get_hash_from_bytes h) ≡ h
same_multi_sign h e = elim (bytes_discrete h zero_hash) [
  | yes z ↦ if_pos (bytes_discrete h zero_hash) z _ _ ∙ sym z
  | no n ↦ if_neg (bytes_discrete h zero_hash) n _ _ ∙ get_hash_from_bytes_lem h e
]

read_param_lem :
    (tp : TxParam) (rest : List ℕ)
    → IsTypedParam tp
    → read_param (param_fields tp) (bytes_to_len_and_bytes tp.multi_sign_tx ++ rest) ≡ ok (tp, rest)
unfolding read_param
read_param_lem tp rest (c, s, t, n, m) =
    rw
      (
        bytes_to_address-get_bytes_with_primary tp.sender s,
        read_part-bytes_to_len tp.multi_sign_tx rest (omega (arith, m)),
        get_int16_from_byte-get_byte_int16 tp.chain_id c.0 c.1,
        int64_of_lem tp.sending_time t,
        int64_of_lem tp.nonce n,
        same_multi_sign tp.multi_sign_tx m,
      )
      refl

pub tx_param_from_bytes-tx_param_bytes :
    (tp : TxParam) (rest : List ℕ)
    → IsTypedParam tp
    → tx_param_from_bytes (tx_param_bytes tp ++ rest) ≡ ok (tp, rest)
unfolding tx_param_from_bytes tx_param_bytes
tx_param_from_bytes-tx_param_bytes tp rest h =
    let more : List ℕ = bytes_to_len_and_bytes tp.multi_sign_tx ++ rest in
    let sized : AreSized param_sizes (param_fields tp) = param_sized tp h in
    let room : 40 ≤ length (join (param_fields tp) ++ more) = omega (
      arith,
      length-append (join (param_fields tp)) more,
      length-join param_sizes (param_fields tp) sized,
      length-bytes_to_len_le tp.multi_sign_tx rest,
    ) in
    rw
      (
        append_assoc (join (param_fields tp)) (bytes_to_len_and_bytes tp.multi_sign_tx) rest,
        not_below room,
        cut-join param_sizes (param_fields tp) more sized,
        drop-join param_sizes (param_fields tp) more sized,
      )
      (read_param_lem tp rest h)

pub length-tx_param_bytes : (tp : TxParam) → IsTypedParam tp → length (tx_param_bytes tp) ≡ 75
unfolding tx_param_bytes
length-tx_param_bytes tp h = omega (
  arith,
  length-append (join (param_fields tp)) (bytes_to_len_and_bytes tp.multi_sign_tx),
  length-join param_sizes (param_fields tp) (param_sized tp h),
  length-bytes_to_len tp.multi_sign_tx,
  h.4,
)
