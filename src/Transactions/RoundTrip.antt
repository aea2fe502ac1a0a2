-- ===== src/Transactions/RoundTrip.antt =====
-- A transaction that is written and read again: transactionsDefinition/transaction.go.
use qwid_node.Base.{
  Bool, List, [], ap, append-nil, append_assoc, arith, drop-append, length, length-append, ok, refl,
  sym, take-append, ℕ, ◌++◌, ◌<◌, ◌^◌, ◌∙◌, ◌∷◌, ◌≡◌, ◌≤◌,
}
use qwid_node.Base.Int64.{Fits64}
use qwid_node.Wire.{bytes_to_len_and_bytes, get_byte_int64}
use qwid_node.Wire.RoundTrip.{length-get_byte_int64}
use qwid_node.Wire.Fields.{
  AreSized, FullAddress, bytes_to_address_lem, cut-join, get_hash_from_bytes_lem,
  get_signature_from_bytes_lem, join, join-append, join_end, join_front, length-join,
  starts_with_zero,
}
use qwid_node.Wire.Slices.{drop-join, int64_of_lem, length-join_le, not_below}
use qwid_node.Transactions.{Transaction}
use qwid_node.Transactions.Reading.{read_rest, transaction_from_bytes}
use qwid_node.Transactions.Bytes.{
  fixed_fields, fixed_sizes, get_bytes_without_signature, transaction_bytes, tx_data_bytes,
  tx_param_bytes,
}
use qwid_node.Transactions.Parts.{read_part-bytes_to_len}
use qwid_node.Transactions.Params.{
  IsTypedParam, length-tx_param_bytes, tx_param_from_bytes-tx_param_bytes,
}
use qwid_node.Transactions.Data.{
  IsTypedData, as_primary, length-tx_data_bytes_le, received_data, tx_data_from_bytes-tx_data_bytes,
}

fixed_hash :
    (tx : Transaction)
    → join (
        get_byte_int64 tx.height
        ∷ get_byte_int64 tx.gas_price
        ∷ get_byte_int64 tx.gas_usage
        ∷ tx.hash
        ∷ [])
      ≡ join (fixed_fields tx) ++ tx.hash
fixed_hash tx =
    join-append (fixed_fields tx) (tx.hash ∷ [])
    ∙ ap (◌++◌ (join (fixed_fields tx))) (
        sym (append-nil (join (tx.hash ∷ [])))
        ∙ join_front tx.hash [] []
        ∙ ap (◌++◌ tx.hash) (join_end [])
        ∙ append-nil tx.hash)

regroup :
    (p d f h s c l r : List ℕ)
    → ((p ++ (d ++ (f ++ h))) ++ (s ++ (c ++ l))) ++ r
      ≡ p ++ (d ++ ((f ++ h) ++ (s ++ (c ++ (l ++ r)))))
regroup p d f h s c l r = simp append_assoc

-- What Go's types and the limits of the encoding say of a transaction: a hash of 32 bytes, a
-- signature of at most 65536 bytes that is not empty.
abbrev pub IsTypedTransaction : Transaction → Type 0
IsTypedTransaction tx =
    IsTypedParam tx.tx_param
    × IsTypedData tx.tx_data
    × (length tx.hash ≡ 32)
    × Fits64 tx.height
    × Fits64 tx.gas_price
    × Fits64 tx.gas_usage
    × (0 < length tx.signature.byte_value)
    × (length tx.signature.byte_value ≤ 65536)
    × (length tx.contract_address.byte_value ≡ 20)
    × (length tx.output_logs < 2 ^ 32)

module _ (pub_key_length : ℕ) (pub_key_to_address : List ℕ → Bool → FullAddress) where
  -- The transaction that a reader makes of the bytes.
  abbrev pub received : Transaction → Transaction
  received tx = record tx {
    tx_data = received_data pub_key_length pub_key_to_address tx.tx_data;
    signature = record {
      byte_value = tx.signature.byte_value;
      address = tx.tx_param.sender;
      primary = starts_with_zero tx.signature.byte_value;
    };
    contract_address = as_primary pub_key_length pub_key_to_address tx.contract_address;
  }

  abbrev all_fixed : Transaction → List (List ℕ)
  all_fixed tx =
      get_byte_int64 tx.height
      ∷ get_byte_int64 tx.gas_price
      ∷ get_byte_int64 tx.gas_usage
      ∷ tx.hash
      ∷ []

  abbrev signed_part : Transaction → List ℕ → List ℕ
  signed_part tx rest =
      bytes_to_len_and_bytes tx.signature.byte_value
      ++ (tx.contract_address.byte_value ++ (bytes_to_len_and_bytes tx.output_logs ++ rest))

  read_rest_lem :
      (tx : Transaction) (rest : List ℕ)
      → IsTypedTransaction tx
      → read_rest pub_key_length pub_key_to_address tx.tx_param
          (received_data pub_key_length pub_key_to_address tx.tx_data)
          (all_fixed tx)
          (signed_part tx rest)
        ≡ ok (received tx, rest)
  unfolding read_rest
  read_rest_lem tx rest (h1, h2, h3, h4, h5, h6, h7, h8, h9, h10) =
      let contract : List ℕ = tx.contract_address.byte_value in
      let more : List ℕ = bytes_to_len_and_bytes tx.output_logs ++ rest in
      let room : 20 ≤ length (contract ++ more) = omega (arith, length-append contract more, h9) in
      rw
        (
          read_part-bytes_to_len tx.signature.byte_value (contract ++ more) (omega (arith, h8)),
          get_signature_from_bytes_lem tx.signature.byte_value tx.tx_param.sender h7 h8,
          not_below room,
          take-append contract more 20 (sym h9),
          drop-append contract more 20 (sym h9),
          bytes_to_address_lem contract h9,
          read_part-bytes_to_len tx.output_logs rest h10,
          get_hash_from_bytes_lem tx.hash h3,
          int64_of_lem tx.height h4,
          int64_of_lem tx.gas_price h5,
          int64_of_lem tx.gas_usage h6,
        )
        refl

  fixed_sized : (tx : Transaction) → IsTypedTransaction tx → AreSized fixed_sizes (all_fixed tx)
  fixed_sized tx h = (
    length-get_byte_int64 tx.height,
    (length-get_byte_int64 tx.gas_price, (length-get_byte_int64 tx.gas_usage, (h.2, tt))),
  )

  transaction_bytes_lem :
      (tx : Transaction) (rest : List ℕ)
      → transaction_bytes tx ++ rest
        ≡ tx_param_bytes tx.tx_param
          ++ (tx_data_bytes tx.tx_data ++ (join (all_fixed tx) ++ signed_part tx rest))
  unfolding transaction_bytes get_bytes_without_signature
  transaction_bytes_lem tx rest = rw (fixed_hash tx) (
      regroup (tx_param_bytes tx.tx_param) (tx_data_bytes tx.tx_data) (join (fixed_fields tx))
        tx.hash (bytes_to_len_and_bytes tx.signature.byte_value) tx.contract_address.byte_value
        (bytes_to_len_and_bytes tx.output_logs) rest)

  long_enough :
      (tx : Transaction) (rest : List ℕ)
      → IsTypedTransaction tx
      → 160
        ≤ length (
            tx_param_bytes tx.tx_param
            ++ (tx_data_bytes tx.tx_data ++ (join (all_fixed tx) ++ rest)))
  long_enough tx rest h = omega (
    arith,
    length-append (tx_param_bytes tx.tx_param)
        (tx_data_bytes tx.tx_data ++ (join (all_fixed tx) ++ rest)),
    length-append (tx_data_bytes tx.tx_data) (join (all_fixed tx) ++ rest),
    length-append (join (all_fixed tx)) rest,
    length-tx_param_bytes tx.tx_param h.0,
    length-tx_data_bytes_le tx.tx_data h.1,
    length-join fixed_sizes (all_fixed tx) (fixed_sized tx h),
  )

  -- The transaction that is read from the bytes of a transaction, with anything behind them, is that
  -- transaction, but for what the bytes do not carry: the delegated and the contract address are
  -- marked primary, the signature takes the sender's address and the scheme of its first byte, and
  -- the key takes the address and the scheme that the reader derives. What follows is left. The
  -- fields must fit their Go types and the limits of the encoding and of a policy, and a key must be
  -- absent or longer than an address.
  pub transaction_from_bytes-transaction_bytes :
      (tx : Transaction) (rest : List ℕ)
      → IsTypedTransaction tx
      → transaction_from_bytes pub_key_length pub_key_to_address (transaction_bytes tx ++ rest)
        ≡ ok (received tx, rest)
  unfolding transaction_from_bytes
  transaction_from_bytes-transaction_bytes tx rest h =
      let last : List ℕ = join (all_fixed tx) ++ signed_part tx rest in
      let sized : AreSized fixed_sizes (all_fixed tx) = fixed_sized tx h in
      rw
        (
          transaction_bytes_lem tx rest,
          not_below (long_enough tx (signed_part tx rest) h),
          tx_param_from_bytes-tx_param_bytes tx.tx_param (tx_data_bytes tx.tx_data ++ last) h.0,
          tx_data_from_bytes-tx_data_bytes pub_key_length pub_key_to_address tx.tx_data last h.1,
          not_below (length-join_le fixed_sizes (all_fixed tx) (signed_part tx rest) sized),
          cut-join fixed_sizes (all_fixed tx) (signed_part tx rest) sized,
          drop-join fixed_sizes (all_fixed tx) (signed_part tx rest) sized,
        )
        (read_rest_lem tx rest h)
