-- ===== src/Transactions/Data.antt =====
-- The data of a transaction, written and read again: transactionsDefinition/tx.go.
use qwid_node.Base.{
  Bool, List, [], append_assoc, arith, drop, false, if◌then◌else◌, inl, inr, leb, length, ok, refl,
  true, ℕ, ◌++◌, ◌<◌, ◌==◌, ◌^◌, ◌∙◌, ◌∷◌, ◌≡◌, ◌≤◌, ◌⊎◌,
}
use qwid_node.Base.Int64.{Fits64}
use qwid_node.Wire.{bytes_to_len_and_bytes, get_byte_int64}
use qwid_node.Wire.RoundTrip.{length-get_byte_int64}
use qwid_node.Wire.Fields.{
  AreSized, FullAddress, bytes_to_address-get_bytes_with_primary, bytes_to_address_lem, cut-join,
  get_bytes_with_primary, join, join_end, join_front, length-get_bytes_with_primary,
}
use qwid_node.Wire.Slices.{AreAllSized, drop-join, int64_of_lem, length-join_le, not_below}
use qwid_node.Delegated.{all_zero}
use qwid_node.Transactions.{PubKey, TxData, zero_pub_key}
use qwid_node.Transactions.Reading.{
  init_pub_key, read_data, read_data_body, read_main_address, read_part, read_pub_key,
  tx_data_from_bytes,
}
use qwid_node.Transactions.Bytes.{
  data_body, data_fields, data_parts, data_sizes, signers_bytes, tx_data_bytes,
}
use qwid_node.Transactions.Parts.{
  all_zero-append, all_zero-bytes_to_len, read_int64-bytes_to_len, read_part-bytes_to_len,
  read_policy-signers_bytes,
}

pub not_short : {n : ℕ} → 20 < n → leb n 20 ≡ false
not_short h = ground arith

-- What Go's types, the limits of the encoding and those of a policy say of the data. A key is absent
-- or longer than an address.
abbrev pub IsTypedData : TxData → Type 0
IsTypedData md =
    (length md.recipient.byte_value ≡ 20)
    × Fits64 md.amount
    × (length md.opt_data < 2 ^ 32)
    × ((md.pubkey.byte_value ≡ []) ⊎ (20 < length md.pubkey.byte_value))
    × (length md.pubkey.byte_value < 2 ^ 32)
    × (length md.pubkey.main_address.byte_value ≡ 20)
    × Fits64 md.locked_amount
    × Fits64 md.release_per_block
    × (length md.delegated_account_for_locking.byte_value ≡ 20)
    × Fits64 md.escrow_transactions_delay
    × (length md.multi_sign_addresses ≤ 255)
    × AreAllSized 20 md.multi_sign_addresses
    × (0 < length md.multi_sign_addresses → md.multi_sign_number ≤ length md.multi_sign_addresses)
    × (length (data_body md) < 2 ^ 32)

all_zero-data_body :
    (md : TxData) → length md.pubkey.main_address.byte_value ≡ 20 → all_zero (data_body md) ≡ false
unfolding data_body
all_zero-data_body md h =
    let first : List ℕ = bytes_to_len_and_bytes md.opt_data in
    let second : List ℕ = bytes_to_len_and_bytes (get_bytes_with_primary md.pubkey.main_address) in
    let ends : List ℕ = signers_bytes md.multi_sign_addresses in
    rw
      (
        join_front first (drop 1 (data_parts md)) ends,
        all_zero-append first (join (drop 1 (data_parts md)) ++ ends),
        join_front second (drop 2 (data_parts md)) ends,
        all_zero-append second (join (drop 2 (data_parts md)) ++ ends),
        all_zero-bytes_to_len (get_bytes_with_primary md.pubkey.main_address)
            (length-get_bytes_with_primary md.pubkey.main_address h),
      )
      (ground arith)

data_sized : (md : TxData) → IsTypedData md → AreSized data_sizes (data_fields md)
data_sized md h =
    (length-get_bytes_with_primary md.recipient h.0, (length-get_byte_int64 md.amount, tt))

pub length-tx_data_bytes_le : (md : TxData) → IsTypedData md → 29 ≤ length (tx_data_bytes md)
unfolding tx_data_bytes
length-tx_data_bytes_le md h = length-join_le data_sizes (data_fields md) _ (data_sized md h)

module _ (pub_key_length : ℕ) (pub_key_to_address : List ℕ → Bool → FullAddress) where
  -- What a reader makes of a key: one that is absent loses the identity it is said to belong to.
  abbrev pub received_key : PubKey → PubKey
  received_key key =
      let primary = length key.byte_value == pub_key_length in
      if leb (length key.byte_value) 20 then zero_pub_key else record {
        byte_value = key.byte_value;
        address = pub_key_to_address key.byte_value primary;
        main_address = key.main_address;
        primary = primary;
      }

  -- An address that is written with no byte for its scheme is read as a primary one.
  abbrev pub as_primary : FullAddress → FullAddress
  as_primary a = record a { primary = true }

  abbrev pub received_data : TxData → TxData
  received_data md = record md {
    pubkey = received_key md.pubkey;
    delegated_account_for_locking = as_primary md.delegated_account_for_locking;
  }

  read_long_key :
      (b : List ℕ) (main : FullAddress)
      → 20 < length b
      → read_pub_key pub_key_length pub_key_to_address b main
        ≡ init_pub_key pub_key_length pub_key_to_address b main
  unfolding read_pub_key
  read_long_key [] main h = absurd (omega arith)
  read_long_key (b ∷ bs) main h = refl

  read_pub_key_lem :
      (key : PubKey)
      → (key.byte_value ≡ []) ⊎ (20 < length key.byte_value)
      → read_pub_key pub_key_length pub_key_to_address key.byte_value key.main_address
        ≡ ok (received_key key)
  unfolding read_pub_key init_pub_key
  read_pub_key_lem key (inl e) = rw e refl
  read_pub_key_lem key (inr h) =
      read_long_key key.byte_value key.main_address h ∙ rw (not_short h) refl

  read_main_address_lem :
      (a : FullAddress)
      → length a.byte_value ≡ 20
      → read_main_address (get_bytes_with_primary a) ≡ ok a
  unfolding read_main_address
  read_main_address_lem a e =
      rw (bytes_to_address-get_bytes_with_primary a e, read_main_address) refl

  read_data_body-data_body :
      (md : TxData)
      → IsTypedData md
      → read_data_body pub_key_length pub_key_to_address md.recipient md.amount (data_body md)
        ≡ ok (received_data md)
  unfolding read_data_body data_body
  read_data_body-data_body md (h1, h2, h3, h4, h5, h6, h7, h8, h9, h10, h11, h12, h13, h14) =
      let ends : List ℕ = signers_bytes md.multi_sign_addresses in
      let after : ℕ → List ℕ = λ (n : ℕ). join (drop n (data_parts md)) ++ ends in
      let part : (b : List ℕ) (n : ℕ)
          → length b < 2 ^ 32
          → read_part (bytes_to_len_and_bytes b ++ after n) ≡ ok (b, after n) =
        λ (b : List ℕ) (n : ℕ) (l : length b < 2 ^ 32). read_part-bytes_to_len b (after n) l in
      rw
        (
          join_front (bytes_to_len_and_bytes md.opt_data) (drop 1 (data_parts md)) ends,
          part md.opt_data 1 h3,
          join_front (bytes_to_len_and_bytes (get_bytes_with_primary md.pubkey.main_address))
              (drop 2 (data_parts md)) ends,
          part (get_bytes_with_primary md.pubkey.main_address) 2
              (omega (arith, length-get_bytes_with_primary md.pubkey.main_address h6)),
          read_main_address_lem md.pubkey.main_address h6,
          join_front (bytes_to_len_and_bytes md.pubkey.byte_value) (drop 3 (data_parts md)) ends,
          part md.pubkey.byte_value 3 h5,
          read_pub_key_lem md.pubkey h4,
          join_front (bytes_to_len_and_bytes (get_byte_int64 md.locked_amount))
              (drop 4 (data_parts md)) ends,
          read_int64-bytes_to_len md.locked_amount (after 4) h7,
          join_front (bytes_to_len_and_bytes (get_byte_int64 md.release_per_block))
              (drop 5 (data_parts md)) ends,
          read_int64-bytes_to_len md.release_per_block (after 5) h8,
          join_front (bytes_to_len_and_bytes md.delegated_account_for_locking.byte_value)
              (drop 6 (data_parts md)) ends,
          part md.delegated_account_for_locking.byte_value 6 (omega (arith, h9)),
          bytes_to_address_lem md.delegated_account_for_locking.byte_value h9,
          join_front (bytes_to_len_and_bytes (get_byte_int64 md.escrow_transactions_delay))
              (drop 7 (data_parts md)) ends,
          read_int64-bytes_to_len md.escrow_transactions_delay (after 7) h10,
          join_front (bytes_to_len_and_bytes (md.multi_sign_number ∷ [])) [] ends,
          part (md.multi_sign_number ∷ []) 8 (omega arith),
          join_end ends,
          read_policy-signers_bytes md.multi_sign_number md.multi_sign_addresses h11 h12 h13,
        )
        refl

  read_data_lem :
      (md : TxData) (rest : List ℕ)
      → IsTypedData md
      → read_data pub_key_length pub_key_to_address
          (data_fields md)
          (bytes_to_len_and_bytes (data_body md) ++ rest)
        ≡ ok (received_data md, rest)
  unfolding read_data
  read_data_lem md rest h =
      rw
        (
          bytes_to_address-get_bytes_with_primary md.recipient h.0,
          read_part-bytes_to_len (data_body md) rest h.13,
          all_zero-data_body md h.5,
          int64_of_lem md.amount h.1,
          read_data_body-data_body md h,
        )
        refl

  tx_data_bytes_lem :
      (md : TxData) (rest : List ℕ)
      → IsTypedData md
      → tx_data_bytes md ++ rest
        ≡ join (data_fields md) ++ (bytes_to_len_and_bytes (data_body md) ++ rest)
  unfolding tx_data_bytes
  tx_data_bytes_lem md rest h =
      rw (all_zero-data_body md h.5, tx_data_bytes)
        (append_assoc (join (data_fields md)) (bytes_to_len_and_bytes (data_body md)) rest)

  pub tx_data_from_bytes-tx_data_bytes :
      (md : TxData) (rest : List ℕ)
      → IsTypedData md
      → tx_data_from_bytes pub_key_length pub_key_to_address (tx_data_bytes md ++ rest)
        ≡ ok (received_data md, rest)
  unfolding tx_data_from_bytes
  tx_data_from_bytes-tx_data_bytes md rest h =
      let more : List ℕ = bytes_to_len_and_bytes (data_body md) ++ rest in
      let sized : AreSized data_sizes (data_fields md) = data_sized md h in
      rw
        (
          tx_data_bytes_lem md rest h,
          not_below (length-join_le data_sizes (data_fields md) more sized),
          cut-join data_sizes (data_fields md) more sized,
          drop-join data_sizes (data_fields md) more sized,
        )
        (read_data_lem md rest h)
