-- ===== src/Transactions/Hashed.antt =====
-- The hash of a transaction that is sent and received: `CalcHashAndSet` and
-- `HashMatchesBody` of transactionsDefinition/transaction.go.
use qwid_node.Base.{
  Bool, List, [], ap, false, if_pos, inl, inr, length, ok, refl, sym, true, ℕ, ◌++◌, ◌<◌, ◌∙◌, ◌≡◌,
  ◌⊎◌,
}
use qwid_node.Types.{Hash, bytes_discrete}
use qwid_node.Wire.Fields.{FullAddress}
use qwid_node.Transactions.{PubKey, Transaction, TxData, zero_full_address}
use qwid_node.Transactions.Reading.{transaction_from_bytes}
use qwid_node.Transactions.Bytes.{
  calc_hash_and_set, data_body, get_bytes_without_signature, hash_matches_body, hash_preimage,
  transaction_bytes, tx_data_bytes,
}
use qwid_node.Transactions.Data.{not_short, received_data, received_key}
use qwid_node.Transactions.RoundTrip.{
  IsTypedTransaction, received, transaction_from_bytes-transaction_bytes,
}

-- A transaction without a key names no identity for it.
abbrev pub IsKeyed : PubKey → Type 0
IsKeyed key =
    ((key.byte_value ≡ []) × (key.main_address ≡ zero_full_address)) ⊎ (20 < length key.byte_value)

module _ (pub_key_length : ℕ) (pub_key_to_address : List ℕ → Bool → FullAddress) where
  received_key_same :
      (key : PubKey)
      → IsKeyed key
      → ((received_key pub_key_length pub_key_to_address key).byte_value ≡ key.byte_value)
        × ((received_key pub_key_length pub_key_to_address key).main_address ≡ key.main_address)
  received_key_same key (inl (e, m)) = rw (e, m) (refl, refl)
  received_key_same key (inr h) = rw (not_short h) (refl, refl)

  received_data_same :
      (md : TxData)
      → IsKeyed md.pubkey
      → tx_data_bytes (received_data pub_key_length pub_key_to_address md) ≡ tx_data_bytes md
  unfolding tx_data_bytes data_body
  received_data_same md h = let (key, main) = received_key_same md.pubkey h in rw (key, main) refl

  hash_preimage-received :
      (tx : Transaction)
      → IsKeyed tx.tx_data.pubkey
      → hash_preimage (received pub_key_length pub_key_to_address tx) ≡ hash_preimage tx
  unfolding hash_preimage get_bytes_without_signature
  hash_preimage-received tx h = rw (received_data_same tx.tx_data h) refl

  module _ (calc_hash : List ℕ → Hash) where
    preimage_set :
        (tx : Transaction) → hash_preimage (calc_hash_and_set calc_hash tx) ≡ hash_preimage tx
    unfolding hash_preimage get_bytes_without_signature calc_hash_and_set
    preimage_set tx = refl

    hash_set :
        (tx : Transaction) → (calc_hash_and_set calc_hash tx).hash ≡ calc_hash (hash_preimage tx)
    unfolding calc_hash_and_set
    hash_set tx = refl

    key_set :
        (tx : Transaction) → (calc_hash_and_set calc_hash tx).tx_data.pubkey ≡ tx.tx_data.pubkey
    unfolding calc_hash_and_set
    key_set tx = refl

    matches :
        (r : Transaction)
        → r.hash ≡ calc_hash (hash_preimage r)
        → hash_matches_body calc_hash r ≡ true
    unfolding hash_matches_body
    matches r e = if_pos (bytes_discrete (calc_hash (hash_preimage r)) r.hash) (sym e) true false

    -- A transaction whose hash its author has set is read from its bytes as one whose hash is that of
    -- its body, whatever follows the bytes. The fields must fit their Go types and the limits of the
    -- encoding and of a policy, and a transaction without a key must name no identity for it.
    pub hash_matches_body-received :
        (tx : Transaction) (rest : List ℕ)
        → IsTypedTransaction (calc_hash_and_set calc_hash tx)
        → IsKeyed tx.tx_data.pubkey
        → (r : Transaction) × (transaction_from_bytes pub_key_length pub_key_to_address
              (transaction_bytes (calc_hash_and_set calc_hash tx) ++ rest)
            ≡ ok (r, rest))
          × (hash_matches_body calc_hash r ≡ true)
    hash_matches_body-received tx rest h k =
        let set : Transaction = calc_hash_and_set calc_hash tx in
        let r : Transaction = received pub_key_length pub_key_to_address set in
        let same : hash_preimage r ≡ hash_preimage tx =
          hash_preimage-received set (rw (key_set tx) k) ∙ preimage_set tx in
        (
          r,
          transaction_from_bytes-transaction_bytes pub_key_length pub_key_to_address set rest h,
          matches r (hash_set tx ∙ ap calc_hash (sym same)),
        )
