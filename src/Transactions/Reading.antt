-- ===== src/Transactions/Reading.antt =====
-- A transaction from its bytes: `GetFromBytes` of TxParam, TxData and Transaction, and `PubKey.Init`
-- of common/types.go.
use qwid_node.Base.{
  Bool, List, Result, [], drop, err, if◌then◌else◌, ite, leb, length, ltb, ok, suc, take, zero, ℕ,
  ◌++◌, ◌==◌, ◌>>=◌, ◌∷◌,
}
use qwid_node.Base.Int.{pos, ℤ}
use qwid_node.Types.{Address, bytes_discrete, zero_hash}
use qwid_node.Wire.{LenResult, bytes_with_len_to_bytes, fails, incorrect_length, parts, too_short}
use qwid_node.Wire.Slices.{int64_of}
use qwid_node.Wire.Fields.{
  FieldError, FullAddress, bytes_to_address, cut, get_hash_from_bytes, get_int16_from_byte,
  get_signature_from_bytes,
}
use qwid_node.Delegated.{all_zero}
use qwid_node.Transactions.{
  PubKey, Transaction, TxData, TxError, TxParam, bad_field, bad_length, bad_main_address,
  bad_signer, key_too_short, not_enough_bytes, threshold_too_high, too_many_signers,
  zero_full_address, zero_pub_key,
}
use qwid_node.Transactions.Bytes.{data_sizes, fixed_sizes, param_sizes}

-- A slice with its length in front, and what follows it.
abbrev pub part_of : LenResult → Result TxError (List ℕ × List ℕ)
part_of (parts x rest) = ok (x, rest)
part_of (fails too_short) = err not_enough_bytes
part_of (fails incorrect_length) = err bad_length

unfoldable pub read_part : List ℕ → Result TxError (List ℕ × List ℕ)
read_part b = part_of (bytes_with_len_to_bytes b)

-- An int64 in a part of its own, which must hold eight bytes at least.
unfoldable pub read_int64 : List ℕ → Result TxError (ℤ × List ℕ)
unfolding read_part
read_int64 b =
    read_part b
    >>= (λ p. if ltb (length (p.0)) 8 then err not_enough_bytes else ok (int64_of (p.0), p.1))

abbrev pub field {ℓ} : {A : Type ℓ} → Result FieldError A → Result TxError A
field (ok a) = ok a
field (err e) = err (bad_field e)

-- The parameters from their four fixed fields and the bytes behind them.
unfoldable pub read_param : List (List ℕ) → List ℕ → Result TxError (TxParam × List ℕ)
unfolding read_part
read_param (c ∷ s ∷ t ∷ n ∷ []) b = do
  sender ← field (bytes_to_address s)
  p ← read_part b
  ok (
    record {
      chain_id = get_int16_from_byte c;
      sender = sender;
      sending_time = int64_of t;
      nonce = int64_of n;
      multi_sign_tx = ite (bytes_discrete (p.0) zero_hash) zero_hash (get_hash_from_bytes (p.0));
    },
    p.1,
  )
read_param _ b = err not_enough_bytes

unfoldable pub tx_param_from_bytes : List ℕ → Result TxError (TxParam × List ℕ)
unfolding read_param
tx_param_from_bytes b =
    if ltb (length b) 40 then err not_enough_bytes else read_param (cut param_sizes b) (drop 39 b)

-- The identity that a key belongs to; one that is missing or zero is left zero.
unfoldable pub read_main_address : List ℕ → Result TxError FullAddress
read_main_address ma = elim (bytes_to_address ma) [
  | ok a ↦ ok a
  | err e ↦ if all_zero (drop 1 ma) then ok zero_full_address else err bad_main_address
]

-- The loop over the signers, by the number of addresses that may still come.
unfoldable pub read_signers : ℕ → List ℕ → List Address → Result TxError (List Address)
unfolding read_part
read_signers n [] addrs = ok addrs
read_signers zero (b ∷ bs) addrs =
    read_part (b ∷ bs)
    >>= (λ p. if length (p.0) == 20 then err too_many_signers else err bad_signer)
read_signers (suc n) (b ∷ bs) addrs = read_part (b ∷ bs) >>= (λ p.
    let rest = read_signers n (p.1) (addrs ++ p.0 ∷ []) in
    if length (p.0) == 20 then rest else err bad_signer)

-- The signers, of which there are at least as many as must sign.
unfoldable pub read_policy : ℕ → List ℕ → Result TxError (List Address)
unfolding read_signers
read_policy number [] = ok []
read_policy number (b ∷ bs) =
    read_signers 255 (b ∷ bs) []
    >>= (λ addrs. if ltb (length addrs) number then err threshold_too_high else ok addrs)

abbrev pub first_or : ℕ → List ℕ → ℕ
first_or d [] = d
first_or d (b ∷ bs) = b

module _ (pub_key_length : ℕ) (pub_key_to_address : List ℕ → Bool → FullAddress) where
  unfoldable pub init_pub_key : List ℕ → FullAddress → Result TxError PubKey
  init_pub_key b main_address =
      if leb (length b) 20
      then err key_too_short
      else (let primary = length b == pub_key_length in
          ok (record {
            byte_value = b;
            address = pub_key_to_address b primary;
            main_address = main_address;
            primary = primary;
          }))

  -- The key of a transaction; without one it stays `PubKey{}`.
  unfoldable pub read_pub_key : List ℕ → FullAddress → Result TxError PubKey
  unfolding init_pub_key
  read_pub_key [] main_address = ok zero_pub_key
  read_pub_key (b ∷ bs) main_address = init_pub_key (b ∷ bs) main_address

  -- The part of the data behind the amount.
  unfoldable pub read_data_body : FullAddress → ℤ → List ℕ → Result TxError TxData
  unfolding read_part read_int64 read_main_address read_pub_key read_policy
  read_data_body recipient amount bl = do
    opt ← read_part bl
    ma ← read_part (opt.1)
    main ← read_main_address (ma.0)
    pk ← read_part (ma.1)
    key ← read_pub_key (pk.0) main
    la ← read_int64 (pk.1)
    rpb ← read_int64 (la.1)
    dal ← read_part (rpb.1)
    delegated ← field (bytes_to_address (dal.0))
    etd ← read_int64 (dal.1)
    msn ← read_part (etd.1)
    signers ←
        (if ltb (length (msn.0)) 1
          then err not_enough_bytes
          else read_policy (first_or 0 (msn.0)) (msn.1))
    ok (record {
      recipient = recipient;
      amount = amount;
      opt_data = opt.0;
      pubkey = key;
      locked_amount = la.0;
      release_per_block = rpb.0;
      delegated_account_for_locking = delegated;
      escrow_transactions_delay = etd.0;
      multi_sign_number = first_or 0 (msn.0);
      multi_sign_addresses = signers;
    })

  -- A transaction that gives nothing but a recipient and an amount.
  abbrev pub plain_data : FullAddress → ℤ → TxData
  plain_data recipient amount = record {
    recipient = recipient;
    amount = amount;
    opt_data = [];
    pubkey = zero_pub_key;
    locked_amount = pos 0;
    release_per_block = pos 0;
    delegated_account_for_locking = zero_full_address;
    escrow_transactions_delay = pos 0;
    multi_sign_number = 0;
    multi_sign_addresses = [];
  }

  unfoldable pub read_data : List (List ℕ) → List ℕ → Result TxError (TxData × List ℕ)
  unfolding read_part read_data_body
  read_data (r ∷ a ∷ []) b = do
    recipient ← field (bytes_to_address r)
    p ← read_part b
    td ←
        (if all_zero (p.0)
          then ok (plain_data recipient (int64_of a))
          else read_data_body recipient (int64_of a) (p.0))
    ok (td, p.1)
  read_data _ b = err not_enough_bytes

  unfoldable pub tx_data_from_bytes : List ℕ → Result TxError (TxData × List ℕ)
  unfolding read_data
  tx_data_from_bytes b =
      if ltb (length b) 29 then err not_enough_bytes else read_data (cut data_sizes b) (drop 29 b)

  abbrev pub min_transaction_bytes : ℕ
  min_transaction_bytes = 160

  -- What stands behind the parameters and the data.
  unfoldable pub read_rest :
      TxParam → TxData → List (List ℕ) → List ℕ → Result TxError (Transaction × List ℕ)
  unfolding read_part
  read_rest tp td (h ∷ gp ∷ gu ∷ hash ∷ []) b = do
    vb ← read_part b
    signature ← field (get_signature_from_bytes (vb.0) tp.sender)
    contract ←
        (if ltb (length (vb.1)) 20
          then err not_enough_bytes
          else field (bytes_to_address (take 20 (vb.1))))
    logs ← read_part (drop 20 (vb.1))
    ok (
      record {
        tx_data = td;
        tx_param = tp;
        hash = get_hash_from_bytes hash;
        signature = signature;
        height = int64_of h;
        gas_price = int64_of gp;
        gas_usage = int64_of gu;
        output_logs = logs.0;
        contract_address = contract;
      },
      logs.1,
    )
  read_rest tp td _ b = err not_enough_bytes

  unfoldable pub transaction_from_bytes : List ℕ → Result TxError (Transaction × List ℕ)
  unfolding tx_param_from_bytes tx_data_from_bytes read_rest
  transaction_from_bytes b =
      if ltb (length b) min_transaction_bytes then err not_enough_bytes else (do
        tp ← tx_param_from_bytes b
        td ← tx_data_from_bytes (tp.1)
        if ltb (length (td.1)) 56
            then err not_enough_bytes
            else read_rest (tp.0) (td.0) (cut fixed_sizes (td.1)) (drop 56 (td.1)))
