-- ===== src/Transactions/Recovering.antt =====
-- The data of recovery transactions: transactionsDefinition/recovery.go.
use qwid_node.Base.{
  Bool, List, Result, drop, err, false, if◌then◌else◌, leb, length, not, ok, take, true, ℕ, ◌&&◌,
  ◌++◌, ◌==◌, ◌>>=◌, ◌||◌,
}
use qwid_node.Base.Int.{eqb_ℤ, pos}
use qwid_node.Types.{Address, Hash, zero_address, zero_hash}
use qwid_node.Wire.{bytes_to_len_and_bytes}
use qwid_node.Wire.Fields.{FullAddress, bytes_to_address}
use qwid_node.Delegated.{int_delegated_account_from_address}
use qwid_node.Transactions.{Transaction, TxError, bad_field}
use qwid_node.Transactions.Reading.{field, read_part}
use qwid_node.Transactions.Secrets.{
  RevealError, bad_part, has_policy_fields, is_recovery_address, no_identity, recovery_bind_address,
  recovery_reveal_address, same_bytes, wrong_length,
}

unfoldable pub no_policy_fields : Transaction → Bool
no_policy_fields tx =
    let d = tx.tx_data in
    eqb_ℤ d.amount (pos 0)
    && eqb_ℤ d.locked_amount (pos 0)
    && eqb_ℤ d.escrow_transactions_delay (pos 0)
    && (d.multi_sign_number == 0)
    && (length d.multi_sign_addresses == 0)
    && same_bytes tx.tx_param.multi_sign_tx zero_hash

unfoldable pub is_recovery_bind : Transaction → Bool
is_recovery_bind tx = same_bytes tx.tx_data.recipient.byte_value recovery_bind_address

unfoldable pub is_recovery_reveal : Transaction → Bool
is_recovery_reveal tx = same_bytes tx.tx_data.recipient.byte_value recovery_reveal_address

unfoldable pub is_address_reveal : Transaction → Bool
unfolding is_recovery_reveal
is_address_reveal tx = is_recovery_reveal tx && not (length tx.tx_data.opt_data == 52)

unfoldable pub is_commitment_registration : Transaction → Bool
unfolding no_policy_fields int_delegated_account_from_address
is_commitment_registration tx =
    let r = tx.tx_data.recipient in
    let n = length tx.tx_data.opt_data in
    if length tx.tx_data.pubkey.byte_value == 0 || not (no_policy_fields tx)
    then false
    else if not (n == 0) && not (n == 20)
    then false
    else if same_bytes r.byte_value tx.tx_param.sender.byte_value || is_recovery_address r
    then false
    else if same_bytes r.byte_value zero_address
    then false
    else (elim (int_delegated_account_from_address r.byte_value) [ err e ↦ true | ok k ↦ false ])

unfoldable pub commitment_values : Transaction → Address × Address
commitment_values tx = (
  tx.tx_data.recipient.byte_value,
  if length tx.tx_data.opt_data == 20 then tx.tx_data.opt_data else zero_address,
)

unfoldable pub build_recovery_bind_opt_data : Address → Hash → Hash → List ℕ
build_recovery_bind_opt_data identity tag payload = identity ++ (tag ++ payload)

unfoldable pub parse_recovery_bind : List ℕ → Result RevealError (FullAddress × (Hash × Hash))
parse_recovery_bind opt =
    if length opt == 84
    then (elim (bytes_to_address (take 20 opt)) [
      | err e ↦ err (bad_part (bad_field e))
      | ok identity ↦ ok (identity, (take 32 (drop 20 opt), drop 52 opt))
    ])
    else err wrong_length

unfoldable pub build_recovery_reveal_opt_data : List ℕ → Address → List ℕ
build_recovery_reveal_opt_data secret next = secret ++ next

unfoldable pub parse_recovery_reveal : List ℕ → Result RevealError (List ℕ × FullAddress)
parse_recovery_reveal opt =
    if length opt == 52
    then (elim (bytes_to_address (drop 32 opt)) [
      | err e ↦ err (bad_part (bad_field e))
      | ok next ↦ ok (take 32 opt, next)
    ])
    else err wrong_length

pub record AddressReveal : Type 0 where
  pub next : FullAddress
  pub spare : FullAddress
  pub old_scheme : List ℕ
  pub old_pub : List ℕ
  pub old_sig : List ℕ

unfoldable pub build_address_reveal_opt_data : AddressReveal → List ℕ
build_address_reveal_opt_data r =
    r.next.byte_value
    ++ (r.spare.byte_value
        ++ (bytes_to_len_and_bytes r.old_scheme
            ++ (bytes_to_len_and_bytes r.old_pub ++ bytes_to_len_and_bytes r.old_sig)))

abbrev pub part {ℓ} : {A : Type ℓ} → Result TxError A → Result RevealError A
part (ok a) = ok a
part (err e) = err (bad_part e)

unfoldable pub parse_address_reveal : List ℕ → Result RevealError AddressReveal
unfolding read_part
parse_address_reveal opt = if leb (length opt) 40 then err wrong_length else (do
  next ← part (field (bytes_to_address (take 20 opt)))
  spare ← part (field (bytes_to_address (take 20 (drop 20 opt))))
  scheme ← part (read_part (drop 40 opt))
  key ← part (read_part (scheme.1))
  sig ← part (read_part (key.1))
  if length (sig.1) == 0
      then ok (record {
        next = next;
        spare = spare;
        old_scheme = scheme.0;
        old_pub = key.0;
        old_sig = sig.0;
      })
      else err wrong_length)

unfoldable pub verify_recovery_bind_shape : Transaction → Result RevealError (Unit {0})
unfolding no_policy_fields parse_recovery_bind
verify_recovery_bind_shape tx =
    if not (no_policy_fields tx) || not (length tx.tx_data.pubkey.byte_value == 0)
    then err has_policy_fields
    else (do
      p ← parse_recovery_bind tx.tx_data.opt_data
      if same_bytes (p.0).byte_value zero_address then err no_identity else ok tt)
