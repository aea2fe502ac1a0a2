-- ===== src/Transactions/Reveals.antt =====
-- The check of a recovery reveal: `verifyRecoveryReveal` of transactionsDefinition/recovery.go.
use qwid_node.Base.{
  Bool, List, Option, Result, err, false, if◌then◌else◌, length, none, not, ok, some, true, ℕ, ◌&&◌,
  ◌==◌, ◌>>=◌, ◌||◌,
}
use qwid_node.Base.Int.{eqb_ℤ, ltb_ℤ, pos, ℤ}
use qwid_node.Base.Int64.{add64}
use qwid_node.Base.Table.{get}
use qwid_node.Types.{Account, Address, Hash, bytes_discrete, max_int64}
use qwid_node.Wire.Fields.{starts_with_zero}
use qwid_node.Recovery.{
  Accounts, effective_recovery_commit, effective_spare_commit, get_recovery_bind, has_commitments,
  is_expired, is_set,
}
use qwid_node.Transactions.{Transaction}
use qwid_node.Transactions.Secrets.{
  Outside, RevealError, address_open_message, address_open_payload, already_has_commitments,
  already_has_keys, already_registered, bad_key_length, bad_old_signature, bad_signature, expired,
  has_policy_fields, no_bind, no_commitment, no_key, not_self_signed, not_the_address,
  recovery_bind_delay_blocks, recovery_bind_key, recovery_commitment, recovery_payload,
  recovery_tag, same_bytes, too_early, unknown_account, wrong_key_address, wrong_payload,
  wrong_secret,
}
use qwid_node.Transactions.Recovering.{
  AddressReveal, is_address_reveal, no_policy_fields, parse_address_reveal, parse_recovery_reveal,
}

-- `pubkeys.NoHeightLimit`
abbrev pub no_height_limit : ℤ
no_height_limit = max_int64

abbrev pub known_account : Option Account → Result RevealError Account
known_account none = err unknown_account
known_account (some acc) = ok acc

abbrev pub same_flag : Bool → Bool → Bool
same_flag a b = if a then b else not b

module _ (o : Outside) (s : Accounts) where
  unfoldable pub recovery_height : ℤ → ℤ
  unfolding add64
  recovery_height as_of =
      if eqb_ℤ as_of no_height_limit then add64 o.height (pos 1) else add64 as_of (pos 1)

  unfoldable pub has_spare_cover : Address → ℤ → (Address → ℤ → Bool) → Bool
  unfolding get
  has_spare_cover identity as_of has_operator_keys =
      elim (get bytes_discrete identity s.all_accounts) [
        | none ↦ has_operator_keys identity as_of
        | some acc ↦
            if is_set acc.spare_commit || is_set acc.spare_pending_commit
            then true
            else has_operator_keys identity as_of
      ]

  unfoldable pub is_committed_spare : Address → Address → ℤ → Bool
  unfolding get effective_spare_commit recovery_height
  is_committed_spare identity key_address as_of =
      elim (get bytes_discrete identity s.all_accounts) [
        | none ↦ false
        | some acc ↦
            (let spare = effective_spare_commit acc (recovery_height as_of) in
              is_set spare && same_bytes spare key_address)
      ]

  -- The address of the revealed key, if the key may be revealed.
  unfoldable pub revealed_key : Transaction → ℤ → Result RevealError Address
  unfolding no_policy_fields
  revealed_key tx as_of =
      let pk = tx.tx_data.pubkey in
      let derived = (o.pub_key_to_address pk.byte_value pk.primary).byte_value in
      if not (no_policy_fields tx)
      then err has_policy_fields
      else if length pk.byte_value == 0
          || not (same_bytes pk.main_address.byte_value tx.tx_param.sender.byte_value)
      then err no_key
      else if not (o.is_valid_pub_key_length (length pk.byte_value) pk.primary)
      then err bad_key_length
      else if not (same_bytes pk.address.byte_value derived)
      then err wrong_key_address
      else if o.is_registered derived as_of
      then err already_registered
      else ok derived

  unfoldable pub verify_address_opening :
      Address → Address → AddressReveal → Account → ℤ → Result RevealError (Unit {0})
  unfolding has_commitments address_open_message
  verify_address_opening sender new_key r acc as_of =
      let message = address_open_message o sender new_key r.next.byte_value r.spare.byte_value in
      if o.has_keys sender as_of
      then err already_has_keys
      else if has_commitments acc
      then err already_has_commitments
      else if not (same_bytes (o.pub_key_to_address r.old_pub true).byte_value sender)
      then err not_the_address
      else if o.old_key_signs r.old_scheme message r.old_sig r.old_pub
      then ok tt
      else err bad_old_signature

  -- What opens the bind, and the payload that the bind must hold: of an address, ...
  unfoldable pub open_address :
      Transaction → Address → Account → ℤ → Result RevealError (List ℕ × Hash)
  unfolding parse_address_reveal verify_address_opening address_open_payload
  open_address tx new_key acc as_of = do
    r ← parse_address_reveal tx.tx_data.opt_data
    u ← verify_address_opening tx.tx_param.sender.byte_value new_key r acc as_of
    ok (
      r.old_pub,
      address_open_payload o tx.tx_param.sender.byte_value new_key r.next.byte_value
          r.spare.byte_value r.old_pub,
    )

  -- ... and of a commitment.
  unfoldable pub open_commitment :
      Transaction → Address → Account → ℤ → Result RevealError (List ℕ × Hash)
  unfolding parse_recovery_reveal effective_recovery_commit recovery_commitment recovery_payload
  open_commitment tx new_key acc height = do
    p ← parse_recovery_reveal tx.tx_data.opt_data
    let want = effective_recovery_commit acc height
    c ← (if is_set want then recovery_commitment o (p.0) else err no_commitment)
    if same_bytes c.byte_value want
        then ok
            (p.0, recovery_payload o tx.tx_param.sender.byte_value new_key (p.1).byte_value (p.0))
        else err wrong_secret

  unfoldable pub check_bind : Address → ℤ → List ℕ → Hash → Result RevealError (Unit {0})
  unfolding recovery_tag recovery_bind_key get_recovery_bind is_expired add64
  check_bind sender height secret payload =
      elim (get_recovery_bind (recovery_bind_key o sender (recovery_tag o secret)) s) [
        | none ↦ err no_bind
        | some bind ↦
            if not (same_bytes bind.identity sender)
            then err no_bind
            else if ltb_ℤ height (add64 bind.height recovery_bind_delay_blocks)
            then err too_early
            else if is_expired height bind
            then err expired
            else if same_bytes payload bind.payload
            then ok tt
            else err wrong_payload
      ]

  unfoldable pub check_signature : Transaction → Hash → Result RevealError (Unit {0})
  check_signature tx hash =
      let sig = tx.signature.byte_value in
      let pk = tx.tx_data.pubkey in
      if length sig == 0 || not (same_flag (starts_with_zero sig) pk.primary)
      then err not_self_signed
      else if o.signs hash sig pk.byte_value
      then ok tt
      else err bad_signature

  unfoldable pub open_reveal :
      Transaction → Address → Account → ℤ → Result RevealError (List ℕ × Hash)
  unfolding open_address open_commitment is_address_reveal recovery_height
  open_reveal tx new_key acc as_of =
      if is_address_reveal tx
      then open_address tx new_key acc as_of
      else open_commitment tx new_key acc (recovery_height as_of)

  -- `verifyRecoveryReveal`
  unfoldable pub verify_recovery_reveal : Transaction → Hash → ℤ → Result RevealError (Unit {0})
  unfolding revealed_key open_reveal check_bind check_signature get recovery_height
  verify_recovery_reveal tx hash as_of = do
    new_key ← revealed_key tx as_of
    acc ← known_account (get bytes_discrete tx.tx_param.sender.byte_value s.all_accounts)
    p ← open_reveal tx new_key acc as_of
    u ← check_bind tx.tx_param.sender.byte_value (recovery_height as_of) (p.0) (p.1)
    check_signature tx hash
