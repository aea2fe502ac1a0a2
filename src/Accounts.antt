-- ===== src/Accounts.antt =====
-- Accounts with a delay or with several signatures: account/baseAccount.go. `Accounts.AllAccounts` is
-- a table; an operation gives the account it was called on and the table after it.
pub mod Bytes
pub mod RoundTrip
pub mod Kinds
use qwid_node.Base.{
  Bool, List, Result, err, false, if◌then◌else◌, length, ltb, map, none, ok, some, ℕ, ◌&&◌, ◌==◌,
}
use qwid_node.Base.Int.{eqb_ℤ, ltb_ℤ, pos, ℤ}
use qwid_node.Base.Table.{Table, get, put}
use qwid_node.Types.{Account, Address, bytes_discrete}
use qwid_node.Wire.Fields.{FullAddress}

abbrev pub AllAccounts : Type 0
AllAccounts = Table Address Account

pub data AccountError : Type 0 where
  already_escrow is_multi_sign delay_zero delay_too_long : AccountError
  already_multi_sign is_escrow no_approvals too_many_approvals : AccountError

-- `common.MaxTransactionDelay`
abbrev pub max_transaction_delay : ℤ
max_transaction_delay = pos 60480

unfoldable pub can_be_modified_account : Address → AllAccounts → Bool
can_be_modified_account address accounts = elim (get bytes_discrete address accounts) [
  | none ↦ false
  | some a ↦ a.multi_sign_number == 0 && eqb_ℤ a.transaction_delay (pos 0)
]

unfoldable pub modify_account_to_escrow :
    ℤ → Account → AllAccounts → Result AccountError (Account × AllAccounts)
modify_account_to_escrow delay a accounts =
    let changed = record a { transaction_delay = delay } in
    if ltb_ℤ (pos 0) a.transaction_delay
    then err already_escrow
    else if ltb 0 a.multi_sign_number
    then err is_multi_sign
    else if eqb_ℤ delay (pos 0)
    then err delay_zero
    else if ltb_ℤ max_transaction_delay delay
    then err delay_too_long
    else ok (changed, put bytes_discrete a.address changed accounts)

unfoldable pub modify_account_to_multi_sign :
    ℕ → List FullAddress → Account → AllAccounts → Result AccountError (Account × AllAccounts)
modify_account_to_multi_sign num_approvals addresses a accounts =
    let changed = record a {
      multi_sign_number = num_approvals;
      multi_sign_addresses = map (λ x. x.byte_value) addresses;
    } in
    if ltb 0 a.multi_sign_number
    then err already_multi_sign
    else if ltb_ℤ (pos 0) a.transaction_delay
    then err is_escrow
    else if num_approvals == 0
    then err no_approvals
    else if ltb (length addresses) num_approvals
    then err too_many_approvals
    else ok (changed, put bytes_discrete a.address changed accounts)
