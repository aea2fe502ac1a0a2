-- ===== src/Accounts/Kinds.antt =====
-- An account is modified once (account/baseAccount.go).
use qwid_node.Base.{
  Bool-cases, List, ap, arith, err, false, if_pos, inl, inr, ltb, map, ok, refl, some, sym, ℕ, ◌<◌,
  ◌≡◌, ◌⊎◌,
}
use qwid_node.Base.Int.{ltb_ℤ, pos, ℤ, ◌<ℤ◌}
use qwid_node.Base.Table.{get, get-put, put}
use qwid_node.Types.{Account, bytes_discrete}
use qwid_node.Wire.Fields.{FullAddress}
use qwid_node.Accounts.{
  AccountError, AllAccounts, already_escrow, already_multi_sign, can_be_modified_account, is_escrow,
  is_multi_sign, modify_account_to_escrow, modify_account_to_multi_sign,
}

-- The account has a delay or several signatures.
abbrev pub IsSpecial : Account → Type 0
IsSpecial a = (pos 0 <ℤ a.transaction_delay) ⊎ (0 < a.multi_sign_number)

-- The table holds the account under its address, with a delay or several signatures, and it can no
-- longer be modified: both operations refuse it, whatever they are given, and so does the test on
-- the table.
abbrev pub IsModified : Account → AllAccounts → Type 0
IsModified a accounts =
    (get bytes_discrete a.address accounts ≡ some a)
    × IsSpecial a
    × (can_be_modified_account a.address accounts ≡ false)
    × ((delay : ℤ) (others : AllAccounts)
        → (e : AccountError) × (modify_account_to_escrow delay a others ≡ err e))
    × ((n : ℕ) (addresses : List FullAddress) (others : AllAccounts)
        → (e : AccountError) × (modify_account_to_multi_sign n addresses a others ≡ err e))

cannot_be_modified :
    (a : Account) (accounts : AllAccounts)
    → get bytes_discrete a.address accounts ≡ some a
    → IsSpecial a
    → can_be_modified_account a.address accounts ≡ false
unfolding can_be_modified_account
cannot_be_modified a accounts e h = ground (arith, e)

escrow_refused :
    (a : Account) (delay : ℤ) (others : AllAccounts)
    → IsSpecial a
    → (e : AccountError) × (modify_account_to_escrow delay a others ≡ err e)
unfolding modify_account_to_escrow
escrow_refused a delay others h = elim (Bool-cases (ltb_ℤ (pos 0) a.transaction_delay)) [
  | inl t ↦ (already_escrow, ground arith)
  | inr f ↦ (is_multi_sign, ground arith)
]

multi_sign_refused :
    (a : Account) (n : ℕ) (addresses : List FullAddress) (others : AllAccounts)
    → IsSpecial a
    → (e : AccountError) × (modify_account_to_multi_sign n addresses a others ≡ err e)
unfolding modify_account_to_multi_sign
multi_sign_refused a n addresses others h = elim (Bool-cases (ltb 0 a.multi_sign_number)) [
  | inl t ↦ (already_multi_sign, ground arith)
  | inr f ↦ (is_escrow, ground arith)
]

special-IsModified :
    (a b : Account) (accounts : AllAccounts)
    → a.address ≡ b.address
    → IsSpecial b
    → IsModified b (put bytes_discrete a.address b accounts)
special-IsModified a b accounts e h =
    let after : AllAccounts = put bytes_discrete a.address b accounts in
    let there : get bytes_discrete b.address after ≡ some b =
      rw
        (
          e,
          get-put bytes_discrete b.address b.address b accounts,
          if_pos (bytes_discrete b.address b.address) refl,
        )
        refl in
    (
      there,
      h,
      cannot_be_modified b after there h,
      (λ delay others. escrow_refused b delay others h),
      λ n addresses others. multi_sign_refused b n addresses others h,
    )

escrow_fields :
    (delay : ℤ) (a b : Account) (accounts after : AllAccounts)
    → modify_account_to_escrow delay a accounts ≡ ok (b, after)
    → (b ≡ record a { transaction_delay = delay })
      × (after ≡ put bytes_discrete a.address b accounts)
unfolding modify_account_to_escrow
escrow_fields delay a b accounts after e = ground arith

multi_sign_fields :
    (n : ℕ) (addresses : List FullAddress) (a b : Account) (accounts after : AllAccounts)
    → modify_account_to_multi_sign n addresses a accounts ≡ ok (b, after)
    → (b ≡ record a {
      multi_sign_number = n;
      multi_sign_addresses = map (λ x. x.byte_value) addresses;
    })
      × (after ≡ put bytes_discrete a.address b accounts)
      × (0 < n)
unfolding modify_account_to_multi_sign
multi_sign_fields n addresses a b accounts after e = ground arith

-- An account that was made an escrow account with a positive delay, or a multi-signature account, is
-- in the table under its address, with a delay or with signatures to give, and is not modified
-- again: both operations give an error for it, whatever they are called with, and the test on the
-- table says that it can not be modified.
pub modify_account-IsModified :
    (delay : ℤ) (n : ℕ) (addresses : List FullAddress) (a b : Account)
    (accounts after : AllAccounts)
    → pos 0 <ℤ delay
    → (modify_account_to_escrow delay a accounts ≡ ok (b, after))
      ⊎ (modify_account_to_multi_sign n addresses a accounts ≡ ok (b, after))
    → IsModified b after
modify_account-IsModified delay n addresses a b accounts after h (inl e) =
    let (eb, et) = escrow_fields delay a b accounts after e in
    rw et (special-IsModified a b accounts (ap (λ x. x.address) (sym eb)) (inl (rw eb h)))
modify_account-IsModified delay n addresses a b accounts after h (inr e) =
    let (eb, et, more) = multi_sign_fields n addresses a b accounts after e in
    rw et (special-IsModified a b accounts (ap (λ x. x.address) (sym eb)) (inr (rw eb more)))
