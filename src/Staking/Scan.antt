-- ===== src/Staking/Scan.antt =====
-- The locks of a staking account: the loops of `GetLockedAmount` and `Unstake` over the three parallel
-- slices of account/stakeAccount.go.
use qwid_node.Base.{
  Bool, List, Option, Result, [], err, false, if◌then◌else◌, length, none, ok, some, ℕ, ◌++◌, ◌+◌,
  ◌==◌, ◌||◌, ◌∷◌,
}
use qwid_node.Base.Int.{leb_ℤ, pos, ℤ}
use qwid_node.Base.Int64.{add64, mul64, sub64}
use qwid_node.Staking.{
  StakingAccount, StakingAccounts, StakingError, get_staking_account, index_out_of_range,
  wrong_length,
}

-- What is still locked of one entry.
unfoldable pub lock_left : ℤ → ℤ → ℤ → ℤ → ℤ
unfolding sub64 mul64
lock_left height amount release init = sub64 amount (mul64 (sub64 height init) release)

pub record LockScan : Type 0 where
  pub locked : ℤ
  pub to_remove : List ℕ

-- The loop over the locks, from index `ind`; `none` is an index beyond a shorter slice.
unfoldable pub scan_locks : ℤ → ℕ → List ℤ → List ℤ → List ℤ → LockScan → Option LockScan
unfolding lock_left add64
scan_locks height ind [] rs is acc = some acc
scan_locks height ind (a ∷ amounts) [] is acc = none
scan_locks height ind (a ∷ amounts) (r ∷ rs) [] acc = none
scan_locks height ind (a ∷ amounts) (r ∷ rs) (i ∷ is) acc =
    let lock = lock_left height a r i in
    scan_locks height (ind + 1) amounts rs is (
      if leb_ℤ lock (pos 0)
      then record { locked = add64 acc.locked (pos 0); to_remove = acc.to_remove ++ ind ∷ [] }
      else record { locked = add64 acc.locked lock; to_remove = acc.to_remove })

abbrev pub no_locks : LockScan
no_locks = record { locked = pos 0; to_remove = [] }

unfoldable pub scan_account : ℤ → StakingAccount → Option LockScan
unfolding scan_locks
scan_account height acc =
    scan_locks height 0 acc.locked_amount acc.release_per_block acc.locked_init_block no_locks

unfoldable pub get_locked_amount : List ℕ → ℤ → ℤ → StakingAccounts → Result StakingError ℤ
unfolding get_staking_account scan_account
get_locked_amount accb height n s =
    if length accb == 20
    then elim (scan_account height (get_staking_account accb n s)) [
      | none ↦ err index_out_of_range
      | some scan ↦ ok scan.locked
    ]
    else err wrong_length

abbrev pub marked : List ℕ → ℕ → Bool
marked [] i = false
marked (j ∷ js) i = j == i || marked js i

-- One of the three rebuilt slices, from index `ind`.
unfoldable pub keep_unmarked : List ℕ → ℕ → List ℤ → List ℤ
keep_unmarked remove ind [] = []
keep_unmarked remove ind (x ∷ xs) =
    let rest = keep_unmarked remove (ind + 1) xs in if marked remove ind then rest else x ∷ rest

unfoldable pub drop_released : List ℕ → StakingAccount → StakingAccount
unfolding keep_unmarked
drop_released remove acc = record acc {
  locked_amount = keep_unmarked remove 0 acc.locked_amount;
  release_per_block = keep_unmarked remove 0 acc.release_per_block;
  locked_init_block = keep_unmarked remove 0 acc.locked_init_block;
}
