-- ===== src/Staking/Nodes.antt =====
-- The RANDAO commitments of operators, and the stakers of one delegated account
-- (account/stakeAccount.go). An index outside the array panics in the source, and is the error
-- `index_out_of_range` here.
use qwid_node.Base.{
  Bool, List, Option, Result, [], err, if◌then◌else◌, none, ok, some, ℕ, ℕ_discrete, ◌&&◌, ◌++◌,
  ◌||◌, ◌∷◌,
}
use qwid_node.Base.Int.{eqb_ℤ, ltb_ℤ, pos, pos_part, ℤ}
use qwid_node.Base.Int64.{add64}
use qwid_node.Base.Table.{Table, get, put}
use qwid_node.Base.Update.{upd}
use qwid_node.Types.{Account, Address, Hash, bytes_discrete, zero_account, zero_hash}
use qwid_node.Staking.{
  StakingAccount, StakingAccounts, StakingError, in_array, index_out_of_range, no_account,
}
use qwid_node.Staking.Eligible.{bytes_less}

pub record RandCommit : Type 0 where
  pub commit : Hash
  pub height : ℤ

abbrev pub commit_of : Option StakingAccount → RandCommit
commit_of none = record { commit = zero_hash; height = pos 0 }
commit_of (some sa) = record { commit = sa.rand_commit; height = sa.rand_commit_height }

unfoldable pub get_rand_commit : ℤ → Address → StakingAccounts → Result StakingError RandCommit
unfolding get
get_rand_commit n a s =
    if in_array n
    then ok (commit_of (get bytes_discrete a (s (pos_part n)).all_staking_accounts))
    else err index_out_of_range

abbrev pub with_commit : Hash → ℤ → StakingAccount → StakingAccount
with_commit commit height sa = record sa { rand_commit = commit; rand_commit_height = height }

-- `StakingAccounts[n].AllStakingAccounts[address] = sa`
unfoldable pub replace_staker : ℕ → Address → StakingAccount → StakingAccounts → StakingAccounts
unfolding put upd
replace_staker n a sa s =
    upd ℕ_discrete s n
      (record (s n) { all_staking_accounts = put bytes_discrete a sa (s n).all_staking_accounts })

unfoldable pub set_rand_commit :
    ℤ → Address → Hash → ℤ → StakingAccounts → Result StakingError StakingAccounts
unfolding get replace_staker
set_rand_commit n a commit height s =
    if in_array n
    then elim (get bytes_discrete a (s (pos_part n)).all_staking_accounts) [
      | none ↦ err no_account
      | some sa ↦ ok (replace_staker (pos_part n) a (with_commit commit height sa) s)
    ]
    else err index_out_of_range

-- The accounts, their sum and the operator that the loop has gathered so far, and since when the
-- operator is one.
pub record Stakers : Type 0 where
  pub accounts : List Account
  pub sum : ℤ
  pub operator : Account
  pub since : ℤ

abbrev pub staker_account : StakingAccount → Account
staker_account sa = record zero_account { balance = sa.staked_balance; address = sa.address }

-- Whether the loop takes this staker for the operator.
unfoldable pub takes_over : StakingAccount → Stakers → Bool
unfolding bytes_less
takes_over sa g =
    sa.operational_account
    && (ltb_ℤ g.operator.balance sa.staked_balance
        || (eqb_ℤ g.operator.balance sa.staked_balance
            && (ltb_ℤ sa.operational_since g.since
                || (eqb_ℤ sa.operational_since g.since
                    && bytes_less sa.address g.operator.address))))

unfoldable pub gather_loop : Table Address StakingAccount → Stakers → Stakers
unfolding takes_over add64
gather_loop [] g = g
gather_loop ((a, sa) ∷ m) g =
    let takes = takes_over sa g in
    gather_loop m (record {
      accounts = g.accounts ++ staker_account sa ∷ [];
      sum = add64 g.sum sa.staked_balance;
      operator =
          if takes
          then record g.operator { balance = sa.staked_balance; address = sa.address }
          else g.operator;
      since = if takes then sa.operational_since else g.since;
    })

unfoldable pub get_staked_in_delegated_account : ℤ → StakingAccounts → Result StakingError Stakers
unfolding gather_loop
get_staked_in_delegated_account n s =
    if in_array n
    then ok (
        gather_loop (s (pos_part n)).all_staking_accounts
          (record { accounts = []; sum = pos 0; operator = zero_account; since = pos 0 }))
    else err index_out_of_range
