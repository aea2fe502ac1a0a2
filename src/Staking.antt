-- ===== src/Staking.antt =====
-- Staking accounts: account/stakeAccount.go and `GetStakingAccountByAddressBytes` of
-- account/accountsStakingStates.go. The array StakingAccounts is a function of the index; an index
-- outside it is a panic in the source, and the error `index_out_of_range` here, as is an index into
-- a shorter one of the three parallel lock slices. The clock is an argument.
pub mod Scan
pub mod Eligible
pub mod Nodes
pub mod Reveals
pub mod Operators
pub mod Changes
pub mod Entries
pub mod Locks
pub mod Unstaking
pub mod Guards
pub mod Gifts
use qwid_node.Base.{
  Bool, List, Option, Result, [], err, false, if◌then◌else◌, ok, true, ℕ, ℕ_discrete, ◌&&◌, ◌++◌,
  ◌||◌, ◌∷◌,
}
use qwid_node.Base.Int.{eqb_ℤ, leb_ℤ, ltb_ℤ, pos, pos_part, ℤ, ℤ_discrete}
use qwid_node.Base.Int64.{add64, sub64}
use qwid_node.Base.Table.{Table, get, put}
use qwid_node.Base.Update.{upd, value_or}
use qwid_node.Types.{Address, Hash, bytes_discrete, zero_address, zero_hash}

pub record StakingDetail : Type 0 where
  pub amount : ℤ
  pub reward : ℤ
  pub last_updated : ℤ

pub record StakingAccount : Type 0 where
  pub staked_balance : ℤ
  pub staking_rewards : ℤ
  pub locked_amount : List ℤ
  pub release_per_block : List ℤ
  pub locked_init_block : List ℤ
  pub delegated_account : Address
  pub address : Address
  pub operational_account : Bool
  pub operational_since : ℤ
  pub last_stake_height : ℤ
  pub staking_details : Table ℤ (List StakingDetail)
  pub rand_commit : Hash
  pub rand_commit_height : ℤ

-- `StakingAccount{}`
abbrev pub zero_staking_account : StakingAccount
zero_staking_account = record {
  staked_balance = pos 0;
  staking_rewards = pos 0;
  locked_amount = [];
  release_per_block = [];
  locked_init_block = [];
  delegated_account = zero_address;
  address = zero_address;
  operational_account = false;
  operational_since = pos 0;
  last_stake_height = pos 0;
  staking_details = [];
  rand_commit = zero_hash;
  rand_commit_height = pos 0;
}

pub record StakingAccountsType : Type 0 where
  pub all_staking_accounts : Table Address StakingAccount
  pub stake_changed_at : ℤ

abbrev pub StakingAccounts : Type 0
StakingAccounts = ℕ → StakingAccountsType

pub data StakingError : Type 0 where
  wrong_length negative_amount negative_release release_above_lock negative_lock : StakingError
  lock_above_amount too_early no_account not_negative insufficient insufficient_after_lock :
      StakingError
  negative_reward insufficient_rewards index_out_of_range : StakingError

abbrev pub min_number_of_blocks_in_stake : ℤ
min_number_of_blocks_in_stake = pos 36

abbrev pub staking_details_retention_blocks : ℤ
staking_details_retention_blocks = pos 8640

abbrev pub in_array : ℤ → Bool
in_array n = leb_ℤ (pos 0) n && ltb_ℤ n (pos 256)

unfoldable pub get_staking_account : List ℕ → ℤ → StakingAccounts → StakingAccount
unfolding get
get_staking_account address n s =
    if in_array n
    then value_or zero_staking_account
        (get bytes_discrete address (s (pos_part n)).all_staking_accounts)
    else zero_staking_account

-- `StakingAccounts[n].AllStakingAccounts[acc.Address] = acc`, and `StakeChangedAt` if it is given.
unfoldable pub store_account :
    ℤ → StakingAccount → Option ℤ → StakingAccounts → Result StakingError StakingAccounts
unfolding put upd
store_account n acc changed_at s =
    if in_array n
    then ok (
        let old = s (pos_part n) in
        upd ℕ_discrete s (pos_part n) (record {
          all_staking_accounts = put bytes_discrete acc.address acc old.all_staking_accounts;
          stake_changed_at = value_or old.stake_changed_at changed_at;
        }))
    else err index_out_of_range

abbrev pub later : ℤ → ℤ → ℤ
later a b = if ltb_ℤ b a then a else b

-- The three assignments that fold a detail into the aggregate.
unfoldable pub fold_detail : StakingDetail → StakingDetail → StakingDetail
unfolding add64
fold_detail agg d = record {
  amount = add64 agg.amount d.amount;
  reward = add64 agg.reward d.reward;
  last_updated = later d.last_updated agg.last_updated;
}

unfoldable pub fold_details : StakingDetail → List StakingDetail → StakingDetail
unfolding fold_detail
fold_details agg [] = agg
fold_details agg (d ∷ ds) = fold_details (fold_detail agg d) ds

-- `h == 0 || h >= cutoff`
abbrev pub stays : ℤ → ℤ → Bool
stays cutoff h = eqb_ℤ h (pos 0) || leb_ℤ cutoff h

pub record Pruning : Type 0 where
  pub agg : StakingDetail
  pub folded : Bool
  pub left : Table ℤ (List StakingDetail)

-- The loop of `pruneStakingDetails` over the map.
unfoldable pub prune_loop : ℤ → Table ℤ (List StakingDetail) → StakingDetail → Pruning
unfolding fold_details
prune_loop cutoff [] agg = record { agg = agg; folded = false; left = [] }
prune_loop cutoff ((h, details) ∷ m) agg =
    let p = prune_loop cutoff m (if stays cutoff h then agg else fold_details agg details) in
    if stays cutoff h then record p { left = (h, details) ∷ p.left } else record p { folded = true }

abbrev pub zero_detail : StakingDetail
zero_detail = record { amount = pos 0; reward = pos 0; last_updated = pos 0 }

unfoldable pub prune_details : ℤ → Table ℤ (List StakingDetail) → Table ℤ (List StakingDetail)
unfolding get put prune_loop sub64
prune_details height m =
    let cutoff = sub64 height staking_details_retention_blocks in
    if leb_ℤ cutoff (pos 0)
    then m
    else (let agg = fold_details zero_detail (value_or [] (get ℤ_discrete (pos 0) m)) in
        let p = prune_loop cutoff m agg in
        if p.folded then put ℤ_discrete (pos 0) (p.agg ∷ []) p.left else p.left)

unfoldable pub prune_staking_details : ℤ → StakingAccount → StakingAccount
unfolding prune_details
prune_staking_details height acc = record acc {
  staking_details = prune_details height acc.staking_details;
}

-- `acc.StakingDetails[height] = append(acc.StakingDetails[height], sd)`, and the pruning after it.
unfoldable pub add_detail : ℤ → StakingDetail → StakingAccount → StakingAccount
unfolding get put prune_staking_details
add_detail height sd acc = prune_staking_details height (record acc {
  staking_details =
      put ℤ_discrete height (value_or [] (get ℤ_discrete height acc.staking_details) ++ sd ∷ [])
        acc.staking_details;
})
