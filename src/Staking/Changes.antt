-- ===== src/Staking/Changes.antt =====
-- The operations of account/stakeAccount.go that change an account.
use qwid_node.Base.{
  Bool, List, Option, Result, [], err, false, if◌then◌else◌, ite, length, none, not, ok, some, true,
  ℕ, ◌&&◌, ◌++◌, ◌==◌, ◌>>=◌, ◌∷◌,
}
use qwid_node.Base.Int.{eqb_ℤ, leb_ℤ, ltb_ℤ, pos, ℤ}
use qwid_node.Base.Int64.{add64, sub64}
use qwid_node.Types.{bytes_discrete}
use qwid_node.Delegated.{get_delegated_account_address}
use qwid_node.Staking.{
  StakingAccount, StakingAccounts, StakingDetail, StakingError, add_detail, get_staking_account,
  index_out_of_range, insufficient, insufficient_after_lock, insufficient_rewards,
  lock_above_amount, min_number_of_blocks_in_stake, negative_amount, negative_lock,
  negative_release, negative_reward, no_account, not_negative, release_above_lock, store_account,
  too_early, wrong_length,
}
use qwid_node.Staking.Scan.{LockScan, drop_released, scan_account}

pub record StakeArgs : Type 0 where
  pub amount : ℤ
  pub height : ℤ
  pub staking_time : ℤ
  pub operational : Bool
  pub locked_amount : ℤ
  pub release_per_block : ℤ
  pub third_party : Bool

-- The checks of `stake`, in their order: the first one that fails.
unfoldable pub stake_check : StakeArgs → StakingAccount → Option StakingError
unfolding add64
stake_check x acc =
    if ltb_ℤ x.amount (pos 0)
    then some negative_amount
    else if ltb_ℤ x.release_per_block (pos 0)
    then some negative_release
    else if ltb_ℤ x.locked_amount x.release_per_block
    then some release_above_lock
    else if ltb_ℤ x.locked_amount (pos 0)
    then some negative_lock
    else if ltb_ℤ x.amount x.locked_amount
    then some lock_above_amount
    else if not x.third_party
        && ltb_ℤ x.height (add64 acc.last_stake_height min_number_of_blocks_in_stake)
    then some too_early
    else none

-- The changes of `stake` before the detail is recorded.
unfoldable pub stake_changes : StakeArgs → StakingAccount → StakingAccount
unfolding add64
stake_changes x acc =
    let becomes = eqb_ℤ x.locked_amount (pos 0) && not acc.operational_account in
    let locks = ltb_ℤ (pos 0) x.locked_amount in
    record acc {
      operational_account = if becomes then x.operational else acc.operational_account;
      operational_since =
          if becomes && x.operational then x.staking_time else acc.operational_since;
      staked_balance = add64 acc.staked_balance x.amount;
      last_stake_height = if x.third_party then acc.last_stake_height else x.height;
      locked_init_block =
          if locks then acc.locked_init_block ++ x.height ∷ [] else acc.locked_init_block;
      locked_amount =
          if locks then acc.locked_amount ++ x.locked_amount ∷ [] else acc.locked_amount;
      release_per_block =
          if locks
          then acc.release_per_block ++ x.release_per_block ∷ []
          else acc.release_per_block;
    }

-- What `stake` writes once its checks have passed.
unfoldable pub staked_account : StakeArgs → List ℕ → ℤ → StakingAccount → StakingAccount
unfolding stake_changes add_detail get_delegated_account_address
staked_account x accb n acc =
    let sd : StakingDetail = record {
      amount = x.amount;
      reward = pos 0;
      last_updated = x.staking_time;
    } in
    let detailed = add_detail x.height sd (stake_changes x acc) in
    record detailed { delegated_account = get_delegated_account_address n; address = accb }

abbrev pub unless_failed : Option StakingError → StakingAccount → Result StakingError StakingAccount
unless_failed (some e) acc = err e
unless_failed none acc = ok acc

unfoldable pub stake_account :
    StakeArgs → List ℕ → ℤ → StakingAccount → Result StakingError StakingAccount
unfolding stake_check staked_account
stake_account x accb n acc = unless_failed (stake_check x acc) (staked_account x accb n acc)

unfoldable pub stake_with :
    StakeArgs → List ℕ → ℤ → StakingAccounts → Result StakingError StakingAccounts
unfolding get_staking_account stake_account store_account
stake_with x accb n s =
    if length accb == 20
    then (do
      acc ← stake_account x accb n (get_staking_account accb n s)
      store_account n acc (some x.staking_time) s)
    else err wrong_length

-- `Stake`
unfoldable pub stake :
    List ℕ → ℤ → ℤ → ℤ → ℤ → Bool → ℤ → ℤ → StakingAccounts → Result StakingError StakingAccounts
unfolding stake_with
stake accb amount height staking_time n operational locked_amount release_per_block =
    stake_with
      (record {
        amount = amount;
        height = height;
        staking_time = staking_time;
        operational = operational;
        locked_amount = locked_amount;
        release_per_block = release_per_block;
        third_party = false;
      })
      accb n

unfoldable pub stake_locked_for :
    List ℕ → ℤ → ℤ → ℤ → ℤ → ℤ → ℤ → StakingAccounts → Result StakingError StakingAccounts
unfolding stake_with
stake_locked_for accb amount height staking_time n locked_amount release_per_block =
    stake_with
      (record {
        amount = amount;
        height = height;
        staking_time = staking_time;
        operational = false;
        locked_amount = locked_amount;
        release_per_block = release_per_block;
        third_party = true;
      })
      accb n

abbrev pub if_left : List ℕ → StakingAccount → StakingAccount
if_left [] acc = acc
if_left (i ∷ is) acc = drop_released (i ∷ is) acc

-- The changes of `Unstake` before the detail is recorded.
unfoldable pub unstake_changes : ℤ → ℤ → List ℕ → StakingAccount → StakingAccount
unfolding add64 drop_released
unstake_changes amount height to_remove acc =
    let unlocked = if_left to_remove acc in
    let balance = add64 unlocked.staked_balance amount in
    let empty = eqb_ℤ balance (pos 0) in
    record unlocked {
      staked_balance = balance;
      last_stake_height = height;
      operational_account = if empty then false else unlocked.operational_account;
      operational_since = if empty then pos 0 else unlocked.operational_since;
    }

-- What `Unstake` does once the locks are known.
unfoldable pub unstake_scanned :
    ℤ → ℤ → ℤ → StakingAccount → LockScan → Result StakingError StakingAccount
unfolding unstake_changes add_detail sub64
unstake_scanned amount height staking_time acc scan =
    if ltb_ℤ (add64 (sub64 acc.staked_balance scan.locked) amount) (pos 0)
    then err insufficient_after_lock
    else ok (
        add_detail height (record { amount = amount; reward = pos 0; last_updated = staking_time })
          (unstake_changes amount height scan.to_remove acc))

unfoldable pub unstake_unlocked :
    ℤ → ℤ → ℤ → StakingAccount → Option LockScan → Result StakingError StakingAccount
unfolding unstake_scanned
unstake_unlocked amount height staking_time acc none = err index_out_of_range
unstake_unlocked amount height staking_time acc (some scan) =
    unstake_scanned amount height staking_time acc scan

unfoldable pub unstake_account :
    List ℕ → ℤ → ℤ → ℤ → StakingAccount → Result StakingError StakingAccount
unfolding scan_account unstake_unlocked
unstake_account accb amount height staking_time acc =
    if ite (bytes_discrete acc.address accb) false true
    then err no_account
    else if leb_ℤ (pos 0) amount
    then err not_negative
    else if ltb_ℤ height (add64 acc.last_stake_height min_number_of_blocks_in_stake)
    then err too_early
    else if ltb_ℤ (add64 acc.staked_balance amount) (pos 0)
    then err insufficient
    else unstake_unlocked amount height staking_time acc (scan_account height acc)

unfoldable pub unstake :
    List ℕ → ℤ → ℤ → ℤ → ℤ → StakingAccounts → Result StakingError StakingAccounts
unfolding get_staking_account unstake_account store_account
unstake accb amount height staking_time n s =
    if length accb == 20
    then (do
      acc ← unstake_account accb amount height staking_time (get_staking_account accb n s)
      store_account n acc (some staking_time) s)
    else err wrong_length

unfoldable pub reward_account :
    List ℕ → ℤ → ℤ → ℤ → StakingAccount → Result StakingError StakingAccount
unfolding add64 add_detail
reward_account accb reward height now acc =
    if ite (bytes_discrete acc.address accb) false true
    then err no_account
    else if ltb_ℤ reward (pos 0)
    then err negative_reward
    else ok (
        add_detail height (record { amount = pos 0; reward = reward; last_updated = now })
          (record acc { staking_rewards = add64 acc.staking_rewards reward }))

-- `Reward`
unfoldable pub reward :
    List ℕ → ℤ → ℤ → ℤ → ℤ → StakingAccounts → Result StakingError StakingAccounts
unfolding get_staking_account reward_account store_account
reward accb amount height now n s =
    if length accb == 20
    then (do
      acc ← reward_account accb amount height now (get_staking_account accb n s)
      store_account n acc none s)
    else err wrong_length

unfoldable pub withdraw_account :
    List ℕ → ℤ → ℤ → ℤ → StakingAccount → Result StakingError StakingAccount
unfolding add64 add_detail
withdraw_account accb amount height now acc =
    if ite (bytes_discrete acc.address accb) false true
    then err no_account
    else if leb_ℤ (pos 0) amount
    then err not_negative
    else if ltb_ℤ (add64 acc.staking_rewards amount) (pos 0)
    then err insufficient_rewards
    else ok (
        add_detail height (record { amount = pos 0; reward = amount; last_updated = now })
          (record acc { staking_rewards = add64 acc.staking_rewards amount }))

unfoldable pub withdraw_reward :
    List ℕ → ℤ → ℤ → ℤ → ℤ → StakingAccounts → Result StakingError StakingAccounts
unfolding get_staking_account withdraw_account store_account
withdraw_reward accb amount height now n s =
    if length accb == 20
    then (do
      acc ← withdraw_account accb amount height now (get_staking_account accb n s)
      store_account n acc none s)
    else err wrong_length
