-- ===== src/Tests/Stakes.antt =====
-- Staking accounts on concrete inputs.
use qwid_node.Staking.Eligible.{eligible_operator}
use qwid_node.Staking.Operators.{at_most, eligible_operator-top, has_operator}
use qwid_node.Types.{bytes_discrete}
use qwid_node.Base.{[], arith, err, false, if◌then◌else◌, ok, refl, some, true, ℕ, ◌==◌, ◌∷◌, ◌≡◌}
use qwid_node.Base.Int.{negsuc, pos, ℤ, ◌*ℤ◌, ◌+ℤ◌, ◌-ℤ◌, ◌≤ℤ◌}
use qwid_node.Base.Int64.{add64, mul64, of_word, sub64, to_word, wrap64}
use qwid_node.Staking.{
  StakingAccount, StakingAccounts, get_staking_account, insufficient_after_lock, too_early,
  zero_staking_account,
}
use qwid_node.Staking.Scan.{get_locked_amount, lock_left, scan_account, scan_locks}
use qwid_node.Staking.Changes.{
  StakeArgs, stake_account, staked_account, unstake_account, unstake_scanned, unstake_unlocked,
}
use qwid_node.Staking.Entries.{IsExact, locked_total, none_left, one_more}
use qwid_node.Staking.Locks.{AreExact, get_locked_amount_lem, locks}
use qwid_node.Staking.Unstaking.{
  IsHeld, IsUnstaked, unstake_account-IsUnstaked, unstake_account_succeeds,
}
use qwid_node.Staking.Guards.{stake-unstake_early}
use qwid_node.Staking.Gifts.{given_lock, unstake-stake_third_party}
use qwid_node.Tests.Samples.{alice}
use qwid_node.Base.Table.{get}

-- A balance of 1000, of which 100 were locked at height 0 and 300 at height 100, 10 released per block.
abbrev holder : StakingAccount
holder = record zero_staking_account {
  address = alice;
  staked_balance = pos 1000;
  locked_amount = pos 100 ∷ pos 300 ∷ [];
  release_per_block = pos 10 ∷ pos 10 ∷ [];
  locked_init_block = pos 0 ∷ pos 100 ∷ [];
  last_stake_height = pos 50;
}

still_280 : locked_total (pos 102) (locks holder) ≡ 280
unfolding locked_total
still_280 = refl

holder-AreExact : AreExact (pos 102) (locks holder)
holder-AreExact = (
  (omega arith, omega arith, omega arith, omega arith, omega arith, omega arith, omega arith),
  ((omega arith, omega arith, omega arith, omega arith, omega arith, omega arith, omega arith), tt),
)

holder-IsHeld : IsHeld (pos 102) holder
holder-IsHeld = (
  one_more (one_more none_left),
  holder-AreExact,
  rw still_280 (omega arith),
  omega arith,
  omega arith,
)

unstake_account_succeeds_example :
    (new : StakingAccount) × (unstake_account alice (negsuc 499) (pos 102) (pos 7) holder ≡ ok new)
    × IsUnstaked (pos 102) (negsuc 499) holder new
unstake_account_succeeds_example =
    unstake_account_succeeds (negsuc 499) (pos 102) (pos 7) holder holder-IsHeld (omega arith)
      (omega arith) (unfold add64 in refl) (rw still_280 (unfold ◌+ℤ◌ in (omega arith)))

unstake_account-IsUnstaked_example :
    IsUnstaked (pos 102) (negsuc 499) holder unstake_account_succeeds_example.0
unstake_account-IsUnstaked_example =
    unstake_account-IsUnstaked alice (negsuc 499) (pos 102) (pos 7) holder
      unstake_account_succeeds_example.0 holder-IsHeld (omega arith)
      unstake_account_succeeds_example.1

abbrev held_by_alice : StakingAccounts
held_by_alice n = record { all_staking_accounts = (alice, holder) ∷ []; stake_changed_at = pos 0 }

holder_found : get_staking_account alice (pos 1) held_by_alice ≡ holder
unfolding get_staking_account get bytes_discrete
holder_found = refl

get_locked_amount_lem_example :
    get_locked_amount alice (pos 102) (pos 1) held_by_alice
    ≡ ok (pos (locked_total (pos 102) (locks (get_staking_account alice (pos 1) held_by_alice))))
get_locked_amount_lem_example =
    get_locked_amount_lem alice (pos 102) (pos 1) held_by_alice refl
      (rw holder_found holder-IsHeld.0) (rw holder_found holder-IsHeld.1)
      (rw holder_found holder-IsHeld.2)

abbrev own : StakeArgs
own = record {
  amount = pos 100;
  height = pos 102;
  staking_time = pos 7;
  operational = false;
  locked_amount = pos 0;
  release_per_block = pos 0;
  third_party = false;
}

own_passes : stake_account own alice (pos 1) holder ≡ ok (staked_account own alice (pos 1) holder)
unfolding stake_account
own_passes = refl

stake-unstake_early_example :
    unstake_account alice (negsuc 0) (pos 120) (pos 9) (staked_account own alice (pos 1) holder)
    ≡ err too_early
stake-unstake_early_example =
    stake-unstake_early own alice (pos 1) holder (staked_account own alice (pos 1) holder)
      (negsuc 0) (pos 120) (pos 9) refl own_passes refl (unfold add64 in refl)

abbrev gift : StakeArgs
gift = record own { locked_amount = pos 50; release_per_block = pos 5; third_party = true }

gift_passes :
    stake_account gift alice (pos 1) holder ≡ ok (staked_account gift alice (pos 1) holder)
unfolding stake_account
gift_passes = refl

gift-IsExact : IsExact (pos 102) (given_lock gift)
gift-IsExact =
    (omega arith, omega arith, omega arith, omega arith, omega arith, omega arith, omega arith)

unstake-stake_third_party_example :
    (after : StakingAccount) × (unstake_account alice
        (negsuc 499)
        (pos 102)
        (pos 7)
        (staked_account gift alice (pos 1) holder)
      ≡ ok after)
    × IsUnstaked (pos 102) (negsuc 499) (staked_account gift alice (pos 1) holder) after
unstake-stake_third_party_example =
    unstake-stake_third_party gift alice (pos 1) holder (staked_account gift alice (pos 1) holder)
      unstake_account_succeeds_example.0 (negsuc 499) (pos 102) (pos 7) refl refl gift_passes
      holder-IsHeld gift-IsExact (omega arith) (omega arith) unstake_account_succeeds_example.1

-- A lock that was released long ago, at a height at which the product of the release and the blocks
-- since is above 2^63: the code counts it as locked.
abbrev long_released : StakingAccount
long_released = record zero_staking_account {
  address = alice;
  staked_balance = pos 30000000000000;
  locked_amount = pos 10000000000000 ∷ [];
  release_per_block = pos 10000000000000 ∷ [];
  locked_init_block = pos 0 ∷ [];
}

refused_by_overflow :
    unstake_account alice (negsuc 9999999999999) (pos 1000000) (pos 7) long_released
    ≡ err insufficient_after_lock
unfolding unstake_account add64 unstake_unlocked unstake_scanned scan_account scan_locks lock_left
    sub64 mul64 wrap64 to_word of_word ◌*ℤ◌ ◌-ℤ◌ ◌+ℤ◌ bytes_discrete
refused_by_overflow = refl

-- The same holder, operational in the delegated account 1; no other account has stake.
abbrev one_node : StakingAccounts
one_node n = record {
  all_staking_accounts =
      if n == 1 then (alice, record holder { operational_account = true }) ∷ [] else [];
  stake_changed_at = pos 5;
}

abbrev node_totals : ℕ → ℤ
node_totals id = if id == 1 then pos 1000 else pos 0

one_is_eligible : (eligible_operator (pos 500) node_totals one_node 1).1 ≡ true
unfolding eligible_operator
one_is_eligible = refl

eligible_operator-top_example :
    (top : ℤ) × (has_operator
        (one_node 1).all_staking_accounts
        (eligible_operator (pos 500) node_totals one_node 1).0
        top
      ≡ true)
    × (at_most (one_node 1).all_staking_accounts top ≡ true)
    × (pos 0 ≤ℤ top)
    × (pos 500 ≤ℤ node_totals 1)
eligible_operator-top_example =
    eligible_operator-top (pos 500) node_totals one_node 1 one_is_eligible

holder_listed : get bytes_discrete alice (held_by_alice 1).all_staking_accounts ≡ some holder
unfolding get bytes_discrete
holder_listed = refl
