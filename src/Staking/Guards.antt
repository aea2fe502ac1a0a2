-- ===== src/Staking/Guards.antt =====
-- The minimum time in stake, and the checks of a stake: `stake` and `Unstake` of account/stakeAccount.go.
use qwid_node.Types.{bytes_discrete}
use qwid_node.Base.Int64.{add64}
use qwid_node.Base.{List, Option, err, false, if_pos, ite, none, ok, refl, some, true, ℕ, ◌≡◌}
use qwid_node.Base.Int.{leb_ℤ, ltb_ℤ, pos, ℤ}
use qwid_node.Staking.{
  StakingAccount, StakingError, add_detail, min_number_of_blocks_in_stake, too_early,
}
use qwid_node.Staking.Changes.{
  StakeArgs, stake_account, stake_changes, stake_check, staked_account, unless_failed,
  unstake_account,
}

pub not_failed :
    (e : Option StakingError) (acc new : StakingAccount)
    → unless_failed e acc ≡ ok new
    → (e ≡ none) × (acc ≡ new)
not_failed none acc new h = (refl, cc)
not_failed (some e) acc new h = (cc, cc)

owner_found : (a : List ℕ) → ite (bytes_discrete a a) false true ≡ false
owner_found a = rw (if_pos (bytes_discrete a a) refl)

-- After a stake by the owner at some height, every unstaking of a negative amount less than 36 blocks later
-- is refused with the error for the minimum time in stake, whatever the locks and the balance are.
pub stake-unstake_early :
    (x : StakeArgs) (accb : List ℕ) (n : ℤ) (acc new : StakingAccount) (amount height time : ℤ)
    → x.third_party ≡ false
    → stake_account x accb n acc ≡ ok new
    → leb_ℤ (pos 0) amount ≡ false
    → ltb_ℤ height (add64 x.height min_number_of_blocks_in_stake) ≡ true
    → unstake_account accb amount height time new ≡ err too_early
unfolding stake_account unstake_account
stake-unstake_early x accb n acc new amount height time own h neg early =
    rw (← (not_failed (stake_check x acc) (staked_account x accb n acc) new h).1) (
      unfold staked_account in
      (unfold stake_changes in
        (unfold add_detail in (rw (owner_found accb) (rw (own, neg, early))))))
