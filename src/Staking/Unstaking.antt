-- ===== src/Staking/Unstaking.antt =====
-- What `Unstake` of account/stakeAccount.go does to the locks and the balance of an account.
use qwid_node.Types.{bytes_discrete}
use qwid_node.Staking.Scan.{drop_released, scan_account}
use qwid_node.Base.{
  Bool, List, Result, ap, err, false, if_pos, if◌then◌else◌, ite, ok, refl, sym, true, ℕ, ◌<◌, ◌^◌,
  ◌∙◌, ◌≡◌,
}
use qwid_node.Base.Int.{
  int_laws, le_of_ltb, leb_of_lt, leb_ℤ, lt_of_leb, ltb_of_le, ltb_ℤ, neg_part, pos, pos_part, ℤ,
  ◌+ℤ◌, ◌-ℤ◌, ◌<ℤ◌, ◌≤ℤ◌,
}
use qwid_node.Base.Int64.{Fits64, add64, add64_exact, sub64, sub64_exact}
use qwid_node.Staking.{
  StakingAccount, StakingError, add_detail, insufficient, min_number_of_blocks_in_stake, no_account,
  not_negative, too_early,
}
use qwid_node.Staking.Changes.{unstake_account, unstake_changes, unstake_scanned, unstake_unlocked}
use qwid_node.Staking.Entries.{locked_total, released, still_locked}
use qwid_node.Staking.Locks.{
  AreExact, HasLocks, if_left-is, locks, locks-drop_released, scan_account_lem,
}

-- A check that returned no error did not fire.
passed :
    (b : Bool) (e : StakingError) (r : Result StakingError StakingAccount) (acc : StakingAccount)
    → (if b then err e else r) ≡ ok acc
    → (b ≡ false) × (r ≡ ok acc)
passed true e r acc h = cc
passed false e r acc h = (refl, h)

abbrev ok_account : StakingAccount → Result StakingError StakingAccount
ok_account = ok

ok_inj : (a b : StakingAccount) → ok_account a ≡ ok b → a ≡ b
ok_inj a b h = cc

-- An account whose balance is an int64 at least 0, with slices of one length that lock less than 2^63
-- and have been released for less than 2^63 each.
abbrev pub IsHeld : ℤ → StakingAccount → Type 0
IsHeld height acc =
    HasLocks acc
    × AreExact height (locks acc)
    × (locked_total height (locks acc) < 2 ^ 63)
    × Fits64 acc.staked_balance
    × (pos 0 ≤ℤ acc.staked_balance)

-- The account after an unstaking: exactly the entries with something still locked are kept, the balance
-- is the exact sum, and it covers what is locked.
abbrev pub IsUnstaked : ℤ → ℤ → StakingAccount → StakingAccount → Type 0
IsUnstaked height amount acc new =
    (locks new ≡ still_locked height (locks acc))
    × HasLocks new
    × (new.staked_balance ≡ acc.staked_balance +ℤ amount)
    × (pos (locked_total height (locks acc)) ≤ℤ new.staked_balance)

balance_exact :
    (b amount : ℤ)
    → Fits64 b
    → Fits64 amount
    → (pos 0 ≤ℤ b)
    → (amount <ℤ pos 0)
    → add64 b amount ≡ b +ℤ amount
balance_exact b amount fb fa h k = add64_exact b amount (omega int_laws)

left_exact :
    (b amount : ℤ) (l : ℕ)
    → Fits64 b
    → Fits64 amount
    → (pos 0 ≤ℤ b)
    → l < 2 ^ 63
    → (amount <ℤ pos 0)
    → (pos 0 ≤ℤ (b +ℤ amount))
    → add64 (sub64 b (pos l)) amount ≡ (b -ℤ pos l) +ℤ amount
left_exact b amount l fb fa h k n m =
    rw (sub64_exact b (pos l) (omega int_laws)) (add64_exact (b -ℤ pos l) amount (omega int_laws))

covers :
    (x b amount : ℤ) (l : ℕ) (y : ℤ)
    → y ≡ (b -ℤ pos l) +ℤ amount
    → x ≡ b +ℤ amount
    → ltb_ℤ y (pos 0) ≡ false
    → pos l ≤ℤ x
covers x b amount l y e d h =
    rw d (omega (int_laws, le_of_ltb y (pos 0) h, ap pos_part e, ap neg_part e))

unstake_changes_lem :
    (height amount : ℤ) (acc : StakingAccount)
    → HasLocks acc
    → let new = unstake_changes amount height (released height 0 (locks acc)) acc in
      (locks new ≡ still_locked height (locks acc))
      × HasLocks new
      × (new.staked_balance ≡ add64 acc.staked_balance amount)
unfolding unstake_changes
unstake_changes_lem height amount acc held =
    rw (if_left-is (released height 0 (locks acc)) acc)
      (let d = locks-drop_released height acc held in (d.0, d.1, unfold drop_released in refl))

-- The account that an unstaking writes.
unfoldable unstaked : ℤ → ℤ → ℤ → StakingAccount → StakingAccount
unfolding add_detail unstake_changes
unstaked height amount time acc =
    add_detail height (record { amount = amount; reward = pos 0; last_updated = time })
      (unstake_changes amount height (released height 0 (locks acc)) acc)

unstake_scanned_lem :
    (height amount time : ℤ) (acc new : StakingAccount)
    → IsHeld height acc
    → Fits64 amount
    → amount <ℤ pos 0
    → pos 0 ≤ℤ add64 acc.staked_balance amount
    → unstake_scanned amount height time acc (record {
      locked = pos (locked_total height (locks acc));
      to_remove = released height 0 (locks acc);
    })
      ≡ ok new
    → IsUnstaked height amount acc new
unfolding unstake_scanned add_detail unstaked
unstake_scanned_lem height amount time acc new (held, exact, small, fb, nb) fits neg enough h =
    let p = passed _ _ _ _ h in
    let e = balance_exact acc.staked_balance amount fb fits nb neg in
    let l =
      left_exact acc.staked_balance amount (locked_total height (locks acc)) fb fits nb small neg
        (rw e at enough) in
    let c = unstake_changes_lem height amount acc held in
    rw (← ok_inj (unstaked height amount time acc) new p.1)
      (c.0, c.1, c.2 ∙ e, covers _ acc.staked_balance amount _ _ l (c.2 ∙ e) p.0)

-- An unstaking that returns no error leaves exactly the entries of which something is still locked, and
-- a balance that is the exact sum of the old one and the amount and covers what was locked. Still
-- locked is the amount less the release in each block since. The balance is from 0 to 2^63 - 1, the
-- amount an int64, the slices have one length, and the locks sum up to less than 2^63. Each entry
-- has an amount from 0 to 2^63 - 1 and a release from 0, was made at a height from 0 to this one,
-- which is below 2^63, and the product of its release and the blocks since is below 2^63.
pub unstake_account-IsUnstaked :
    (accb : List ℕ) (amount height time : ℤ) (acc new : StakingAccount)
    → IsHeld height acc
    → Fits64 amount
    → unstake_account accb amount height time acc ≡ ok new
    → IsUnstaked height amount acc new
unfolding unstake_account unstake_unlocked
unstake_account-IsUnstaked accb amount height time acc new held fits h =
    let early = ltb_ℤ height (add64 acc.last_stake_height min_number_of_blocks_in_stake) in
    let poor = ltb_ℤ (add64 acc.staked_balance amount) (pos 0) in
    let r = unstake_unlocked amount height time acc (scan_account height acc) in
    let r3 = if poor then err insufficient else r in
    let r2 = if early then err too_early else r3 in
    let p1 =
      passed (ite (bytes_discrete acc.address accb) false true) no_account
        (if leb_ℤ (pos 0) amount then err not_negative else r2) new h in
    let p2 = passed (leb_ℤ (pos 0) amount) not_negative r2 new p1.1 in
    let p3 = passed early too_early r3 new p2.1 in
    let p4 = passed poor insufficient r new p3.1 in
    let scan = scan_account_lem height acc held.0 held.1 held.2 in
    unstake_scanned_lem height amount time acc new held fits (lt_of_leb (pos 0) amount p2.0)
      (le_of_ltb (add64 acc.staked_balance amount) (pos 0) p4.0)
      (ap (unstake_unlocked amount height time acc) (sym scan) ∙ p4.1)

-- What an unstaking that returns no error was checked for.
pub unstake_account_checked :
    (accb : List ℕ) (amount height time : ℤ) (acc new : StakingAccount)
    → unstake_account accb amount height time acc ≡ ok new
    → (amount <ℤ pos 0)
      × (ltb_ℤ height (add64 acc.last_stake_height min_number_of_blocks_in_stake) ≡ false)
unfolding unstake_account
unstake_account_checked accb amount height time acc new h =
    let early = ltb_ℤ height (add64 acc.last_stake_height min_number_of_blocks_in_stake) in
    let poor = ltb_ℤ (add64 acc.staked_balance amount) (pos 0) in
    let r = unstake_unlocked amount height time acc (scan_account height acc) in
    let r3 = if poor then err insufficient else r in
    let r2 = if early then err too_early else r3 in
    let p1 =
      passed (ite (bytes_discrete acc.address accb) false true) no_account
        (if leb_ℤ (pos 0) amount then err not_negative else r2) new h in
    let p2 = passed (leb_ℤ (pos 0) amount) not_negative r2 new p1.1 in
    (lt_of_leb (pos 0) amount p2.0, (passed early too_early r3 new p2.1).0)

unstake_account_ok :
    (amount height time : ℤ) (acc : StakingAccount)
    → IsHeld height acc
    → Fits64 amount
    → amount <ℤ pos 0
    → (ltb_ℤ height (add64 acc.last_stake_height min_number_of_blocks_in_stake) ≡ false)
    → pos (locked_total height (locks acc)) ≤ℤ (acc.staked_balance +ℤ amount)
    → unstake_account acc.address amount height time acc ≡ ok (unstaked height amount time acc)
unfolding unstake_account unstake_unlocked unstake_scanned unstaked
unstake_account_ok amount height time acc (held, exact, small, fb, nb) fits neg late covered =
    let e = balance_exact acc.staked_balance amount fb fits nb neg in
    let l =
      left_exact acc.staked_balance amount (locked_total height (locks acc)) fb fits nb small neg
        (omega int_laws) in
    rw (if_pos (bytes_discrete acc.address acc.address) refl) (
      rw (leb_of_lt (pos 0) amount neg) (
        rw late (
          rw e (
            rw (ltb_of_le (pos 0) (acc.staked_balance +ℤ amount) (omega int_laws)) (
              rw (scan_account_lem height acc held exact small) (
                rw l (
                  rw
                    (ltb_of_le (pos 0)
                      ((acc.staked_balance -ℤ pos (locked_total height (locks acc))) +ℤ amount)
                      (omega int_laws))
                    refl)))))))

-- An unstaking by the owner of the account, of a negative int64 amount, at least 36 blocks after the last
-- stake, of no more than the balance has above the locks, returns no error and an account with exactly
-- the entries of which something is still locked and the exact new balance. Still locked is the
-- amount less the release in each block since. The balance is from 0 to 2^63 - 1, the slices have one
-- length, and the locks sum up to less than 2^63. Each entry has an amount from 0 to 2^63 - 1 and a
-- release from 0, was made at a height from 0 to this one, which is below 2^63, and the product of
-- its release and the blocks since is below 2^63.
pub unstake_account_succeeds :
    (amount height time : ℤ) (acc : StakingAccount)
    → IsHeld height acc
    → Fits64 amount
    → amount <ℤ pos 0
    → (ltb_ℤ height (add64 acc.last_stake_height min_number_of_blocks_in_stake) ≡ false)
    → pos (locked_total height (locks acc)) ≤ℤ (acc.staked_balance +ℤ amount)
    → (new : StakingAccount) × (unstake_account acc.address amount height time acc ≡ ok new)
      × IsUnstaked height amount acc new
unstake_account_succeeds amount height time acc held fits neg late covered =
    let e = unstake_account_ok amount height time acc held fits neg late covered in
    (
      unstaked height amount time acc,
      e,
      unstake_account-IsUnstaked acc.address amount height time acc
          (unstaked height amount time acc) held fits e,
    )
