-- ===== src/Staking/Gifts.antt =====
-- A locked stake that somebody else pays, and the owner's unstaking after it: `StakeLockedFor` and
-- `Unstake` of account/stakeAccount.go.
use mathlib.Core.Path.{subst}
use qwid_node.Base.{
  All-append, List, [], ap, arith, false, none, ok, refl, true, ℕ, ◌++◌, ◌+◌, ◌<◌, ◌^◌, ◌∙◌, ◌∷◌,
  ◌≡◌, ◌≤◌,
}
use qwid_node.Base.Int.{int_laws, ltb_ℤ, pos, pos_part, ℤ, ◌+ℤ◌, ◌≤ℤ◌}
use qwid_node.Base.Int64.{Fits64, add64, add64_exact}
use qwid_node.Staking.{StakingAccount, add_detail, min_number_of_blocks_in_stake}
use qwid_node.Staking.Changes.{
  StakeArgs, stake_account, stake_changes, stake_check, staked_account, unstake_account,
}
use qwid_node.Staking.Entries.{
  IsExact, IsParallel, Lock, entries, locked_total, none_left, one_more,
}
use qwid_node.Staking.Locks.{HasLocks, locks}
use qwid_node.Staking.Unstaking.{
  IsHeld, IsUnstaked, unstake_account-IsUnstaked, unstake_account_checked, unstake_account_succeeds,
}
use qwid_node.Staking.Guards.{not_failed}

-- The entry that a locked stake adds.
abbrev pub given_lock : StakeArgs → Lock
given_lock x = record { amount = x.locked_amount; release = x.release_per_block; init = x.height }

entries-append :
    {amounts rs is : List ℤ} (a r i : ℤ)
    → IsParallel amounts rs is
    → entries (amounts ++ a ∷ []) (rs ++ r ∷ []) (is ++ i ∷ [])
      ≡ entries amounts rs is ++ (record { amount = a; release = r; init = i }) ∷ []
entries-append a r i none_left = refl
entries-append a r i (one_more {a = b} {r = q} {i = j} p) =
    ap (◌∷◌ (record { amount = b; release = q; init = j })) (entries-append a r i p)

append-IsParallel :
    {amounts rs is : List ℤ} (a r i : ℤ)
    → IsParallel amounts rs is
    → IsParallel (amounts ++ a ∷ []) (rs ++ r ∷ []) (is ++ i ∷ [])
append-IsParallel a r i none_left = one_more none_left
append-IsParallel a r i (one_more p) = one_more (append-IsParallel a r i p)

locked_total-append :
    (height : ℤ) (ls ms : List Lock)
    → locked_total height (ls ++ ms) ≡ locked_total height ls + locked_total height ms
unfolding locked_total
locked_total-append height [] ms = omega arith
locked_total-append height (l ∷ ls) ms = omega (arith, locked_total-append height ls ms)

locked_total_one : (height : ℤ) (l : Lock) → locked_total height (l ∷ []) ≤ pos_part l.amount
unfolding locked_total
locked_total_one height l = omega arith

-- What the checks of a stake say of its amounts.
amounts_checked :
    (x : StakeArgs) (acc : StakingAccount)
    → stake_check x acc ≡ none
    → (pos 0 ≤ℤ x.amount) × (x.locked_amount ≤ℤ x.amount)
unfolding stake_check
amounts_checked x acc e = ground arith

-- The account after a locked stake of somebody else.
staked_account_third :
    (x : StakeArgs) (accb : List ℕ) (n : ℤ) (acc : StakingAccount)
    → x.third_party ≡ true
    → ltb_ℤ (pos 0) x.locked_amount ≡ true
    → HasLocks acc
    → let given = staked_account x accb n acc in
      (locks given ≡ locks acc ++ given_lock x ∷ [])
      × HasLocks given
      × (given.staked_balance ≡ add64 acc.staked_balance x.amount)
      × (given.last_stake_height ≡ acc.last_stake_height)
      × (given.address ≡ accb)
unfolding staked_account stake_changes add_detail
staked_account_third x accb n acc third locked p = rw locked (
  entries-append x.locked_amount x.release_per_block x.height p,
  append-IsParallel x.locked_amount x.release_per_block x.height p,
  refl,
  rw third refl,
  refl,
)

staked_account-IsHeld :
    (x : StakeArgs) (accb : List ℕ) (n : ℤ) (acc : StakingAccount) (height : ℤ)
    → x.third_party ≡ true
    → ltb_ℤ (pos 0) x.locked_amount ≡ true
    → stake_check x acc ≡ none
    → IsHeld height acc
    → IsExact height (given_lock x)
    → pos_part acc.staked_balance + pos_part x.amount < 2 ^ 63
    → locked_total height (locks acc) ≤ pos_part acc.staked_balance
    → let given = staked_account x accb n acc in
      IsHeld height given
      × (given.staked_balance ≡ acc.staked_balance +ℤ x.amount)
      × (locked_total height (locks given) ≤ locked_total height (locks acc) + pos_part x.amount)
staked_account-IsHeld x accb n acc height third locked checks (p, exact, small, fits, nonneg) fresh
      room l =
    let (added, parallel, balance, last, owner) =
      staked_account_third x accb n acc third locked p in
    let (positive, within) = amounts_checked x acc checks in
    let sum : (staked_account x accb n acc).staked_balance ≡ acc.staked_balance +ℤ x.amount =
      balance ∙ add64_exact acc.staked_balance x.amount (omega int_laws) in
    let total =
      ap (locked_total height) added ∙ locked_total-append height (locks acc) (given_lock x ∷ []) in
    let one = locked_total_one height (given_lock x) in
    let given = staked_account x accb n acc in
    let more : locked_total height (locks given)
        ≤ locked_total height (locks acc) + pos_part x.amount =
      omega (int_laws, total, one, within, positive) in
    (
      (
        parallel,
        rw added (All-append (IsExact height) (locks acc) (given_lock x ∷ []) exact (fresh, tt)),
        omega (arith, more, l, room),
        rw sum (omega int_laws),
        rw sum (omega int_laws),
      ),
      sum,
      more,
    )

-- What an unstaking from an account gives.
abbrev Unstakes : List ℕ → ℤ → ℤ → ℤ → StakingAccount → Type 0
Unstakes accb amount height time acc =
    (after : StakingAccount) × (unstake_account accb amount height time acc ≡ ok after)
    × IsUnstaked height amount acc after

same_unstaking :
    (accb : List ℕ) (amount height time : ℤ) (a b : StakingAccount)
    → a ≡ b
    → Unstakes accb amount height time a
    → Unstakes accb amount height time b
same_unstaking accb amount height time a b e u = subst (Unstakes accb amount height time) e u

-- An unstaking that the owner's account allows is still allowed, at the same height and for the same
-- amount, after somebody else has added a locked stake to the account, and leaves the exact
-- balance and exactly the entries with something still locked. The balance is from 0 to 2^63 - 1,
-- with the new stake too, the amount is an int64, the slices have one length, and the locks sum up
-- to less than 2^63. Each entry, the new one included, has an amount from 0 to 2^63 - 1 and a
-- release from 0, was made at a height from 0 to this one, which is below 2^63, and the product of
-- its release and the blocks since is below 2^63.
pub unstake-stake_third_party :
    (x : StakeArgs) (accb : List ℕ) (n : ℤ) (acc given before : StakingAccount)
    (amount height time : ℤ)
    → x.third_party ≡ true
    → ltb_ℤ (pos 0) x.locked_amount ≡ true
    → stake_account x accb n acc ≡ ok given
    → IsHeld height acc
    → IsExact height (given_lock x)
    → pos_part acc.staked_balance + pos_part x.amount < 2 ^ 63
    → Fits64 amount
    → unstake_account accb amount height time acc ≡ ok before
    → (after : StakingAccount) × (unstake_account accb amount height time given ≡ ok after)
      × IsUnstaked height amount given after
unfolding stake_account
unstake-stake_third_party x accb n acc given before amount height time third locked staked held
      fresh room fits allowed =
    let (checks, same) =
      not_failed (stake_check x acc) (staked_account x accb n acc) given staked in
    let (negative, late) = unstake_account_checked accb amount height time acc before allowed in
    let (kept, parallel, balance, covers) =
      unstake_account-IsUnstaked accb amount height time acc before held fits allowed in
    let covered : pos (locked_total height (locks acc)) ≤ℤ (acc.staked_balance +ℤ amount) =
      rw balance at covers in
    let (after_held, sum, more) =
      staked_account-IsHeld x accb n acc height third locked checks held fresh room
        (omega int_laws) in
    let third_given = staked_account_third x accb n acc third locked held.0 in
    let mine : StakingAccount = staked_account x accb n acc in
    let positive = (amounts_checked x acc checks).0 in
    let enough : pos (locked_total height (locks mine)) ≤ℤ (mine.staked_balance +ℤ amount) =
      rw sum (omega (int_laws, covered, more, positive)) in
    let waited : ltb_ℤ height (add64 mine.last_stake_height min_number_of_blocks_in_stake) ≡ false =
      rw third_given.3 late in
    same_unstaking accb amount height time mine given same (
      subst (λ k. Unstakes k amount height time mine) third_given.4
        (unstake_account_succeeds amount height time mine after_held fits negative waited enough))
