-- ===== src/Staking/Locks.antt =====
-- What unstaking keeps of the locks of an account, and what is locked (account/stakeAccount.go).
use qwid_node.Staking.{StakingAccount, StakingAccounts, get_staking_account}
use qwid_node.Base.{
  All, Bool, List, [], arith, false, if◌then◌else◌, length, ok, refl, some, true, ℕ, ◌+◌, ◌<◌, ◌^◌,
  ◌∙◌, ◌∷◌, ◌≡◌,
}
use qwid_node.Staking.Changes.{if_left}
use qwid_node.Base.Int.{pos, ℤ}
use qwid_node.Staking.Scan.{drop_released, get_locked_amount, keep_unmarked, marked, scan_account}
use qwid_node.Staking.Entries.{
  IsExact, IsParallel, Lock, entries, locked_total, none_left, one_more, released,
  scan_locks-entries, scanned, still_locked,
}

unfoldable keep_entries : List ℕ → ℕ → List Lock → List Lock
keep_entries rm ind [] = []
keep_entries rm ind (l ∷ ls) =
    let rest = keep_entries rm (ind + 1) ls in if marked rm ind then rest else l ∷ rest

entries-keep :
    {amounts rs is : List ℤ} (rm : List ℕ) (ind : ℕ)
    → IsParallel amounts rs is
    → entries (keep_unmarked rm ind amounts) (keep_unmarked rm ind rs) (keep_unmarked rm ind is)
      ≡ keep_entries rm ind (entries amounts rs is)
unfolding keep_unmarked keep_entries
entries-keep rm ind none_left = refl
entries-keep rm ind (one_more p) = ground (arith, entries-keep rm (ind + 1) p)

marked_below :
    (height : ℤ) (j ind : ℕ) (ls : List Lock) → j < ind → marked (released height ind ls) j ≡ false
unfolding released
marked_below height j ind [] h = refl
marked_below height j ind (l ∷ ls) h = ground (arith, marked_below height j (ind + 1) ls)

keep_below :
    (j : ℕ) (js : List ℕ) (ind : ℕ) (ls : List Lock)
    → j < ind
    → keep_entries (j ∷ js) ind ls ≡ keep_entries js ind ls
unfolding keep_entries
keep_below j js ind [] h = refl
keep_below j js ind (x ∷ ls) h = ground (arith, keep_below j js (ind + 1) ls)

keep-released :
    (height : ℤ) (ind : ℕ) (ls : List Lock)
    → keep_entries (released height ind ls) ind ls ≡ still_locked height ls
unfolding keep_entries released still_locked
keep-released height ind [] = refl
keep-released height ind (l ∷ ls) = ground (
  arith,
  keep-released height (ind + 1) ls,
  marked_below height ind (ind + 1) ls,
  keep_below ind (released height (ind + 1) ls) (ind + 1) ls,
)

keep_one :
    (a r i : ℤ) {amounts rs is : List ℤ} (b : Bool)
    → IsParallel amounts rs is
    → IsParallel
        (if b then amounts else a ∷ amounts)
        (if b then rs else r ∷ rs)
        (if b then is else i ∷ is)
keep_one a r i true p = p
keep_one a r i false p = one_more p

keep-IsParallel :
    {amounts rs is : List ℤ} (rm : List ℕ) (ind : ℕ)
    → IsParallel amounts rs is
    → IsParallel (keep_unmarked rm ind amounts) (keep_unmarked rm ind rs) (keep_unmarked rm ind is)
unfolding keep_unmarked
keep-IsParallel rm ind none_left = none_left
keep-IsParallel rm ind (one_more {a = a} {r = r} {i = i} p) =
    keep_one a r i (marked rm ind) (keep-IsParallel rm (ind + 1) p)

abbrev pub HasLocks : StakingAccount → Type 0
HasLocks acc = IsParallel acc.locked_amount acc.release_per_block acc.locked_init_block

abbrev pub AreExact : ℤ → List Lock → Type 0
AreExact height = All (IsExact height)

abbrev pub locks : StakingAccount → List Lock
locks acc = entries acc.locked_amount acc.release_per_block acc.locked_init_block

pub scan_account_lem :
    (height : ℤ) (acc : StakingAccount)
    → HasLocks acc
    → AreExact height (locks acc)
    → locked_total height (locks acc) < 2 ^ 63
    → scan_account height acc
      ≡ some (record {
        locked = pos (locked_total height (locks acc));
        to_remove = released height 0 (locks acc);
      })
unfolding scan_account scanned
scan_account_lem height acc p x h =
    ground (arith, scan_locks-entries height 0 0 [] p x (omega arith))

-- `GetLockedAmount` returns the exact sum of what is still locked of each entry of the account: the
-- amount less the release in each block since, and at least 0. The address has 20 bytes, the slices
-- have one length, and the sum is below 2^63. Each entry has an amount from 0 to 2^63 - 1 and a
-- release from 0, was made at a height from 0 to this one, which is below 2^63, and the product of
-- its release and the blocks since is below 2^63.
pub get_locked_amount_lem :
    (accb : List ℕ) (height n : ℤ) (s : StakingAccounts)
    → length accb ≡ 20
    → HasLocks (get_staking_account accb n s)
    → AreExact height (locks (get_staking_account accb n s))
    → locked_total height (locks (get_staking_account accb n s)) < 2 ^ 63
    → get_locked_amount accb height n s
      ≡ ok (pos (locked_total height (locks (get_staking_account accb n s))))
unfolding get_locked_amount
get_locked_amount_lem accb height n s h p x k =
    grind (arith, h, scan_account_lem height (get_staking_account accb n s) p x k)

keep-nothing : (ind : ℕ) (xs : List ℤ) → keep_unmarked [] ind xs ≡ xs
unfolding keep_unmarked
keep-nothing ind [] = refl
keep-nothing ind (x ∷ xs) = ground (arith, keep-nothing (ind + 1) xs)

pub if_left-is : (rm : List ℕ) (acc : StakingAccount) → if_left rm acc ≡ drop_released rm acc
unfolding drop_released
if_left-is [] acc = grind (
  arith,
  keep-nothing 0 acc.locked_amount,
  keep-nothing 0 acc.release_per_block,
  keep-nothing 0 acc.locked_init_block,
)
if_left-is (j ∷ rm) acc = refl

pub locks-drop_released :
    (height : ℤ) (acc : StakingAccount)
    → HasLocks acc
    → let rm = released height 0 (locks acc) in
      (locks (drop_released rm acc) ≡ still_locked height (locks acc))
      × HasLocks (drop_released rm acc)
unfolding drop_released
locks-drop_released height acc p = (
  entries-keep (released height 0 (locks acc)) 0 p ∙ keep-released height 0 (locks acc),
  keep-IsParallel (released height 0 (locks acc)) 0 p,
)
