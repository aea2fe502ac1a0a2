-- ===== src/Staking/Eligible.antt =====
-- Which delegated accounts vote and produce: the totals of account/accountsStakingStates.go, and the
-- operator and the RANDAO commitments of account/stakeAccount.go. MinStakingForNode, which the
-- genesis sets, is the parameter `min_staking`.
use qwid_node.Base.{
  Bool, List, [], false, if◌then◌else◌, ite, leb, ltb, suc, true, zero, ℕ, ◌&&◌, ◌+◌, ◌==◌, ◌||◌,
  ◌∷◌,
}
use qwid_node.Base.Int.{eqb_ℤ, ltb_ℤ, negsuc, pos, pos_part, ℤ}
use qwid_node.Base.Int64.{add64}
use qwid_node.Base.Table.{Table}
use qwid_node.Types.{Address, bytes_discrete, zero_address}
use qwid_node.Staking.{StakingAccount, StakingAccounts}

-- `totals[id] += staking.StakedBalance` over one delegated account.
unfoldable pub sum_staked : Table Address StakingAccount → ℤ → ℤ
unfolding add64
sum_staked [] sum = sum
sum_staked ((a, sa) ∷ m) sum = sum_staked m (add64 sum sa.staked_balance)

unfoldable pub delegated_totals : StakingAccounts → ℕ → ℤ
unfolding sum_staked
delegated_totals s id = sum_staked (s id).all_staking_accounts (pos 0)

-- The indices `first`, `first + 1`, … of a loop, `count` of them.
unfoldable pub ids_from : ℕ → ℕ → List ℕ
ids_from first zero = []
ids_from first (suc count) = first ∷ ids_from (first + 1) count

unfoldable pub all_staked_loop : StakingAccounts → List ℕ → ℤ → ℤ
unfolding sum_staked
all_staked_loop s [] sum = sum
all_staked_loop s (id ∷ ids) sum =
    all_staked_loop s ids (sum_staked (s id).all_staking_accounts sum)

unfoldable pub get_staked_in_all_delegated_accounts : StakingAccounts → ℤ
unfolding all_staked_loop ids_from
get_staked_in_all_delegated_accounts s = all_staked_loop s (ids_from 0 256) (pos 0)

-- `bytes.Compare(a, b) < 0`
unfoldable pub bytes_less : List ℕ → List ℕ → Bool
bytes_less [] [] = false
bytes_less [] (y ∷ ys) = true
bytes_less (x ∷ xs) [] = false
bytes_less (x ∷ xs) (y ∷ ys) = let rest = bytes_less xs ys in ltb x y || (x == y && rest)

pub record Operator : Type 0 where
  pub stake : ℤ
  pub since : ℤ
  pub address : Address

-- Whether the loop takes this entry in place of the one selected so far.
unfoldable pub precedes : Address → StakingAccount → Operator → Bool
unfolding bytes_less
precedes a sa o =
    ltb_ℤ o.stake sa.staked_balance
    || (eqb_ℤ sa.staked_balance o.stake
        && (ltb_ℤ sa.operational_since o.since
            || (eqb_ℤ sa.operational_since o.since && bytes_less a o.address)))

unfoldable pub operator_loop : Table Address StakingAccount → Operator → Operator
unfolding precedes
operator_loop [] o = o
operator_loop ((a, sa) ∷ m) o = operator_loop m (
    if sa.operational_account && precedes a sa o
    then record { stake = sa.staked_balance; since = sa.operational_since; address = a }
    else o)

abbrev pub no_operator : Operator
no_operator = record { stake = negsuc 0; since = pos 0; address = zero_address }

-- Whether the delegated account `id` ranks before `target`.
unfoldable pub ranks_before : (ℕ → ℤ) → StakingAccounts → ℕ → ℕ → Bool
ranks_before totals s target id =
    let candidate = (s id).stake_changed_at in
    let time = (s target).stake_changed_at in
    ltb_ℤ (totals target) (totals id)
    || (eqb_ℤ (totals id) (totals target)
        && (ltb_ℤ candidate time || (eqb_ℤ candidate time && ltb id target)))

unfoldable pub rank_loop : (ℕ → ℤ) → StakingAccounts → ℕ → List ℕ → ℕ → ℕ
unfolding ranks_before
rank_loop totals s target [] rank = rank
rank_loop totals s target (id ∷ ids) rank =
    rank_loop totals s target ids
      (if id == target then rank else if ranks_before totals s target id then rank + 1 else rank)

abbrev pub max_active_staking_nodes : ℕ
max_active_staking_nodes = 128

unfoldable pub eligible_operator : ℤ → (ℕ → ℤ) → StakingAccounts → ℕ → Address × Bool
unfolding operator_loop rank_loop ids_from
eligible_operator min_staking totals s id =
    if ltb_ℤ (totals id) min_staking
    then (zero_address, false)
    else (let o = operator_loop (s id).all_staking_accounts no_operator in
        if ltb_ℤ o.stake (pos 0)
        then (o.address, false)
        else (o.address, leb (rank_loop totals s id (ids_from 0 256) 1) max_active_staking_nodes))

abbrev pub may_vote : ℤ → Bool
may_vote id = ltb_ℤ (pos 0) id && ltb_ℤ id (pos 256)

unfoldable pub is_top128_staking_node : ℤ → StakingAccounts → ℤ → Address → Bool
unfolding eligible_operator delegated_totals
is_top128_staking_node min_staking s id operator =
    let (selected, eligible) = eligible_operator min_staking (delegated_totals s) s (pos_part id) in
    may_vote id && eligible && ite (bytes_discrete selected operator) true false

unfoldable pub is_eligible_delegated_account : ℤ → StakingAccounts → ℤ → Bool
unfolding eligible_operator delegated_totals
is_eligible_delegated_account min_staking s id =
    may_vote id && (eligible_operator min_staking (delegated_totals s) s (pos_part id)).1

unfoldable pub eligible_loop : ℤ → StakingAccounts → List ℕ → ℤ → ℤ
unfolding eligible_operator delegated_totals add64
eligible_loop min_staking s [] sum = sum
eligible_loop min_staking s (id ∷ ids) sum = eligible_loop min_staking s ids (
    if (eligible_operator min_staking (delegated_totals s) s id).1
    then add64 sum (delegated_totals s id)
    else sum)

unfoldable pub get_staked_in_eligible_delegated_accounts : ℤ → StakingAccounts → ℤ
unfolding eligible_loop ids_from
get_staked_in_eligible_delegated_accounts min_staking s =
    eligible_loop min_staking s (ids_from 1 255) (pos 0)
