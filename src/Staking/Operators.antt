-- ===== src/Staking/Operators.antt =====
-- Whom `eligibleOperatorLocked` of account/accountsStakingStates.go selects.
use qwid_node.Base.{
  Bool, [], arith, false, if◌then◌else◌, inl, inr, ite, leb, not, refl, true, ℕ, ◌&&◌, ◌||◌, ◌∷◌,
  ◌≡◌, ◌⊎◌,
}
use qwid_node.Base.Int.{eqb_ℤ, le_of_ltb, leb_ℤ, ltb_ℤ, pos, ℤ, ◌≤ℤ◌}
use qwid_node.Base.Table.{Table}
use qwid_node.Types.{Address, bytes_discrete, zero_address}
use qwid_node.Staking.{StakingAccount, StakingAccounts}
use qwid_node.Staking.Eligible.{
  Operator, eligible_operator, ids_from, max_active_staking_nodes, no_operator, operator_loop,
  precedes, rank_loop,
}

-- Whether an entry is in the table, is operational and has at least this balance.
unfoldable pub has_operator : Table Address StakingAccount → Address → ℤ → Bool
has_operator [] b least = false
has_operator ((a, sa) ∷ m) b least =
    let rest = has_operator m b least in
    (ite (bytes_discrete a b) true false && sa.operational_account && eqb_ℤ sa.staked_balance least)
    || rest

-- Whether no operational entry has more than `top`.
unfoldable pub at_most : Table Address StakingAccount → ℤ → Bool
at_most [] top = true
at_most ((a, sa) ∷ m) top =
    let rest = at_most m top in (not sa.operational_account || leb_ℤ sa.staked_balance top) && rest

operator_loop-at_most :
    (m : Table Address StakingAccount) (o : Operator)
    → (at_most m (operator_loop m o).stake ≡ true) × (o.stake ≤ℤ (operator_loop m o).stake)
unfolding operator_loop at_most precedes
operator_loop-at_most [] o = (refl, omega arith)
operator_loop-at_most ((a, sa) ∷ m) o = ground (
  arith,
  operator_loop-at_most m o,
  operator_loop-at_most m
      (record { stake = sa.staked_balance; since = sa.operational_since; address = a }),
)

operator_loop-found :
    (m : Table Address StakingAccount) (o : Operator)
    → (operator_loop m o ≡ o)
      ⊎ (has_operator m (operator_loop m o).address (operator_loop m o).stake ≡ true)
unfolding operator_loop has_operator
operator_loop-found [] o = inl refl
operator_loop-found ((a, sa) ∷ m) o = ground (
  arith,
  operator_loop-found m o,
  operator_loop-found m
      (record { stake = sa.staked_balance; since = sa.operational_since; address = a }),
)

abbrev verdict : Bool → Bool → Bool → Address → Address → Address × Bool
verdict poor none_there ranked z a =
    if poor then (z, false) else if none_there then (a, false) else (a, ranked)

eligible-cases :
    (poor none_there ranked : Bool) (z a : Address)
    → (verdict poor none_there ranked z a).1 ≡ true
    → (poor ≡ false) × (none_there ≡ false) × ((verdict poor none_there ranked z a).0 ≡ a)
eligible-cases false false ranked z a h = (refl, refl, refl)
eligible-cases false true ranked z a h = (refl, cc, refl)
eligible-cases true none_there ranked z a h = (cc, cc, cc)

selected :
    (m : Table Address StakingAccount)
    → pos 0 ≤ℤ (operator_loop m no_operator).stake
    → let o = operator_loop m no_operator in has_operator m o.address o.stake ≡ true
selected m h = elim (operator_loop-found m no_operator) [
  | inl e ↦ absurd (omega (arith, rw e at h))
  | inr found ↦ found
]

-- A delegated account that is eligible has at least the minimum stake, and the operator selected for
-- it is one of its operational stakers, with a balance of at least 0 that no other operational staker
-- of the account exceeds.
pub eligible_operator-top :
    (min_staking : ℤ) (totals : ℕ → ℤ) (s : StakingAccounts) (id : ℕ)
    → (eligible_operator min_staking totals s id).1 ≡ true
    → (top : ℤ) × (has_operator
          (s id).all_staking_accounts
          (eligible_operator min_staking totals s id).0
          top
        ≡ true)
      × (at_most (s id).all_staking_accounts top ≡ true)
      × (pos 0 ≤ℤ top)
      × (min_staking ≤ℤ totals id)
unfolding eligible_operator
eligible_operator-top min_staking totals s id h =
    let o = operator_loop (s id).all_staking_accounts no_operator in
    let c =
      eligible-cases (ltb_ℤ (totals id) min_staking) (ltb_ℤ o.stake (pos 0))
        (leb (rank_loop totals s id (ids_from 0 256) 1) max_active_staking_nodes) zero_address
        o.address h in
    let least = le_of_ltb o.stake (pos 0) c.1 in
    (
      o.stake,
      rw c.2 (selected (s id).all_staking_accounts least),
      (operator_loop-at_most (s id).all_staking_accounts no_operator).0,
      least,
      le_of_ltb (totals id) min_staking c.0,
    )
