-- ===== src/StateRoot/Agree.antt =====
-- The streams of two consensus states that differ in the order of their maps: `computeStateRoot` of
-- blocks/stateRoot.go.
use qwid_node.Base.{List, [], ap, refl, ℕ, ◌∷◌, ◌≡◌}
use qwid_node.Base.Table.{Table}
use qwid_node.Types.{Account, Hash, zero_account, zero_hash}
use qwid_node.Staking.{StakingAccount, StakingAccounts, zero_staking_account}
use qwid_node.Staking.Eligible.{ids_from}
use qwid_node.StateRoot.Root.{compute_state_root, root_stream}
use qwid_node.StateRoot.{
  CoinTokenDetails, ConsensusState, DexAccount, EvmMaps, account_entry, balance_entry, bind_entry,
  dex_entry, evm_stream, key_entry, nonce_entry, slot_entry, slots_entry, staking_entry,
  staking_loop, token_entry, walk_map, zero_bind, zero_details, zero_dex_account, zero_token,
}
use qwid_node.StateRoot.Walk.{AreSame, length-AreSame, walk_map-AreSame}

abbrev pub IsEqual : {V : Type 0} → V → V → Type 0
IsEqual v w = v ≡ w

-- The fields of an account that the root covers.
abbrev pub IsSameAccount : Account → Account → Type 0
IsSameAccount a b =
    (a.balance ≡ b.balance)
    × (a.transaction_delay ≡ b.transaction_delay)
    × (a.multi_sign_number ≡ b.multi_sign_number)
    × (a.multi_sign_addresses ≡ b.multi_sign_addresses)
    × (a.recovery_commit ≡ b.recovery_commit)
    × (a.recovery_pending_commit ≡ b.recovery_pending_commit)
    × (a.recovery_pending_height ≡ b.recovery_pending_height)
    × (a.spare_commit ≡ b.spare_commit)
    × (a.spare_pending_commit ≡ b.spare_pending_commit)

abbrev pub IsSameStaking : StakingAccount → StakingAccount → Type 0
IsSameStaking a b =
    (a.staked_balance ≡ b.staked_balance)
    × (a.staking_rewards ≡ b.staking_rewards)
    × (a.locked_amount ≡ b.locked_amount)
    × (a.release_per_block ≡ b.release_per_block)
    × (a.locked_init_block ≡ b.locked_init_block)
    × (a.delegated_account ≡ b.delegated_account)
    × (a.operational_account ≡ b.operational_account)
    × (a.operational_since ≡ b.operational_since)
    × (a.last_stake_height ≡ b.last_stake_height)
    × (a.rand_commit ≡ b.rand_commit)
    × (a.rand_commit_height ≡ b.rand_commit_height)

abbrev pub IsSameDex : DexAccount → DexAccount → Type 0
IsSameDex a b =
    (a.coin_pool ≡ b.coin_pool)
    × (a.token_pool ≡ b.token_pool)
    × (a.token_price ≡ b.token_price)
    × (AreSame IsEqual a.balances b.balances)

-- Of the accounts of the EVM state the root covers the addresses alone.
abbrev pub IsAny : {V : Type 0} → V → V → Type 0
IsAny v w = Unit

abbrev pub IsSameEvm : EvmMaps → EvmMaps → Type 0
IsSameEvm a b =
    (AreSame IsAny a.accounts b.accounts)
    × (AreSame IsEqual a.codes b.codes)
    × (AreSame IsEqual a.nonces b.nonces)
    × (AreSame (AreSame IsEqual) a.states_hashes b.states_hashes)
    × (AreSame IsEqual a.tokens b.tokens)

-- Two states with the same contents under the same keys, in any order of iteration, but for the
-- histories, the counters, `StakeChangedAt`, `TokenAddress` and the accounts of the EVM state.
abbrev pub IsSameState : ConsensusState → ConsensusState → Type 0
IsSameState s t =
    (AreSame IsSameAccount s.accounts.all_accounts t.accounts.all_accounts)
    × (AreSame IsEqual s.accounts.recovery_binds t.accounts.recovery_binds)
    × ((id : ℕ)
        → AreSame IsSameStaking (s.staking_accounts id).all_staking_accounts
            (t.staking_accounts id).all_staking_accounts)
    × (AreSame IsSameDex s.dex_accounts t.dex_accounts)
    × (IsSameEvm s.evm t.evm)

account_entry_same :
    (k : List ℕ) (a b : Account) → IsSameAccount a b → account_entry k a ≡ account_entry k b
unfolding account_entry
account_entry_same k a b (e1, e2, e3, e4, e5, e6, e7, e8, e9) =
    rw (e1, e2, e3, e4, e5, e6, e7, e8, e9) refl

staking_entry_same :
    (k : List ℕ) (a b : StakingAccount) → IsSameStaking a b → staking_entry k a ≡ staking_entry k b
unfolding staking_entry
staking_entry_same k a b (e1, e2, e3, e4, e5, e6, e7, e8, e9, e10, e11) =
    rw (e1, e2, e3, e4, e5, e6, e7, e8, e9, e10, e11) refl

dex_entry_same : (k : List ℕ) (a b : DexAccount) → IsSameDex a b → dex_entry k a ≡ dex_entry k b
unfolding dex_entry
dex_entry_same k a b (e1, e2, e3, h) =
    rw
      (
        e1,
        e2,
        e3,
        walk_map-AreSame IsEqual balance_entry zero_details a.balances b.balances h
            (λ (j : List ℕ) (v w : CoinTokenDetails) (e : v ≡ w). ap (balance_entry j) e),
      )
      refl

staking_loop_same :
    (s t : StakingAccounts) (ids : List ℕ)
    → ((id : ℕ) → AreSame IsSameStaking (s id).all_staking_accounts (t id).all_staking_accounts)
    → staking_loop s ids ≡ staking_loop t ids
unfolding staking_loop
staking_loop_same s t [] h = refl
staking_loop_same s t (id ∷ ids) h =
    rw
      (
        walk_map-AreSame IsSameStaking staking_entry zero_staking_account
            (s id).all_staking_accounts (t id).all_staking_accounts (h id) staking_entry_same,
        length-AreSame IsSameStaking (s id).all_staking_accounts (t id).all_staking_accounts (h id),
        staking_loop_same s t ids h,
      )
      refl

walk_map_equal :
    {V : Type 0} (f : List ℕ → V → List ℕ) (z : V) (m n : Table (List ℕ) V)
    → AreSame IsEqual m n
    → walk_map f z m ≡ walk_map f z n
walk_map_equal f z m n h = walk_map-AreSame IsEqual f z m n h (λ k v w e. ap (f k) e)

slots_entry_same :
    (k : List ℕ) (m n : Table Hash Hash) → AreSame IsEqual m n → slots_entry k m ≡ slots_entry k n
unfolding slots_entry
slots_entry_same k m n h = rw (walk_map_equal slot_entry zero_hash m n h) refl

evm_stream_same : (a b : EvmMaps) → IsSameEvm a b → evm_stream a ≡ evm_stream b
unfolding evm_stream
evm_stream_same a b (h1, h2, h3, h4, h5) =
    rw
      (
        walk_map-AreSame IsAny key_entry zero_account a.accounts b.accounts h1
            (λ (k : List ℕ) (v w : Account) (u : Unit {0}). unfold key_entry in refl),
        walk_map_equal slot_entry [] a.codes b.codes h2,
        walk_map_equal nonce_entry 0 a.nonces b.nonces h3,
        walk_map-AreSame (AreSame IsEqual) slots_entry [] a.states_hashes b.states_hashes h4
            slots_entry_same,
        walk_map_equal token_entry zero_token a.tokens b.tokens h5,
      )
      refl

root_stream_same : (s t : ConsensusState) → IsSameState s t → root_stream s ≡ root_stream t
unfolding root_stream
root_stream_same s t (h1, h2, h3, h4, h5) =
    rw
      (
        walk_map-AreSame IsSameAccount account_entry zero_account s.accounts.all_accounts
            t.accounts.all_accounts h1 account_entry_same,
        walk_map_equal bind_entry zero_bind s.accounts.recovery_binds t.accounts.recovery_binds h2,
        staking_loop_same s.staking_accounts t.staking_accounts (ids_from 0 256) h3,
        walk_map-AreSame IsSameDex dex_entry zero_dex_account s.dex_accounts t.dex_accounts h4
            dex_entry_same,
        evm_stream_same s.evm t.evm h5,
      )
      refl

-- Two nodes whose maps hold the same consensus fields under the same keys compute the same state
-- root, in whatever orders Go ranges over their maps; histories, counters, staking details,
-- `StakeChangedAt` and `TokenAddress` do not count.
pub compute_state_root_same :
    (blake : List ℕ → List ℕ) (s t : ConsensusState)
    → IsSameState s t
    → compute_state_root blake s ≡ compute_state_root blake t
unfolding compute_state_root
compute_state_root_same blake s t h = rw (root_stream_same s t h) refl
