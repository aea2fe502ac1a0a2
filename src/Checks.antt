-- ===== src/Checks.antt =====
-- The checks of a received block: `CheckBaseBlock` of blocks/processBlock.go with what it calls there
-- and in blocks/proofOfSynergy.go, blocks/Block.go and blocks/baseBlock.go, and the accounting of
-- blocks/blockAccountState.go. The proof of synergy compares floating-point logarithms, and the
-- oracle proofs and the changes of signature schemes need the signature library: these three tests
-- are the arguments `valid_proof`, `authentic` and `schemes_allowed`, as is the clock.
pub mod Bounds
pub mod Binding
pub mod Balances
use qwid_node.Base.{
  Bool, List, Result, [], err, false, if◌then◌else◌, length, ltb, none, not, ok, some, true, ℕ,
  ◌&&◌, ◌==◌, ◌>>=◌, ◌||◌, ◌∷◌,
}
use qwid_node.Base.Int.{eqb_ℤ, leb_ℤ, ltb_ℤ, pos, ℤ, ◌+ℤ◌, ◌-ℤ◌}
use qwid_node.Base.Int64.{add64, sub64}
use qwid_node.Base.Table.{Table, get, put}
use qwid_node.Base.Update.{value_or}
use qwid_node.Types.{Account, Address, Hash, bytes_discrete, zero_account}
use qwid_node.Wire.Fields.{get_hash_from_bytes, int32_of, sum, uint32_of}
use qwid_node.Recovery.{Accounts}
use qwid_node.Staking.{StakingAccount, StakingAccounts, later}
use qwid_node.Staking.Eligible.{ids_from}
use qwid_node.Blocks.{BaseBlock, BaseHeader, Block}
use qwid_node.Blocks.Bytes.{base_block_bytes, body_bytes, header_bytes}
use qwid_node.Merkle.{MerkleTree, build_merkle_tree, get_root_hash, same_hash}
use qwid_node.Randao.{RandaoError, header_of, verify_randao_stateless}

abbrev pub max_total_supply : ℤ
max_total_supply = pos 230_000_000_000_000_000

abbrev pub max_transactions_per_block : ℕ
max_transactions_per_block = 5000

abbrev pub max_block_time_interval : ℤ
max_block_time_interval = pos 2000

abbrev pub max_block_forward_in_time : ℤ
max_block_forward_in_time = pos 15

abbrev pub max_transaction_age_blocks : ℤ
max_transaction_age_blocks = pos 8640

pub data CheckError : Type 0 where
  supply_too_high bad_reward_percentage too_many_transactions repeated_transaction : CheckError
  wrong_parent no_proof_of_synergy wrong_block_hash wrong_header_hash wrong_body_hash : CheckError
  wrong_merkle_root not_authentic no_encryption timestamp_not_later timestamp_in_future : CheckError
  timestamp_too_far wrong_difficulty scheme_change not_enough_funds : CheckError
  randao : RandaoError → CheckError

-- `int32(…)`
abbrev pub wrap32 : ℤ → ℤ
wrap32 u = int32_of (uint32_of u)

-- `AdjustDifficulty`. An int64 is above the float 10 * 1.33 exactly from 14 on, and below 10 / 1.33
-- exactly up to 7, since the conversion to a float64 is monotone.
unfoldable pub clamp_difficulty : ℤ → ℤ
clamp_difficulty d =
    let low = if ltb_ℤ d (pos 1) then pos 1 else d in
    if ltb_ℤ (pos 65280) low then pos 65280 else low

unfoldable pub adjust_difficulty : ℤ → ℤ → ℤ
unfolding clamp_difficulty
adjust_difficulty last interval = clamp_difficulty (
    if ltb_ℤ (pos 13) interval
    then wrap32 (last -ℤ pos 10)
    else if ltb_ℤ interval (pos 8)
    then wrap32 (last +ℤ pos 10)
    else last)

unfoldable pub valid_difficulty : ℤ → ℤ → ℤ → ℤ → Bool
unfolding adjust_difficulty sub64
valid_difficulty new last last_time new_time =
    eqb_ℤ new (adjust_difficulty last (sub64 new_time last_time))

unfoldable pub validate_block_timestamp : ℤ → Block → Block → Bool → Result CheckError (Unit {0})
unfolding add64
validate_block_timestamp now new_block last_block should_check =
    let block_time = new_block.base_block.block_time_stamp in
    let last_time = last_block.base_block.block_time_stamp in
    let ahead = ltb_ℤ (add64 now max_block_forward_in_time) block_time in
    if ltb_ℤ (header_of new_block).height (pos 2)
    then ok tt
    else if leb_ℤ block_time last_time
    then err timestamp_not_later
    else if should_check && ahead
    then err timestamp_in_future
    else if ltb_ℤ (add64 last_time max_block_time_interval) block_time && ahead
    then err timestamp_too_far
    else ok tt

abbrev pub seen : Hash → List Hash → Bool
seen h [] = false
seen h (k ∷ ks) = let rest = seen h ks in if same_hash k h then true else rest

-- The loop of `validateBlockTxHashes`, with the hashes that it has seen.
unfoldable pub tx_hashes_loop : List Hash → List Hash → Result CheckError (Unit {0})
tx_hashes_loop before [] = ok tt
tx_hashes_loop before (h ∷ txs) =
    let rest = tx_hashes_loop (h ∷ before) txs in
    if seen h before then err repeated_transaction else rest

unfoldable pub validate_block_tx_hashes : List Hash → Result CheckError (Unit {0})
unfolding tx_hashes_loop
validate_block_tx_hashes txs =
    if ltb max_transactions_per_block (length txs)
    then err too_many_transactions
    else tx_hashes_loop [] txs

unfoldable pub transaction_height_in_window : ℤ → ℤ → Bool
unfolding sub64
transaction_height_in_window tx_height block_height =
    leb_ℤ tx_height block_height && leb_ℤ (sub64 block_height tx_height) max_transaction_age_blocks

abbrev pub randao_result : Result RandaoError (Unit {0}) → Result CheckError (Unit {0})
randao_result (ok u) = ok u
randao_result (err e) = err (randao e)

-- `if bad { return err }`
abbrev pub reject_if : Bool → CheckError → Result CheckError (Unit {0})
reject_if bad e = if bad then err e else ok tt

-- The first error of a sequence of checks.
unfoldable pub all_of : List (Result CheckError (Unit {0})) → Result CheckError (Unit {0})
all_of [] = ok tt
all_of (c ∷ cs) = let rest = all_of cs in c >>= (λ u. rest)

module _ (calc_hash : List ℕ → Hash) where
  unfoldable pub calc_block_hash : Block → Hash
  unfolding get_hash_from_bytes base_block_bytes
  calc_block_hash b = get_hash_from_bytes (calc_hash (base_block_bytes b.base_block))

  unfoldable pub calc_header_hash : BaseHeader → Hash
  unfolding get_hash_from_bytes header_bytes
  calc_header_hash h = get_hash_from_bytes (calc_hash (header_bytes h))

  unfoldable pub calc_body_hash : BaseBlock → Hash
  unfolding get_hash_from_bytes body_bytes
  calc_body_hash bb = get_hash_from_bytes (calc_hash (body_bytes bb))

  module _ (valid_proof : Hash → ℤ → Bool) (authentic : Block → Block → Bool)
      (schemes_allowed : Block → Block → Bool) (now : ℤ) where
    -- The checks in their order, each of which returns its error.
    unfoldable pub base_block_checks : Block → Block → Bool → List (Result CheckError (Unit {0}))
    unfolding validate_block_tx_hashes calc_block_hash calc_header_hash calc_body_hash
        verify_randao_stateless build_merkle_tree get_root_hash validate_block_timestamp
        valid_difficulty
    base_block_checks new_block last_block force_should_check =
        let header = header_of new_block in
        let bb = new_block.base_block in
        let parent = header_of last_block in
        let later = ltb_ℤ (pos 0) header.height in
        let root = get_root_hash (build_merkle_tree calc_hash new_block.transactions_hashes) in
        reject_if (ltb_ℤ max_total_supply bb.supply) supply_too_high
        ∷ reject_if (ltb_ℤ bb.reward_percentage (pos 0) || ltb_ℤ (pos 500) bb.reward_percentage)
            bad_reward_percentage
        ∷ validate_block_tx_hashes new_block.transactions_hashes
        ∷ reject_if (later && not (same_hash last_block.block_hash header.previous_hash))
            wrong_parent
        ∷ reject_if (not (valid_proof bb.block_header_hash header.difficulty)) no_proof_of_synergy
        ∷ reject_if (not (same_hash (calc_block_hash new_block) new_block.block_hash))
            wrong_block_hash
        ∷ reject_if (not (same_hash (calc_header_hash header) bb.block_header_hash))
            wrong_header_hash
        ∷ reject_if (not (same_hash (calc_body_hash bb) header.body_hash)) wrong_body_hash
        ∷ randao_result (verify_randao_stateless calc_hash new_block last_block)
        ∷ reject_if (later && not (same_hash root header.root_merkle_tree)) wrong_merkle_root
        ∷ reject_if (not (authentic new_block last_block)) not_authentic
        ∷ reject_if (length header.encryption1 == 0 || length header.encryption2 == 0) no_encryption
        ∷ validate_block_timestamp now new_block last_block force_should_check
        ∷ reject_if
            (later
              && not (
                  valid_difficulty header.difficulty parent.difficulty
                    last_block.base_block.block_time_stamp bb.block_time_stamp))
            wrong_difficulty
        ∷ reject_if (not (schemes_allowed new_block last_block)) scheme_change
        ∷ []

    unfoldable pub check_base_block : Block → Block → Bool → Result CheckError MerkleTree
    unfolding base_block_checks all_of build_merkle_tree
    check_base_block new_block last_block force_should_check =
        all_of (base_block_checks new_block last_block force_should_check)
        >>= (λ u. ok (build_merkle_tree calc_hash new_block.transactions_hashes))

-- `AddBalance`. An account that is missing is added even when the amount is then refused.
unfoldable pub add_balance : Address → ℤ → Accounts → Accounts × Result CheckError (Unit {0})
unfolding get put add64
add_balance address amount s =
    let there = get bytes_discrete address s.all_accounts in
    let acc = value_or (record zero_account { address = address }) there in
    let added : Accounts = elim there [
      | none ↦ record s { all_accounts = put bytes_discrete address acc s.all_accounts }
      | some a ↦ s
    ] in
    if ltb_ℤ (add64 acc.balance amount) (pos 0) then (added, err not_enough_funds) else (
      record added {
        all_accounts =
            put bytes_discrete address (record acc { balance = add64 acc.balance amount })
              added.all_accounts;
      },
      ok tt,
    )

unfoldable pub supply_loop : Table Address Account → ℤ → ℤ
unfolding add64
supply_loop [] sum = sum
supply_loop ((k, acc) ∷ m) sum = supply_loop m (add64 sum acc.balance)

unfoldable pub get_supply_in_accounts : Accounts → ℤ
unfolding supply_loop
get_supply_in_accounts s = supply_loop s.all_accounts (pos 0)

unfoldable pub staked_supply_loop : Table Address StakingAccount → ℤ → ℤ → ℤ × ℤ
unfolding add64
staked_supply_loop [] staked rewards = (staked, rewards)
staked_supply_loop ((k, sa) ∷ m) staked rewards =
    staked_supply_loop m (add64 staked sa.staked_balance) (add64 rewards sa.staking_rewards)

unfoldable pub all_staked_supply_loop : StakingAccounts → List ℕ → ℤ → ℤ → ℤ × ℤ
unfolding staked_supply_loop
all_staked_supply_loop s [] staked rewards = (staked, rewards)
all_staked_supply_loop s (id ∷ ids) staked rewards =
    let (st, re) = staked_supply_loop (s id).all_staking_accounts staked rewards in
    all_staked_supply_loop s ids st re

unfoldable pub get_supply_in_staked_accounts : StakingAccounts → ℤ × ℤ
unfolding all_staked_supply_loop ids_from
get_supply_in_staked_accounts s = all_staked_supply_loop s (ids_from 0 256) (pos 0) (pos 0)
