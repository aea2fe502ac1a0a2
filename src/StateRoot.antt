-- ===== src/StateRoot.antt =====
-- The root of the consensus state: blocks/stateRoot.go. The stream of bytes that is hashed is a list;
-- Blake2b is the parameter `blake`, and the key-value store of the commit markers is given by its
-- two operations. The maps are tables, since the walk ranges over all of them.
pub mod Root
pub mod Order
pub mod Walk
pub mod Agree
pub mod Fields
pub mod Maps
pub mod Entries
pub mod Binding
pub mod Commit
pub mod Ambiguity
use qwid_node.Base.{Bool, List, [], if◌then◌else◌, length, ℕ, ◌++◌, ◌==◌, ◌∷◌}
use qwid_node.Base.Int64.{of_word}
use qwid_node.Base.Int.{pos, ℤ}
use qwid_node.Base.Table.{Table, get}
use qwid_node.Base.Sort.{sort}
use qwid_node.Base.Update.{value_or}
use qwid_node.Types.{Account, Address, Hash, bytes_discrete, zero_account, zero_address, zero_hash}
use qwid_node.Wire.{get_byte_int64}
use qwid_node.Wire.Fields.{join}
use qwid_node.StateDb.{TokenInfo}
use qwid_node.Recovery.{Accounts, RecoveryBind}
use qwid_node.Staking.{StakingAccount, StakingAccounts, zero_staking_account}
use qwid_node.Staking.Eligible.{bytes_less}

pub record CoinTokenDetails : Type 0 where
  pub coin_balance : ℤ
  pub token_balance : ℤ

pub record DexAccount : Type 0 where
  pub balances : Table Address CoinTokenDetails
  pub coin_pool : ℤ
  pub token_pool : ℤ
  pub token_price : ℤ
  pub token_address : Address

-- The maps of `State`, the StateAccount of core/stateDB, that the walk reads.
pub record EvmMaps : Type 0 where
  pub accounts : Table Address Account
  pub codes : Table Address (List ℕ)
  pub nonces : Table Address ℕ
  pub states_hashes : Table Address (Table Hash Hash)
  pub tokens : Table Address TokenInfo

-- The package-level variables that the walk reads.
pub record ConsensusState : Type 0 where
  pub accounts : Accounts
  pub staking_accounts : StakingAccounts
  pub dex_accounts : Table Address DexAccount
  pub evm : EvmMaps

abbrev pub zero_bind : RecoveryBind
zero_bind = record { identity = zero_address; payload = zero_hash; height = pos 0 }

abbrev pub zero_details : CoinTokenDetails
zero_details = record { coin_balance = pos 0; token_balance = pos 0 }

abbrev pub zero_dex_account : DexAccount
zero_dex_account = record {
  balances = [];
  coin_pool = pos 0;
  token_pool = pos 0;
  token_price = pos 0;
  token_address = zero_address;
}

abbrev pub zero_token : TokenInfo
zero_token = record { name = []; symbols = []; decimals = 0 }

-- The methods of `rootWriter`: what each appends to the stream.
unfoldable pub write_bytes : List ℕ → List ℕ
write_bytes b = get_byte_int64 (pos (length b)) ++ b

unfoldable pub write_i64 : ℤ → List ℕ
write_i64 v = get_byte_int64 v

unfoldable pub write_section : List ℕ → List ℕ
unfolding write_bytes
write_section s = write_bytes s

unfoldable pub write_bool : Bool → List ℕ
unfolding write_i64
write_bool b = if b then write_i64 (pos 1) else write_i64 (pos 0)

unfoldable pub i64s_loop : List ℤ → List ℕ
unfolding write_i64
i64s_loop [] = []
i64s_loop (v ∷ vs) = write_i64 v ++ i64s_loop vs

unfoldable pub write_i64s : List ℤ → List ℕ
unfolding i64s_loop write_i64
write_i64s vs = write_i64 (pos (length vs)) ++ i64s_loop vs

-- `for k := range m { keys = append(keys, k) }`
abbrev pub keys {ℓ} : {K V : Type ℓ} → Table K V → List K
keys [] = []
keys ((k, v) ∷ m) = k ∷ keys m

-- `sortedAddrKeys` and `SortRecoveryBindKeys`, which sort keys of 20 and of 32 bytes.
unfoldable pub sorted_keys : {V : Type 0} → Table (List ℕ) V → List (List ℕ)
unfolding sort bytes_less
sorted_keys m = sort bytes_less (keys m)

-- `for _, k := range keys { … m[k] … }`; a missing key would read the zero value.
unfoldable pub walk :
    {V : Type 0} → (List ℕ → V → List ℕ) → V → Table (List ℕ) V → List (List ℕ) → List ℕ
unfolding get
walk f z m [] = []
walk f z m (k ∷ ks) = f k (value_or z (get bytes_discrete k m)) ++ walk f z m ks

unfoldable pub walk_map : {V : Type 0} → (List ℕ → V → List ℕ) → V → Table (List ℕ) V → List ℕ
unfolding walk sorted_keys
walk_map f z m = walk f z m (sorted_keys m)

abbrev pub all_bytes : List (List ℕ) → List (List ℕ)
all_bytes [] = []
all_bytes (b ∷ bs) = write_bytes b ∷ all_bytes bs

unfoldable pub account_entry : Address → Account → List ℕ
unfolding write_bytes write_i64 join
account_entry k a = join (
    write_bytes k
    ∷ write_i64 a.balance
    ∷ write_i64 a.transaction_delay
    ∷ write_i64 (pos a.multi_sign_number)
    ∷ write_i64 (pos (length a.multi_sign_addresses))
    ∷ join (all_bytes a.multi_sign_addresses)
    ∷ write_bytes a.recovery_commit
    ∷ write_bytes a.recovery_pending_commit
    ∷ write_i64 a.recovery_pending_height
    ∷ write_bytes a.spare_commit
    ∷ write_bytes a.spare_pending_commit
    ∷ [])

unfoldable pub bind_entry : Hash → RecoveryBind → List ℕ
unfolding write_bytes write_i64 join
bind_entry k b =
    join (write_bytes k ∷ write_bytes b.identity ∷ write_bytes b.payload ∷ write_i64 b.height ∷ [])

unfoldable pub staking_entry : Address → StakingAccount → List ℕ
unfolding write_bytes write_i64 write_i64s write_bool join
staking_entry k sa = join (
    write_bytes k
    ∷ write_i64 sa.staked_balance
    ∷ write_i64 sa.staking_rewards
    ∷ write_i64s sa.locked_amount
    ∷ write_i64s sa.release_per_block
    ∷ write_i64s sa.locked_init_block
    ∷ write_bytes sa.delegated_account
    ∷ write_bool sa.operational_account
    ∷ write_i64 sa.operational_since
    ∷ write_i64 sa.last_stake_height
    ∷ write_bytes sa.rand_commit
    ∷ write_i64 sa.rand_commit_height
    ∷ [])

unfoldable pub balance_entry : Address → CoinTokenDetails → List ℕ
unfolding write_bytes write_i64 join
balance_entry k d = join (write_bytes k ∷ write_i64 d.coin_balance ∷ write_i64 d.token_balance ∷ [])

unfoldable pub dex_entry : Address → DexAccount → List ℕ
unfolding write_bytes write_i64 join walk_map balance_entry
dex_entry k d = join (
    write_bytes k
    ∷ write_i64 d.coin_pool
    ∷ write_i64 d.token_pool
    ∷ write_i64 d.token_price
    ∷ walk_map balance_entry zero_details d.balances
    ∷ [])

unfoldable pub slot_entry : Hash → Hash → List ℕ
unfolding write_bytes
slot_entry s v = write_bytes s ++ write_bytes v

unfoldable pub key_entry : {V : Type 0} → Address → V → List ℕ
unfolding write_bytes
key_entry k v = write_bytes k

unfoldable pub nonce_entry : Address → ℕ → List ℕ
unfolding write_bytes write_i64 of_word
nonce_entry k n = write_bytes k ++ write_i64 (of_word n)

unfoldable pub slots_entry : Address → Table Hash Hash → List ℕ
unfolding write_bytes walk_map slot_entry
slots_entry k slots = write_bytes k ++ walk_map slot_entry zero_hash slots

unfoldable pub token_entry : Address → TokenInfo → List ℕ
unfolding write_bytes write_i64 join
token_entry k t =
    join
      (write_bytes k ∷ write_bytes t.name ∷ write_bytes t.symbols ∷ write_i64 (pos t.decimals) ∷ [])

-- The loop over the 256 delegated accounts; those without stakers are left out.
unfoldable pub staking_loop : StakingAccounts → List ℕ → List ℕ
unfolding write_i64 walk_map staking_entry
staking_loop s [] = []
staking_loop s (id ∷ ids) =
    (let all = (s id).all_staking_accounts in
      if length all == 0
      then []
      else write_i64 (pos id) ++ walk_map staking_entry zero_staking_account all)
    ++ staking_loop s ids

unfoldable pub evm_stream : EvmMaps → List ℕ
unfolding walk_map key_entry slot_entry nonce_entry slots_entry token_entry join
evm_stream e = join (
    walk_map key_entry zero_account e.accounts
    ∷ walk_map slot_entry [] e.codes
    ∷ walk_map nonce_entry 0 e.nonces
    ∷ walk_map slots_entry [] e.states_hashes
    ∷ walk_map token_entry zero_token e.tokens
    ∷ [])
