-- ===== src/StateDb.antt =====
-- The EVM state of core/stateDB: the state record of methods.go and the journal of journal.go,
-- with the undoing of each journal entry. The native balances that account.Accounts holds are the
-- field `native`. The slices `journal` and `logs` grow at their end in the source and at their head
-- here, so a journal index counts from the end of the list.
pub mod Methods
pub mod Storage
pub mod Balances
pub mod View
pub mod Undo
pub mod Calls
pub mod Rollback
pub mod Committed
pub mod CommittedRun
pub mod Ends
use qwid_node.Base.{
  Bool, List, [], drop, false, if◌then◌else◌, length, ltb, none, some, take, ℕ, ◌-◌, ◌∷◌,
}
use qwid_node.Base.Int.{pos_part, ℤ}
use qwid_node.Base.Table.{Table}
use qwid_node.Base.Update.{Map, put_back, upd, value_or}
use qwid_node.Types.{Account, Address, Hash, Log, bytes_discrete, zero_account}

pub record TokenInfo : Type 0 where
  pub name : List ℕ
  pub symbols : List ℕ
  pub decimals : ℕ

-- One reversible mutation.
pub data ChangeEntry : Type 0 where
  slot_change : Address → Hash → Hash → Bool → ChangeEntry
  log_change : ChangeEntry
  suicide_change : Address → ChangeEntry
  access_addr_change : Address → ChangeEntry
  access_slot_change : Address → Hash → ChangeEntry
  balance_change : Address → ℤ → ChangeEntry
  create_account_change : Address → Account → Bool → ChangeEntry
  nonce_change : Address → ℕ → Bool → ChangeEntry
  code_change : Address → List ℕ → Hash → Bool → ChangeEntry

pub record StateAccount : Type 0 where
  pub accounts : Map Address Account
  pub codes : Map Address (List ℕ)
  pub code_hashes : Map Address Hash
  pub states_hashes : Map Address (Map Hash Hash)
  pub nonces : Map Address ℕ
  pub states : Map Hash (List ℕ)
  pub balances : Map Address (Map Address ℤ)
  pub tokens : Map Address TokenInfo
  pub snap_shot_num : ℕ
  pub journal : List ChangeEntry
  pub logs : List Log
  pub suicided : Address → Bool
  pub access_addrs : Address → Bool
  pub access_slots : Map Address (Hash → Bool)
  pub refund : ℕ
  pub origin_storage : Map Address (Map Hash Hash)
  pub height_to_snap_shot_num : Map ℤ ℕ
  pub contracts_by_height : Table ℤ (List Address)
  pub changed_since_store : Bool
  pub native : Map Address Account

-- `account.GetBalance`
unfoldable pub get_native_balance : Map Address Account → Address → ℤ
get_native_balance native a = (value_or zero_account (native a)).balance

-- `account.SetBalance`
unfoldable pub set_native_balance : Map Address Account → Address → ℤ → Map Address Account
unfolding upd
set_native_balance native a b =
    let acc = value_or zero_account (native a) in
    upd bytes_discrete native a (some (record acc { balance = b; address = a }))

-- `m[k] = prev` if the key existed, and `delete(m, k)` if not.
unfoldable pub write_back : {V : Type 0} → Map (List ℕ) V → List ℕ → Bool → V → Map (List ℕ) V
unfolding upd
write_back m k existed prev = upd bytes_discrete m k (put_back existed prev)

-- The `revert` method of each kind of entry.
unfoldable pub revert : ChangeEntry → StateAccount → StateAccount
unfolding write_back set_native_balance upd
revert (slot_change addr key prev existed) sa = elim (sa.states_hashes addr) [
  | none ↦ sa
  | some m ↦ record sa {
    states_hashes = upd bytes_discrete sa.states_hashes addr (some (write_back m key existed prev));
  }
]
revert log_change sa = record sa { logs = elim sa.logs [ [] ↦ [] | l ∷ ls ↦ ls ] }
revert (suicide_change addr) sa = record sa { suicided = upd bytes_discrete sa.suicided addr false }
revert (access_addr_change addr) sa = record sa {
  access_addrs = upd bytes_discrete sa.access_addrs addr false;
}
revert (access_slot_change addr slot) sa = elim (sa.access_slots addr) [
  | none ↦ sa
  | some m ↦ record sa {
    access_slots = upd bytes_discrete sa.access_slots addr (some (upd bytes_discrete m slot false));
  }
]
revert (balance_change addr prev) sa = record sa { native = set_native_balance sa.native addr prev }
revert (create_account_change addr prev existed) sa = record sa {
  accounts = write_back sa.accounts addr existed prev;
}
revert (nonce_change addr prev existed) sa = record sa {
  nonces = write_back sa.nonces addr existed prev;
}
revert (code_change addr prev_code prev_hash existed) sa = record sa {
  codes = write_back sa.codes addr existed prev_code;
  code_hashes = write_back sa.code_hashes addr existed prev_hash;
}

-- The loop of `RevertToSnapshot` over the entries that are undone, the last one first.
unfoldable pub revert_entries : List ChangeEntry → StateAccount → StateAccount
unfolding revert
revert_entries [] sa = sa
revert_entries (e ∷ es) sa = revert_entries es (revert e sa)

-- `Snapshot`
unfoldable pub snapshot : StateAccount → ℕ
snapshot sa = length sa.journal

-- `sn` after the two clamps of `RevertToSnapshot`.
unfoldable pub clamp_snapshot : ℤ → ℕ → ℕ
clamp_snapshot sn len = if ltb len (pos_part sn) then len else pos_part sn

unfoldable pub truncate : ℕ → StateAccount → StateAccount
truncate k sa =
    let rest = drop k sa.journal in record sa { journal = rest; snap_shot_num = length rest }

unfoldable pub revert_to_snapshot : ℤ → StateAccount → StateAccount
unfolding revert_entries clamp_snapshot truncate
revert_to_snapshot sn sa =
    let k = length sa.journal - clamp_snapshot sn (length sa.journal) in
    truncate k (revert_entries (take k sa.journal) sa)
