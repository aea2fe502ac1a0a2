-- ===== src/Types.antt =====
-- Types that several packages share: addresses and hashes (common/types.go), accounts
-- (account/baseAccount.go) and logs (core/types/log.go).
use qwid_node.Base.{Bool, List, [], replicate, ℕ, ℕ_discrete, ◌-◌, ◌^◌}
use qwid_node.Base.Int.{pos, ℤ}

-- A fixed byte array is the list of its bytes.
abbrev pub Address : Type 0
Address = List ℕ

abbrev pub Hash : Type 0
Hash = List ℕ

unfoldable pub bytes_discrete : Discrete (List ℕ)
unfolding ℕ_discrete
bytes_discrete = hlevel ℕ_discrete

abbrev pub address_length : ℕ
address_length = 20

abbrev pub hash_length : ℕ
hash_length = 32

abbrev pub zero_address : Address
zero_address = replicate 20 0

abbrev pub zero_hash : Hash
zero_hash = replicate 32 0

abbrev pub max_int64 : ℤ
max_int64 = pos (2 ^ 63 - 1)

pub record Account : Type 0 where
  pub balance : ℤ
  pub address : Address
  pub transaction_delay : ℤ
  pub multi_sign_number : ℕ
  pub multi_sign_addresses : List Address
  pub transactions_sender : List Hash
  pub transactions_recipient : List Hash
  pub sent_count : ℤ
  pub received_count : ℤ
  pub recovery_commit : Address
  pub recovery_pending_commit : Address
  pub recovery_pending_height : ℤ
  pub spare_commit : Address
  pub spare_pending_commit : Address

-- `Account{}`
abbrev pub zero_account : Account
zero_account = record {
  balance = pos 0;
  address = zero_address;
  transaction_delay = pos 0;
  multi_sign_number = 0;
  multi_sign_addresses = [];
  transactions_sender = [];
  transactions_recipient = [];
  sent_count = pos 0;
  received_count = pos 0;
  recovery_commit = zero_address;
  recovery_pending_commit = zero_address;
  recovery_pending_height = pos 0;
  spare_commit = zero_address;
  spare_pending_commit = zero_address;
}

pub record Log : Type 0 where
  pub address : Address
  pub topics : List Hash
  pub content : List ℕ
  pub block_number : ℕ
  pub tx_hash : Hash
  pub tx_index : ℕ
  pub block_hash : Hash
  pub index : ℕ
  pub removed : Bool
