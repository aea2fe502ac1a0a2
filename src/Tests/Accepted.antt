-- ===== src/Tests/Accepted.antt =====
-- The checks of blocks on concrete inputs, with a hash function that has one value.
use qwid_node.Randao.{domain_hash, mix_hash, rand_from_mix}
use qwid_node.Base.{
  Bool, List, [], arith, err, if◌then◌else◌, ok, refl, true, ℕ, ◌^◌, ◌↔◌, ◌∷◌, ◌≡◌, ◌≤◌, ◌⊎◌,
}
use qwid_node.Base.Int.{negsuc, pos, ℤ}
use qwid_node.Base.Int64.{add64}
use qwid_node.Types.{Hash, bytes_discrete, zero_account}
use qwid_node.Hashes.{Collision}
use qwid_node.Recovery.{Accounts}
use qwid_node.Blocks.{BaseHeader, Block}
use qwid_node.Blocks.WellFormed.{IsBaseBlock}
use qwid_node.Merkle.{build_merkle_tree}
use qwid_node.Merkle.Roots.{ZeroPreimage}
use qwid_node.Checks.{
  add_balance, check_base_block, get_supply_in_accounts, not_enough_funds, validate_block_tx_hashes,
}
use qwid_node.Checks.Bounds.{AreDistinct, validate_block_tx_hashes_iff}
use qwid_node.Checks.Balances.{get_supply-add_balance, is_overdrawn}
use qwid_node.Checks.Binding.{check_base_block-binding}
use qwid_node.Tests.Samples.{alice, bob, slot_one, value_two}

abbrev one_hash : List ℕ → Hash
one_hash x = slot_one

abbrev header_at : ℕ → BaseHeader
header_at height = record {
  previous_hash = slot_one;
  difficulty = pos 50;
  height = pos height;
  delegated_account = record { byte_value = alice; primary = true };
  operator_account = record { byte_value = bob; primary = true };
  root_merkle_tree = slot_one;
  body_hash = slot_one;
  state_root = value_two;
  encryption1 = 1 ∷ [];
  encryption2 = 2 ∷ [];
  signature = record {
    byte_value = 0 ∷ 9 ∷ [];
    address = record { byte_value = bob; primary = true };
    primary = true;
  };
  signature_message = [];
}

abbrev block_at : ℕ → ℕ → Block
block_at height time = record {
  base_block = record {
    base_header = header_at height;
    block_header_hash = slot_one;
    block_time_stamp = pos time;
    reward_percentage = pos 100;
    supply = pos 1000;
    price_oracle = pos 0;
    rand_oracle = pos (2 ^ 55);
    price_oracle_data = [];
    rand_oracle_data = [];
    oracle_proofs = [];
    rand_reveal = [];
    rand_commit = value_two;
    rand_mix = slot_one;
  };
  transactions_hashes = value_two ∷ [];
  block_hash = slot_one;
  block_fee = pos 5;
}

abbrev always : Block → Block → Bool
always b c = true

abbrev any_proof : Hash → ℤ → Bool
any_proof h d = true

sample_accepted :
    check_base_block one_hash any_proof always always
      (pos 5000)
      (block_at 8 1010)
      (block_at 7 1000)
      true
    ≡ ok (build_merkle_tree one_hash (value_two ∷ []))
unfolding check_base_block build_merkle_tree bytes_discrete mix_hash domain_hash rand_from_mix
sample_accepted = refl

sample_IsBaseBlock : IsBaseBlock (block_at 8 1010).base_block
sample_IsBaseBlock = record {
  header = record {
    previous_hash = refl;
    difficulty_top = omega arith;
    difficulty_bottom = omega arith;
    height = ground arith;
    delegated_account = refl;
    delegated_primary = refl;
    operator_account = refl;
    root_merkle_tree = refl;
    body_hash = refl;
    state_root = refl;
    encryption1 = omega arith;
    encryption2 = omega arith;
    signature_message = omega arith;
    signature_nonempty = omega arith;
    signature_short = omega arith;
    signature_address = refl;
    signature_primary = refl;
  };
  block_header_hash = refl;
  block_time_stamp = ground arith;
  reward_top = omega arith;
  reward_bottom = omega arith;
  supply = ground arith;
  price_oracle = ground arith;
  rand_oracle = ground arith;
  price_oracle_data = omega arith;
  rand_oracle_data = omega arith;
  few_proofs = omega arith;
  small_proofs = tt;
  proofs_size = omega arith;
  rand_reveal = omega arith;
  rand_commit = refl;
  rand_mix = refl;
}

-- The same block with another fee.
abbrev other_fee : Block
other_fee = record (block_at 8 1010) { block_fee = pos 6 }

other_accepted :
    check_base_block one_hash any_proof always always (pos 5000) other_fee (block_at 7 1000) true
    ≡ ok (build_merkle_tree one_hash (value_two ∷ []))
unfolding check_base_block build_merkle_tree bytes_discrete mix_hash domain_hash rand_from_mix
other_accepted = refl

check_base_block-binding_example :
    (((block_at 8 1010).base_block ≡ other_fee.base_block)
      × ((block_at 8 1010).transactions_hashes ≡ other_fee.transactions_hashes))
    ⊎ (Collision one_hash ⊎ ZeroPreimage one_hash)
check_base_block-binding_example =
    check_base_block-binding one_hash any_proof always always (pos 5000) (λ (x : List ℕ). refl)
      (block_at 8 1010) other_fee (block_at 7 1000) (block_at 7 1000) true true
      (build_merkle_tree one_hash (value_two ∷ [])) (build_merkle_tree one_hash (value_two ∷ []))
      sample_IsBaseBlock sample_IsBaseBlock refl sample_accepted other_accepted refl

abbrev holders : Accounts
holders = record {
  all_accounts =
      (alice, record zero_account { balance = pos 70 })
      ∷ (bob, record zero_account { balance = pos 5 })
      ∷ [];
  recovery_binds = [];
  height = pos 3;
}

get_supply-add_balance_example :
    ((add_balance bob (negsuc 9) holders).1
      ≡ (if is_overdrawn bob (negsuc 9) holders then err not_enough_funds else ok tt))
    × (get_supply_in_accounts (add_balance bob (negsuc 9) holders).0 ≡ (
        if is_overdrawn bob (negsuc 9) holders
        then get_supply_in_accounts holders
        else add64 (get_supply_in_accounts holders) (negsuc 9)))
get_supply-add_balance_example = get_supply-add_balance bob (negsuc 9) holders

validate_block_tx_hashes_iff_example :
    (validate_block_tx_hashes (value_two ∷ slot_one ∷ value_two ∷ []) ≡ ok tt)
    ↔ ((3 ≤ 5000) × AreDistinct (value_two ∷ slot_one ∷ value_two ∷ []))
validate_block_tx_hashes_iff_example =
    validate_block_tx_hashes_iff (value_two ∷ slot_one ∷ value_two ∷ [])
