-- ===== src/Tests/Blocks.antt =====
-- Blocks and their randomness on concrete inputs.
use qwid_node.Base.{
  List, [], ap, arith, inl, ok, refl, replicate, some, true, ℕ, ℕ_discrete, ◌++◌, ◌∷◌, ◌≡◌, ◌≢◌,
  ◌⊎◌,
}
use qwid_node.Base.Int.{negsuc, pos}
use qwid_node.Base.Table.{get}
use qwid_node.Types.{bytes_discrete, zero_hash}
use qwid_node.Hashes.{Collision}
use qwid_node.Wire.{bytes_to_len_and_bytes, get_byte_int64}
use qwid_node.Wire.Fields.{FullAddress, get_hash_from_bytes}
use qwid_node.Delegated.{get_delegated_account_address, int_delegated_account_from_address}
use qwid_node.Staking.{StakingAccounts, zero_staking_account}
use qwid_node.Staking.Nodes.{get_rand_commit}
use qwid_node.Accounts.Bytes.{first_byte}
use qwid_node.Blocks.{BaseHeader, Block}
use qwid_node.Blocks.Bytes.{block_bytes, block_from_bytes}
use qwid_node.Blocks.WellFormed.{IsBlock, IsHeader}
use qwid_node.Blocks.RoundTrip.{block_from_bytes-block_bytes}
use qwid_node.Randao.{
  RandaoFields, Wallet, apply_randao_commit, check_reveal, domain_hash, must_delegated_account_id,
  randao_commitment, randao_fields, randao_for_block, randao_seed, randao_seed_domain, reveal_due,
  verify_randao_reveal, verify_randao_stateless,
}
use qwid_node.Randao.Binding.{verify_randao-binding}
use qwid_node.Randao.Producing.{randao_for_block-accepted, stateless_accepted, with_randao}
use qwid_node.Tests.Samples.{alice, length-marked_hash, marked_hash, slot_one, value_two}

abbrev operator : FullAddress
operator = record { byte_value = alice; primary = true }

abbrev delegated : FullAddress
delegated = record { byte_value = 0 ∷ 1 ∷ replicate 18 0; primary = true }

abbrev sample_header : ℕ → BaseHeader
sample_header height = record {
  previous_hash = slot_one;
  difficulty = pos 10;
  height = pos height;
  delegated_account = delegated;
  operator_account = operator;
  root_merkle_tree = value_two;
  body_hash = slot_one;
  state_root = value_two;
  encryption1 = [];
  encryption2 = 3 ∷ [];
  signature = record { byte_value = 0 ∷ 9 ∷ []; address = operator; primary = true };
  signature_message = 1 ∷ 2 ∷ [];
}

-- A block at a height, with a fee.
abbrev sample_block : ℕ → ℕ → Block
sample_block height fee = record {
  base_block = record {
    base_header = sample_header height;
    block_header_hash = slot_one;
    block_time_stamp = pos 1700000000;
    reward_percentage = negsuc 4;
    supply = pos 23000000;
    price_oracle = pos 510;
    rand_oracle = pos 7;
    price_oracle_data = 1 ∷ 2 ∷ 3 ∷ [];
    rand_oracle_data = [];
    oracle_proofs = (4 ∷ 5 ∷ []) ∷ [] ∷ [];
    rand_reveal = [];
    rand_commit = slot_one;
    rand_mix = value_two;
  };
  transactions_hashes = slot_one ∷ value_two ∷ [];
  block_hash = value_two;
  block_fee = pos fee;
}

sample-IsHeader : IsHeader (sample_header 4)
sample-IsHeader = record {
  previous_hash = refl;
  difficulty_top = omega arith;
  difficulty_bottom = omega arith;
  height = (omega arith, omega arith);
  delegated_account = refl;
  delegated_primary = refl;
  operator_account = refl;
  root_merkle_tree = refl;
  body_hash = refl;
  state_root = refl;
  encryption1 = omega arith;
  encryption2 = omega arith;
  signature_message = omega arith;
  signature_nonempty = omega arith;
  signature_short = omega arith;
  signature_address = refl;
  signature_primary = refl;
}

sample-IsBlock : IsBlock (sample_block 4 12)
sample-IsBlock = record {
  base_block = record {
    header = sample-IsHeader;
    block_header_hash = refl;
    block_time_stamp = (omega arith, omega arith);
    reward_top = omega arith;
    reward_bottom = omega arith;
    supply = (omega arith, omega arith);
    price_oracle = (omega arith, omega arith);
    rand_oracle = (omega arith, omega arith);
    price_oracle_data = omega arith;
    rand_oracle_data = omega arith;
    few_proofs = omega arith;
    small_proofs = (omega arith, (omega arith, tt));
    proofs_size = omega arith;
    rand_reveal = omega arith;
    rand_commit = refl;
    rand_mix = refl;
  };
  transactions_hashes = (refl, (refl, tt));
  block_hash = refl;
  block_fee = (omega arith, omega arith);
}

block_from_bytes-block_bytes_example :
    block_from_bytes (block_bytes (sample_block 4 12)) ≡ ok (sample_block 4 12)
block_from_bytes-block_bytes_example =
    block_from_bytes-block_bytes (sample_block 4 12) sample-IsBlock

-- The delegated account 1 has one staker, who has made no commitment yet.
abbrev first_stakers : StakingAccounts
first_stakers n = record {
  all_staking_accounts = (alice, record zero_staking_account { staked_balance = pos 40 }) ∷ [];
  stake_changed_at = pos 0;
}

abbrev sample_wallet : Wallet
sample_wallet = record { seed = 5 ∷ 6 ∷ []; secret_key = []; main_address = alice }

abbrev seed_at : ℕ → List ℕ
seed_at height = marked_hash (
    bytes_to_len_and_bytes randao_seed_domain
    ++ (bytes_to_len_and_bytes (5 ∷ 6 ∷ []) ++ get_byte_int64 (pos height)))

seed_made : (height : ℕ) → randao_seed marked_hash sample_wallet (pos height) ≡ ok (seed_at height)
unfolding randao_seed
seed_made height = refl

-- The block at height 4 that the wallet has produced.
abbrev committed_block : Block
committed_block = record (sample_block 4 12) {
  base_block = record (sample_block 4 12).base_block {
    rand_commit = randao_commitment marked_hash (seed_at 4);
  };
}

not_zero : (seed : List ℕ) → randao_commitment marked_hash seed ≢ zero_hash
unfolding randao_commitment domain_hash get_hash_from_bytes
not_zero seed e = let one : 1 ≡ 0 = ap first_byte e in absurd (omega (arith, one))

delegated_id : int_delegated_account_from_address delegated.byte_value ≡ ok 1
unfolding int_delegated_account_from_address get_delegated_account_address bytes_discrete ℕ_discrete
delegated_id = refl

staker_there :
    get bytes_discrete alice (first_stakers 1).all_staking_accounts
    ≡ some (record zero_staking_account { staked_balance = pos 40 })
unfolding get bytes_discrete ℕ_discrete
staker_there = refl

randao_for_block-accepted_example :
    (t : StakingAccounts) × (f : RandaoFields) × (apply_randao_commit committed_block first_stakers
      ≡ ok t)
    × (randao_for_block marked_hash sample_wallet delegated.byte_value (sample_block 8 1) (pos 9) t
        ≡ ok f)
    × (verify_randao_stateless marked_hash (with_randao f (sample_block 9 3)) (sample_block 8 1)
        ≡ ok tt)
    × (verify_randao_reveal marked_hash (with_randao f (sample_block 9 3)) t ≡ ok tt)
randao_for_block-accepted_example =
    randao_for_block-accepted marked_hash length-marked_hash sample_wallet 1 first_stakers
      (record zero_staking_account { staked_balance = pos 40 }) committed_block (sample_block 9 3)
      (sample_block 8 1) (seed_at 4) (seed_at 9) delegated_id refl staker_there refl refl refl
      (omega arith) refl (seed_made 4) refl (seed_made 9) (not_zero (seed_at 9))

-- Two blocks at height 5 of an operator without a commitment, with different new commitments.
abbrev first_choice : Block
first_choice =
    with_randao (randao_fields marked_hash (sample_block 4 12) (pos 5) [] (1 ∷ []))
      (sample_block 5 1)

abbrev second_choice : Block
second_choice =
    with_randao (randao_fields marked_hash (sample_block 4 12) (pos 5) [] (2 ∷ []))
      (sample_block 5 2)

first_stateless : verify_randao_stateless marked_hash first_choice (sample_block 4 12) ≡ ok tt
first_stateless =
    stateless_accepted marked_hash length-marked_hash (sample_block 5 1) (sample_block 4 12) []
      (1 ∷ []) refl (inl refl) (not_zero (1 ∷ []))

second_stateless : verify_randao_stateless marked_hash second_choice (sample_block 4 12) ≡ ok tt
second_stateless =
    stateless_accepted marked_hash length-marked_hash (sample_block 5 2) (sample_block 4 12) []
      (2 ∷ []) refl (inl refl) (not_zero (2 ∷ []))

first_reveal : verify_randao_reveal marked_hash first_choice first_stakers ≡ ok tt
unfolding verify_randao_reveal must_delegated_account_id int_delegated_account_from_address
    get_delegated_account_address bytes_discrete ℕ_discrete get_rand_commit get check_reveal
    reveal_due randao_fields
first_reveal = refl

second_reveal : verify_randao_reveal marked_hash second_choice first_stakers ≡ ok tt
unfolding verify_randao_reveal must_delegated_account_id int_delegated_account_from_address
    get_delegated_account_address bytes_discrete ℕ_discrete get_rand_commit get check_reveal
    reveal_due randao_fields
second_reveal = refl

verify_randao-binding_example :
    ((first_choice.base_block.rand_mix ≡ second_choice.base_block.rand_mix)
      × (first_choice.base_block.rand_oracle ≡ second_choice.base_block.rand_oracle))
    ⊎ Collision marked_hash
verify_randao-binding_example =
    verify_randao-binding marked_hash length-marked_hash (sample_block 4 12) first_choice
      second_choice first_stakers refl refl refl refl first_stateless second_stateless first_reveal
      second_reveal
