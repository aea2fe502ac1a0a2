-- ===== src/Tests/Revealing.antt =====
-- A recovery reveal on concrete values, with hash functions that have one value.
use qwid_node.Base.{Bool, List, [], false, ok, refl, replicate, true, ℕ, ◌++◌, ◌∷◌, ◌≡◌, ◌⊎◌}
use qwid_node.Base.Int.{pos, ℤ}
use qwid_node.Types.{Address, bytes_discrete, zero_account, zero_hash}
use qwid_node.Hashes.{Collision}
use qwid_node.Wire.Fields.{FullAddress, bytes_to_address}
use qwid_node.Recovery.{Accounts}
use qwid_node.Transactions.{Transaction, zero_full_address}
use qwid_node.Transactions.Secrets.{Outside, recovery_reveal_address}
use qwid_node.Transactions.Reveals.{verify_recovery_reveal}
use qwid_node.Transactions.Revealed.{
  IsAuthorised, key_address, next_of, verify_recovery_reveal-IsAuthorised,
}
use qwid_node.Transactions.FirstBind.{verify_recovery_reveal-binding}
use qwid_node.Tests.Samples.{alice, bob, slot_one, value_two}

abbrev any_key : List ℕ → Bool → FullAddress
any_key b p = record { byte_value = 77 ∷ replicate 19 0; primary = p }

abbrev sample_outside : Outside
sample_outside = record {
  hash160 = λ (x : List ℕ). alice;
  hash256 = λ (x : List ℕ). slot_one;
  is_valid_pub_key_length = λ (n : ℕ) (p : Bool). true;
  pub_key_to_address = any_key;
  is_registered = λ (a : Address) (h : ℤ). false;
  has_keys = λ (a : Address) (h : ℤ). true;
  old_key_signs = λ (a b c d : List ℕ). false;
  signs = λ (h s k : List ℕ). true;
  chain_id = pos 23;
  height = pos 600;
}

abbrev bound : Accounts
bound = record {
  all_accounts = (bob, record zero_account { recovery_commit = alice }) ∷ [];
  recovery_binds = (slot_one, record { identity = bob; payload = slot_one; height = pos 100 }) ∷ [];
  height = pos 499;
}

abbrev reveal : Transaction
reveal = record {
  tx_data = record {
    recipient = record { byte_value = recovery_reveal_address; primary = true };
    amount = pos 0;
    opt_data = replicate 32 7 ++ value_20;
    pubkey = record {
      byte_value = 1 ∷ 2 ∷ 3 ∷ [];
      address = any_key [] true;
      main_address = record { byte_value = bob; primary = true };
      primary = true;
    };
    locked_amount = pos 0;
    release_per_block = pos 0;
    delegated_account_for_locking = zero_full_address;
    escrow_transactions_delay = pos 0;
    multi_sign_number = 0;
    multi_sign_addresses = [];
  };
  tx_param = record {
    chain_id = pos 23;
    sender = record { byte_value = bob; primary = true };
    sending_time = pos 0;
    nonce = pos 1;
    multi_sign_tx = zero_hash;
  };
  hash = slot_one;
  signature = record {
    byte_value = 0 ∷ 4 ∷ [];
    address = record { byte_value = bob; primary = true };
    primary = true;
  };
  height = pos 499;
  gas_price = pos 1;
  gas_usage = pos 40_000;
  output_logs = [];
  contract_address = zero_full_address;
}
  where
    value_20 : List ℕ
    value_20 = 5 ∷ replicate 19 0

accepted : verify_recovery_reveal sample_outside bound reveal slot_one (pos 499) ≡ ok tt
unfolding verify_recovery_reveal bytes_discrete bytes_to_address
accepted = refl

verify_recovery_reveal-IsAuthorised_example : IsAuthorised sample_outside bound reveal (pos 499)
verify_recovery_reveal-IsAuthorised_example =
    verify_recovery_reveal-IsAuthorised sample_outside bound reveal slot_one (pos 499) refl accepted

later : verify_recovery_reveal sample_outside bound reveal value_two (pos 500) ≡ ok tt
unfolding verify_recovery_reveal bytes_discrete bytes_to_address
later = refl

verify_recovery_reveal-binding_example :
    ((key_address sample_outside reveal ≡ key_address sample_outside reveal)
      × (next_of reveal ≡ next_of reveal))
    ⊎ Collision sample_outside.hash256
verify_recovery_reveal-binding_example =
    verify_recovery_reveal-binding sample_outside bound bound reveal reveal slot_one value_two
      (pos 499) (pos 500) (λ (x : List ℕ). refl) (λ (b : List ℕ) (p : Bool). refl) refl refl refl
      refl refl refl accepted later
