-- ===== src/Tests/Prices.antt =====
-- Price submissions on concrete inputs.
use qwid_node.Base.{All, List, [], arith, false, ok, refl, true, ℕ, ℕ_discrete, ◌↔◌, ◌∷◌, ◌≡◌}
use qwid_node.Base.Int.{pos, ℤ, ◌≤ℤ◌}
use qwid_node.Base.Table.{IsTable, get}
use qwid_node.Staking.{StakingAccounts, zero_staking_account}
use qwid_node.Oracles.{Oracles, PriceOracle, generate_price_data}
use qwid_node.Oracles.Prices.{
  ParsedData, block_price, is_too_little, parse_price_data, price_of, staked_in,
  verify_price_oracle,
}
use qwid_node.Oracles.Entries.{entry_prices, snapshot_staked}
use qwid_node.Oracles.Agreement.{AreStored, parse-generate_price_data, used_at}
use qwid_node.Oracles.Verified.{verify_price_oracle_iff}
use qwid_node.Oracles.Middle.{IsPrice}
use qwid_node.Oracles.Majority.{price_of-majority}
use qwid_node.Tests.Samples.{alice}

-- Every delegated account has one staker, with 40.
abbrev staked_accounts : StakingAccounts
staked_accounts n = record {
  all_staking_accounts = (alice, record zero_staking_account { staked_balance = pos 40 }) ∷ [];
  stake_changed_at = pos 0;
}

abbrev submission : ℕ → ℕ → PriceOracle
submission i price = record {
  price = pos price;
  height = pos 100;
  staked = staked_in staked_accounts i;
}

abbrev submitted : Oracles
submitted = record {
  price_oracles = (3, submission 3 500) ∷ (1, submission 1 510) ∷ (2, submission 2 9000) ∷ [];
  oracle_proofs = [];
}

submitted-IsTable : IsTable ℕ_discrete submitted.price_oracles
unfolding get ℕ_discrete
submitted-IsTable = (refl, (refl, (refl, tt)))

submitted-AreStored : AreStored submitted.price_oracles
submitted-AreStored = (
  omega arith,
  (omega arith, omega arith),
  (omega arith, omega arith),
  (
    omega arith,
    (omega arith, omega arith),
    (omega arith, omega arith),
    (omega arith, (omega arith, omega arith), (omega arith, omega arith), tt),
  ),
)

parse-generate_price_data_example :
    (g : ParsedData) × (parse_price_data staked_accounts
        (generate_price_data (pos 101) submitted).price_data
      ≡ ok g)
    × (g.prices ≡ (generate_price_data (pos 101) submitted).prices)
    × (g.prices ≡ entry_prices (used_at (pos 101) submitted))
    × (g.all_staked ≡ snapshot_staked staked_accounts (pos 0) (used_at (pos 101) submitted))
parse-generate_price_data_example =
    parse-generate_price_data staked_accounts (pos 101) submitted submitted-IsTable
      submitted-AreStored

abbrev submitted_data : List ℕ
submitted_data = (generate_price_data (pos 101) submitted).price_data

verify_price_oracle_iff_example :
    (verify_price_oracle staked_accounts (pos 150) (pos 510) submitted_data (pos 490) ≡ true) ↔ (
      ((g : ParsedData) × (parse_price_data staked_accounts submitted_data ≡ ok g))
      × (pos 510 ≡ block_price staked_accounts submitted_data (pos 150) (pos 490)))
verify_price_oracle_iff_example =
    verify_price_oracle_iff staked_accounts submitted_data (pos 150) (pos 510) (pos 490)
      (omega arith) (omega arith)

-- One of three submissions is far off.
abbrev some_prices : List ℤ
some_prices = pos 500 ∷ pos 510 ∷ pos 9000 ∷ []

some_prices-IsPrice : All IsPrice some_prices
some_prices-IsPrice = (
  (omega arith, (omega arith, omega arith)),
  ((omega arith, (omega arith, omega arith)), ((omega arith, (omega arith, omega arith)), tt)),
)

enough_stake : is_too_little (pos 120) (pos 150) ≡ false
unfolding is_too_little
enough_stake = refl

price_of-majority_example :
    (price : ℤ) × (price_of some_prices (pos 120) (pos 150) ≡ ok price)
    × (pos 490 ≤ℤ price)
    × (price ≤ℤ pos 520)
price_of-majority_example =
    price_of-majority (pos 490) (pos 520) some_prices (pos 120) (pos 150) some_prices-IsPrice
      (omega arith) enough_stake
