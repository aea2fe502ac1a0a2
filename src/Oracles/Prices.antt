-- ===== src/Oracles/Prices.antt =====
-- The price of a block from the oracle data that it carries (oracles/oraclesDefinition.go).
use qwid_node.Base.{
  Bool, List, Result, [], drop, err, false, if◌then◌else◌, length, ltb, ok, suc, take, zero, ℕ,
  ℕ_discrete, ◌%◌, ◌++◌, ◌-◌, ◌/◌, ◌==◌, ◌>>=◌, ◌∷◌,
}
use qwid_node.Base.Int.{eqb_ℤ, leb_ℤ, ltb_ℤ, negsuc, pos, quot, ℤ}
use qwid_node.Base.Int64.{add64, mul64, sub64}
use qwid_node.Base.Sort.{sort}
use qwid_node.Base.Table.{Table, put, retain}
use qwid_node.Base.Update.{value_or}
use qwid_node.Wire.{get_int64_from_byte}
use qwid_node.Staking.{StakingAccounts}
use qwid_node.Staking.Nodes.{get_staked_in_delegated_account}
use qwid_node.Oracles.{
  OracleError, OracleProof, Oracles, PriceOracle, bad_length, generate_price_data,
  non_positive_price, not_ascending, not_enough_stake, too_few_prices,
}

-- The second result of `account.GetStakedInDelegatedAccount(int(id))`. A uint8 is an index of the
-- array.
unfoldable pub staked_in : StakingAccounts → ℕ → ℤ
unfolding get_staked_in_delegated_account
staked_in s id = elim (get_staked_in_delegated_account (pos id) s) [ ok g ↦ g.sum | err e ↦ pos 0 ]

pub record ParsedData : Type 0 where
  pub parsed_data : Table ℕ PriceOracle
  pub prices : List ℤ
  pub all_staked : ℤ

abbrev pub nothing_parsed : ParsedData
nothing_parsed = record { parsed_data = []; prices = []; all_staked = pos 0 }

-- `priceData[i]`, and the int64 at an offset from `i`: both are in range in the loop.
abbrev pub first_byte : List ℕ → ℕ
first_byte [] = 0
first_byte (b ∷ bs) = b

unfoldable pub int64_at : ℕ → List ℕ → ℤ
int64_at k bs = value_or (pos 0) (get_int64_from_byte (drop k bs))

unfoldable pub add_parsed : ℕ → ℤ → ℤ → ℤ → ParsedData → ParsedData
unfolding add64 put
add_parsed id height price staked g = record {
  parsed_data =
      put ℕ_discrete id (record { price = price; height = height; staked = staked }) g.parsed_data;
  prices = g.prices ++ price ∷ [];
  all_staked = add64 g.all_staked staked;
}

-- The loop of `ParsePriceData`, by the number of entries left.
unfoldable pub parse_loop :
    StakingAccounts → ℕ → List ℕ → ℤ → ParsedData → Result OracleError ParsedData
unfolding int64_at add_parsed staked_in
parse_loop s zero bs prev_id g = ok g
parse_loop s (suc n) bs prev_id g =
    let id = first_byte bs in
    let price = int64_at 9 bs in
    let rest =
      parse_loop s n (drop 17 bs) (pos id)
        (add_parsed id (int64_at 1 bs) price (staked_in s id) g) in
    if leb_ℤ (pos id) prev_id
    then err not_ascending
    else if leb_ℤ price (pos 0)
    then err non_positive_price
    else rest

unfoldable pub parse_price_data : StakingAccounts → List ℕ → Result OracleError ParsedData
unfolding parse_loop
parse_price_data s price_data =
    if length price_data % 17 == 0
    then parse_loop s (length price_data / 17) price_data (negsuc 0) nothing_parsed
    else err bad_length

-- `prices[k]`; the code only reads indices in range.
abbrev pub price_at : List ℤ → ℕ → ℤ
price_at [] k = pos 0
price_at (x ∷ xs) zero = x
price_at (x ∷ xs) (suc k) = price_at xs k

unfoldable pub median : List ℤ → ℤ
unfolding add64 sub64 quot
median prices =
    let mid = length prices / 2 in
    if length prices % 2 == 0
    then (let a = price_at prices (mid - 1) in
        let b = price_at prices mid in add64 a (quot (sub64 b a) 2))
    else price_at prices mid

-- `if len(prices) > 2`: sort, and drop the least and the greatest.
unfoldable pub trimmed : List ℤ → List ℤ
unfolding sort
trimmed prices =
    if ltb 2 (length prices) then take (length prices - 2) (drop 1 (sort ltb_ℤ prices)) else prices

-- `staked <= 2*totalStaked/3`
unfoldable pub is_too_little : ℤ → ℤ → Bool
unfolding mul64 quot
is_too_little staked total_staked = leb_ℤ staked (quot (mul64 (pos 2) total_staked) 3)

-- What `CalculatePriceOracle` and `PriceFromData` do once they have the prices.
unfoldable pub price_of : List ℤ → ℤ → ℤ → Result OracleError ℤ
unfolding is_too_little trimmed median
price_of prices staked total_staked =
    if is_too_little staked total_staked
    then err not_enough_stake
    else (let ps = trimmed prices in if length ps == 0 then err too_few_prices else ok (median ps))

-- `CalculatePriceOracle`, which only the tests of the package call.
unfoldable pub calculate_price_oracle : ℤ → ℤ → Oracles → Result OracleError ℤ × List ℕ
calculate_price_oracle height total_staked s =
    let g = generate_price_data height s in (price_of g.prices g.staked total_staked, g.price_data)

unfoldable pub price_from_data : StakingAccounts → List ℕ → ℤ → Result OracleError ℤ
price_from_data s price_data total_staked = do
  g ← parse_price_data s price_data
  price_of g.prices g.all_staked total_staked

-- The price that services/blockCreation.go puts into a block: the one of its data, or the parent's.
abbrev pub price_or : ℤ → Result OracleError ℤ → ℤ
price_or parent (ok price) = price
price_or parent (err e) = parent

unfoldable pub block_price : StakingAccounts → List ℕ → ℤ → ℤ → ℤ
unfolding price_from_data
block_price s price_data total_staked parent =
    price_or parent (price_from_data s price_data total_staked)

-- `VerifyPriceOracle` once the data is parsed.
unfoldable pub verify_parsed : ParsedData → ℤ → ℤ → ℤ → Bool
unfolding is_too_little trimmed median
verify_parsed g total_staked price_block fallback =
    if is_too_little g.all_staked total_staked
    then eqb_ℤ price_block fallback
    else (let ps = trimmed g.prices in
        if length ps == 0 then false else eqb_ℤ (median ps) price_block)

abbrev pub verify_result : Result OracleError ParsedData → ℤ → ℤ → ℤ → Bool
verify_result (err e) total_staked price_block fallback = false
verify_result (ok g) total_staked price_block fallback =
    verify_parsed g total_staked price_block fallback

unfoldable pub verify_price_oracle : StakingAccounts → ℤ → ℤ → List ℕ → ℤ → Bool
verify_price_oracle s total_staked price_block price_data fallback =
    verify_result (parse_price_data s price_data) total_staked price_block fallback

unfoldable pub drop_submissions_above : ℤ → Oracles → Oracles
unfolding retain
drop_submissions_above height s = record {
  price_oracles = retain (λ id (po : PriceOracle). leb_ℤ po.height height) s.price_oracles;
  oracle_proofs = retain (λ id (p : OracleProof). leb_ℤ p.height height) s.oracle_proofs;
}
