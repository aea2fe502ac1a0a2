-- ===== src/Oracles/Agreement.antt =====
-- Price data that is generated and parsed again (oracles/oraclesDefinition.go).
use qwid_node.Base.Sort.{All-sort, AreDistinct, IsAscending, IsOther, sort, sort-IsAscending}
use qwid_node.Staking.{StakingAccounts}
use qwid_node.Base.{
  All, Bool-cases, List, [], arith, inl, inr, length, ltb, map, none, ok, true, ℕ, ℕ_discrete, ◌%◌,
  ◌*◌, ◌/◌, ◌<◌, ◌==◌, ◌∷◌, ◌≡◌,
}
use qwid_node.Base.Int.{negsuc, pos, ℤ, ◌<ℤ◌}
use qwid_node.Base.Int64.{Fits64}
use qwid_node.Base.Table.{IsTable, Table, get}
use qwid_node.Base.Update.{value_or}
use qwid_node.Oracles.{
  Oracles, PriceOracle, generate_price_data, is_used, no_price, no_prices, sorted_ids,
}
use qwid_node.Oracles.Prices.{ParsedData, nothing_parsed, parse_price_data}
use qwid_node.Oracles.Entries.{
  Entry, IsCanonical, add_all, add_all_lists, collected, entry_bytes, entry_prices,
  length-entry_bytes, parse_loop-entries, price_loop-used, snapshot_staked, used,
}

-- The keys are uint8, and the heights and prices int64.
abbrev pub AreStored : Table ℕ PriceOracle → Type 0
AreStored [] = Unit
AreStored ((i, po) ∷ m) = (i < 256) × Fits64 po.height × Fits64 po.price × AreStored m

abbrev keys : Table ℕ PriceOracle → List ℕ
keys m = map (λ e. e.0) m

abbrev IsByte : ℕ → Type 0
IsByte i = i < 256

keys_are_bytes : (m : Table ℕ PriceOracle) → AreStored m → All IsByte (keys m)
keys_are_bytes [] h = tt
keys_are_bytes ((i, po) ∷ m) h = (h.0, keys_are_bytes m h.3)

IsOther-keys :
    (i : ℕ) (m : Table ℕ PriceOracle) → get ℕ_discrete i m ≡ none → All (IsOther i) (keys m)
unfolding get
IsOther-keys i [] h = tt
IsOther-keys i ((j, po) ∷ m) h = ground (arith, IsOther-keys i m)

keys_distinct : (m : Table ℕ PriceOracle) → IsTable ℕ_discrete m → AreDistinct (keys m)
keys_distinct [] h = tt
keys_distinct ((i, po) ∷ m) h = (IsOther-keys i m h.0, keys_distinct m h.1)

stored_fits :
    (i : ℕ) (m : Table ℕ PriceOracle)
    → AreStored m
    → let po = value_or no_price (get ℕ_discrete i m) in Fits64 po.height × Fits64 po.price
unfolding get
stored_fits i [] h = (omega arith, omega arith)
stored_fits i ((j, po) ∷ m) h = ground (arith, stored_fits i m h.3)

IsCanonical-weaken :
    (prev i : ℤ) (es : List Entry) → prev <ℤ i → IsCanonical i es → IsCanonical prev es
IsCanonical-weaken prev i [] h c = tt
IsCanonical-weaken prev i ((j, po) ∷ es) h c = (omega arith, c.1, c.2, c.3, c.4, c.5)

positive_if_used : (height : ℤ) (po : PriceOracle) → is_used height po ≡ true → pos 0 <ℤ po.price
positive_if_used height po h = ground arith

used-IsCanonical :
    (height prev : ℤ) (m : Table ℕ PriceOracle) (ids : List ℕ)
    → AreStored m
    → IsAscending prev ids
    → All IsByte ids
    → IsCanonical prev (used height m ids)
unfolding used
used-IsCanonical height prev m [] h a b = tt
used-IsCanonical height prev m (i ∷ ids) h a b =
    let po = value_or no_price (get ℕ_discrete i m) in
    let rest = used-IsCanonical height (pos i) m ids h a.1 b.1 in
    elim (Bool-cases (is_used height po)) [
      | inl e ↦
          let (fh, fp) = stored_fits i m h in
          rw (e, used) (a.0, b.0, fh, fp, positive_if_used height po e, rest)
      | inr e ↦ rw (e, used) (IsCanonical-weaken prev (pos i) (used height m ids) a.0 rest)
    ]

-- The submissions that a block at this height uses, in ascending order of their numbers.
abbrev pub used_at : ℤ → Oracles → List Entry
used_at height s = used height s.price_oracles (sorted_ids s.price_oracles)

generate_price_data-used :
    (height : ℤ) (s : Oracles)
    → generate_price_data height s ≡ collected no_prices (used_at height s)
unfolding generate_price_data
generate_price_data-used height s =
    price_loop-used height s.price_oracles (sorted_ids s.price_oracles) no_prices

used_at-IsCanonical :
    (height : ℤ) (s : Oracles)
    → IsTable ℕ_discrete s.price_oracles
    → AreStored s.price_oracles
    → IsCanonical (negsuc 0) (used_at height s)
unfolding sorted_ids
used_at-IsCanonical height s t h =
    used-IsCanonical height (negsuc 0) s.price_oracles (sort ltb (keys s.price_oracles)) h
      (sort-IsAscending (keys s.price_oracles) (keys_distinct s.price_oracles t))
      (All-sort ltb IsByte (keys s.price_oracles) (keys_are_bytes s.price_oracles h))

whole_entries : (n : ℕ) → (n * 17 % 17 == 0 ≡ true) × (n * 17 / 17 ≡ n)
whole_entries n = ground arith

-- Canonical entries parse to themselves, each with the stake of its account in the snapshot.
parse-entry_bytes :
    (sa : StakingAccounts) (es : List Entry)
    → IsCanonical (negsuc 0) es
    → parse_price_data sa (entry_bytes es) ≡ ok (add_all sa es nothing_parsed)
unfolding parse_price_data
parse-entry_bytes sa es c = rw (
  length-entry_bytes es,
  (whole_entries (length es)).0,
  (whole_entries (length es)).1,
  parse_loop-entries sa es (negsuc 0) nothing_parsed c,
)

-- The price data that a node generates from a map of submissions parses, with the prices of exactly
-- the submissions it used, in the order of their numbers, and with the sum of the stakes that the
-- snapshot has for these numbers.
pub parse-generate_price_data :
    (sa : StakingAccounts) (height : ℤ) (s : Oracles)
    → IsTable ℕ_discrete s.price_oracles
    → AreStored s.price_oracles
    → (g : ParsedData) × (parse_price_data sa (generate_price_data height s).price_data ≡ ok g)
      × (g.prices ≡ (generate_price_data height s).prices)
      × (g.prices ≡ entry_prices (used_at height s))
      × (g.all_staked ≡ snapshot_staked sa (pos 0) (used_at height s))
parse-generate_price_data sa height s t h =
    let es = used_at height s in
    let (prices, staked) = add_all_lists sa es nothing_parsed in
    rw (generate_price_data-used height s) (
      add_all sa es nothing_parsed,
      parse-entry_bytes sa es (used_at-IsCanonical height s t h),
      prices,
      prices,
      staked,
    )
