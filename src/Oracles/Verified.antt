-- ===== src/Oracles/Verified.antt =====
-- The price that a producer puts into a block, and the ones that a verifier accepts
-- (oracles/oraclesDefinition.go, services/blockCreation.go).
use qwid_node.Base.Int64.{mul64_exact}
use qwid_node.Oracles.{OracleError, bad_length, non_positive_price, not_ascending}
use qwid_node.Base.{
  Bool, Bool-cases, List, Result, [], arith, drop, err, false, if◌then◌else◌, inl, inr, length,
  length-append, length-drop, ltb, ok, refl, suc, sym, take, true, zero, ℕ, ◌%◌, ◌+◌, ◌-◌, ◌/◌, ◌<◌,
  ◌==◌, ◌^◌, ◌↔◌, ◌∷◌, ◌≡◌, ◌⊎◌,
}
use qwid_node.Base.Int.{
  eq_of_parts, eqb_ℤ, leb_ℤ, ltb_ℤ, negsuc, pos, pos_part, quot, ℤ, ◌*ℤ◌, ◌≤ℤ◌,
}
use qwid_node.Staking.{StakingAccounts}
use qwid_node.Base.Sort.{length-sort, sort}
use qwid_node.Oracles.Middle.{length-take}
use qwid_node.Oracles.Prices.{
  ParsedData, add_parsed, block_price, first_byte, int64_at, is_too_little, median, nothing_parsed,
  parse_loop, parse_price_data, price_from_data, price_of, price_or, staked_in, trimmed,
  verify_parsed, verify_price_oracle,
}

abbrev parsed : ParsedData → Result OracleError ParsedData
parsed = ok

-- A check that returned no error did not fire.
passed :
    (b : Bool) (e : OracleError) (r : Result OracleError ParsedData) (g : ParsedData)
    → (if b then err e else r) ≡ ok g
    → r ≡ ok g
passed true e r g h = cc
passed false e r g h = h

ok_inj : (g h : ParsedData) → parsed g ≡ ok h → g ≡ h
ok_inj g h e = cc

not_parsed : (e : OracleError) (g : ParsedData) → err e ≡ parsed g → ⊥
not_parsed e g h = cc

length-add_parsed :
    (id : ℕ) (price height staked : ℤ) (g : ParsedData)
    → length (add_parsed id price height staked g).prices ≡ length g.prices + 1
unfolding add_parsed
length-add_parsed id price height staked g = length-append g.prices (height ∷ [])

-- The loop adds one price for each entry.
length-parse_loop :
    (s : StakingAccounts) (n : ℕ) (bs : List ℕ) (prev : ℤ) (g h : ParsedData)
    → parse_loop s n bs prev g ≡ ok h
    → length h.prices ≡ length g.prices + n
unfolding parse_loop
length-parse_loop s zero bs prev g h e = rw (← ok_inj g h e) (omega arith)
length-parse_loop s (suc n) bs prev g h e =
    let id = first_byte bs in
    let price = int64_at 9 bs in
    let more = add_parsed id (int64_at 1 bs) price (staked_in s id) g in
    let rest = parse_loop s n (drop 17 bs) (pos id) more in
    let positive = if leb_ℤ price (pos 0) then err non_positive_price else rest in
    let longer = length-parse_loop s n (drop 17 bs) (pos id) more h (
      passed (leb_ℤ price (pos 0)) non_positive_price rest h
        (passed (leb_ℤ (pos id) prev) not_ascending positive h e)) in
    omega (arith, longer, length-add_parsed id (int64_at 1 bs) price (staked_in s id) g)

parsed_none :
    (s : StakingAccounts) (n : ℕ) (d : List ℕ) (g : ParsedData)
    → parse_loop s n d (negsuc 0) nothing_parsed ≡ ok g
    → length g.prices ≡ 0
    → g.all_staked ≡ pos 0
parsed_none s zero d g e h = unfold parse_loop in (rw (← ok_inj nothing_parsed g e) refl)
parsed_none s (suc n) d g e h =
    absurd (omega (arith, length-parse_loop s (suc n) d (negsuc 0) nothing_parsed g e))

-- Data without prices has no stake behind it.
no_prices :
    (s : StakingAccounts) (d : List ℕ) (g : ParsedData)
    → parse_price_data s d ≡ ok g
    → length g.prices ≡ 0
    → g.all_staked ≡ pos 0
unfolding parse_price_data
no_prices s d g e h = elim (Bool-cases (length d % 17 == 0)) [
  | inl whole ↦ parsed_none s (length d / 17) d g (rw whole at e) h
  | inr part ↦ absurd (not_parsed bad_length g (rw part at e))
]

more_than_two : (n : ℕ) → ltb 2 n ≡ true → 2 < n
more_than_two n h = ground arith

length-trimmed : (ps : List ℤ) → length (trimmed ps) ≡ 0 → length ps ≡ 0
unfolding trimmed
length-trimmed ps h = elim (Bool-cases (ltb 2 (length ps))) [
  | inl many ↦
      let tail = drop 1 (sort ltb_ℤ ps) in
      let left : length (take (length ps - 2) tail) ≡ 0 = rw many at h in
      let enough = more_than_two (length ps) many in
      let whole : length tail ≡ length ps - 1 =
        omega (arith, length-drop 1 (sort ltb_ℤ ps), length-sort ltb_ℤ ps) in
      let shorter = length-take (length ps - 2) tail (omega (arith, whole)) in
      absurd (omega (arith, left, shorter, enough))
  | inr few ↦ rw few at h
]

nothing_is_too_little :
    (total : ℤ) → pos 0 ≤ℤ total → pos_part total < 2 ^ 62 → is_too_little (pos 0) total ≡ true
unfolding is_too_little
nothing_is_too_little (pos n) h k =
    rw (mul64_exact (pos 2) (pos n) (unfold ◌*ℤ◌ in ground arith))
      (unfold ◌*ℤ◌ in (unfold quot in ground arith))
nothing_is_too_little (negsuc n) h k = absurd (omega arith)

equal_iff : (a b : ℤ) → (eqb_ℤ a b ≡ true) ↔ (a ≡ b)
equal_iff a b = ((λ e. eq_of_parts a b (ground arith)), λ e. rw e (ground arith))

verify_parsed_iff :
    (g : ParsedData) (total price parent : ℤ)
    → (length g.prices ≡ 0 → is_too_little g.all_staked total ≡ true)
    → (verify_parsed g total price parent ≡ true)
      ↔ (price ≡ price_or parent (price_of g.prices g.all_staked total))
unfolding verify_parsed price_of
verify_parsed_iff g total price parent some_price =
    elim (Bool-cases (is_too_little g.all_staked total)) [
      | inl little ↦ rw little (equal_iff price parent)
      | inr much ↦ elim (Bool-cases (length (trimmed g.prices) == 0)) [
        | inl none_left ↦
            absurd (ground (arith, much, some_price (length-trimmed g.prices (ground arith))))
        | inr left ↦
            let both = equal_iff (median (trimmed g.prices)) price in
            rw (much, left) ((λ e. sym (both.0 e)), λ e. both.1 (sym e))
      ]
    ]

result_cases :
    (r : Result OracleError ParsedData)
    → ((g : ParsedData) × (r ≡ ok g)) ⊎ ((e : OracleError) × (r ≡ err e))
result_cases (ok g) = inl (g, refl)
result_cases (err e) = inr (e, refl)

-- `VerifyPriceOracle` accepts exactly the price that a producer puts into a block with the same data: the
-- price that `PriceFromData` establishes, or else the parent's. Data that does not parse is accepted with
-- no price. The total stake is from 0 to 2^62 - 1.
pub verify_price_oracle_iff :
    (sa : StakingAccounts) (d : List ℕ) (total price parent : ℤ)
    → pos 0 ≤ℤ total
    → pos_part total < 2 ^ 62
    → (verify_price_oracle sa total price d parent ≡ true) ↔ (
        ((g : ParsedData) × (parse_price_data sa d ≡ ok g))
        × (price ≡ block_price sa d total parent))
unfolding verify_price_oracle block_price price_from_data
verify_price_oracle_iff sa d total price parent h k = elim (result_cases (parse_price_data sa d)) [
  | inl (g, p) ↦
      let both =
        verify_parsed_iff g total price parent
          (λ z. rw (no_prices sa d g p z) (nothing_is_too_little total h k)) in
      rw p ((λ e. ((g, refl), both.0 e)), λ x. both.1 x.1)
  | inr (e, p) ↦ rw p ((λ x. absurd (ground arith)), λ x. absurd (not_parsed e x.0.0 x.0.1))
]
