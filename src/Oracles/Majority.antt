-- ===== src/Oracles/Majority.antt =====
-- The median of the prices, and what it takes to move it (oracles/oraclesDefinition.go).
use qwid_node.Base.{
  All, All-drop, All-take, Bool-cases, List, [], arith, drop, false, inl, inr, length, length-drop,
  ltb, ok, refl, suc, take, zero, ℕ, ◌%◌, ◌*◌, ◌-◌, ◌/◌, ◌<◌, ◌==◌, ◌∙◌, ◌∷◌, ◌≡◌, ◌≤◌,
}
use qwid_node.Base.Int.{ltb_ℤ, ℤ, ◌≤ℤ◌}
use qwid_node.Base.Sort.{All-sort, count, count-sort, length-sort, sort}
use qwid_node.Oracles.Prices.{is_too_little, median, price_at, price_of, trimmed}
use qwid_node.Oracles.Middle.{
  IsPrice, IsSorted, count-le-length, halfway, length-take, middle_within, price_at-All,
  price_at-drop, price_at-take, sort-IsSorted, within,
}

-- Every item that is a middle one of the list lies in the range.
abbrev HasMiddle : ℤ → ℤ → List ℤ → Type 0
HasMiddle lo hi ps =
    (k : ℕ)
    → k < length ps
    → length ps ≤ 2 * suc k
    → 2 * k ≤ length ps
    → (lo ≤ℤ price_at ps k) × (price_at ps k ≤ℤ hi)

median_within :
    (lo hi : ℤ) (ps : List ℤ)
    → All IsPrice ps
    → 0 < length ps
    → HasMiddle lo hi ps
    → (lo ≤ℤ median ps) × (median ps ≤ℤ hi)
unfolding median
median_within lo hi ps prices some_there middle = elim (Bool-cases (length ps % 2 == 0)) [
  | inl even ↦
      let mid = length ps / 2 in
      let two : length ps ≡ 2 * mid = ground arith in
      let a = middle (mid - 1) (omega (arith, two)) (omega (arith, two)) (omega (arith, two)) in
      let b = middle mid (omega (arith, two)) (omega (arith, two)) (omega (arith, two)) in
      rw (even, median)
        (halfway lo hi (price_at ps (mid - 1)) (price_at ps mid)
          (price_at-All IsPrice (mid - 1) ps prices (omega (arith, two)))
          (price_at-All IsPrice mid ps prices (omega (arith, two))) a.0 a.1 b.0 b.1)
  | inr odd ↦
      let mid = length ps / 2 in
      let two : length ps ≡ suc (2 * mid) = ground arith in
      rw (odd, median) (middle mid (omega (arith, two)) (omega (arith, two)) (omega (arith, two)))
]

small_middle :
    (lo hi : ℤ) (ps : List ℤ)
    → length ps ≤ 2
    → length ps < 2 * count (within lo hi) ps
    → HasMiddle lo hi ps
small_middle lo hi [] h m k l a b = absurd (omega arith)
small_middle lo hi (x ∷ []) h m zero l a b = ground arith
small_middle lo hi (x ∷ []) h m (suc k) l a b = absurd (omega arith)
small_middle lo hi (x ∷ y ∷ []) h m zero l a b = ground arith
small_middle lo hi (x ∷ y ∷ []) h m (suc zero) l a b = ground arith
small_middle lo hi (x ∷ y ∷ []) h m (suc (suc k)) l a b = absurd (omega arith)
small_middle lo hi (x ∷ y ∷ z ∷ ps) h m k l a b = absurd (omega arith)

-- Without its least and its greatest item a sorted list has the same middle.
trimmed_middle :
    (lo hi : ℤ) (xs : List ℤ)
    → 2 < length xs
    → IsSorted xs
    → length xs < 2 * count (within lo hi) xs
    → HasMiddle lo hi (take (length xs - 2) (drop 1 xs))
trimmed_middle lo hi xs big sorted most k l a b =
    let e = length-take (length xs - 2) (drop 1 xs) (omega (arith, length-drop 1 xs)) in
    let at = price_at-take (length xs - 2) k (drop 1 xs) (omega (arith, e)) ∙ price_at-drop k xs in
    rw at (
      middle_within lo hi (suc k) xs sorted (omega (arith, e)) (omega (arith, e)) (omega (arith, e))
        most)

sorted_majority :
    (lo hi : ℤ) (prices : List ℤ)
    → length prices < 2 * count (within lo hi) prices
    → length (sort ltb_ℤ prices) < 2 * count (within lo hi) (sort ltb_ℤ prices)
sorted_majority lo hi prices most =
    rw (length-sort ltb_ℤ prices, count-sort ltb_ℤ (within lo hi) prices) most

trimmed_lem :
    (lo hi : ℤ) (prices : List ℤ)
    → All IsPrice prices
    → length prices < 2 * count (within lo hi) prices
    → All IsPrice (trimmed prices)
      × (0 < length (trimmed prices))
      × HasMiddle lo hi (trimmed prices)
unfolding trimmed
trimmed_lem lo hi prices valid most = elim (Bool-cases (ltb 2 (length prices))) [
  | inl big ↦
      let xs = sort ltb_ℤ prices in
      let n = length-sort ltb_ℤ prices in
      let three : 2 < length prices = ground arith in
      rw (big, trimmed)
        (rw (← n) (
          All-take IsPrice (length xs - 2) (drop 1 xs)
              (All-drop IsPrice 1 xs (All-sort ltb_ℤ IsPrice prices valid)),
          omega (arith, length-take (length xs - 2) (drop 1 xs), length-drop 1 xs, n, three),
          trimmed_middle lo hi xs (omega (arith, n, three)) (sort-IsSorted prices)
              (sorted_majority lo hi prices most),
        ))
  | inr small ↦
      let two : length prices ≤ 2 = ground arith in
      rw (small, trimmed)
        (valid, omega (arith, count-le-length lo hi prices), small_middle lo hi prices two most)
]

-- With enough stake, and with more than half of the prices between two bounds, there is a price, and
-- it lies between the bounds: fewer than half of the submissions cannot move it out, whatever they
-- are, for positive int64 prices.
pub price_of-majority :
    (lo hi : ℤ) (prices : List ℤ) (staked total_staked : ℤ)
    → All IsPrice prices
    → length prices < 2 * count (within lo hi) prices
    → is_too_little staked total_staked ≡ false
    → (price : ℤ) × (price_of prices staked total_staked ≡ ok price) × (lo ≤ℤ price) × (price ≤ℤ hi)
unfolding price_of
price_of-majority lo hi prices staked total_staked valid most enough =
    let (v, n, m) = trimmed_lem lo hi prices valid most in
    let (a, b) = median_within lo hi (trimmed prices) v n m in
    let there : length (trimmed prices) == 0 ≡ false = ground arith in
    rw (enough, there, price_of) (median (trimmed prices), refl, a, b)
