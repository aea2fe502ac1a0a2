-- ===== src/Oracles/Middle.antt =====
-- The middle items of sorted lists of prices (oracles/oraclesDefinition.go).
use qwid_node.Base.{
  All, Bool, Bool-cases, List, [], ap, arith, drop, inl, inr, length, refl, suc, take, zero, ℕ,
  ◌&&◌, ◌*◌, ◌+◌, ◌/◌, ◌<◌, ◌∷◌, ◌≡◌, ◌≤◌,
}
use qwid_node.Base.Int.{
  int_laws, le_of_ltb, leb_ℤ, ltb_ℤ, neg_part, negsuc, pos, pos_part, quot, ℤ, ◌-ℤ◌, ◌<ℤ◌, ◌≤ℤ◌,
}
use qwid_node.Base.Int64.{Fits64, add64, add64_exact, sub64, sub64_exact}
use qwid_node.Base.Sort.{All-insert, count, insert, sort}
use qwid_node.Oracles.Prices.{price_at}

abbrev IsAtLeast : ℤ → ℤ → Type 0
IsAtLeast x y = x ≤ℤ y

abbrev pub IsSorted : List ℤ → Type 0
IsSorted [] = Unit
IsSorted (x ∷ xs) = All (IsAtLeast x) xs × IsSorted xs

All-weaken : (x y : ℤ) (xs : List ℤ) → y ≤ℤ x → All (IsAtLeast x) xs → All (IsAtLeast y) xs
All-weaken x y [] h k = tt
All-weaken x y (z ∷ zs) h k = (omega arith, All-weaken x y zs h k.1)

insert-IsSorted : (x : ℤ) (xs : List ℤ) → IsSorted xs → IsSorted (insert ltb_ℤ x xs)
unfolding insert
insert-IsSorted x [] h = (tt, tt)
insert-IsSorted x (y ∷ ys) h = elim (Bool-cases (ltb_ℤ y x)) [
  | inl e ↦
      rw (e, insert)
        (All-insert ltb_ℤ (IsAtLeast y) x ys (ground arith) h.0, insert-IsSorted x ys h.1)
  | inr e ↦
      let below : x ≤ℤ y = le_of_ltb y x e in
      rw (e, insert) ((below, All-weaken y x ys below h.0), h)
]

pub sort-IsSorted : (xs : List ℤ) → IsSorted (sort ltb_ℤ xs)
unfolding sort
sort-IsSorted [] = tt
sort-IsSorted (x ∷ xs) = insert-IsSorted x (sort ltb_ℤ xs) (sort-IsSorted xs)

abbrev pub within : ℤ → ℤ → ℤ → Bool
within lo hi x = leb_ℤ lo x && leb_ℤ x hi

abbrev pub IsPrice : ℤ → Type 0
IsPrice x = (pos 0 <ℤ x) × Fits64 x

module _ (lo hi : ℤ) where
  pub count-le-length : (xs : List ℤ) → count (within lo hi) xs ≤ length xs
  count-le-length [] = omega arith
  count-le-length (x ∷ xs) = ground (arith, count-le-length xs)

  count_above : (x : ℤ) (xs : List ℤ) → hi <ℤ x → All (IsAtLeast x) xs → count (within lo hi) xs ≡ 0
  count_above x [] h k = refl
  count_above x (y ∷ ys) h k = ground (arith, count_above x ys h k.1)

  price_at_least :
      (x : ℤ) (k : ℕ) (xs : List ℤ) → All (IsAtLeast x) xs → k < length xs → x ≤ℤ price_at xs k
  price_at_least x k [] h l = absurd (omega arith)
  price_at_least x zero (y ∷ ys) h l = h.0
  price_at_least x (suc k) (y ∷ ys) h l = price_at_least x k ys h.1 (omega arith)

  -- An item of a sorted list below the range has all before it below the range.
  count_below :
      (k : ℕ) (xs : List ℤ)
      → IsSorted xs
      → k < length xs
      → price_at xs k <ℤ lo
      → count (within lo hi) xs + suc k ≤ length xs
  count_below k [] s l h = absurd (omega arith)
  count_below zero (x ∷ xs) s l h = ground (arith, count-le-length xs)
  count_below (suc k) (x ∷ xs) s l h =
      ground (arith, price_at_least x k xs s.0 (omega arith), count_below k xs s.1 (omega arith) h)

  -- An item above the range has all behind it above the range.
  count_before :
      (k : ℕ) (xs : List ℤ)
      → IsSorted xs
      → k < length xs
      → hi <ℤ price_at xs k
      → count (within lo hi) xs ≤ k
  count_before k [] s l h = absurd (omega arith)
  count_before zero (x ∷ xs) s l h = ground (arith, count_above x xs h s.0)
  count_before (suc k) (x ∷ xs) s l h = ground (arith, count_before k xs s.1 (omega arith) h)

  -- With more than half of a sorted list in the range, the middle is in the range.
  pub middle_within :
      (k : ℕ) (xs : List ℤ)
      → IsSorted xs
      → k < length xs
      → length xs ≤ 2 * suc k
      → 2 * k ≤ length xs
      → length xs < 2 * count (within lo hi) xs
      → (lo ≤ℤ price_at xs k) × (price_at xs k ≤ℤ hi)
  middle_within k xs s l a b h = (
    elim (Bool-cases (ltb_ℤ (price_at xs k) lo)) [
      | inl e ↦ absurd (omega (arith, count_below k xs s l (ground arith)))
      | inr e ↦ le_of_ltb _ lo e
    ],
    elim (Bool-cases (ltb_ℤ hi (price_at xs k))) [
      | inl e ↦ absurd (omega (arith, count_before k xs s l (ground arith)))
      | inr e ↦ le_of_ltb hi _ e
    ],
  )

pub price_at-drop : (k : ℕ) (xs : List ℤ) → price_at (drop 1 xs) k ≡ price_at xs (suc k)
price_at-drop k [] = refl
price_at-drop k (x ∷ xs) = refl

pub price_at-take : (n k : ℕ) (xs : List ℤ) → k < n → price_at (take n xs) k ≡ price_at xs k
price_at-take zero k xs h = absurd (omega arith)
price_at-take (suc n) k [] h = refl
price_at-take (suc n) zero (x ∷ xs) h = refl
price_at-take (suc n) (suc k) (x ∷ xs) h = price_at-take n k xs (omega arith)

pub length-take : (n : ℕ) (xs : List ℤ) → n ≤ length xs → length (take n xs) ≡ n
length-take zero xs h = refl
length-take (suc n) [] h = absurd (omega arith)
length-take (suc n) (x ∷ xs) h = ap suc (length-take n xs (omega arith))

pub price_at-All :
    (P : ℤ → Type 0) (k : ℕ) (xs : List ℤ) → All P xs → k < length xs → P (price_at xs k)
price_at-All P k [] h l = absurd (omega arith)
price_at-All P zero (x ∷ xs) h l = h.0
price_at-All P (suc k) (x ∷ xs) h l = price_at-All P k xs h.1 (omega arith)

quot_parts :
    (z : ℤ) → (pos_part (quot z 2) ≡ pos_part z / 2) × (neg_part (quot z 2) ≡ neg_part z / 2)
unfolding quot
quot_parts (pos n) = ground arith
quot_parts (negsuc n) = ground arith

-- Halfway between two prices of the range.
pub halfway :
    (lo hi a b : ℤ)
    → IsPrice a
    → IsPrice b
    → lo ≤ℤ a
    → a ≤ℤ hi
    → lo ≤ℤ b
    → b ≤ℤ hi
    → (lo ≤ℤ add64 a (quot (sub64 b a) 2)) × (add64 a (quot (sub64 b a) 2) ≤ℤ hi)
halfway lo hi a b pa pb h1 h2 h3 h4 =
    let (p, n) = quot_parts (b -ℤ a) in
    rw (sub64_exact b a (omega int_laws), add64_exact a (quot (b -ℤ a) 2) (omega (int_laws, p, n)))
      (omega (int_laws, p, n))
