-- ===== src/Supply.antt =====
-- The reward of a block: account/reward.go. `bits.Mul64`, `bits.Add64` and `bits.Div64` are written
-- out on words below 2^64; the last one panics, `none` here, where the quotient would not fit. The
-- supply and the ratio that the genesis sets are arguments.
use qwid_node.Base.{
  Option, ap, arith, false, if◌then◌else◌, inl, inr, ltb, none, some, true, ℕ, ◌%◌, ◌*◌, ◌+◌, ◌-◌,
  ◌/◌, ◌<◌, ◌^◌, ◌||◌, ◌∙◌, ◌≡◌, ◌≤◌, ◌⊎◌,
}
use qwid_node.Base.Int.{int_laws, leb_ℤ, pos, ℤ, ◌-ℤ◌}
use native.Mathlib.Nat.{mul-le-mul, mul-le-mul_left}
use qwid_node.Base.Int64.{of_word, sub64, sub64_exact, to_word}

abbrev pub scale : ℕ
scale = 10_000_000_000

unfoldable pub get_remaining_supply : ℤ → ℤ → ℤ
unfolding sub64
get_remaining_supply max_total_supply supply = sub64 max_total_supply supply

-- `bits.Div64(hi, lo, y)`, its quotient.
abbrev pub div64 : ℕ → ℕ → ℕ → Option ℕ
div64 hi lo y = if ltb hi y then some ((hi * 2 ^ 64 + lo) / y) else none

-- The 128-bit product, with half the scale added and divided by the scale.
unfoldable pub scaled : ℕ → ℕ → Option ℕ
scaled a b =
    let hi = a * b / 2 ^ 64 in
    let lo = a * b % 2 ^ 64 + scale / 2 in div64 ((hi + lo / 2 ^ 64) % 2 ^ 64) (lo % 2 ^ 64) scale

unfoldable pub get_reward : ℤ → ℤ → ℤ → Option ℤ
unfolding get_remaining_supply to_word scaled of_word
get_reward max_total_supply ratio supply =
    let remaining = get_remaining_supply max_total_supply supply in
    if leb_ℤ remaining (pos 0) || leb_ℤ ratio (pos 0)
    then some (pos 0)
    else elim (scaled (to_word remaining) (to_word ratio)) [
      | none ↦ none
      | some q ↦ some (of_word q)
    ]

-- The division of a 128-bit number that is a product below 2^63 times the scale.
div64_exact :
    (p : ℕ)
    → p < 2 ^ 63 * scale
    → (let lo = p % 2 ^ 64 + scale / 2 in
        div64 ((p / 2 ^ 64 + lo / 2 ^ 64) % 2 ^ 64) (lo % 2 ^ 64) scale)
      ≡ some ((p + scale / 2) / scale)
div64_exact p h = ground arith

scaled_exact : (a b : ℕ) → a < 2 ^ 63 → b ≤ scale → scaled a b ≡ some ((a * b + scale / 2) / scale)
unfolding scaled
scaled_exact a b h k =
    let top : a ≤ 2 ^ 63 - 1 = omega arith in div64_exact (a * b) (omega (arith, mul-le-mul top k))

quotient_bound : (d r : ℕ) → r ≤ scale → (d * r + scale / 2) / scale ≤ d
quotient_bound d r h = omega (arith, mul-le-mul_left d h)

word_small : (n : ℕ) → n < 2 ^ 63 → (to_word (pos n) ≡ n) × (of_word n ≡ pos n)
unfolding to_word of_word
word_small n h = ground arith

remaining_exact :
    (m s : ℕ) → m < 2 ^ 63 → s < 2 ^ 63 → s < m → get_remaining_supply (pos m) (pos s) ≡ pos (m - s)
unfolding get_remaining_supply
remaining_exact m s h k l =
    rw (sub64_exact (pos m) (pos s) (omega int_laws)) (unfold ◌-ℤ◌ in (ground arith))

nothing_remains :
    (m s : ℕ)
    → m < 2 ^ 63
    → s < 2 ^ 63
    → m ≤ s
    → leb_ℤ (get_remaining_supply (pos m) (pos s)) (pos 0) ≡ true
unfolding get_remaining_supply
nothing_remains m s h k l =
    rw (sub64_exact (pos m) (pos s) (omega int_laws)) (unfold ◌-ℤ◌ in (ground arith))

leb_pos : (n : ℕ) → 0 < n → leb_ℤ (pos n) (pos 0) ≡ false
leb_pos n h = ground arith

below_cases : (a b : ℕ) → (a < b) ⊎ (b ≤ a)
below_cases a b = ground arith

abbrev some_pos : ℕ → Option ℤ
some_pos n = some (pos n)

sub_zero : (m s : ℕ) → m ≤ s → (r : ℕ) → (m - s) * r ≡ 0
sub_zero m s h r = ground arith

no_reward :
    (m r s : ℕ)
    → m < 2 ^ 63
    → s < 2 ^ 63
    → m ≤ s
    → get_reward (pos m) (pos r) (pos s) ≡ some (pos 0)
unfolding get_reward
no_reward m r s h k l = rw (nothing_remains m s h k l)

leb_zero : (n : ℕ) → n ≤ 0 → leb_ℤ (pos n) (pos 0) ≡ true
leb_zero n h = ground arith

mul_zero : (d r : ℕ) → r ≤ 0 → d * r ≡ 0
mul_zero d r h = ground arith

no_ratio :
    (m r s : ℕ)
    → m < 2 ^ 63
    → s < 2 ^ 63
    → s < m
    → r ≤ 0
    → get_reward (pos m) (pos r) (pos s) ≡ some (pos 0)
unfolding get_reward
no_ratio m r s h k e f = rw (remaining_exact m s h k e, leb_pos (m - s) (omega arith), leb_zero r f)

some_reward :
    (m r s : ℕ)
    → m < 2 ^ 63
    → s < 2 ^ 63
    → r ≤ scale
    → s < m
    → 0 < r
    → get_reward (pos m) (pos r) (pos s) ≡ some (pos (((m - s) * r + scale / 2) / scale))
unfolding get_reward
some_reward m r s h k l e f = rw (
  remaining_exact m s h k e,
  leb_pos (m - s) (omega arith),
  leb_pos r f,
  (word_small (m - s) (omega arith)).0,
  (word_small r (omega arith)).0,
  scaled_exact (m - s) r (omega arith) l,
  (word_small (((m - s) * r + scale / 2) / scale) (omega (arith, quotient_bound (m - s) r l))).1,
)

-- The reward of a block is the remaining supply times the ratio, rounded half up, with no panic, and
-- is at most the remaining supply, for a supply and a total below 2^63 and a ratio of at most one.
pub get_reward_lem :
    (m r s : ℕ)
    → m < 2 ^ 63
    → s < 2 ^ 63
    → r ≤ scale
    → (get_reward (pos m) (pos r) (pos s) ≡ some (pos (((m - s) * r + scale / 2) / scale)))
      × (((m - s) * r + scale / 2) / scale ≤ m - s)
get_reward_lem m r s h k l = (
  elim (below_cases s m) [
    | inr over ↦ no_reward m r s h k over ∙ ap some_pos (omega (arith, sub_zero m s over r))
    | inl under ↦ elim (below_cases 0 r) [
      | inl positive ↦ some_reward m r s h k l under positive
      | inr zero_ratio ↦
          no_ratio m r s h k under zero_ratio
          ∙ ap some_pos (omega (arith, mul_zero (m - s) r zero_ratio))
    ]
  ],
  quotient_bound (m - s) r l,
)
