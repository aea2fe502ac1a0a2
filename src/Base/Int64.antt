-- ===== src/Base/Int64.antt =====
-- Go's int64: an integer between -2^63 and 2^63 - 1, whose operations wrap around.
use qwid_node.Base.{arith, if◌then◌else◌, ltb, ℕ, ◌%◌, ◌+◌, ◌-◌, ◌<◌, ◌^◌, ◌≡◌, ◌≤◌}
use qwid_node.Base.Int.{neg_part, negsuc, pos, pos_part, ℤ, ◌*ℤ◌, ◌+ℤ◌, ◌-ℤ◌}

abbrev pub Fits64 : ℤ → Type 0
Fits64 a = (pos_part a < 2 ^ 63) × (neg_part a ≤ 2 ^ 63)

-- `uint64(a)`: the bit pattern, for every integer.
unfoldable pub to_word : ℤ → ℕ
to_word (pos n) = n % 2 ^ 64
to_word (negsuc n) = 2 ^ 64 - 1 - n % 2 ^ 64

-- `int64(w)`
unfoldable pub of_word : ℕ → ℤ
of_word w = if ltb w (2 ^ 63) then pos w else negsuc (2 ^ 64 - 1 - w)

unfoldable pub wrap64 : ℤ → ℤ
unfolding to_word of_word
wrap64 a = of_word (to_word a)

unfoldable pub add64 : ℤ → ℤ → ℤ
unfolding wrap64 ◌+ℤ◌
add64 a b = wrap64 (a +ℤ b)

unfoldable pub sub64 : ℤ → ℤ → ℤ
unfolding wrap64 ◌-ℤ◌
sub64 a b = wrap64 (a -ℤ b)

unfoldable pub mul64 : ℤ → ℤ → ℤ
unfolding wrap64 ◌*ℤ◌
mul64 a b = wrap64 (a *ℤ b)

pub to_word-lt : (a : ℤ) → to_word a < 2 ^ 64
unfolding to_word
to_word-lt a = ground arith

of_word-Fits64 : (w : ℕ) → w < 2 ^ 64 → Fits64 (of_word w)
unfolding of_word
of_word-Fits64 w h = ground arith

to_word-of_word : (w : ℕ) → w < 2 ^ 64 → to_word (of_word w) ≡ w
unfolding to_word of_word
to_word-of_word w h = ground arith

pub of_word-to_word : (a : ℤ) → Fits64 a → of_word (to_word a) ≡ a
unfolding to_word of_word
of_word-to_word a h = ground arith

-- A result that fits is not changed by the wrap-around.
pub add64_exact : (a b : ℤ) → Fits64 (a +ℤ b) → add64 a b ≡ a +ℤ b
unfolding add64
add64_exact a b h = unfold wrap64 in of_word-to_word (a +ℤ b) h

pub sub64_exact : (a b : ℤ) → Fits64 (a -ℤ b) → sub64 a b ≡ a -ℤ b
unfolding sub64
sub64_exact a b h = unfold wrap64 in of_word-to_word (a -ℤ b) h

pub mul64_exact : (a b : ℤ) → Fits64 (a *ℤ b) → mul64 a b ≡ a *ℤ b
unfolding mul64
mul64_exact a b h = unfold wrap64 in of_word-to_word (a *ℤ b) h

-- Every result of an operation is an int64.
pub add64-Fits64 : (a b : ℤ) → Fits64 (add64 a b)
unfolding add64
add64-Fits64 a b = unfold wrap64 in of_word-Fits64 _ (to_word-lt (a +ℤ b))

-- A sum wraps as the bit patterns do.
to_word-+ℤ : (a b : ℤ) → to_word (a +ℤ b) ≡ (to_word a + to_word b) % 2 ^ 64
unfolding to_word ◌+ℤ◌
to_word-+ℤ a b = ground arith

to_word-add64 : (a b : ℤ) → to_word (add64 a b) ≡ (to_word a + to_word b) % 2 ^ 64
unfolding add64
to_word-add64 a b =
    unfold wrap64 in
    (omega (arith, to_word-of_word (to_word (a +ℤ b)) (to_word-lt (a +ℤ b)), to_word-+ℤ a b))

to_word_injective : (a b : ℤ) → Fits64 a → Fits64 b → to_word a ≡ to_word b → a ≡ b
unfolding to_word
to_word_injective a b h k e = ground arith

-- Wrapping addition is commutative, and the order of three summands does not matter.
pub add64_comm : (a b : ℤ) → add64 a b ≡ add64 b a
add64_comm a b =
    to_word_injective _ _ (add64-Fits64 a b) (add64-Fits64 b a)
      (omega (arith, to_word-add64 a b, to_word-add64 b a))

pub add64_right_comm : (a b c : ℤ) → add64 (add64 a b) c ≡ add64 (add64 a c) b
add64_right_comm a b c =
    to_word_injective _ _ (add64-Fits64 (add64 a b) c) (add64-Fits64 (add64 a c) b) (
      omega (
        arith,
        to_word-add64 (add64 a b) c,
        to_word-add64 a b,
        to_word-add64 (add64 a c) b,
        to_word-add64 a c,
      ))
