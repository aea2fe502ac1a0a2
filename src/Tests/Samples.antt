-- ===== src/Tests/Samples.antt =====
-- The addresses and values that the tests share.
use qwid_node.Base.{
  List, [], ap, arith, length, refl, replicate, suc, take, zero, ℕ, ◌++◌, ◌∷◌, ◌≡◌, ◌≤◌,
}
use qwid_node.Types.{Address, Hash, hash_length, zero_hash}

abbrev pub alice : Address
alice = 10 ∷ replicate 19 0

abbrev pub bob : Address
bob = 11 ∷ replicate 19 0

abbrev pub slot_one : Hash
slot_one = 1 ∷ replicate 31 0

abbrev pub value_two : Hash
value_two = 2 ∷ replicate 31 0

-- Stands for keccak256.
abbrev pub sample_hash : List ℕ → Hash
sample_hash b = take 32 (b ++ zero_hash)

length-padded : (n : ℕ) (b z : List ℕ) → n ≤ length z → length (take n (b ++ z)) ≡ n
length-padded zero b z h = refl
length-padded (suc n) [] [] h = absurd (omega arith)
length-padded (suc n) [] (x ∷ z) h = ap suc (length-padded n [] z (omega arith))
length-padded (suc n) (y ∷ b) z h = ap suc (length-padded n b z (omega arith))

pub length-sample_hash : (b : List ℕ) → length (sample_hash b) ≡ hash_length
length-sample_hash b = length-padded 32 b zero_hash (omega arith)

-- A hash that is never zero.
abbrev pub marked_hash : List ℕ → Hash
marked_hash b = 1 ∷ take 31 (b ++ zero_hash)

pub length-marked_hash : (b : List ℕ) → length (marked_hash b) ≡ hash_length
length-marked_hash b = ap suc (length-padded 31 b zero_hash (omega arith))
