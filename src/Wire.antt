-- ===== src/Wire.antt =====
-- The byte encodings of common/types.go and common/helper.go. A byte is a number below 256, a Go
-- slice of bytes is the list of them, and `none` is a panic for a slice that is too short.
pub mod RoundTrip
pub mod Fields
pub mod Slices
use qwid_node.Base.{
  Bool, List, Option, [], drop, false, if◌then◌else◌, length, ltb, none, some, suc, take, true,
  zero, ℕ, ◌%◌, ◌*◌, ◌++◌, ◌+◌, ◌/◌, ◌^◌, ◌∷◌,
}
use qwid_node.Base.Int.{ℤ}
use qwid_node.Base.Int64.{of_word, to_word}

-- `binary.LittleEndian` on `n` bytes.
unfoldable pub le_bytes : ℕ → ℕ → List ℕ
le_bytes zero w = []
le_bytes (suc n) w = (w % 256) ∷ le_bytes n (w / 256)

unfoldable pub le_value : List ℕ → ℕ
le_value [] = 0
le_value (b ∷ bs) = b + 256 * le_value bs

unfoldable pub get_byte_int64 : ℤ → List ℕ
unfolding le_bytes to_word
get_byte_int64 u = le_bytes 8 (to_word u)

unfoldable pub get_int64_from_byte : List ℕ → Option ℤ
unfolding le_value of_word
get_int64_from_byte bs = if ltb (length bs) 8 then none else some (of_word (le_value (take 8 bs)))

-- `binary.BigEndian.PutUint32` and `Uint32`.
abbrev pub be_bytes4 : ℕ → List ℕ
be_bytes4 w = (w / 2 ^ 24 % 256) ∷ (w / 2 ^ 16 % 256) ∷ (w / 2 ^ 8 % 256) ∷ (w % 256) ∷ []

unfoldable pub bytes_to_len_and_bytes : List ℕ → List ℕ
bytes_to_len_and_bytes b = be_bytes4 (length b % 2 ^ 32) ++ b

pub data LenError : Type 0 where
  too_short incorrect_length : LenError

pub data LenResult : Type 0 where
  parts : List ℕ → List ℕ → LenResult
  fails : LenError → LenResult

unfoldable pub split_at : ℕ → List ℕ → LenResult
split_at lb rest =
    if ltb (length rest) lb then fails incorrect_length else parts (take lb rest) (drop lb rest)

unfoldable pub bytes_with_len_to_bytes : List ℕ → LenResult
unfolding split_at
bytes_with_len_to_bytes (a ∷ b ∷ c ∷ d ∷ rest) =
    split_at (a * 2 ^ 24 + b * 2 ^ 16 + c * 2 ^ 8 + d) rest
bytes_with_len_to_bytes _ = fails too_short

unfoldable pub bool_to_byte : Bool → ℕ
bool_to_byte true = 1
bool_to_byte false = 0
