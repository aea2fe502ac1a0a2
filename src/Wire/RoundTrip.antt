-- ===== src/Wire/RoundTrip.antt =====
-- Decoding inverts encoding, with whatever bytes follow.
use qwid_node.Base.{
  List, ap, arith, drop-append, length, length-append, refl, some, suc, sym, take-append, zero, ℕ,
  ◌*◌, ◌++◌, ◌/◌, ◌<◌, ◌^◌, ◌∙◌, ◌≡◌,
}
use qwid_node.Base.Int.{ℤ}
use qwid_node.Base.Int64.{Fits64, of_word, of_word-to_word, to_word, to_word-lt}
use qwid_node.Wire.{
  bytes_to_len_and_bytes, bytes_with_len_to_bytes, get_byte_int64, get_int64_from_byte, le_bytes,
  le_value, parts,
}
use native.Mathlib.Nat.{pow-suc}

pub length-le_bytes : (n w : ℕ) → length (le_bytes n w) ≡ n
unfolding le_bytes
length-le_bytes zero w = refl
length-le_bytes (suc n) w = ap suc (length-le_bytes n (w / 256))

pub le_value-le_bytes : (n w : ℕ) → w < 256 ^ n → le_value (le_bytes n w) ≡ w
unfolding le_bytes le_value
le_value-le_bytes zero w h = omega arith
le_value-le_bytes (suc n) w h =
    let h' : w < 256 ^ n * 256 = rw (← pow-suc) h in
    omega (arith, le_value-le_bytes n (w / 256) (omega arith))

pub length-get_byte_int64 : (u : ℤ) → length (get_byte_int64 u) ≡ 8
unfolding get_byte_int64
length-get_byte_int64 u = length-le_bytes 8 (to_word u)

get_int64_from_byte-append :
    (bs rest : List ℕ)
    → length bs ≡ 8
    → get_int64_from_byte (bs ++ rest) ≡ some (of_word (le_value bs))
unfolding get_int64_from_byte
get_int64_from_byte-append bs rest e =
    ground (arith, length-append bs rest, take-append bs rest 8 (sym e))

-- An int64 that is written and read back, with any bytes behind it, is itself.
pub get_int64_from_byte-get_byte_int64 :
    (u : ℤ) (rest : List ℕ) → Fits64 u → get_int64_from_byte (get_byte_int64 u ++ rest) ≡ some u
unfolding get_byte_int64
get_int64_from_byte-get_byte_int64 u rest h =
    get_int64_from_byte-append (le_bytes 8 (to_word u)) rest (length-le_bytes 8 (to_word u))
    ∙ ap some (ap of_word (le_value-le_bytes 8 (to_word u) (to_word-lt u)) ∙ of_word-to_word u h)

-- A slice shorter than 2^32 bytes that is written with its length is read back whole, and the
-- bytes behind it are left.
pub bytes_with_len-bytes_to_len :
    (b rest : List ℕ)
    → length b < 2 ^ 32
    → bytes_with_len_to_bytes (bytes_to_len_and_bytes b ++ rest) ≡ parts b rest
unfolding bytes_with_len_to_bytes bytes_to_len_and_bytes
bytes_with_len-bytes_to_len b rest h = ground (
  arith,
  length-append b rest,
  take-append b rest (length b) refl,
  drop-append b rest (length b) refl,
)
