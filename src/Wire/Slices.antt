-- ===== src/Wire/Slices.antt =====
-- Fields of fixed sizes at consecutive offsets of a slice of bytes, read back.
use qwid_node.Base.{
  All, List, [], ap, append-nil, append_assoc, arith, drop, drop-append, false, length,
  length-append, ltb, refl, suc, sym, take, take-append, zero, ℕ, ◌*◌, ◌++◌, ◌∙◌, ◌∷◌, ◌≡◌, ◌≤◌,
}
use qwid_node.Base.Int.{ℤ}
use qwid_node.Base.Int64.{Fits64, of_word, of_word-to_word, to_word, to_word-lt}
use qwid_node.Wire.{get_byte_int64, le_bytes, le_value}
use qwid_node.Wire.RoundTrip.{le_value-le_bytes, length-le_bytes}
use qwid_node.Wire.Fields.{AreSized, join, length-join, sum}

-- `GetInt64FromByte` of a slice that is long enough.
abbrev pub int64_of : List ℕ → ℤ
int64_of b = of_word (le_value (take 8 b))

-- `n` slices of this size, one after the other.
unfoldable pub chunks : ℕ → ℕ → List ℕ → List (List ℕ)
chunks zero size b = []
chunks (suc n) size b = take size b ∷ chunks n size (drop size b)

pub not_below : {m n : ℕ} → m ≤ n → ltb n m ≡ false
not_below h = ground arith

pub drop-join :
    (ns : List ℕ) (fs : List (List ℕ)) (rest : List ℕ)
    → AreSized ns fs
    → drop (sum ns) (join fs ++ rest) ≡ rest
drop-join ns fs rest h = drop-append (join fs) rest (sum ns) (sym (length-join ns fs h))

pub length-join_le :
    (ns : List ℕ) (fs : List (List ℕ)) (rest : List ℕ)
    → AreSized ns fs
    → sum ns ≤ length (join fs ++ rest)
length-join_le ns fs rest h = omega (arith, length-append (join fs) rest, length-join ns fs h)

pub int64_of-get_byte_int64 :
    (u : ℤ) (rest : List ℕ) → Fits64 u → int64_of (get_byte_int64 u ++ rest) ≡ u
unfolding get_byte_int64
int64_of-get_byte_int64 u rest h =
    ap (λ w. of_word (le_value w))
      (take-append (le_bytes 8 (to_word u)) rest 8 (sym (length-le_bytes 8 (to_word u))))
    ∙ ap of_word (le_value-le_bytes 8 (to_word u) (to_word-lt u))
    ∙ of_word-to_word u h

pub int64_of_lem : (u : ℤ) → Fits64 u → int64_of (get_byte_int64 u) ≡ u
int64_of_lem u h =
    ap int64_of (sym (append-nil (get_byte_int64 u))) ∙ int64_of-get_byte_int64 u [] h

abbrev pub AreAllSized : ℕ → List (List ℕ) → Type 0
AreAllSized size = All (λ x. length x ≡ size)

pub chunks-join :
    (size : ℕ) (xs : List (List ℕ)) (rest : List ℕ)
    → AreAllSized size xs
    → chunks (length xs) size (join xs ++ rest) ≡ xs
unfolding chunks join
chunks-join size [] rest h = refl
chunks-join size (x ∷ xs) rest (e, h) =
    rw
      (
        append_assoc x (join xs) rest,
        take-append x (join xs ++ rest) size (sym e),
        drop-append x (join xs ++ rest) size (sym e),
        chunks-join size xs rest h,
      )
      refl

pub length-join_sized :
    (size : ℕ) (xs : List (List ℕ)) → AreAllSized size xs → length (join xs) ≡ length xs * size
unfolding join
length-join_sized size [] h = omega arith
length-join_sized size (x ∷ xs) (e, h) =
    grind (arith, length-append x (join xs), length-join_sized size xs h)

pub drop-join_sized :
    (size : ℕ) (xs : List (List ℕ)) (rest : List ℕ)
    → AreAllSized size xs
    → drop (length xs * size) (join xs ++ rest) ≡ rest
drop-join_sized size xs rest h =
    drop-append (join xs) rest (length xs * size) (sym (length-join_sized size xs h))
