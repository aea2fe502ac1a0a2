-- ===== src/Wire/Fields.antt =====
-- Records of fields in byte slices: the other integers of common/types.go, addresses, signatures and
-- hashes, and slices at fixed offsets.
use qwid_node.Base.{
  Bool, List, Result, [], ap, append_assoc, arith, drop, drop-append, err, false, if◌then◌else◌,
  length, length-append, ltb, ok, refl, suc, sym, take, take-append, take_all, true, ℕ, ◌%◌, ◌++◌,
  ◌+◌, ◌-◌, ◌<◌, ◌==◌, ◌^◌, ◌∙◌, ◌∷◌, ◌≡◌, ◌≤◌,
}
use qwid_node.Base.Int.{neg_part, negsuc, pos, pos_part, ℤ}
use qwid_node.Types.{Address, Hash, zero_hash}
use qwid_node.Wire.RoundTrip.{le_value-le_bytes, length-le_bytes}
use qwid_node.Wire.{le_bytes, le_value}

-- `uint32(u)` and `int32(w)`, `uint16(u)` and `int16(w)`.
abbrev pub uint32_of : ℤ → ℕ
uint32_of (pos n) = n % 2 ^ 32
uint32_of (negsuc n) = 2 ^ 32 - 1 - n % 2 ^ 32

abbrev pub int32_of : ℕ → ℤ
int32_of w = if ltb w (2 ^ 31) then pos w else negsuc (2 ^ 32 - 1 - w)

abbrev pub uint16_of : ℤ → ℕ
uint16_of (pos n) = n % 2 ^ 16
uint16_of (negsuc n) = 2 ^ 16 - 1 - n % 2 ^ 16

abbrev pub int16_of : ℕ → ℤ
int16_of w = if ltb w (2 ^ 15) then pos w else negsuc (2 ^ 16 - 1 - w)

unfoldable pub get_byte_int32 : ℤ → List ℕ
get_byte_int32 u = le_bytes 4 (uint32_of u)

unfoldable pub get_byte_int16 : ℤ → List ℕ
get_byte_int16 u = le_bytes 2 (uint16_of u)

-- The callers give slices of exactly 4 and 2 bytes.
unfoldable pub get_int32_from_byte : List ℕ → ℤ
get_int32_from_byte bs = int32_of (le_value (take 4 bs))

unfoldable pub get_int16_from_byte : List ℕ → ℤ
get_int16_from_byte bs = int16_of (le_value (take 2 bs))

-- `GetHashFromBytes`: 32 bytes, of which the given ones are copied over zeros.
unfoldable pub get_hash_from_bytes : List ℕ → Hash
get_hash_from_bytes b = take 32 (b ++ zero_hash)

-- `common.Address`: the bytes, and which of the two signature schemes it is of.
pub record FullAddress : Type 0 where
  pub byte_value : Address
  pub primary : Bool

pub record Signature : Type 0 where
  pub byte_value : List ℕ
  pub address : FullAddress
  pub primary : Bool

pub data FieldError : Type 0 where
  wrong_address_length empty_signature signature_too_long : FieldError

unfoldable pub get_bytes_with_primary : FullAddress → List ℕ
get_bytes_with_primary a = (if a.primary then 0 else 1) ∷ a.byte_value

unfoldable pub bytes_to_address : List ℕ → Result FieldError FullAddress
bytes_to_address [] = err wrong_address_length
bytes_to_address (b ∷ bs) =
    if length bs == 20
    then ok (record { byte_value = bs; primary = b == 0 })
    else if length bs == 19
    then ok (record { byte_value = b ∷ bs; primary = true })
    else err wrong_address_length

unfoldable pub get_signature_from_bytes : List ℕ → FullAddress → Result FieldError Signature
get_signature_from_bytes [] address = err empty_signature
get_signature_from_bytes (b ∷ bs) address =
    if ltb 65536 (suc (length bs))
    then err signature_too_long
    else ok (record { byte_value = b ∷ bs; address = address; primary = b == 0 })

-- Slices at consecutive offsets from 0, of these sizes.
unfoldable pub cut : List ℕ → List ℕ → List (List ℕ)
cut [] b = []
cut (n ∷ ns) b = take n b ∷ cut ns (drop n b)

-- Fields that are appended one after the other.
unfoldable pub join : List (List ℕ) → List ℕ
join [] = []
join (f ∷ fs) = f ++ join fs

abbrev pub AreSized : List ℕ → List (List ℕ) → Type 0
AreSized [] [] = Unit
AreSized (n ∷ ns) (f ∷ fs) = (length f ≡ n) × AreSized ns fs
AreSized _ _ = ⊥

abbrev pub sum : List ℕ → ℕ
sum [] = 0
sum (n ∷ ns) = n + sum ns

pub join-append : (fs gs : List (List ℕ)) → join (fs ++ gs) ≡ join fs ++ join gs
unfolding join
join-append [] gs = refl
join-append (f ∷ fs) gs = ap (◌++◌ f) (join-append fs gs) ∙ sym (append_assoc f (join fs) (join gs))

pub join_front :
    (f : List ℕ) (fs : List (List ℕ)) (r : List ℕ) → join (f ∷ fs) ++ r ≡ f ++ (join fs ++ r)
unfolding join
join_front f fs r = append_assoc f (join fs) r

pub join_end : (r : List ℕ) → join [] ++ r ≡ r
unfolding join
join_end r = refl

-- Fields of fixed sizes are cut out of the bytes that they were joined to.
pub cut-join :
    (ns : List ℕ) (fs : List (List ℕ)) (rest : List ℕ)
    → AreSized ns fs
    → cut ns (join fs ++ rest) ≡ fs
unfolding cut join
cut-join [] [] rest h = refl
cut-join (n ∷ ns) (f ∷ fs) rest (e, h) = rw (
  append_assoc f (join fs) rest,
  take-append f (join fs ++ rest) n (sym e),
  drop-append f (join fs ++ rest) n (sym e),
  cut-join ns fs rest h,
)
cut-join [] (f ∷ fs) rest h = absurd h
cut-join (n ∷ ns) [] rest h = absurd h

pub length-join : (ns : List ℕ) (fs : List (List ℕ)) → AreSized ns fs → length (join fs) ≡ sum ns
unfolding join
length-join [] [] h = refl
length-join (n ∷ ns) (f ∷ fs) (e, h) = omega (arith, length-append f (join fs), length-join ns fs h)
length-join [] (f ∷ fs) h = absurd h
length-join (n ∷ ns) [] h = absurd h

le_word4 : (w : ℕ) → w < 2 ^ 32 → le_value (take 4 (le_bytes 4 w)) ≡ w
le_word4 w h = rw (take_all 4 (le_bytes 4 w) (sym (length-le_bytes 4 w))) (le_value-le_bytes 4 w h)

le_word2 : (w : ℕ) → w < 2 ^ 16 → le_value (take 2 (le_bytes 2 w)) ≡ w
le_word2 w h = rw (take_all 2 (le_bytes 2 w) (sym (length-le_bytes 2 w))) (le_value-le_bytes 2 w h)

int32_of-uint32_of :
    (u : ℤ)
    → pos_part u < 2 ^ 31
    → neg_part u ≤ 2 ^ 31
    → (int32_of (uint32_of u) ≡ u) × (uint32_of u < 2 ^ 32)
int32_of-uint32_of (pos n) h k = ground arith
int32_of-uint32_of (negsuc n) h k = ground arith

int16_of-uint16_of :
    (u : ℤ)
    → pos_part u < 2 ^ 15
    → neg_part u ≤ 2 ^ 15
    → (int16_of (uint16_of u) ≡ u) × (uint16_of u < 2 ^ 16)
int16_of-uint16_of (pos n) h k = ground arith
int16_of-uint16_of (negsuc n) h k = ground arith

pub get_int32_from_byte-get_byte_int32 :
    (u : ℤ) → pos_part u < 2 ^ 31 → neg_part u ≤ 2 ^ 31 → get_int32_from_byte (get_byte_int32 u) ≡ u
unfolding get_int32_from_byte get_byte_int32
get_int32_from_byte-get_byte_int32 u h k =
    let (e, small) = int32_of-uint32_of u h k in ap int32_of (le_word4 (uint32_of u) small) ∙ e

pub get_int16_from_byte-get_byte_int16 :
    (u : ℤ) → pos_part u < 2 ^ 15 → neg_part u ≤ 2 ^ 15 → get_int16_from_byte (get_byte_int16 u) ≡ u
unfolding get_int16_from_byte get_byte_int16
get_int16_from_byte-get_byte_int16 u h k =
    let (e, small) = int16_of-uint16_of u h k in ap int16_of (le_word2 (uint16_of u) small) ∙ e

pub length-get_byte_int32 : (u : ℤ) → length (get_byte_int32 u) ≡ 4
unfolding get_byte_int32
length-get_byte_int32 u = length-le_bytes 4 (uint32_of u)

pub length-get_byte_int16 : (u : ℤ) → length (get_byte_int16 u) ≡ 2
unfolding get_byte_int16
length-get_byte_int16 u = length-le_bytes 2 (uint16_of u)

pub get_hash_from_bytes_lem : (b : List ℕ) → length b ≡ 32 → get_hash_from_bytes b ≡ b
unfolding get_hash_from_bytes
get_hash_from_bytes_lem b e = take-append b zero_hash 32 (sym e)

pub bytes_to_address-get_bytes_with_primary :
    (a : FullAddress)
    → length a.byte_value ≡ 20
    → bytes_to_address (get_bytes_with_primary a) ≡ ok a
unfolding bytes_to_address get_bytes_with_primary
bytes_to_address-get_bytes_with_primary a e = ground arith

pub bytes_to_address_lem :
    (a : List ℕ)
    → length a ≡ 20
    → bytes_to_address a ≡ ok (record { byte_value = a; primary = true })
unfolding bytes_to_address
bytes_to_address_lem [] e = absurd (omega arith)
bytes_to_address_lem (b ∷ bs) e = ground arith

abbrev pub starts_with_zero : List ℕ → Bool
starts_with_zero [] = false
starts_with_zero (b ∷ bs) = b == 0

pub get_signature_from_bytes_lem :
    (b : List ℕ) (address : FullAddress)
    → 0 < length b
    → length b ≤ 65536
    → get_signature_from_bytes b address
      ≡ ok (record { byte_value = b; address = address; primary = starts_with_zero b })
unfolding get_signature_from_bytes
get_signature_from_bytes_lem [] address h k = absurd (omega arith)
get_signature_from_bytes_lem (b ∷ bs) address h k = ground arith

-- The two for the record they give.
pub bytes_to_address-byte_value :
    (a : FullAddress)
    → length a.byte_value ≡ 20
    → a.primary ≡ true
    → bytes_to_address a.byte_value ≡ ok a
bytes_to_address-byte_value a e p =
    bytes_to_address_lem a.byte_value e
    ∙ (λ i. ok (record { byte_value = a.byte_value; primary = sym p i }))

pub get_signature_from_bytes-byte_value :
    (s : Signature) (address : FullAddress)
    → 0 < length s.byte_value
    → length s.byte_value ≤ 65536
    → address ≡ s.address
    → starts_with_zero s.byte_value ≡ s.primary
    → get_signature_from_bytes s.byte_value address ≡ ok s
get_signature_from_bytes-byte_value s address h k e p =
    get_signature_from_bytes_lem s.byte_value address h k
    ∙ (λ i. ok (record { byte_value = s.byte_value; address = e i; primary = p i }))

pub length-get_bytes_with_primary :
    (a : FullAddress) → length a.byte_value ≡ 20 → length (get_bytes_with_primary a) ≡ 21
unfolding get_bytes_with_primary
length-get_bytes_with_primary a e = ap suc e
