-- ===== src/StateRoot/Fields.antt =====
-- Reading the fields of a stream back one by one, by the lengths that `rootWriter` of
-- blocks/stateRoot.go puts in front.
use qwid_node.Base.{
  List, [], ap, append_assoc, arith, drop, drop-append, length, refl, sym, take, take-append, ℕ,
  ◌++◌, ◌<◌, ◌^◌, ◌∙◌, ◌∷◌, ◌≡◌,
}
use qwid_node.Base.Int.{pos, pos_part, ℤ}
use qwid_node.Base.Int64.{Fits64}
use qwid_node.Wire.{get_byte_int64}
use qwid_node.Wire.RoundTrip.{length-get_byte_int64}
use qwid_node.Wire.Fields.{join}
use qwid_node.Wire.Slices.{AreAllSized, int64_of, int64_of-get_byte_int64}
use qwid_node.StateRoot.{all_bytes, write_bytes, write_i64}

int64_split :
    (a b : ℤ) (r t : List ℕ)
    → Fits64 a
    → Fits64 b
    → get_byte_int64 a ++ r ≡ get_byte_int64 b ++ t
    → (a ≡ b) × (r ≡ t)
int64_split a b r t h k e = (
  sym (int64_of-get_byte_int64 a r h) ∙ ap int64_of e ∙ int64_of-get_byte_int64 b t k,
  sym (drop-append (get_byte_int64 a) r 8 (sym (length-get_byte_int64 a)))
      ∙ ap (drop 8) e
      ∙ drop-append (get_byte_int64 b) t 8 (sym (length-get_byte_int64 b)),
)

pos_inj : (m n : ℕ) → pos m ≡ pos n → m ≡ n
pos_inj m n e = ap pos_part e

-- The length in front of a written slice.
pub length_split :
    (b c r t : List ℕ)
    → length b < 2 ^ 63
    → length c < 2 ^ 63
    → write_bytes b ++ r ≡ write_bytes c ++ t
    → (length b ≡ length c) × (b ++ r ≡ c ++ t)
unfolding write_bytes
length_split b c r t h k e =
    let e' : get_byte_int64 (pos (length b)) ++ (b ++ r)
        ≡ get_byte_int64 (pos (length c)) ++ (c ++ t) =
      sym (append_assoc (get_byte_int64 (pos (length b))) b r)
      ∙ e
      ∙ append_assoc (get_byte_int64 (pos (length c))) c t in
    let (same, rest) =
      int64_split (pos (length b)) (pos (length c)) (b ++ r) (c ++ t) (ground arith) (ground arith)
        e' in
    (pos_inj (length b) (length c) same, rest)

pub bytes_split_end :
    (b c r t : List ℕ)
    → length b < 2 ^ 63
    → length c < 2 ^ 63
    → write_bytes b ++ r ≡ write_bytes c ++ t
    → (b ≡ c) × (r ≡ t)
bytes_split_end b c r t h k e =
    let (same, rest) = length_split b c r t h k e in
    (
      sym (take-append b r (length b) refl)
          ∙ ap (take (length b)) rest
          ∙ take-append c t (length b) same,
      sym (drop-append b r (length b) refl)
          ∙ ap (drop (length b)) rest
          ∙ drop-append c t (length b) same,
    )

pub data Field : Type 0 where
  number : ℤ → Field
  slice : List ℕ → Field

abbrev pub write : Field → List ℕ
write (number v) = write_i64 v
write (slice b) = write_bytes b

abbrev pub writes : List Field → List (List ℕ)
writes [] = []
writes (f ∷ fs) = write f ∷ writes fs

-- Fields of the same kinds, that fit the integer or the length in front of them.
abbrev pub HaveShape : List Field → List Field → Type 0
HaveShape [] [] = Unit
HaveShape (number a ∷ fs) (number b ∷ gs) = Fits64 a × Fits64 b × HaveShape fs gs
HaveShape (slice b ∷ fs) (slice c ∷ gs) =
    (length b < 2 ^ 63) × (length c < 2 ^ 63) × HaveShape fs gs
HaveShape _ _ = ⊥

abbrev pub AreEqualFields : List Field → List Field → Type 0
AreEqualFields [] [] = Unit
AreEqualFields (number a ∷ fs) (number b ∷ gs) = (a ≡ b) × AreEqualFields fs gs
AreEqualFields (slice b ∷ fs) (slice c ∷ gs) = (b ≡ c) × AreEqualFields fs gs
AreEqualFields _ _ = ⊥

join_step :
    (f : Field) (fs : List Field) (r : List ℕ)
    → join (writes (f ∷ fs)) ++ r ≡ write f ++ (join (writes fs) ++ r)
unfolding join
join_step f fs r = append_assoc (write f) (join (writes fs)) r

-- Fields of one shape are determined by the stream, and so is what follows them.
pub fields_split :
    (fs gs : List Field) (r t : List ℕ)
    → HaveShape fs gs
    → join (writes fs) ++ r ≡ join (writes gs) ++ t
    → AreEqualFields fs gs × (r ≡ t)
fields_split [] [] r t h e = (tt, unfold join in e)
fields_split (number a ∷ fs) (number b ∷ gs) r t (h, k, l) e =
    let e' : write_i64 a ++ (join (writes fs) ++ r) ≡ write_i64 b ++ (join (writes gs) ++ t) =
      sym (join_step (number a) fs r) ∙ e ∙ join_step (number b) gs t in
    let (same, more) =
      int64_split a b (join (writes fs) ++ r) (join (writes gs) ++ t) h k
        (unfold write_i64 in e') in
    let (others, rest) = fields_split fs gs r t l more in ((same, others), rest)
fields_split (slice b ∷ fs) (slice c ∷ gs) r t (h, k, l) e =
    let (same, more) =
      bytes_split_end b c (join (writes fs) ++ r) (join (writes gs) ++ t) h k
        (sym (join_step (slice b) fs r) ∙ e ∙ join_step (slice c) gs t) in
    let (others, rest) = fields_split fs gs r t l more in ((same, others), rest)
fields_split [] (g ∷ gs) r t h e = absurd h
fields_split (number a ∷ fs) [] r t h e = absurd h
fields_split (slice b ∷ fs) [] r t h e = absurd h
fields_split (number a ∷ fs) (slice c ∷ gs) r t h e = absurd h
fields_split (slice b ∷ fs) (number c ∷ gs) r t h e = absurd h

-- A counted list of addresses.
abbrev pub AreAddresses : List (List ℕ) → Type 0
AreAddresses = AreAllSized 20

addresses_step :
    (m : List ℕ) (ms : List (List ℕ)) (r : List ℕ)
    → join (all_bytes (m ∷ ms)) ++ r ≡ write_bytes m ++ (join (all_bytes ms) ++ r)
unfolding join
addresses_step m ms r = append_assoc (write_bytes m) (join (all_bytes ms)) r

pub addresses_split :
    (ms ns : List (List ℕ)) (r t : List ℕ)
    → length ms ≡ length ns
    → AreAddresses ms
    → AreAddresses ns
    → join (all_bytes ms) ++ r ≡ join (all_bytes ns) ++ t
    → (ms ≡ ns) × (r ≡ t)
addresses_split [] [] r t l h k e = (refl, unfold join in e)
addresses_split [] (n ∷ ns) r t l h k e = absurd (ground arith)
addresses_split (m ∷ ms) [] r t l h k e = absurd (ground arith)
addresses_split (m ∷ ms) (n ∷ ns) r t l (h, hs) (k, ks) e =
    let e' : write_bytes m ++ (join (all_bytes ms) ++ r)
        ≡ write_bytes n ++ (join (all_bytes ns) ++ t) =
      sym (addresses_step m ms r) ∙ e ∙ addresses_step n ns t in
    let (first, more) =
      bytes_split_end m n (join (all_bytes ms) ++ r) (join (all_bytes ns) ++ t) (omega (arith, h))
        (omega (arith, k)) e' in
    let (others, rest) = addresses_split ms ns r t (omega (arith, l)) hs ks more in
    (ap (λ x. x ∷ ms) first ∙ ap (◌∷◌ n) others, rest)
