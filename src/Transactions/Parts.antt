-- ===== src/Transactions/Parts.antt =====
-- Reading back the parts of a transaction that have their lengths in front.
use qwid_node.Base.{
  List, [], ap, append-nil, append_assoc, arith, err, false, if◌then◌else◌, length, ltb, ok, refl,
  suc, sym, zero, ℕ, ◌&&◌, ◌++◌, ◌<◌, ◌==◌, ◌>>=◌, ◌^◌, ◌∙◌, ◌∷◌, ◌≡◌, ◌≤◌,
}
use qwid_node.Base.Int.{ℤ}
use qwid_node.Base.Int64.{Fits64}
use qwid_node.Types.{Address}
use qwid_node.Wire.{bytes_to_len_and_bytes, get_byte_int64}
use qwid_node.Wire.RoundTrip.{bytes_with_len-bytes_to_len, length-get_byte_int64}
use qwid_node.Wire.Slices.{AreAllSized, int64_of_lem, not_below}
use qwid_node.Delegated.{all_zero}
use qwid_node.Transactions.{bad_signer, threshold_too_high}
use qwid_node.Transactions.Reading.{part_of, read_int64, read_part, read_policy, read_signers}
use qwid_node.Transactions.Bytes.{signers_bytes}

pub read_part-bytes_to_len :
    (b rest : List ℕ)
    → length b < 2 ^ 32
    → read_part (bytes_to_len_and_bytes b ++ rest) ≡ ok (b, rest)
unfolding read_part
read_part-bytes_to_len b rest h = ap part_of (bytes_with_len-bytes_to_len b rest h)

pub read_int64-bytes_to_len :
    (u : ℤ) (rest : List ℕ)
    → Fits64 u
    → read_int64 (bytes_to_len_and_bytes (get_byte_int64 u) ++ rest) ≡ ok (u, rest)
unfolding read_int64
read_int64-bytes_to_len u rest h =
    rw
      (
        read_part-bytes_to_len (get_byte_int64 u) rest (omega (arith, length-get_byte_int64 u)),
        length-get_byte_int64 u,
        int64_of_lem u h,
      )
      refl

pub all_zero-append : (a b : List ℕ) → all_zero (a ++ b) ≡ (all_zero a && all_zero b)
all_zero-append [] b = refl
all_zero-append (x ∷ a) b = rw (all_zero-append a b) (ground arith)

-- A length of 21 in front makes bytes that are not all zero.
pub all_zero-bytes_to_len :
    (b : List ℕ) → length b ≡ 21 → all_zero (bytes_to_len_and_bytes b) ≡ false
unfolding bytes_to_len_and_bytes
all_zero-bytes_to_len b e = rw e refl

length-cons_part : (b rest : List ℕ) → 0 < length (bytes_to_len_and_bytes b ++ rest)
unfolding bytes_to_len_and_bytes
length-cons_part b rest = omega arith

read_signers_step :
    (n : ℕ) (b : List ℕ) (addrs : List Address)
    → 0 < length b
    → read_signers (suc n) b addrs ≡ (
        read_part b >>= (λ p.
          let rest = read_signers n (p.1) (addrs ++ p.0 ∷ []) in
          if length (p.0) == 20 then rest else err bad_signer))
unfolding read_signers
read_signers_step n [] addrs h = absurd (omega arith)
read_signers_step n (b ∷ bs) addrs h = refl

read_signers-signers_bytes :
    (n : ℕ) (ms acc : List Address)
    → length ms ≤ n
    → AreAllSized 20 ms
    → read_signers n (signers_bytes ms) acc ≡ ok (acc ++ ms)
unfolding read_signers
read_signers-signers_bytes n [] acc h s = ap ok (sym (append-nil acc))
read_signers-signers_bytes zero (m ∷ ms) acc h s = absurd (omega arith)
read_signers-signers_bytes (suc n) (m ∷ ms) acc h (e, s) =
    read_signers_step n (signers_bytes (m ∷ ms)) acc (length-cons_part m (signers_bytes ms))
    ∙ rw (read_part-bytes_to_len m (signers_bytes ms) (omega (arith, e)), e) refl
    ∙ read_signers-signers_bytes n ms (acc ++ m ∷ []) (omega arith) s
    ∙ ap ok (append_assoc acc (m ∷ []) ms)

read_policy_step :
    (number : ℕ) (b : List ℕ)
    → 0 < length b
    → read_policy number b ≡ (
        read_signers 255 b []
        >>= (λ addrs. if ltb (length addrs) number then err threshold_too_high else ok addrs))
unfolding read_policy
read_policy_step number [] h = absurd (omega arith)
read_policy_step number (b ∷ bs) h = refl

-- The signers are read back, if they are at most 255 and at least as many as must sign; where there
-- are none, nothing is asked of the number.
pub read_policy-signers_bytes :
    (number : ℕ) (ms : List Address)
    → length ms ≤ 255
    → AreAllSized 20 ms
    → (0 < length ms → number ≤ length ms)
    → read_policy number (signers_bytes ms) ≡ ok ms
unfolding read_policy
read_policy-signers_bytes number [] h s t = refl
read_policy-signers_bytes number (m ∷ ms) h s t =
    read_policy_step number (signers_bytes (m ∷ ms)) (length-cons_part m (signers_bytes ms))
    ∙ rw (read_signers-signers_bytes 255 (m ∷ ms) [] h s, not_below (t (omega arith))) refl
