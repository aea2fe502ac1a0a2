-- ===== src/Transactions/OptData.antt =====
-- The data that recovery transactions carry, built and parsed: transactionsDefinition/recovery.go.
use qwid_node.Base.{
  List, [], ap, append-nil, append_assoc, arith, drop, drop-append, false, leb, length,
  length-append, ok, refl, sym, take-append, true, ℕ, ◌++◌, ◌<◌, ◌^◌, ◌∙◌, ◌≡◌, ◌≤◌,
}
use qwid_node.Types.{Address}
use qwid_node.Wire.{bytes_to_len_and_bytes}
use qwid_node.Wire.Fields.{bytes_to_address-byte_value, bytes_to_address_lem}
use qwid_node.Blocks.Items.{length-bytes_to_len_le}
use qwid_node.Transactions.Reading.{read_part}
use qwid_node.Transactions.Parts.{read_part-bytes_to_len}
use qwid_node.Transactions.Recovering.{
  AddressReveal, build_address_reveal_opt_data, build_recovery_bind_opt_data,
  build_recovery_reveal_opt_data, parse_address_reveal, parse_recovery_bind, parse_recovery_reveal,
}

-- What the parser gives of an address reveal: two primary addresses, and three slices.
abbrev pub IsAddressReveal : AddressReveal → Type 0
IsAddressReveal r =
    (length r.next.byte_value ≡ 20)
    × (r.next.primary ≡ true)
    × (length r.spare.byte_value ≡ 20)
    × (r.spare.primary ≡ true)
    × (length r.old_scheme < 2 ^ 32)
    × (length r.old_pub < 2 ^ 32)
    × (length r.old_sig < 2 ^ 32)

abbrev reveal_tail : AddressReveal → List ℕ
reveal_tail r =
    bytes_to_len_and_bytes r.old_scheme
    ++ (bytes_to_len_and_bytes r.old_pub ++ bytes_to_len_and_bytes r.old_sig)

read_last : (b : List ℕ) → length b < 2 ^ 32 → read_part (bytes_to_len_and_bytes b) ≡ ok (b, [])
read_last b h =
    ap read_part (sym (append-nil (bytes_to_len_and_bytes b))) ∙ read_part-bytes_to_len b [] h

drop_both : (a b rest : List ℕ) → length a ≡ 20 → length b ≡ 20 → drop 40 (a ++ (b ++ rest)) ≡ rest
drop_both a b rest h k =
    ap (drop 40) (sym (append_assoc a b rest))
    ∙ drop-append (a ++ b) rest 40 (omega (arith, length-append a b, h, k))

long_data :
    (r : AddressReveal)
    → IsAddressReveal r
    → leb (length (r.next.byte_value ++ (r.spare.byte_value ++ reveal_tail r))) 40 ≡ false
long_data r (h1, h2, h3, h4, h5, h6, h7) =
    let tail : 4 ≤ length (reveal_tail r) = omega (
      arith,
      length-bytes_to_len_le r.old_scheme
          (bytes_to_len_and_bytes r.old_pub ++ bytes_to_len_and_bytes r.old_sig),
    ) in
    ground (
      arith,
      tail,
      h1,
      h3,
      length-append r.next.byte_value (r.spare.byte_value ++ reveal_tail r),
      length-append r.spare.byte_value (reveal_tail r),
    )

-- `ParseAddressReveal` reads back what `BuildAddressRevealOptData` writes, for primary addresses of 20
-- bytes and slices below 2^32 bytes.
parse-build_address_reveal :
    (r : AddressReveal)
    → IsAddressReveal r
    → parse_address_reveal (build_address_reveal_opt_data r) ≡ ok r
unfolding parse_address_reveal build_address_reveal_opt_data
parse-build_address_reveal r (h1, h2, h3, h4, h5, h6, h7) =
    let behind : List ℕ = r.spare.byte_value ++ reveal_tail r in
    rw
      (
        long_data r (h1, h2, h3, h4, h5, h6, h7),
        take-append r.next.byte_value behind 20 (sym h1),
        drop-append r.next.byte_value behind 20 (sym h1),
        bytes_to_address-byte_value r.next h1 h2,
        take-append r.spare.byte_value (reveal_tail r) 20 (sym h3),
        bytes_to_address-byte_value r.spare h3 h4,
        drop_both r.next.byte_value r.spare.byte_value (reveal_tail r) h1 h3,
        read_part-bytes_to_len r.old_scheme
            (bytes_to_len_and_bytes r.old_pub ++ bytes_to_len_and_bytes r.old_sig) h5,
        read_part-bytes_to_len r.old_pub (bytes_to_len_and_bytes r.old_sig) h6,
        read_last r.old_sig h7,
      )
      refl

drop_all_but :
    (a b rest : List ℕ) → length a ≡ 20 → length b ≡ 32 → drop 52 (a ++ (b ++ rest)) ≡ rest
drop_all_but a b rest h k =
    ap (drop 52) (sym (append_assoc a b rest))
    ∙ drop-append (a ++ b) rest 52 (omega (arith, length-append a b, h, k))

-- `ParseRecoveryBind` and `ParseRecoveryReveal` read back what the two builders write, for fields of
-- their sizes.
parse-build_recovery_data :
    (identity next : Address) (tag payload secret : List ℕ)
    → length identity ≡ 20
    → length next ≡ 20
    → length tag ≡ 32
    → length payload ≡ 32
    → length secret ≡ 32
    → (parse_recovery_bind (build_recovery_bind_opt_data identity tag payload)
        ≡ ok (record { byte_value = identity; primary = true }, (tag, payload)))
      × (parse_recovery_reveal (build_recovery_reveal_opt_data secret next)
          ≡ ok (secret, record { byte_value = next; primary = true }))
unfolding parse_recovery_bind build_recovery_bind_opt_data parse_recovery_reveal
    build_recovery_reveal_opt_data
parse-build_recovery_data identity next tag payload secret h1 h2 h3 h4 h5 = (
  rw
      (
        length-append identity (tag ++ payload),
        length-append tag payload,
        h1,
        h3,
        h4,
        take-append identity (tag ++ payload) 20 (sym h1),
        bytes_to_address_lem identity h1,
        build_recovery_bind_opt_data,
        drop-append identity (tag ++ payload) 20 (sym h1),
        take-append tag payload 32 (sym h3),
        drop_all_but identity tag payload h1 h3,
      )
      refl,
  rw
      (
        length-append secret next,
        h5,
        h2,
        drop-append secret next 32 (sym h5),
        bytes_to_address_lem next h2,
        build_recovery_reveal_opt_data,
        take-append secret next 32 (sym h5),
      )
      refl,
)
