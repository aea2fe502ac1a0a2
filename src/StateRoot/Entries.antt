-- ===== src/StateRoot/Entries.antt =====
-- What two streams that begin with the entry of an account or of a recovery bind have in common
-- (blocks/stateRoot.go).
use qwid_node.Recovery.{RecoveryBind}
use qwid_node.Base.Sort.{count}
use qwid_node.Base.{
  List, [], ap, append_assoc, arith, length, sym, ℕ, ◌++◌, ◌<◌, ◌^◌, ◌∙◌, ◌∷◌, ◌≡◌,
}
use qwid_node.Base.Int.{pos, pos_part}
use qwid_node.Base.Int64.{Fits64}
use qwid_node.Types.{Account}
use qwid_node.Wire.Fields.{join, join-append, join_front}
use qwid_node.StateRoot.{account_entry, all_bytes, bind_entry}
use qwid_node.StateRoot.Fields.{
  AreAddresses, Field, addresses_split, fields_split, number, slice, writes,
}
use qwid_node.StateRoot.Agree.{IsSameAccount}

abbrev pub head_fields : List ℕ → Account → List Field
head_fields k a =
    slice k
    ∷ number a.balance
    ∷ number a.transaction_delay
    ∷ number (pos a.multi_sign_number)
    ∷ number (pos (length a.multi_sign_addresses))
    ∷ []

abbrev pub tail_fields : Account → List Field
tail_fields a =
    slice a.recovery_commit
    ∷ slice a.recovery_pending_commit
    ∷ number a.recovery_pending_height
    ∷ slice a.spare_commit
    ∷ slice a.spare_pending_commit
    ∷ []

pub account_entry_fields :
    (k : List ℕ) (a : Account) (r : List ℕ)
    → account_entry k a ++ r
      ≡ join (writes (head_fields k a))
        ++ (join (all_bytes a.multi_sign_addresses) ++ (join (writes (tail_fields a)) ++ r))
unfolding account_entry
account_entry_fields k a r =
    let addresses : List ℕ = join (all_bytes a.multi_sign_addresses) in
    let head : List (List ℕ) = writes (head_fields k a) in
    let last : List (List ℕ) = writes (tail_fields a) in
    ap (λ x. x ++ r) (join-append head (addresses ∷ last))
    ∙ append_assoc (join head) (join (addresses ∷ last)) r
    ∙ ap (◌++◌ (join head)) (join_front addresses last r)

-- What Go's types say of an account: int64 and uint8 fields, and addresses of 20 bytes.
abbrev pub IsTypedAccount : Account → Type 0
IsTypedAccount a =
    Fits64 a.balance
    × Fits64 a.transaction_delay
    × (a.multi_sign_number < 256)
    × (length a.multi_sign_addresses < 2 ^ 63)
    × AreAddresses a.multi_sign_addresses
    × (length a.recovery_commit ≡ 20)
    × (length a.recovery_pending_commit ≡ 20)
    × Fits64 a.recovery_pending_height
    × (length a.spare_commit ≡ 20)
    × (length a.spare_pending_commit ≡ 20)

below : {m n : ℕ} → m ≡ n → n < 2 ^ 63 → m < 2 ^ 63
below e h = omega (arith, e)

fits_below : (n : ℕ) → n < 2 ^ 63 → Fits64 (pos n)
fits_below n h = ground arith

byte_fits : {n : ℕ} → n < 256 → Fits64 (pos n)
byte_fits h = ground arith

pub account_split :
    (k j : List ℕ) (a b : Account) (r t : List ℕ)
    → length k ≡ 20
    → length j ≡ 20
    → IsTypedAccount a
    → IsTypedAccount b
    → account_entry k a ++ r ≡ account_entry j b ++ t
    → (k ≡ j) × IsSameAccount a b × (r ≡ t)
account_split k j a b r t hk hj (a1, a2, a3, a4, a5, a6, a7, a8, a9, a10)
      (b1, b2, b3, b4, b5, b6, b7, b8, b9, b10) e =
    let (first, more) =
      fields_split (head_fields k a) (head_fields j b) _ _
        (
          below hk (omega arith),
          below hj (omega arith),
          (a1, b1, (a2, b2, (byte_fits a3, byte_fits b3, (fits_below _ a4, fits_below _ b4, tt)))),
        )
        (sym (account_entry_fields k a r) ∙ e ∙ account_entry_fields j b t) in
    let (key, (balance, (delay, (signers, (count, u))))) = first in
    let (addresses, behind) =
      addresses_split a.multi_sign_addresses b.multi_sign_addresses _ _ (ap pos_part count) a5 b5
        more in
    let (last, rest) =
      fields_split (tail_fields a) (tail_fields b) r t
        (
          below a6 (omega arith),
          below b6 (omega arith),
          (
            below a7 (omega arith),
            below b7 (omega arith),
            (
              a8,
              b8,
              (
                below a9 (omega arith),
                below b9 (omega arith),
                (below a10 (omega arith), below b10 (omega arith), tt),
              ),
            ),
          ),
        )
        behind in
    let (commit, (pending, (height, (spare, (spare_pending, u'))))) = last in
    (
      key,
      (
        balance,
        delay,
        ap pos_part signers,
        addresses,
        commit,
        pending,
        height,
        spare,
        spare_pending,
      ),
      rest,
    )

abbrev pub bind_fields : List ℕ → RecoveryBind → List Field
bind_fields k b = slice k ∷ slice b.identity ∷ slice b.payload ∷ number b.height ∷ []

abbrev pub IsTypedBind : RecoveryBind → Type 0
IsTypedBind b = (length b.identity ≡ 20) × (length b.payload ≡ 32) × Fits64 b.height

abbrev pub IsSameBind : RecoveryBind → RecoveryBind → Type 0
IsSameBind b c = (b.identity ≡ c.identity) × (b.payload ≡ c.payload) × (b.height ≡ c.height)

pub bind_split :
    (k j : List ℕ) (b c : RecoveryBind) (r t : List ℕ)
    → length k ≡ 32
    → length j ≡ 32
    → IsTypedBind b
    → IsTypedBind c
    → bind_entry k b ++ r ≡ bind_entry j c ++ t
    → (k ≡ j) × IsSameBind b c × (r ≡ t)
unfolding bind_entry
bind_split k j b c r t hk hj (b1, b2, b3) (c1, c2, c3) e =
    let (fields, rest) =
      fields_split (bind_fields k b) (bind_fields j c) r t
        (
          below hk (omega arith),
          below hj (omega arith),
          (
            below b1 (omega arith),
            below c1 (omega arith),
            (below b2 (omega arith), below c2 (omega arith), (b3, c3, tt)),
          ),
        )
        e in
    let (key, (identity, (payload, (height, u)))) = fields in
    (key, (identity, payload, height), rest)
