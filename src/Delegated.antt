-- ===== src/Delegated.antt =====
-- Delegated accounts, numbered by the first two bytes of an address: common/helper.go and
-- `IntDelegatedAccountFromAddress` of account/helper.go.
pub mod Numbering
use qwid_node.Base.{
  Bool, List, Result, [], drop, err, if◌then◌else◌, ite, ltb, ok, replicate, true, ℕ, ◌%◌, ◌&&◌,
  ◌*◌, ◌+◌, ◌-◌, ◌/◌, ◌==◌, ◌^◌, ◌∷◌,
}
use qwid_node.Base.Int.{ltb_ℤ, negsuc, pos, ℤ}
use qwid_node.Types.{Address, bytes_discrete}

-- `int16(w)` for a uint16, and `uint16(i)` for an int16.
abbrev pub int16_of : ℕ → ℤ
int16_of w = if ltb w (2 ^ 15) then pos w else negsuc (2 ^ 16 - 1 - w)

abbrev pub uint16_of : ℤ → ℕ
uint16_of (pos n) = n % 2 ^ 16
uint16_of (negsuc n) = 2 ^ 16 - 1 - n % 2 ^ 16

unfoldable pub get_delegated_account_address : ℤ → Address
get_delegated_account_address id = (uint16_of id / 256) ∷ (uint16_of id % 256) ∷ replicate 18 0

-- `binary.BigEndian.Uint16` of the first two bytes; an address always has them.
abbrev pub first_uint16 : Address → ℕ
first_uint16 (hi ∷ lo ∷ rest) = hi * 256 + lo
first_uint16 _ = 0

unfoldable pub get_id_from_delegated_account_address : Address → ℤ
get_id_from_delegated_account_address a = int16_of (first_uint16 a)

unfoldable pub numerical_delegated_account_address : Address → ℤ
unfolding get_id_from_delegated_account_address
numerical_delegated_account_address daddr =
    let n = get_id_from_delegated_account_address daddr in
    if ltb_ℤ (pos 0) n && ltb_ℤ n (pos 256) then n else pos 0

abbrev pub all_zero : List ℕ → Bool
all_zero [] = true
all_zero (b ∷ bs) = b == 0 && all_zero bs

pub data DelegatedError : Type 0 where
  not_delegated wrongly_formatted : DelegatedError

unfoldable pub int_delegated_account_from_address : Address → Result DelegatedError ℕ
unfolding get_delegated_account_address
int_delegated_account_from_address a =
    let n = first_uint16 a in
    if ltb n 1
    then err not_delegated
    else if all_zero (drop 2 a)
    then ite (bytes_discrete (get_delegated_account_address (int16_of n)) a) (ok n)
        (err wrongly_formatted)
    else err not_delegated
