-- ===== src/Delegated/Numbering.antt =====
-- A delegated account's number and its address determine one another.
use qwid_node.Base.{arith, if◌then◌else◌, ◌&&◌, ◌<◌, ◌^◌, ◌≡◌, ◌≤◌}
use qwid_node.Base.Int.{ltb_ℤ, neg_part, negsuc, pos, pos_part, ℤ}
use qwid_node.Delegated.{
  get_delegated_account_address, get_id_from_delegated_account_address,
  numerical_delegated_account_address,
}

-- The number of the address of any int16 is that number, and the network reads it as a delegated
-- account when it is from 1 to 255, and as 0 otherwise.
get_id_from-get_delegated :
    (id : ℤ)
    → pos_part id < 2 ^ 15
    → neg_part id ≤ 2 ^ 15
    → let a = get_delegated_account_address id in
      (get_id_from_delegated_account_address a ≡ id)
      × (numerical_delegated_account_address a
          ≡ (if ltb_ℤ (pos 0) id && ltb_ℤ id (pos 256) then id else pos 0))
unfolding get_id_from_delegated_account_address get_delegated_account_address
    numerical_delegated_account_address
get_id_from-get_delegated (pos n) h k = (ground arith, ground arith)
get_id_from-get_delegated (negsuc n) h k = (ground arith, ground arith)
