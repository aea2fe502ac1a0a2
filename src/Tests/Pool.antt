-- ===== src/Tests/Pool.antt =====
-- The transaction pool on concrete inputs.
use qwid_node.Base.{
  List, Option, [], arith, inl, length, none, refl, some, ℕ, ℕ_discrete, ◌∷◌, ◌≡◌, ◌≤◌,
}
use qwid_node.Base.Int.{pos, quot, ◌+ℤ◌}
use qwid_node.Base.Int64.{add64, mul64}
use qwid_node.Base.Table.{get}
use qwid_node.Types.{Hash, bytes_discrete}
use qwid_node.Pool.{
  Item, Transaction, TransactionPool, add_transaction, calc_fee, new_item, pending_spend,
  pop_transaction_by_hash, remove_transaction_by_hash, tx_spend,
}
use qwid_node.Pool.Adding.{IsFront, add_transaction_bound}
use qwid_node.Pool.Spends.{IsAccepted, remove-add_transaction}
use qwid_node.Tests.Samples.{alice, slot_one, value_two}

abbrev transfer : Hash → ℕ → Transaction
transfer h price = record {
  hash = h;
  sender = alice;
  height = pos 5;
  gas_price = pos price;
  gas_usage = pos 10;
  amount = pos 100;
  escrow_delay = pos 0;
}

-- A pool of a kind and of a size with one transaction.
abbrev one_pooled : ℕ → ℕ → TransactionPool
one_pooled kind size = record {
  transactions = (slot_one, transfer slot_one 2) ∷ [];
  items = (slot_one, new_item (transfer slot_one 2) (pos 2)) ∷ [];
  banned_transactions = [];
  queue = new_item (transfer slot_one 2) (pos 2) ∷ [];
  max_transactions = size;
  type_pool = kind;
  pending_by_sender = (alice, pos 120) ∷ [];
}

-- Stands for a heap that has the item of the first place in front.
abbrev first_item : List Item → Option Item
first_item [] = none
first_item (x ∷ queue) = some x

first_item-IsFront : IsFront first_item
first_item-IsFront x queue = (x, refl, inl refl)

add_transaction_bound_example :
    length (add_transaction first_item (transfer value_two 3) slot_one (one_pooled 0 1)).1.queue ≤ 1
add_transaction_bound_example =
    add_transaction_bound first_item (transfer value_two 3) slot_one (one_pooled 0 1)
      first_item-IsFront (omega arith)

room_for_two : IsAccepted first_item (transfer value_two 3) slot_one (one_pooled 0 5)
unfolding get bytes_discrete ℕ_discrete
room_for_two = (refl, refl, omega arith, omega arith)

spend_known : pending_spend alice (one_pooled 0 5) ≡ pos 120
unfolding pending_spend get bytes_discrete ℕ_discrete
spend_known = refl

spend_of_two : tx_spend (transfer value_two 3) ≡ pos 130
unfolding tx_spend calc_fee mul64 add64 quot
spend_of_two = refl

remove-add_transaction_example :
    let tx = transfer value_two 3 in
    let full = (add_transaction first_item tx slot_one (one_pooled 0 5)).1 in
    let removed = remove_transaction_by_hash value_two full in
    let popped = (pop_transaction_by_hash value_two full).1 in
    (get bytes_discrete slot_one removed.transactions
      ≡ get bytes_discrete slot_one (one_pooled 0 5).transactions)
    × (pending_spend alice removed ≡ pending_spend alice (one_pooled 0 5))
    × (get bytes_discrete slot_one popped.transactions
        ≡ get bytes_discrete slot_one (one_pooled 0 5).transactions)
    × (pending_spend alice popped ≡ pending_spend alice (one_pooled 0 5) +ℤ tx_spend tx)
remove-add_transaction_example =
    remove-add_transaction first_item (transfer value_two 3) slot_one slot_one alice
      (one_pooled 0 5) room_for_two (rw spend_known (omega arith))
      (rw spend_known (omega arith, omega arith))
      (rw (spend_known, spend_of_two) (unfold ◌+ℤ◌ in (omega arith, omega arith)))
