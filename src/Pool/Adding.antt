-- ===== src/Pool/Adding.antt =====
-- What adding a transaction does to the others (transactionsPool/poolTx.go).
use qwid_node.Base.Table.{get, put}
use qwid_node.Base.{
  Bool-cases, List, Option, Option-cases, [], arith, inl, inr, length, ltb, refl, some, suc, ℕ, ◌<◌,
  ◌==◌, ◌∷◌, ◌≡◌, ◌≤◌, ◌⊎◌,
}
use qwid_node.Types.{Hash, bytes_discrete}
use qwid_node.Pool.{
  Item, Transaction, TransactionPool, add_pending, add_transaction, ban_transaction_by_hash,
  drop_item, evict, is_banned, item_of, keep_within, new_item, push_item, remove_item, sub_pending,
}

-- An item with this value is in the queue.
abbrev pub IsQueued : Hash → List Item → Type 0
IsQueued h [] = ⊥
IsQueued h (x ∷ queue) = (x.value ≡ h) ⊎ IsQueued h queue

-- What container/heap promises of the front of a heap: an item of the heap, if there is one.
abbrev pub IsFront : (List Item → Option Item) → Type 0
IsFront cheapest =
    (x : Item) (queue : List Item)
    → (item : Item) × (cheapest (x ∷ queue) ≡ some item) × IsQueued item.value (x ∷ queue)

length-remove_item_le : (h : Hash) (q : List Item) → length (remove_item h q) ≤ length q
unfolding remove_item
length-remove_item_le h [] = omega arith
length-remove_item_le h (x ∷ q) = ground (arith, length-remove_item_le h q)

length-remove_item_lt :
    (h : Hash) (q : List Item) → IsQueued h q → length (remove_item h q) < length q
unfolding remove_item
length-remove_item_lt h [] e = absurd e
length-remove_item_lt h (x ∷ q) (inl e) = ground (arith, length-remove_item_le h q)
length-remove_item_lt h (x ∷ q) (inr e) =
    ground (arith, length-remove_item_le h q, length-remove_item_lt h q e)

queue-evict :
    (item : Item) (tp : TransactionPool)
    → (evict (some item) tp).queue ≡ remove_item item.value tp.queue
unfolding evict drop_item sub_pending
queue-evict item tp = ground arith

queue-drop_sub :
    (h : Hash) (tx : Transaction) (tp : TransactionPool)
    → (drop_item h (sub_pending tx tp)).queue ≡ remove_item h tp.queue
unfolding drop_item sub_pending
queue-drop_sub h tx tp = refl

-- A pool that is one item too large at most is within its bound afterwards.
keep_within_bound :
    (cheapest : List Item → Option Item) (tx : Transaction) (tp : TransactionPool) (front : Item)
    → cheapest tp.queue ≡ some front
    → IsQueued front.value tp.queue
    → IsQueued tx.hash tp.queue
    → length tp.queue ≤ suc tp.max_transactions
    → length (keep_within cheapest tx tp).1.queue ≤ tp.max_transactions
unfolding keep_within
keep_within_bound cheapest tx tp front e inside own h =
    elim (Bool-cases (ltb tp.max_transactions (length tp.queue))) [
      | inr f ↦ rw f (ground arith)
      | inl t ↦ elim (Bool-cases (tp.type_pool == 0)) [
        | inl main ↦
            rw (t, main, e, queue-evict front tp)
              (omega (arith, length-remove_item_lt front.value tp.queue inside))
        | inr other ↦
            rw (t, other, queue-drop_sub tx.hash tx tp)
              (omega (arith, length-remove_item_lt tx.hash tp.queue own))
      ]
    ]

item_of_value :
    (n : ℕ) (tx : Transaction) (check : Hash) (item : Item)
    → item_of n tx check ≡ some item
    → item.value ≡ tx.hash
unfolding item_of new_item
item_of_value n tx check item e = ground arith

pushed_bound :
    (cheapest : List Item → Option Item) (tx : Transaction) (item : Item) (tp : TransactionPool)
    → IsFront cheapest
    → item.value ≡ tx.hash
    → length tp.queue ≤ tp.max_transactions
    → length (keep_within cheapest tx (push_item item tp)).1.queue ≤ tp.max_transactions
unfolding push_item
pushed_bound cheapest tx item tp front e h =
    let (first, found, inside) = front item tp.queue in
    keep_within_bound cheapest tx (push_item item tp) first found inside (inl e) (omega (arith, h))

-- Where the front of the heap is one of its items, a pool that is not above its maximum is not above
-- it after a transaction is added, whichever kind of pool it is and whatever is returned.
pub add_transaction_bound :
    (cheapest : List Item → Option Item) (tx : Transaction) (check : Hash) (tp : TransactionPool)
    → IsFront cheapest
    → length tp.queue ≤ tp.max_transactions
    → length (add_transaction cheapest tx check tp).1.queue ≤ tp.max_transactions
unfolding add_transaction add_pending ban_transaction_by_hash
add_transaction_bound cheapest tx check tp front h = elim (Bool-cases (is_banned tx.hash tp)) [
  | inl t ↦ rw t h
  | inr f ↦ rw f (elim (Option-cases (get bytes_discrete tx.hash tp.transactions)) [
    | inr (t, e) ↦ rw e h
    | inl e ↦ rw e (elim (Option-cases (item_of tp.type_pool tx check)) [
      | inl n ↦ rw n h
      | inr (item, i) ↦ rw i (
          pushed_bound cheapest tx item
            (add_pending tx
              (record tp { transactions = put bytes_discrete tx.hash tx tp.transactions }))
            front (item_of_value tp.type_pool tx check item i) h)
    ])
  ])
]
