-- ===== src/Pool.antt =====
-- The transaction pool: transactionsPool/poolTx.go and basePool.go. The two heaps hold the same items;
-- the order that container/heap gives them in their arrays is not modelled, so `queue` lists the
-- items, and the item in front of the heap of cheapest items is the parameter `cheapest`.
pub mod Adding
pub mod Spends
use qwid_node.Base.{
  Bool, List, Option, [], false, if◌then◌else◌, ite, length, ltb, none, not, some, true, ℕ, ◌&&◌,
  ◌==◌, ◌||◌, ◌∷◌,
}
use qwid_node.Base.Int.{eqb_ℤ, leb_ℤ, ltb_ℤ, pos, pos_part, quot, ℤ}
use qwid_node.Base.Int64.{add64, mul64, sub64}
use qwid_node.Base.Table.{Table, delete, get, put}
use qwid_node.Base.Update.{value_or}
use qwid_node.Types.{Address, Hash, bytes_discrete}
use qwid_node.Wire.Slices.{int64_of}

-- The fields of a transaction that the pool reads.
pub record Transaction : Type 0 where
  pub hash : Hash
  pub sender : Address
  pub height : ℤ
  pub gas_price : ℤ
  pub gas_usage : ℤ
  pub amount : ℤ
  pub escrow_delay : ℤ

pub record Item : Type 0 where
  pub transaction : Transaction
  pub value : Hash
  pub priority : ℤ

pub record TransactionPool : Type 0 where
  pub transactions : Table Hash Transaction
  pub items : Table Hash Item
  pub banned_transactions : Table Hash ℤ
  pub queue : List Item
  pub max_transactions : ℕ
  pub type_pool : ℕ
  pub pending_by_sender : Table Address ℤ

abbrev pub max_number_of_tx_bans : ℤ
max_number_of_tx_bans = pos 50

abbrev pub number_when_will_ban : ℤ
number_when_will_ban = pos 100

-- `CalcFee`, `none` for its errors: a negative factor, or a product that does not divide back.
unfoldable pub calc_fee : Transaction → Option ℤ
calc_fee tx =
    let fee = mul64 tx.gas_price tx.gas_usage in
    if ltb_ℤ tx.gas_price (pos 0) || ltb_ℤ tx.gas_usage (pos 0)
    then none
    else if not (eqb_ℤ tx.gas_price (pos 0))
        && not (eqb_ℤ (quot fee (pos_part tx.gas_price)) tx.gas_usage)
    then none
    else some fee

unfoldable pub tx_spend : Transaction → ℤ
tx_spend tx = elim (calc_fee tx) [ none ↦ pos 0 | some fee ↦ add64 fee tx.amount ]

unfoldable pub pending_spend : Address → TransactionPool → ℤ
pending_spend sender tp = value_or (pos 0) (get bytes_discrete sender tp.pending_by_sender)

unfoldable pub add_pending : Transaction → TransactionPool → TransactionPool
add_pending tx tp = record tp {
  pending_by_sender =
      put bytes_discrete tx.sender (add64 (pending_spend tx.sender tp) (tx_spend tx))
        tp.pending_by_sender;
}

unfoldable pub sub_pending : Transaction → TransactionPool → TransactionPool
sub_pending tx tp =
    let rest = sub64 (pending_spend tx.sender tp) (tx_spend tx) in
    record tp {
      pending_by_sender =
          if leb_ℤ rest (pos 0)
          then delete bytes_discrete tx.sender tp.pending_by_sender
          else put bytes_discrete tx.sender rest tp.pending_by_sender;
    }

unfoldable pub ban_transaction_by_hash : Hash → TransactionPool → TransactionPool
ban_transaction_by_hash h tp =
    let bans = add64 (value_or (pos 0) (get bytes_discrete h tp.banned_transactions)) (pos 1) in
    record tp {
      banned_transactions =
          put bytes_discrete h
            (if ltb_ℤ number_when_will_ban bans then number_when_will_ban else bans)
            tp.banned_transactions;
    }

unfoldable pub block_transaction_by_hash : Hash → TransactionPool → TransactionPool
block_transaction_by_hash h tp = record tp {
  banned_transactions = put bytes_discrete h number_when_will_ban tp.banned_transactions;
}

abbrev pub is_banned : Hash → TransactionPool → Bool
is_banned h tp = elim (get bytes_discrete h tp.banned_transactions) [
  | none ↦ false
  | some bans ↦ ltb_ℤ max_number_of_tx_bans bans
]

-- An item is in both heaps or in neither, so one list is filtered.
unfoldable pub remove_item : Hash → List Item → List Item
remove_item h [] = []
remove_item h (x ∷ queue) =
    let rest = remove_item h queue in ite (bytes_discrete x.value h) rest (x ∷ rest)

-- The queue without an item, and the maps without its hash.
unfoldable pub drop_item : Hash → TransactionPool → TransactionPool
drop_item h tp = record tp {
  queue = remove_item h tp.queue;
  transactions = delete bytes_discrete h tp.transactions;
  items = delete bytes_discrete h tp.items;
}

unfoldable pub new_item : Transaction → ℤ → Item
new_item tx priority = record { transaction = tx; value = tx.hash; priority = priority }

-- The item of a transaction, by the kind of the pool: `hash2check` is the second argument of
-- `AddTransaction`.
unfoldable pub item_of : ℕ → Transaction → Hash → Option Item
item_of type_pool tx hash2check =
    if type_pool == 0
    then some (new_item tx tx.gas_price)
    else if type_pool == 1
    then some (new_item tx (add64 tx.height tx.escrow_delay))
    else if type_pool == 2
    then some (new_item tx (int64_of hash2check))
    else none

-- What a full main pool drops, if the cheapest item is there.
unfoldable pub evict : Option Item → TransactionPool → TransactionPool
evict none tp = tp
evict (some removed) tp = elim (get bytes_discrete removed.value tp.transactions) [
  | none ↦ drop_item removed.value tp
  | some tx ↦ drop_item removed.value (sub_pending tx tp)
]

unfoldable pub push_item : Item → TransactionPool → TransactionPool
push_item item tp = record tp {
  queue = item ∷ tp.queue;
  items = put bytes_discrete item.value item tp.items;
}

module _ (cheapest : List Item → Option Item) where
  -- The pool once the item is pushed.
  unfoldable pub keep_within : Transaction → TransactionPool → Bool × TransactionPool
  keep_within tx tp =
      if ltb tp.max_transactions (length tp.queue)
      then (if not (tp.type_pool == 0)
          then (false, drop_item tx.hash (sub_pending tx tp))
          else (true, evict (cheapest tp.queue) tp))
      else (true, tp)

  unfoldable pub add_transaction : Transaction → Hash → TransactionPool → Bool × TransactionPool
  add_transaction tx hash2check tp =
      let added =
        add_pending tx
          (record tp { transactions = put bytes_discrete tx.hash tx tp.transactions }) in
      if is_banned tx.hash tp
      then (false, ban_transaction_by_hash tx.hash tp)
      else elim (get bytes_discrete tx.hash tp.transactions) [
        | some t ↦ (true, tp)
        | none ↦ elim (item_of tp.type_pool tx hash2check) [
          | none ↦ (false, added)
          | some item ↦ keep_within tx (push_item item added)
        ]
      ]

unfoldable pub clear : TransactionPool → TransactionPool
clear tp = record tp { transactions = []; items = []; queue = []; pending_by_sender = [] }

abbrev pub has_transaction : Hash → TransactionPool → Bool
has_transaction h tp = elim (get bytes_discrete h tp.transactions) [ none ↦ false | some t ↦ true ]

unfoldable pub remove_transaction_by_hash : Hash → TransactionPool → TransactionPool
remove_transaction_by_hash h tp = elim (get bytes_discrete h tp.items) [
  | none ↦ tp
  | some item ↦ elim (get bytes_discrete h tp.transactions) [
    | none ↦ drop_item h tp
    | some tx ↦ drop_item h (sub_pending tx tp)
  ]
]

-- The transaction, `none` for the empty one, and the pool without it.
unfoldable pub pop_transaction_by_hash :
    Hash → TransactionPool → Option Transaction × TransactionPool
pop_transaction_by_hash h tp = elim (get bytes_discrete h tp.items) [
  | none ↦ (none, tp)
  | some item ↦ (get bytes_discrete h tp.transactions, drop_item h tp)
]
