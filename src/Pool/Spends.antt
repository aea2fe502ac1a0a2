-- ===== src/Pool/Spends.antt =====
-- The spends of senders that a pool holds (transactionsPool/poolTx.go).
use qwid_node.Base.{
  Bool-cases, List, Option, ap, arith, false, if_neg, if_pos, inl, inr, ite, length, ltb, none,
  refl, some, suc, sym, true, ℕ, ◌<◌, ◌==◌, ◌∙◌, ◌≡◌, ◌≤◌,
}
use qwid_node.Base.Int.{+ℤ_parts, -ℤ_parts, eq_of_parts, leb_ℤ, pos, ℤ, ◌+ℤ◌, ◌-ℤ◌, ◌≤ℤ◌}
use qwid_node.Base.Int64.{Fits64, add64, add64_exact, sub64, sub64_exact}
use qwid_node.Base.Table.{Table, delete, get, get-delete, get-put, put}
use qwid_node.Base.Update.{value_or}
use qwid_node.Types.{Address, Hash, bytes_discrete}
use qwid_node.Wire.Slices.{int64_of}
use qwid_node.Pool.{
  Item, Transaction, TransactionPool, add_pending, add_transaction, drop_item, is_banned, item_of,
  keep_within, new_item, pending_spend, pop_transaction_by_hash, push_item,
  remove_transaction_by_hash, sub_pending, tx_spend,
}

pending-add_pending :
    (k : Address) (tx : Transaction) (tp : TransactionPool)
    → pending_spend k (add_pending tx tp)
      ≡ ite
          (bytes_discrete tx.sender k)
          (add64 (pending_spend tx.sender tp) (tx_spend tx))
          (pending_spend k tp)
unfolding pending_spend add_pending
pending-add_pending k tx tp =
    rw
      (get-put bytes_discrete tx.sender k
        (add64 (value_or (pos 0) (get bytes_discrete tx.sender tp.pending_by_sender)) (tx_spend tx))
        tp.pending_by_sender)
      (ground arith)

pending-sub_pending :
    (k : Address) (tx : Transaction) (tp : TransactionPool)
    → pos 0 ≤ℤ sub64 (pending_spend tx.sender tp) (tx_spend tx)
    → pending_spend k (sub_pending tx tp)
      ≡ ite
          (bytes_discrete tx.sender k)
          (sub64 (pending_spend tx.sender tp) (tx_spend tx))
          (pending_spend k tp)
unfolding pending_spend sub_pending
pending-sub_pending k tx tp h =
    let rest =
      sub64 (value_or (pos 0) (get bytes_discrete tx.sender tp.pending_by_sender)) (tx_spend tx) in
    elim (Bool-cases (leb_ℤ rest (pos 0))) [
      | inl t ↦
          let zero_left : rest ≡ pos 0 = eq_of_parts rest (pos 0) (ground arith) in
          rw (t, get-delete bytes_discrete tx.sender k tp.pending_by_sender)
            (rw zero_left (ground arith))
      | inr f ↦ rw (f, get-put bytes_discrete tx.sender k rest tp.pending_by_sender) (ground arith)
    ]

same_or_other :
    (k : Address) (tx : Transaction) (tp : TransactionPool)
    → ite (bytes_discrete tx.sender k) (pending_spend tx.sender tp) (
        ite
          (bytes_discrete tx.sender k)
          (add64 (pending_spend tx.sender tp) (tx_spend tx))
          (pending_spend k tp))
      ≡ pending_spend k tp
same_or_other k tx tp = elim (bytes_discrete tx.sender k) [
  | yes e ↦ rw (if_pos (bytes_discrete tx.sender k) e) (ap (λ x. pending_spend x tp) e)
  | no n ↦ if_neg (bytes_discrete tx.sender k) n _ _ ∙ if_neg (bytes_discrete tx.sender k) n _ _
]

plus_minus : (a b : ℤ) → (a +ℤ b) -ℤ b ≡ a
plus_minus a b = eq_of_parts ((a +ℤ b) -ℤ b) a (omega (arith, -ℤ_parts (a +ℤ b) b, +ℤ_parts a b))

sub64-add64 : (a b : ℤ) → Fits64 a → Fits64 (a +ℤ b) → sub64 (add64 a b) b ≡ a
sub64-add64 a b f g =
    rw (add64_exact a b g) (sub64_exact (a +ℤ b) b (rw (plus_minus a b) f) ∙ plus_minus a b)

-- Taking the spend away again restores every sender's.
pending_restored :
    (k : Address) (tx : Transaction) (tp : TransactionPool)
    → pos 0 ≤ℤ pending_spend tx.sender tp
    → Fits64 (pending_spend tx.sender tp)
    → Fits64 (pending_spend tx.sender tp +ℤ tx_spend tx)
    → pending_spend k (sub_pending tx (add_pending tx tp)) ≡ pending_spend k tp
pending_restored k tx tp h f g =
    let own : pending_spend tx.sender (add_pending tx tp)
        ≡ add64 (pending_spend tx.sender tp) (tx_spend tx) =
      pending-add_pending tx.sender tx tp ∙ if_pos (bytes_discrete tx.sender tx.sender) refl _ _ in
    let back : sub64 (pending_spend tx.sender (add_pending tx tp)) (tx_spend tx)
        ≡ pending_spend tx.sender tp =
      ap (λ x. sub64 x (tx_spend tx)) own
      ∙ sub64-add64 (pending_spend tx.sender tp) (tx_spend tx) f g in
    pending-sub_pending k tx (add_pending tx tp) (rw back h)
    ∙ rw (back, pending-add_pending k tx tp) (same_or_other k tx tp)

-- The pool that a transaction was pushed into.
abbrev filled : Transaction → ℤ → TransactionPool → TransactionPool
filled tx priority tp =
    push_item (new_item tx priority)
      (add_pending tx (record tp { transactions = put bytes_discrete tx.hash tx tp.transactions }))

in_items :
    (tx : Transaction) (priority : ℤ) (tp : TransactionPool)
    → get bytes_discrete tx.hash (filled tx priority tp).items ≡ some (new_item tx priority)
unfolding push_item add_pending new_item
in_items tx priority tp =
    get-put bytes_discrete tx.hash tx.hash (new_item tx priority) tp.items
    ∙ if_pos (bytes_discrete tx.hash tx.hash) refl _ _

in_transactions :
    (tx : Transaction) (priority : ℤ) (tp : TransactionPool)
    → get bytes_discrete tx.hash (filled tx priority tp).transactions ≡ some tx
unfolding push_item add_pending
in_transactions tx priority tp =
    get-put bytes_discrete tx.hash tx.hash tx tp.transactions
    ∙ if_pos (bytes_discrete tx.hash tx.hash) refl _ _

-- Deleting the new hash gives the old transactions.
transactions_restored :
    (h : Hash) (tx : Transaction) (m : Table Hash Transaction)
    → get bytes_discrete tx.hash m ≡ none
    → get bytes_discrete h (delete bytes_discrete tx.hash (put bytes_discrete tx.hash tx m))
      ≡ get bytes_discrete h m
transactions_restored h tx m new = elim (bytes_discrete tx.hash h) [
  | yes e ↦
      rw
        (
          get-delete bytes_discrete tx.hash h (put bytes_discrete tx.hash tx m),
          if_pos (bytes_discrete tx.hash h) e,
        )
        (sym new ∙ ap (λ x. get bytes_discrete x m) e)
  | no n ↦
      rw
        (
          get-delete bytes_discrete tx.hash h (put bytes_discrete tx.hash tx m),
          if_neg (bytes_discrete tx.hash h) n,
          get-put bytes_discrete tx.hash h tx m,
          if_neg (bytes_discrete tx.hash h) n,
        )
        refl
]

removed_from :
    (h : Hash) (tx : Transaction) (item : Item) (tp : TransactionPool)
    → get bytes_discrete h tp.items ≡ some item
    → get bytes_discrete h tp.transactions ≡ some tx
    → (remove_transaction_by_hash h tp ≡ drop_item h (sub_pending tx tp))
      × ((pop_transaction_by_hash h tp).1 ≡ drop_item h tp)
unfolding remove_transaction_by_hash pop_transaction_by_hash
removed_from h tx item tp e f =
    (rw (e, f, remove_transaction_by_hash) refl, rw (e, pop_transaction_by_hash) refl)

item_made :
    (n : ℕ) (tx : Transaction) (check : Hash)
    → n ≤ 2
    → (priority : ℤ) × (item_of n tx check ≡ some (new_item tx priority))
unfolding item_of
item_made n tx check h = elim (Bool-cases (n == 0)) [
  | inl z ↦ (tx.gas_price, rw z refl)
  | inr z ↦ elim (Bool-cases (n == 1)) [
    | inl o ↦ (add64 tx.height tx.escrow_delay, rw (z, o) refl)
    | inr o ↦ let two : (n == 2) ≡ true = ground arith in (int64_of check, rw (z, o, two) refl)
  ]
]

module _ (cheapest : List Item → Option Item) where
  -- A transaction that is accepted into a pool with room.
  abbrev pub IsAccepted : Transaction → Hash → TransactionPool → Type 0
  IsAccepted tx check tp =
      (is_banned tx.hash tp ≡ false)
      × (get bytes_discrete tx.hash tp.transactions ≡ none)
      × (tp.type_pool ≤ 2)
      × (length tp.queue < tp.max_transactions)

  accepted_pool :
      (tx : Transaction) (check : Hash) (tp : TransactionPool)
      → IsAccepted tx check tp
      → (priority : ℤ) × ((add_transaction cheapest tx check tp).1 ≡ filled tx priority tp)
  unfolding add_transaction keep_within push_item add_pending
  accepted_pool tx check tp (nb, new, kind, room) =
      let (priority, made) = item_made tp.type_pool tx check kind in
      let within : ltb tp.max_transactions (suc (length tp.queue)) ≡ false = ground arith in
      (priority, rw (nb, new, made, within) refl)

  -- The transaction is accepted into a pool with room, and the spend of its sender is not negative
  -- and within an int64 with it. Once it is removed again, every hash has the transaction that it had
  -- and every sender the spend. Taking it out with a pop instead leaves the sender's spend as high as
  -- it was with the transaction.
  pub remove-add_transaction :
      (tx : Transaction) (check h : Hash) (k : Address) (tp : TransactionPool)
      → IsAccepted tx check tp
      → pos 0 ≤ℤ pending_spend tx.sender tp
      → Fits64 (pending_spend tx.sender tp)
      → Fits64 (pending_spend tx.sender tp +ℤ tx_spend tx)
      → let full = (add_transaction cheapest tx check tp).1 in
        let removed = remove_transaction_by_hash tx.hash full in
        let popped = (pop_transaction_by_hash tx.hash full).1 in
        (get bytes_discrete h removed.transactions ≡ get bytes_discrete h tp.transactions)
        × (pending_spend k removed ≡ pending_spend k tp)
        × (get bytes_discrete h popped.transactions ≡ get bytes_discrete h tp.transactions)
        × (pending_spend tx.sender popped ≡ pending_spend tx.sender tp +ℤ tx_spend tx)
  unfolding drop_item sub_pending push_item add_pending pending_spend
  remove-add_transaction tx check h k tp accepted p f g =
      let (priority, same) = accepted_pool tx check tp accepted in
      let (r, q) =
        removed_from tx.hash tx (new_item tx priority) (filled tx priority tp)
          (in_items tx priority tp) (in_transactions tx priority tp) in
      let restored = transactions_restored h tx tp.transactions (accepted.1) in
      let removed = ap (remove_transaction_by_hash tx.hash) same ∙ r in
      let popped = ap (λ x. (pop_transaction_by_hash tx.hash x).1) same ∙ q in
      (
        ap (λ x. get bytes_discrete h x.transactions) removed ∙ restored,
        ap (pending_spend k) removed ∙ pending_restored k tx tp p f g,
        ap (λ x. get bytes_discrete h x.transactions) popped ∙ restored,
        ap (pending_spend tx.sender) popped
            ∙ pending-add_pending tx.sender tx tp
            ∙ if_pos (bytes_discrete tx.sender tx.sender) refl _ _
            ∙ add64_exact (pending_spend tx.sender tp) (tx_spend tx) g,
      )
