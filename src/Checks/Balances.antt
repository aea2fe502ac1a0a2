-- ===== src/Checks/Balances.antt =====
-- The supply that the accounts hold: blocks/blockAccountState.go.
use qwid_node.Recovery.{Accounts}
use qwid_node.Base.Update.{value_or}
use qwid_node.Base.{
  Bool, Bool-cases, Option, Option-cases, [], ap, arith, err, if_neg, if_pos, if◌then◌else◌, inl,
  inr, none, ok, refl, some, sym, ◌∙◌, ◌∷◌, ◌≡◌,
}
use qwid_node.Base.Int.{ltb_ℤ, negsuc, pos, ℤ, ◌+ℤ◌}
use qwid_node.Base.Int64.{Fits64, add64, add64-Fits64, add64_comm, add64_exact, add64_right_comm}
use qwid_node.Base.Table.{Table, get, get-put, put}
use qwid_node.Types.{Account, Address, bytes_discrete, zero_account}
use qwid_node.Checks.{add_balance, get_supply_in_accounts, not_enough_funds, supply_loop}

supply_loop_shift :
    (m : Table Address Account) (sum amount : ℤ)
    → supply_loop m (add64 sum amount) ≡ add64 (supply_loop m sum) amount
unfolding supply_loop
supply_loop_shift [] sum amount = refl
supply_loop_shift ((k, acc) ∷ m) sum amount =
    ap (supply_loop m) (add64_right_comm sum amount acc.balance)
    ∙ supply_loop_shift m (add64 sum acc.balance) amount

add64_regroup : (a b c : ℤ) → add64 a (add64 b c) ≡ add64 (add64 a b) c
add64_regroup a b c =
    add64_comm a (add64 b c) ∙ add64_right_comm b c a ∙ ap (λ x. add64 x c) (add64_comm b a)

plus_zero : (a : ℤ) → a +ℤ pos 0 ≡ a
unfolding ◌+ℤ◌
plus_zero (pos n) = ground arith
plus_zero (negsuc n) = ground arith

is_there : {a : Account} → some a ≡ none → ⊥
is_there e = ground arith

is_not_there : {a : Account} → none ≡ some a → ⊥
is_not_there e = ground arith

balance_eq : {a b : Account} → some a ≡ some b → a.balance ≡ b.balance
balance_eq {a} e = ap (λ (o : Option Account). (value_or a o).balance) e

add64_zero : (a : ℤ) → Fits64 a → add64 a (pos 0) ≡ a
add64_zero a h = add64_exact a (pos 0) (rw (plus_zero a) h) ∙ plus_zero a

supply_loop-put_same :
    (k : Address) (acc new : Account) (amount : ℤ) (m : Table Address Account) (sum : ℤ)
    → get bytes_discrete k m ≡ some acc
    → new.balance ≡ add64 acc.balance amount
    → supply_loop (put bytes_discrete k new m) sum ≡ add64 (supply_loop m sum) amount
unfolding supply_loop put get
supply_loop-put_same k acc new amount [] sum h e = absurd (is_not_there h)
supply_loop-put_same k acc new amount ((j, a) ∷ m) sum h e = elim (bytes_discrete j k) [
  | yes same ↦
      let here : a.balance ≡ acc.balance =
        balance_eq (rw (if_pos (bytes_discrete j k) same) at h) in
      rw (if_pos (bytes_discrete j k) same, e)
        (ap (λ b. supply_loop m (add64 sum (add64 b amount))) (sym here)
          ∙ ap (supply_loop m) (add64_regroup sum a.balance amount)
          ∙ supply_loop_shift m (add64 sum a.balance) amount)
  | no other ↦ rw (if_neg (bytes_discrete j k) other) (
      supply_loop-put_same k acc new amount m (add64 sum a.balance)
        (rw (if_neg (bytes_discrete j k) other) at h) e)
]

supply_loop-put_new :
    (k : Address) (new : Account) (m : Table Address Account) (sum : ℤ)
    → get bytes_discrete k m ≡ none
    → new.balance ≡ pos 0
    → Fits64 sum
    → supply_loop (put bytes_discrete k new m) sum ≡ supply_loop m sum
unfolding supply_loop put get
supply_loop-put_new k new [] sum h e f = rw e (add64_zero sum f)
supply_loop-put_new k new ((j, a) ∷ m) sum h e f = elim (bytes_discrete j k) [
  | yes same ↦ absurd (is_there (rw (if_pos (bytes_discrete j k) same) at h))
  | no other ↦ rw (if_neg (bytes_discrete j k) other) (
      supply_loop-put_new k new m (add64 sum a.balance)
        (rw (if_neg (bytes_discrete j k) other) at h) e (add64-Fits64 sum a.balance))
]

get-put_same :
    (k : Address) (a : Account) (m : Table Address Account)
    → get bytes_discrete k (put bytes_discrete k a m) ≡ some a
get-put_same k a m =
    get-put bytes_discrete k k a m
    ∙ if_pos (bytes_discrete k k) refl (some a) (get bytes_discrete k m)

-- Whether `AddBalance` refuses.
abbrev pub is_overdrawn : Address → ℤ → Accounts → Bool
is_overdrawn address amount s =
    ltb_ℤ (add64 (value_or zero_account (get bytes_discrete address s.all_accounts)).balance amount)
      (pos 0)

add_balance_old :
    (address : Address) (amount : ℤ) (s : Accounts) (acc : Account)
    → get bytes_discrete address s.all_accounts ≡ some acc
    → get_supply_in_accounts (add_balance address amount s).0 ≡ (
        if is_overdrawn address amount s
        then get_supply_in_accounts s
        else add64 (get_supply_in_accounts s) amount)
unfolding add_balance get_supply_in_accounts
add_balance_old address amount s acc there =
    elim (Bool-cases (ltb_ℤ (add64 acc.balance amount) (pos 0))) [
      | inl e ↦ rw (there, e, add_balance) refl
      | inr e ↦
          rw (there, e, add_balance)
            (supply_loop-put_same address acc _ amount s.all_accounts (pos 0) there refl)
    ]

abbrev fresh_account : Address → Account
fresh_account address = record zero_account { address = address }

add_balance_new :
    (address : Address) (amount : ℤ) (s : Accounts)
    → get bytes_discrete address s.all_accounts ≡ none
    → get_supply_in_accounts (add_balance address amount s).0 ≡ (
        if is_overdrawn address amount s
        then get_supply_in_accounts s
        else add64 (get_supply_in_accounts s) amount)
unfolding add_balance get_supply_in_accounts
add_balance_new address amount s missing =
    let fresh : Account = fresh_account address in
    let unchanged : supply_loop (put bytes_discrete address fresh s.all_accounts) (pos 0)
        ≡ supply_loop s.all_accounts (pos 0) =
      supply_loop-put_new address fresh s.all_accounts (pos 0) missing refl (ground arith) in
    elim (Bool-cases (ltb_ℤ (add64 (pos 0) amount) (pos 0))) [
      | inl e ↦ rw (missing, e, add_balance, missing) unchanged
      | inr e ↦
          rw (missing, e, add_balance, missing)
            (supply_loop-put_same address fresh _ amount
                (put bytes_discrete address fresh s.all_accounts) (pos 0)
                (get-put_same address fresh s.all_accounts) refl
              ∙ ap (λ x. add64 x amount) unchanged)
    ]

result_of :
    (address : Address) (amount : ℤ) (s : Accounts)
    → (add_balance address amount s).1
      ≡ (if is_overdrawn address amount s then err not_enough_funds else ok tt)
unfolding add_balance
result_of address amount s = elim (Option-cases (get bytes_discrete address s.all_accounts)) [
  | inl missing ↦ elim (Bool-cases (ltb_ℤ (add64 (pos 0) amount) (pos 0))) [
    | inl e ↦ rw (missing, e, add_balance) refl
    | inr e ↦ rw (missing, e, add_balance) refl
  ]
  | inr (acc, there) ↦ elim (Bool-cases (ltb_ℤ (add64 acc.balance amount) (pos 0))) [
    | inl e ↦ rw (there, e, add_balance) refl
    | inr e ↦ rw (there, e, add_balance) refl
  ]
]

-- `AddBalance` adds exactly the amount to the supply that the accounts hold, or refuses and leaves the
-- supply as it was; it refuses just when the new balance, as an int64, would be negative. The sums
-- wrap around as Go's do.
pub get_supply-add_balance :
    (address : Address) (amount : ℤ) (s : Accounts)
    → ((add_balance address amount s).1
        ≡ (if is_overdrawn address amount s then err not_enough_funds else ok tt))
      × (get_supply_in_accounts (add_balance address amount s).0 ≡ (
          if is_overdrawn address amount s
          then get_supply_in_accounts s
          else add64 (get_supply_in_accounts s) amount))
get_supply-add_balance address amount s = (
  result_of address amount s,
  elim (Option-cases (get bytes_discrete address s.all_accounts)) [
    | inl missing ↦ add_balance_new address amount s missing
    | inr (acc, there) ↦ add_balance_old address amount s acc there
  ],
)
