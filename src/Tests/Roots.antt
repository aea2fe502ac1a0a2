-- ===== src/Tests/Roots.antt =====
-- State roots of concrete states.
use qwid_node.StateRoot.Commit.{verify-store_state_commit}
use qwid_node.Staking.Eligible.{bytes_less}
use qwid_node.Recovery.{RecoveryBind}
use qwid_node.StateDb.{TokenInfo}
use qwid_node.Base.{
  List, Option, [], ap, arith, if_neg, if_pos, ok, refl, some, sym, true, ℕ, ◌∙◌, ◌∷◌, ◌≡◌, ◌≢◌,
  ◌⊎◌,
}
use qwid_node.Base.Int.{pos}
use qwid_node.Base.Update.{value_or}
use qwid_node.Base.Table.{Table, get}
use qwid_node.Types.{Account, Address, Hash, bytes_discrete, zero_account}
use qwid_node.Hashes.{Collision}
use qwid_node.Staking.{StakingAccounts}
use qwid_node.StateRoot.Root.{
  compute_state_root, state_commit_key, store_state_commit, verify_state_commit,
}
use qwid_node.StateRoot.{ConsensusState, EvmMaps}
use qwid_node.StateRoot.Walk.{AreRelated, AreSame}
use qwid_node.StateRoot.Agree.{
  IsAny, IsEqual, IsSameAccount, IsSameDex, IsSameStaking, IsSameState, compute_state_root_same,
}
use qwid_node.StateRoot.Entries.{IsTypedAccount}
use qwid_node.StateRoot.Binding.{
  HaveSameAccounts, IsTypedState, compute_state_root-binding, zero_account_typed,
}
use qwid_node.StateRoot.Ambiguity.{compute_state_root-ambiguous, one_code, two_accounts, with_evm}
use qwid_node.Tests.Samples.{alice, bob, length-marked_hash, marked_hash}

abbrev rich : Account
rich = record zero_account { balance = pos 50 }

abbrev no_staking : StakingAccounts
no_staking id = record { all_staking_accounts = []; stake_changed_at = pos 0 }

abbrev no_evm : EvmMaps
no_evm = record { accounts = []; codes = []; nonces = []; states_hashes = []; tokens = [] }

-- One state in two orders of iteration.
abbrev state_of : Table Address Account → ConsensusState
state_of m = record {
  accounts = record { all_accounts = m; recovery_binds = []; height = pos 3 };
  staking_accounts = no_staking;
  dex_accounts = [];
  evm = no_evm;
}

abbrev in_order : ConsensusState
in_order = state_of ((alice, rich) ∷ (bob, zero_account) ∷ [])

abbrev swapped : ConsensusState
swapped = state_of ((bob, zero_account) ∷ (alice, rich) ∷ [])

nothing_same : {V : Type 0} (R : V → V → Type 0) → AreSame {V = V} R [] []
unfolding get
nothing_same R = (tt, (tt, λ (k : List ℕ). tt))

account_self : (a : Account) → IsSameAccount a a
account_self a = (refl, refl, refl, refl, refl, refl, refl, refl, refl)

abbrev first_byte : List ℕ → ℕ
first_byte [] = 0
first_byte (b ∷ bs) = b

different : alice ≢ bob
different e = ground (arith, ap first_byte e)

related_order :
    (k : List ℕ)
    → AreRelated IsSameAccount
        (get bytes_discrete k in_order.accounts.all_accounts)
        (get bytes_discrete k swapped.accounts.all_accounts)
unfolding get
related_order k = elim (bytes_discrete alice k) [
  | yes a ↦ elim (bytes_discrete bob k) [
    | yes b ↦ absurd (different (a ∙ sym b))
    | no n ↦
        rw
          (
            if_pos (bytes_discrete alice k) a,
            if_neg (bytes_discrete bob k) n,
            if_pos (bytes_discrete alice k) a,
          )
          (account_self rich)
  ]
  | no m ↦ elim (bytes_discrete bob k) [
    | yes b ↦
        rw
          (
            if_neg (bytes_discrete alice k) m,
            if_pos (bytes_discrete bob k) b,
            if_pos (bytes_discrete bob k) b,
          )
          (account_self zero_account)
    | no n ↦
        rw
          (
            if_neg (bytes_discrete alice k) m,
            if_neg (bytes_discrete bob k) n,
            if_neg (bytes_discrete bob k) n,
            if_neg (bytes_discrete alice k) m,
          )
          tt
  ]
]

order_same : IsSameState in_order swapped
unfolding get bytes_discrete
order_same = (
  ((refl, (refl, tt)), ((refl, (refl, tt)), related_order)),
  nothing_same {V = RecoveryBind} IsEqual,
  λ (id : ℕ). nothing_same IsSameStaking,
  nothing_same IsSameDex,
  (
    nothing_same {V = Account} IsAny,
    nothing_same {V = List ℕ} IsEqual,
    nothing_same {V = ℕ} IsEqual,
    nothing_same {V = Table Hash Hash} (AreSame {V = Hash} IsEqual),
    nothing_same {V = TokenInfo} IsEqual,
  ),
)

typed_rich : IsTypedAccount rich
typed_rich =
    (ground arith, ground arith, omega arith, omega arith, tt, refl, refl, ground arith, refl, refl)

typed_order : IsTypedState in_order
typed_order = ((refl, typed_rich, (refl, zero_account_typed, tt)), tt)

typed_swapped : IsTypedState swapped
typed_swapped = ((refl, zero_account_typed, (refl, typed_rich, tt)), tt)

compute_state_root_same_example :
    compute_state_root marked_hash in_order ≡ compute_state_root marked_hash swapped
compute_state_root_same_example = compute_state_root_same marked_hash in_order swapped order_same

compute_state_root-binding_example : HaveSameAccounts in_order swapped ⊎ Collision marked_hash
compute_state_root-binding_example =
    compute_state_root-binding marked_hash in_order swapped length-marked_hash typed_order
      typed_swapped compute_state_root_same_example

alice_first : bytes_less alice bob ≡ true
unfolding bytes_less
alice_first = refl

compute_state_root-ambiguous_example :
    (compute_state_root marked_hash (with_evm in_order (two_accounts alice bob no_evm))
      ≡ compute_state_root marked_hash (with_evm in_order (one_code alice bob no_evm)))
    × (get bytes_discrete alice (two_accounts alice bob no_evm).codes
        ≢ get bytes_discrete alice (one_code alice bob no_evm).codes)
compute_state_root-ambiguous_example =
    compute_state_root-ambiguous marked_hash alice bob in_order alice_first

-- The commit markers in a table, with a write that never fails.
abbrev markers_put : List ℕ → List ℕ → Table (List ℕ) (List ℕ) → Option (Table (List ℕ) (List ℕ))
markers_put k v db = some ((k, v) ∷ db)

abbrev markers_get : List ℕ → Table (List ℕ) (List ℕ) → Option (List ℕ)
markers_get k db = get bytes_discrete k db

markers_kept :
    (k v : List ℕ) (d d' : Table (List ℕ) (List ℕ))
    → markers_put k v d ≡ some d'
    → markers_get k d' ≡ some v
unfolding get
markers_kept k v d d' e =
    let same : (k, v) ∷ d ≡ d' = ap (value_or []) e in
    rw (← same) (if_pos (bytes_discrete k k) refl (some v) (get bytes_discrete k d))

abbrev marked : Table (List ℕ) (List ℕ)
marked =
    (
      state_commit_key marked_hash markers_put markers_get (67 ∷ []) (pos 7),
      compute_state_root marked_hash in_order,
    )
    ∷ []

marked_stored :
    store_state_commit marked_hash markers_put markers_get (67 ∷ []) (pos 7) in_order [] ≡ ok marked
unfolding store_state_commit
marked_stored = refl

verify-store_state_commit_example :
    (IsSameState in_order swapped
      → verify_state_commit marked_hash markers_put markers_get (67 ∷ []) (pos 7) swapped marked
        ≡ ok tt)
    × (verify_state_commit marked_hash markers_put markers_get (67 ∷ []) (pos 7) swapped marked
          ≡ ok tt
        → HaveSameAccounts in_order swapped ⊎ Collision marked_hash)
verify-store_state_commit_example =
    verify-store_state_commit markers_put markers_get (67 ∷ []) marked_hash (pos 7) in_order swapped
      [] marked length-marked_hash markers_kept typed_order typed_swapped marked_stored
