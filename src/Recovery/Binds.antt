-- ===== src/Recovery/Binds.antt =====
-- The store of binds: the first bind of a key stays until it is used or expires.
use qwid_node.Base.{
  List, Option, [], ap, arith, if◌then◌else◌, ite, length, none, not, refl, some, ◌+◌, ◌∙◌, ◌∷◌,
  ◌≡◌,
}
use qwid_node.Base.Int.{ℤ}
use qwid_node.Base.Table.{IsTable, Table, get, get-put, get-retain, kept, retain}
use qwid_node.Types.{Hash, bytes_discrete}
use qwid_node.Recovery.{
  Accounts, RecoveryBind, add_recovery_bind, get_recovery_bind, is_expired, prune_loop,
  prune_recovery_binds,
}

unfoldable pub add_recovery_binds : List (Hash × RecoveryBind) → Accounts → Accounts
add_recovery_binds [] s = s
add_recovery_binds ((k, b) ∷ bs) s = add_recovery_binds bs (add_recovery_bind k b s).0

abbrev pub or_else {ℓ} : {A : Type ℓ} → Option A → Option A → Option A
or_else none o = o
or_else (some a) o = some a

get-add_recovery_bind :
    (k j : Hash) (b : RecoveryBind) (s : Accounts)
    → get_recovery_bind j (add_recovery_bind k b s).0
      ≡ or_else (get_recovery_bind j s) (ite (bytes_discrete k j) (some b) none)
unfolding get_recovery_bind add_recovery_bind
get-add_recovery_bind k j b s = ground (arith, get-put bytes_discrete k j b s.recovery_binds)

-- After any attempts to add binds, each key has the bind that it had before them, or else the first
-- one that was added for it.
get-add_recovery_binds :
    (bs : List (Hash × RecoveryBind)) (j : Hash) (s : Accounts)
    → get_recovery_bind j (add_recovery_binds bs s)
      ≡ or_else (get_recovery_bind j s) (get bytes_discrete j bs)
unfolding add_recovery_binds get
get-add_recovery_binds [] j s = ground arith
get-add_recovery_binds ((k, b) ∷ bs) j s =
    get-add_recovery_binds bs j (add_recovery_bind k b s).0
    ∙ ground (arith, get-add_recovery_bind k j b s)

prune_loop_lem :
    (height : ℤ) (m : Table Hash RecoveryBind)
    → let (left, n) = prune_loop height m in
      (left ≡ retain (λ k b. not (is_expired height b)) m) × (length left + n ≡ length m)
unfolding prune_loop retain
prune_loop_lem height [] = (refl, omega arith)
prune_loop_lem height ((k, b) ∷ m) = ground (arith, prune_loop_lem height m)

abbrev pub unexpired : ℤ → Option RecoveryBind → Option RecoveryBind
unexpired height none = none
unexpired height (some b) = if is_expired height b then none else some b

kept-unexpired :
    (height : ℤ) (k : Hash) (o : Option RecoveryBind)
    → kept (λ (j : Hash) b. not (is_expired height b)) k o ≡ unexpired height o
kept-unexpired height k none = refl
kept-unexpired height k (some b) = ground arith

-- Pruning removes exactly the binds that are expired at the height, and returns how many they are.
prune_recovery_binds_lem :
    (height : ℤ) (s : Accounts)
    → IsTable bytes_discrete s.recovery_binds
    → let (t, n) = prune_recovery_binds height s in
      ((k : Hash) → get_recovery_bind k t ≡ unexpired height (get_recovery_bind k s))
      × (length t.recovery_binds + n ≡ length s.recovery_binds)
      × (t.all_accounts ≡ s.all_accounts)
unfolding prune_recovery_binds get_recovery_bind
prune_recovery_binds_lem height s h = (
  λ k.
      ap (get bytes_discrete k) (prune_loop_lem height s.recovery_binds).0
      ∙ get-retain bytes_discrete (λ j b. not (is_expired height b)) k s.recovery_binds h
      ∙ kept-unexpired height k (get bytes_discrete k s.recovery_binds),
  (prune_loop_lem height s.recovery_binds).1,
  refl,
)
