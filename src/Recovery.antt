-- ===== src/Recovery.antt =====
-- Recovery commitments and binds: account/recovery.go, with the constants of common/recovery.go.
-- `Accounts` is the record AccountsType of account/accountsStates.go; its maps are tables, since the
-- package ranges over both, and a nil map is an empty one.
pub mod Commitments
pub mod Binds
use qwid_node.Base.{
  Bool, List, Option, Result, [], err, false, if◌then◌else◌, ite, none, ok, some, true, ℕ, ◌&&◌,
  ◌+◌, ◌||◌, ◌∷◌,
}
use qwid_node.Base.Int.{leb_ℤ, ltb_ℤ, pos, ℤ}
use qwid_node.Base.Int64.{add64}
use qwid_node.Base.Table.{Table, delete, get, put}
use qwid_node.Base.Update.{exists}
use qwid_node.Types.{Account, Address, Hash, bytes_discrete, zero_address}

abbrev pub recovery_commit_maturity_blocks : ℤ
recovery_commit_maturity_blocks = pos 60480

abbrev pub recovery_bind_expiry_blocks : ℤ
recovery_bind_expiry_blocks = pos 120960

abbrev pub zero_commit : Address
zero_commit = zero_address

-- `c != zeroCommit`
abbrev pub is_set : Address → Bool
is_set c = ite (bytes_discrete c zero_commit) false true

unfoldable pub matured : ℤ → ℤ → Bool
unfolding add64
matured pending_height height = leb_ℤ (add64 pending_height recovery_commit_maturity_blocks) height

unfoldable pub effective_recovery_commit : Account → ℤ → Address
effective_recovery_commit a height =
    if is_set a.recovery_pending_commit && matured a.recovery_pending_height height
    then a.recovery_pending_commit
    else a.recovery_commit

unfoldable pub effective_spare_commit : Account → ℤ → Address
effective_spare_commit a height =
    if is_set a.spare_pending_commit && matured a.recovery_pending_height height
    then a.spare_pending_commit
    else a.spare_commit

unfoldable pub has_commitments : Account → Bool
has_commitments a =
    is_set a.recovery_commit
    || is_set a.recovery_pending_commit
    || is_set a.spare_commit
    || is_set a.spare_pending_commit

unfoldable pub promote_matured : ℤ → Account → Account
promote_matured height a =
    if matured a.recovery_pending_height height
    then record a {
      recovery_commit =
          if is_set a.recovery_pending_commit then a.recovery_pending_commit else a.recovery_commit;
      spare_commit =
          if is_set a.spare_pending_commit then a.spare_pending_commit else a.spare_commit;
      recovery_pending_commit = zero_commit;
      spare_pending_commit = zero_commit;
      recovery_pending_height = pos 0;
    }
    else a

unfoldable pub set_commitments : Address → Address → ℤ → Account → Account
unfolding has_commitments promote_matured
set_commitments spare c height a =
    if has_commitments a
    then (let p = promote_matured height a in
        record p {
          spare_pending_commit = spare;
          recovery_pending_commit = c;
          recovery_pending_height = height;
        })
    else record a { spare_commit = spare; recovery_commit = c }

unfoldable pub consume_recovery_commit : Address → Account → Account
consume_recovery_commit next a = record a {
  recovery_commit = next;
  recovery_pending_commit = zero_commit;
  recovery_pending_height =
      if is_set a.spare_pending_commit then a.recovery_pending_height else pos 0;
}

pub record RecoveryBind : Type 0 where
  pub identity : Address
  pub payload : List ℕ
  pub height : ℤ

pub record Accounts : Type 0 where
  pub all_accounts : Table Address Account
  pub recovery_binds : Table Hash RecoveryBind
  pub height : ℤ

pub data AccountError : Type 0 where
  no_account : AccountError

-- `acc, ok := m[addr]`, an update of `acc`, and `m[addr] = acc`.
unfoldable pub update_account :
    (Account → Account) → Address → Accounts → Result AccountError Accounts
unfolding get put
update_account f addr s = elim (get bytes_discrete addr s.all_accounts) [
  | none ↦ err no_account
  | some acc ↦ ok (record s { all_accounts = put bytes_discrete addr (f acc) s.all_accounts })
]

unfoldable pub set_account_commitments :
    Address → Address → Address → ℤ → Accounts → Result AccountError Accounts
unfolding update_account set_commitments
set_account_commitments addr spare c height = update_account (set_commitments spare c height) addr

unfoldable pub consume_account_recovery_commit :
    Address → Address → Accounts → Result AccountError Accounts
unfolding update_account consume_recovery_commit
consume_account_recovery_commit addr next = update_account (consume_recovery_commit next) addr

abbrev pub has_pending : Account → Bool
has_pending acc = is_set acc.recovery_pending_commit || is_set acc.spare_pending_commit

abbrev pub drop_pending : Account → Account
drop_pending acc = record acc {
  recovery_pending_commit = zero_commit;
  spare_pending_commit = zero_commit;
  recovery_pending_height = pos 0;
}

-- The body of the loop of `VoidPendingRecoveryCommits`: the account, and whether it lost a
-- pending commitment.
unfoldable pub void_account : ℤ → Account → Account × Bool
unfolding promote_matured
void_account height acc =
    if has_pending acc
    then (let p = promote_matured height acc in
        if has_pending p then (drop_pending p, true) else (p, false))
    else (acc, false)

unfoldable pub void_loop : ℤ → Table Address Account → Table Address Account × ℕ
unfolding void_account
void_loop height [] = ([], 0)
void_loop height ((k, acc) ∷ m) =
    let (rest, dropped) = void_loop height m in
    let (acc', lost) = void_account height acc in
    ((k, acc') ∷ rest, if lost then dropped + 1 else dropped)

unfoldable pub void_pending_recovery_commits : ℤ → Accounts → Accounts × ℕ
unfolding void_loop
void_pending_recovery_commits height s =
    let (m, dropped) = void_loop height s.all_accounts in (record s { all_accounts = m }, dropped)

unfoldable pub add_recovery_bind : Hash → RecoveryBind → Accounts → Accounts × Bool
unfolding get put
add_recovery_bind key b s =
    if exists (get bytes_discrete key s.recovery_binds)
    then (s, false)
    else (record s { recovery_binds = put bytes_discrete key b s.recovery_binds }, true)

unfoldable pub get_recovery_bind : Hash → Accounts → Option RecoveryBind
unfolding get
get_recovery_bind key s = get bytes_discrete key s.recovery_binds

unfoldable pub delete_recovery_bind : Hash → Accounts → Accounts
unfolding delete
delete_recovery_bind key s = record s {
  recovery_binds = delete bytes_discrete key s.recovery_binds;
}

-- `height > b.Height+RecoveryBindExpiryBlocks`
unfoldable pub is_expired : ℤ → RecoveryBind → Bool
unfolding add64
is_expired height b = ltb_ℤ (add64 b.height recovery_bind_expiry_blocks) height

-- The loop of `PruneRecoveryBinds`: the binds that stay, and how many go.
unfoldable pub prune_loop : ℤ → Table Hash RecoveryBind → Table Hash RecoveryBind × ℕ
unfolding is_expired
prune_loop height [] = ([], 0)
prune_loop height ((k, b) ∷ m) =
    let (rest, n) = prune_loop height m in
    if is_expired height b then (rest, n + 1) else ((k, b) ∷ rest, n)

unfoldable pub prune_recovery_binds : ℤ → Accounts → Accounts × ℕ
unfolding prune_loop
prune_recovery_binds height s =
    let (left, n) = prune_loop height s.recovery_binds in (record s { recovery_binds = left }, n)
