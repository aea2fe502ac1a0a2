-- ===== src/Recovery/Commitments.antt =====
-- Which commitments a reveal has to match, after each change of an account.
use qwid_node.Base.Table.{Table, get}
use qwid_node.Base.{
  Bool, Option, [], arith, false, if_neg, if◌then◌else◌, ite, none, not, refl, some, true, ℕ, ◌&&◌,
  ◌+◌, ◌∷◌, ◌≡◌,
}
use qwid_node.Base.Int64.{add64}
use qwid_node.Base.Int.{ltb_ℤ, pos, ℤ}
use qwid_node.Types.{Account, Address, bytes_discrete, zero_address}
use qwid_node.Recovery.{
  Accounts, consume_recovery_commit, effective_recovery_commit, effective_spare_commit,
  has_commitments, has_pending, is_set, matured, promote_matured, set_commitments, void_account,
  void_loop, void_pending_recovery_commits,
}

-- On an account that has commitments, a change at `height` leaves the commitments that are
-- effective then in force until it matures itself; from then on a commitment that was given
-- replaces its old one, and a zero one leaves it.
pub set_commitments_later :
    (spare c : Address) (height later : ℤ) (a : Account)
    → has_commitments a ≡ true
    → let t = set_commitments spare c height a in
      (effective_recovery_commit t later
        ≡ (if is_set c && matured height later then c else effective_recovery_commit a height))
      × (effective_spare_commit t later ≡ (
          if is_set spare && matured height later then spare else effective_spare_commit a height))
unfolding set_commitments effective_recovery_commit effective_spare_commit
set_commitments_later spare c height later a h = (ground arith, ground arith)

-- An account's first commitments are effective at every height.
set_commitments_first :
    (spare c : Address) (height later : ℤ) (a : Account)
    → has_commitments a ≡ false
    → let t = set_commitments spare c height a in
      (effective_recovery_commit t later ≡ c) × (effective_spare_commit t later ≡ spare)
unfolding set_commitments effective_recovery_commit effective_spare_commit
set_commitments_first spare c height later a h = (ground arith, ground arith)

-- After a reveal the next recovery commitment is effective at every height, and the spare
-- commitment that is effective at any height is what it was.
consume_recovery_commit_effective :
    (next : Address) (later : ℤ) (a : Account)
    → let t = consume_recovery_commit next a in
      (effective_recovery_commit t later ≡ next)
      × (effective_spare_commit t later ≡ effective_spare_commit a later)
unfolding consume_recovery_commit effective_recovery_commit effective_spare_commit
consume_recovery_commit_effective next later a = (ground arith, ground arith)

pub void_account_effective :
    (height later : ℤ) (acc : Account)
    → let t = (void_account height acc).0 in
      (has_pending t ≡ false)
      × (effective_recovery_commit t later ≡ effective_recovery_commit acc height)
      × (effective_spare_commit t later ≡ effective_spare_commit acc height)
unfolding void_account effective_recovery_commit effective_spare_commit
void_account_effective height later acc = (ground arith, ground arith, ground arith)

-- An account after voiding at `height`: no pending commitment is left, at every height the
-- commitments in force are those that were in force at `height`, and the rest of the account is
-- what it was.
abbrev pub IsFrozen : ℤ → Account → Account → Type 0
IsFrozen height old new =
    (new.recovery_pending_commit ≡ zero_address)
    × (new.spare_pending_commit ≡ zero_address)
    × ((later : ℤ)
        → (effective_recovery_commit new later ≡ effective_recovery_commit old height)
          × (effective_spare_commit new later ≡ effective_spare_commit old height))
    × (new ≡ record old {
      recovery_commit = new.recovery_commit;
      recovery_pending_commit = new.recovery_pending_commit;
      recovery_pending_height = new.recovery_pending_height;
      spare_commit = new.spare_commit;
      spare_pending_commit = new.spare_pending_commit;
    })

-- The same of what a table holds at an address.
abbrev pub AreFrozen : ℤ → Option Account → Option Account → Type 0
AreFrozen height none none = Unit
AreFrozen height (some old) (some new) = IsFrozen height old new
AreFrozen height _ _ = ⊥

not_set : (c : Address) → is_set c ≡ false → c ≡ zero_address
not_set c e = elim (bytes_discrete c zero_address) [
  | yes p ↦ p
  | no n ↦ absurd (ground (arith, e, if_neg (bytes_discrete c zero_address) n false true))
]

void_account-IsFrozen :
    (height : ℤ) (acc : Account) → IsFrozen height acc (void_account height acc).0
void_account-IsFrozen height acc =
    let none_left = (void_account_effective height height acc).0 in
    (
      not_set _ (ground (arith, none_left)),
      not_set _ (ground (arith, none_left)),
      (λ later. let e = void_account_effective height later acc in (e.1, e.2)),
      unfold void_account in (unfold promote_matured in ground arith),
    )

-- Two lookups that meet the same key.
frozen_either :
    {P : Type 0} (d : Dec P) (height : ℤ) (acc new : Account) (x y : Option Account)
    → IsFrozen height acc new
    → AreFrozen height x y
    → AreFrozen height (ite d (some acc) x) (ite d (some new) y)
frozen_either (yes p) height acc new x y h k = h
frozen_either (no n) height acc new x y h k = k

get-void_loop :
    (height : ℤ) (k : Address) (m : Table Address Account)
    → AreFrozen height (get bytes_discrete k m) (get bytes_discrete k (void_loop height m).0)
unfolding void_loop get
get-void_loop height k [] = tt
get-void_loop height k ((j, acc) ∷ m) =
    frozen_either (bytes_discrete j k) height acc (void_account height acc).0 _ _
      (void_account-IsFrozen height acc) (get-void_loop height k m)

-- An account has a commitment that waits at `height`: one that is not zero, and that was made fewer
-- than 60480 blocks before.
abbrev pub is_waiting : ℤ → Account → Bool
is_waiting height acc =
    not (
      ite (bytes_discrete acc.recovery_pending_commit zero_address) true false
      && ite (bytes_discrete acc.spare_pending_commit zero_address) true false)
    && ltb_ℤ height (add64 acc.recovery_pending_height (pos 60480))

abbrev pub count_waiting : ℤ → Table Address Account → ℕ
count_waiting height [] = 0
count_waiting height ((k, acc) ∷ m) =
    let rest = count_waiting height m in if is_waiting height acc then rest + 1 else rest

void_account_lost :
    (height : ℤ) (acc : Account) → (void_account height acc).1 ≡ is_waiting height acc
unfolding void_account matured
void_account_lost height acc = ground arith

void_loop_count :
    (height : ℤ) (m : Table Address Account) → (void_loop height m).1 ≡ count_waiting height m
unfolding void_loop
void_loop_count height [] = refl
void_loop_count height ((k, acc) ∷ m) =
    ground (arith, void_loop_count height m, void_account_lost height acc)

-- `VoidPendingRecoveryCommits` freezes every account as it is at the height: no pending commitment is
-- left, and at every later or earlier height the commitments in force are those of that height;
-- nothing else of an account changes, and none is added or removed. The binds and the height stay,
-- and the result is the number of accounts with a commitment made fewer than 60480 blocks before.
pub void_pending_recovery_commits_lem :
    (height : ℤ) (s : Accounts)
    → let (t, dropped) = void_pending_recovery_commits height s in
      ((k : Address)
        → AreFrozen height
            (get bytes_discrete k s.all_accounts)
            (get bytes_discrete k t.all_accounts))
      × (t.recovery_binds ≡ s.recovery_binds)
      × (t.height ≡ s.height)
      × (dropped ≡ count_waiting height s.all_accounts)
unfolding void_pending_recovery_commits
void_pending_recovery_commits_lem height s =
    (λ k. get-void_loop height k s.all_accounts, refl, refl, void_loop_count height s.all_accounts)
