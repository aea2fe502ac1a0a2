-- ===== src/Staking/Reveals.antt =====
-- What a RANDAO commitment that is set changes (account/stakeAccount.go).
use qwid_node.Base.{arith, ite, ok, some, ℕ, ℕ_discrete, ◌<◌, ◌≡◌}
use qwid_node.Base.Int.{pos, ℤ}
use qwid_node.Base.Table.{get, get-put}
use qwid_node.Base.Update.{upd}
use qwid_node.Types.{Address, Hash, bytes_discrete}
use qwid_node.Staking.{StakingAccount, StakingAccounts}
use qwid_node.Staking.Nodes.{get_rand_commit, replace_staker, set_rand_commit, with_commit}

commit_after :
    (n m : ℕ) (a b : Address) (sa : StakingAccount) (s : StakingAccounts)
    → get bytes_discrete b (replace_staker n a sa s m).all_staking_accounts
      ≡ ite
          (ℕ_discrete n m)
          (ite (bytes_discrete a b) (some sa) (get bytes_discrete b (s m).all_staking_accounts))
          (get bytes_discrete b (s m).all_staking_accounts)
unfolding replace_staker upd
commit_after n m a b sa s = ground (arith, get-put bytes_discrete a b sa (s n).all_staking_accounts)

-- Setting the commitment of a staker that the delegated account has returns no error; afterwards that
-- staker's commitment is the new one with its height, and every other staker's, in this and in the
-- other delegated accounts, is what it was.
pub get-set_rand_commit :
    (n m : ℕ) (a b : Address) (commit : Hash) (height : ℤ) (sa : StakingAccount)
    (s : StakingAccounts)
    → n < 256
    → m < 256
    → get bytes_discrete a (s n).all_staking_accounts ≡ some sa
    → (t : StakingAccounts) × (set_rand_commit (pos n) a commit height s ≡ ok t)
      × (get_rand_commit (pos m) b t
          ≡ ite
              (ℕ_discrete n m)
              (ite
                (bytes_discrete a b)
                (ok (record { commit = commit; height = height }))
                (get_rand_commit (pos m) b s))
              (get_rand_commit (pos m) b s))
unfolding get_rand_commit set_rand_commit
get-set_rand_commit n m a b commit height sa s h k e =
    let t = replace_staker n a (with_commit commit height sa) s in
    (t, grind (arith, e), grind (arith, commit_after n m a b (with_commit commit height sa) s))
