-- ===== src/Tests/Accounts.antt =====
-- Commitments and binds on concrete inputs.
use qwid_node.Base.{[], false, if◌then◌else◌, refl, true, ◌&&◌, ◌∷◌, ◌≡◌}
use qwid_node.Base.Int.{pos}
use qwid_node.Base.Table.{get}
use qwid_node.Types.{Account, Address, bytes_discrete, zero_account, zero_address}
use qwid_node.Recovery.{
  Accounts, RecoveryBind, effective_recovery_commit, effective_spare_commit, has_commitments,
  is_set, matured, set_commitments, void_pending_recovery_commits,
}
use qwid_node.Recovery.Commitments.{
  AreFrozen, count_waiting, set_commitments_later, void_pending_recovery_commits_lem,
}
use qwid_node.Tests.Samples.{alice, bob, slot_one, value_two}

abbrev committed : Account
committed = record zero_account { recovery_commit = alice; spare_commit = bob }

abbrev changing : Account
changing = record committed { recovery_pending_commit = bob; recovery_pending_height = pos 100 }

abbrev bind_alice : RecoveryBind
bind_alice = record { identity = alice; payload = value_two; height = pos 5 }

abbrev two_accounts : Accounts
two_accounts = record {
  all_accounts = (alice, changing) ∷ (bob, committed) ∷ [];
  height = pos 200;
  recovery_binds = (slot_one, bind_alice) ∷ [];
}

committed_has : has_commitments committed ≡ true
unfolding has_commitments bytes_discrete
committed_has = refl

fresh_has_none : has_commitments zero_account ≡ false
unfolding has_commitments bytes_discrete
fresh_has_none = refl

set_commitments_later_example :
    let t = set_commitments zero_address bob (pos 10) committed in
    (effective_recovery_commit t (pos 20) ≡ (
      if is_set bob && matured (pos 10) (pos 20)
      then bob
      else effective_recovery_commit committed (pos 10)))
    × (effective_spare_commit t (pos 20) ≡ (
        if is_set zero_address && matured (pos 10) (pos 20)
        then zero_address
        else effective_spare_commit committed (pos 10)))
set_commitments_later_example =
    set_commitments_later zero_address bob (pos 10) (pos 20) committed committed_has

void_pending_recovery_commits_lem_example :
    let (t, dropped) = void_pending_recovery_commits (pos 200) two_accounts in
    ((k : Address)
      → AreFrozen
          (pos 200)
          (get bytes_discrete k two_accounts.all_accounts)
          (get bytes_discrete k t.all_accounts))
    × (t.recovery_binds ≡ two_accounts.recovery_binds)
    × (t.height ≡ two_accounts.height)
    × (dropped ≡ count_waiting (pos 200) two_accounts.all_accounts)
void_pending_recovery_commits_lem_example = void_pending_recovery_commits_lem (pos 200) two_accounts
