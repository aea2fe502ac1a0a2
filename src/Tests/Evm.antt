-- ===== src/Tests/Evm.antt =====
-- The EVM state, the encodings and the numbers of delegated accounts on concrete inputs.
use qwid_node.Base.{All, List, [], arith, refl, some, ◌∷◌, ◌≡◌}
use qwid_node.Base.Int.{pos}
use qwid_node.StateDb.{StateAccount, revert_to_snapshot, snapshot}
use qwid_node.StateDb.Methods.{create_state_db, empty_map}
use qwid_node.StateDb.Storage.{get_committed_state, get_state, reset_transient}
use qwid_node.StateDb.View.{view}
use qwid_node.StateDb.Calls.{
  Call, IsSound, back_to, code_to, destroy, nonce_to, open_account, pay_in, run, slot_to,
  warm_storage,
}
use qwid_node.StateDb.Rollback.{IsAbove, revert_to_snapshot-run}
use qwid_node.StateDb.CommittedRun.{get_committed_state-run}
use qwid_node.Tests.Samples.{alice, bob, sample_hash, slot_one, value_two}

abbrev fresh : StateAccount
unfolding create_state_db
fresh = create_state_db empty_map

fresh-IsSound : IsSound fresh
unfolding fresh
fresh-IsSound = record { covered = tt; hashed = λ a e. refl }

-- A contract is made, paid and run, calls another one that fails, and destroys itself.
abbrev transfer : List Call
transfer =
    open_account alice
    ∷ code_to alice (96 ∷ 0 ∷ [])
    ∷ nonce_to alice 1
    ∷ pay_in alice (some (pos 7))
    ∷ slot_to alice slot_one value_two
    ∷ slot_to bob slot_one value_two
    ∷ back_to 5
    ∷ warm_storage alice slot_one
    ∷ destroy alice
    ∷ []

transfer-IsAbove : All (IsAbove (snapshot fresh)) transfer
unfolding snapshot fresh
transfer-IsAbove = (tt, (tt, (tt, (tt, (tt, (tt, (omega arith, (tt, (tt, tt)))))))))

revert_to_snapshot-run_example :
    let t = revert_to_snapshot (pos (snapshot fresh)) (run sample_hash transfer fresh) in
    (view t ≡ view fresh) × (t.journal ≡ fresh.journal)
revert_to_snapshot-run_example =
    revert_to_snapshot-run sample_hash fresh transfer fresh-IsSound transfer-IsAbove

get_committed_state-run_example :
    get_committed_state (run sample_hash transfer (reset_transient fresh)) alice slot_one
    ≡ get_state fresh alice slot_one
get_committed_state-run_example = get_committed_state-run sample_hash transfer fresh alice slot_one
