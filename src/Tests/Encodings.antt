-- ===== src/Tests/Encodings.antt =====
-- Accounts, their bytes and the snapshots of the state on concrete inputs.
use qwid_node.Base.{List, [], arith, inl, inr, ok, refl, true, ◌↔◌, ◌∷◌, ◌≡◌}
use qwid_node.Base.Int64.{sub64}
use qwid_node.Base.Int.{pos, ℤ}
use qwid_node.Base.Table.{put}
use qwid_node.Types.{Account, bytes_discrete, zero_account, zero_address}
use qwid_node.Accounts.{modify_account_to_escrow}
use qwid_node.Accounts.Bytes.{marshal, unmarshal}
use qwid_node.Accounts.RoundTrip.{IsAccount, unmarshal-marshal}
use qwid_node.Accounts.Kinds.{IsModified, modify_account-IsModified}
use qwid_node.Snapshots.{
  closest_loop, closest_stored_snapshot_height, delete_height, delete_heights, is_kept,
  prune_snapshots, snapshots_to_prune,
}
use qwid_node.Snapshots.Kept.{IsRetained, closest_stored-prune_snapshots, has_snapshot}
use qwid_node.Tests.Samples.{alice, bob, slot_one, value_two}

abbrev sample_account : Account
sample_account = record {
  balance = pos 700;
  address = alice;
  transaction_delay = pos 0;
  multi_sign_number = 1;
  multi_sign_addresses = bob ∷ alice ∷ [];
  transactions_sender = slot_one ∷ [];
  transactions_recipient = value_two ∷ slot_one ∷ [];
  sent_count = pos 1;
  received_count = pos 2;
  recovery_commit = bob;
  recovery_pending_commit = zero_address;
  recovery_pending_height = pos 0;
  spare_commit = alice;
  spare_pending_commit = bob;
}

sample-IsAccount : IsAccount sample_account
sample-IsAccount = record {
  balance = (omega arith, omega arith);
  address = refl;
  transaction_delay = (omega arith, omega arith);
  multi_sign_few = omega arith;
  multi_sign_addresses = (refl, (refl, tt));
  senders_few = omega arith;
  transactions_sender = (refl, tt);
  recipients_few = omega arith;
  transactions_recipient = (refl, (refl, tt));
  sent_count = (omega arith, omega arith);
  received_count = (omega arith, omega arith);
  recovery_commit = refl;
  recovery_pending_commit = refl;
  recovery_pending_height = (omega arith, omega arith);
  spare_commit = refl;
  spare_pending_commit = refl;
}

unmarshal-marshal_example : unmarshal zero_account (marshal sample_account) ≡ ok sample_account
unmarshal-marshal_example = unmarshal-marshal sample_account sample-IsAccount

abbrev plain_account : Account
plain_account = record zero_account { address = alice; balance = pos 50 }

abbrev escrow_account : Account
escrow_account = record plain_account { transaction_delay = pos 10 }

made_escrow :
    modify_account_to_escrow (pos 10) plain_account []
    ≡ ok (escrow_account, put bytes_discrete alice escrow_account [])
unfolding modify_account_to_escrow
made_escrow = refl

modify_account-IsModified_example :
    IsModified escrow_account (put bytes_discrete alice escrow_account [])
modify_account-IsModified_example =
    modify_account-IsModified (pos 10) 1 (record { byte_value = bob; primary = true } ∷ [])
      plain_account escrow_account [] (put bytes_discrete alice escrow_account []) (omega arith)
      (inl made_escrow)

-- A recent snapshot, an old one, a checkpoint and genesis; the tip is at 20000.
abbrev stored_heights : List ℤ
stored_heights = pos 0 ∷ pos 8640 ∷ pos 9000 ∷ pos 19000 ∷ []

pruned_old : prune_snapshots (pos 20000) stored_heights ≡ pos 0 ∷ pos 8640 ∷ pos 19000 ∷ []
unfolding prune_snapshots delete_heights delete_height snapshots_to_prune is_kept sub64
pruned_old = refl

closest_stored-prune_snapshots_example :
    ((h : ℤ)
      → (has_snapshot h (prune_snapshots (pos 20000) stored_heights) ≡ true)
        ↔ ((has_snapshot h stored_heights ≡ true) × IsRetained (pos 20000) h))
    × ((height : ℤ)
        → IsRetained (pos 20000) (closest_stored_snapshot_height height stored_heights)
        → closest_stored_snapshot_height height (prune_snapshots (pos 20000) stored_heights)
          ≡ closest_stored_snapshot_height height stored_heights)
closest_stored-prune_snapshots_example =
    closest_stored-prune_snapshots (pos 20000) stored_heights (omega arith) (omega arith)

-- A read for height 8700, which finds the checkpoint, is one of those.
found_checkpoint : IsRetained (pos 20000) (closest_stored_snapshot_height (pos 8700) stored_heights)
unfolding closest_stored_snapshot_height closest_loop
found_checkpoint = inr (inr (1, refl))
