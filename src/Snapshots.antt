-- ===== src/Snapshots.antt =====
-- Which snapshots of the state are kept, and which one is read: account/snapshotRetention.go. A
-- keyspace of the database is the list of the heights that have a snapshot in it; the database, its
-- keys and its errors are not modelled.
pub mod Kept
use qwid_node.Base.{Bool, List, [], if◌then◌else◌, ℕ, ◌%◌, ◌&&◌, ◌==◌, ◌||◌, ◌∷◌}
use qwid_node.Base.Int.{eqb_ℤ, leb_ℤ, ltb_ℤ, negsuc, pos, pos_part, ℤ}
use qwid_node.Base.Int64.{sub64}

abbrev pub snapshot_retention_blocks : ℤ
snapshot_retention_blocks = pos 4320

abbrev pub snapshot_checkpoint_interval : ℕ
snapshot_checkpoint_interval = 8640

-- The cases that `snapshotsToPrune` passes over: genesis, the recent window and checkpoints.
unfoldable pub is_kept : ℤ → ℤ → Bool
is_kept tip h =
    leb_ℤ h (pos 0)
    || leb_ℤ (sub64 tip snapshot_retention_blocks) h
    || (pos_part h % snapshot_checkpoint_interval == 0)

unfoldable pub snapshots_to_prune : List ℤ → ℤ → List ℤ
snapshots_to_prune [] tip = []
snapshots_to_prune (h ∷ heights) tip =
    let rest = snapshots_to_prune heights tip in if is_kept tip h then rest else h ∷ rest

-- `database.MainDB.Delete` of the key of a height.
unfoldable pub delete_height : ℤ → List ℤ → List ℤ
delete_height h [] = []
delete_height h (x ∷ stored) =
    let rest = delete_height h stored in if eqb_ℤ x h then rest else x ∷ rest

unfoldable pub delete_heights : List ℤ → List ℤ → List ℤ
delete_heights [] stored = stored
delete_heights (h ∷ heights) stored = delete_heights heights (delete_height h stored)

unfoldable pub prune_snapshots : ℤ → List ℤ → List ℤ
prune_snapshots tip stored = delete_heights (snapshots_to_prune stored tip) stored

-- The better of the height found so far and the next one.
abbrev pub better : ℤ → ℤ → ℤ → ℤ
better height best h = if leb_ℤ h height && ltb_ℤ best h then h else best

unfoldable pub closest_loop : ℤ → ℤ → List ℤ → ℤ
closest_loop height best [] = best
closest_loop height best (h ∷ heights) = closest_loop height (better height best h) heights

unfoldable pub closest_stored_snapshot_height : ℤ → List ℤ → ℤ
closest_stored_snapshot_height height stored = closest_loop height (negsuc 0) stored
