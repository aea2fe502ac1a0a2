-- ===== src/StateRoot/Commit.antt =====
-- The commit markers of blocks/stateRoot.go: what a node that starts again accepts.
use qwid_node.Types.{Hash, bytes_discrete}
use qwid_node.Base.{
  List, Option, Option-cases, Result, arith, err, if_neg, if_pos, inl, inr, ite, length, ok, refl,
  some, sym, ℕ, ◌∙◌, ◌≡◌, ◌⊎◌,
}
use qwid_node.Base.Int.{ℤ}
use qwid_node.Hashes.{Collision}
use qwid_node.Wire.Fields.{get_hash_from_bytes_lem}
use qwid_node.StateRoot.Root.{
  RootError, compute_state_root, marker_mismatch, root_stream, state_commit_key, store_state_commit,
  verify_state_commit,
}
use qwid_node.StateRoot.{ConsensusState}
use qwid_node.StateRoot.Agree.{IsSameState, compute_state_root_same}
use qwid_node.StateRoot.Binding.{HaveSameAccounts, IsTypedState, compute_state_root-binding}

length-root :
    (blake : List ℕ → List ℕ) (s : ConsensusState)
    → ((x : List ℕ) → length (blake x) ≡ 32)
    → length (compute_state_root blake s) ≡ 32
unfolding compute_state_root
length-root blake s sized =
    rw (get_hash_from_bytes_lem (blake (root_stream s)) (sized (root_stream s)))
      (sized (root_stream s))

failed : {A : Type 0} {x : RootError} {y : A} → err x ≡ ok y → ⊥
failed e = ground arith

abbrev rooted : {A : Type 0} → A → Result RootError A
rooted x = ok x

same_ok : {A : Type 0} {x y : A} → rooted x ≡ rooted y → some x ≡ some y
same_ok e = cc

module _ {Db : Type 0} (db_put : List ℕ → List ℕ → Db → Option Db)
    (db_get : List ℕ → Db → Option (List ℕ)) (prefix : List ℕ) (blake : List ℕ → List ℕ) where
  store_put :
      (height : ℤ) (s : ConsensusState) (db db' : Db)
      → store_state_commit blake db_put db_get prefix height s db ≡ ok db'
      → db_put (state_commit_key blake db_put db_get prefix height) (compute_state_root blake s) db
        ≡ some db'
  unfolding store_state_commit
  store_put height s db db' e =
      elim (Option-cases (
        db_put (state_commit_key blake db_put db_get prefix height) (compute_state_root blake s)
          db)) [
            | inl n ↦ absurd (failed (rw (n, store_state_commit) at e))
            | inr (d, h) ↦ h ∙ same_ok (rw (h, store_state_commit) at e)
          ]

  -- A marker that is there and of the right length is compared with the root.
  verify_stored :
      (height : ℤ) (t : ConsensusState) (db : Db) (root : Hash)
      → db_get (state_commit_key blake db_put db_get prefix height) db ≡ some root
      → length root ≡ 32
      → verify_state_commit blake db_put db_get prefix height t db
        ≡ ite (bytes_discrete (compute_state_root blake t) root) (ok tt) (err marker_mismatch)
  unfolding verify_state_commit
  verify_stored height t db root g l = rw (g, verify_state_commit, l) refl

  -- After `StoreStateCommit` has stored the marker of a state for a height, `VerifyStateCommit` at
  -- that height accepts every state with the same consensus contents, in any order of iteration; and
  -- when it accepts a state, that state has the same consensus fields of accounts and the same
  -- recovery binds as the stored one, or there is a collision of Blake2b; for hashes of 32 bytes,
  -- fields that fit their Go types, and a store that returns what was put last under a key.
  pub verify-store_state_commit :
      (height : ℤ) (s t : ConsensusState) (db db' : Db)
      → ((x : List ℕ) → length (blake x) ≡ 32)
      → ((k v : List ℕ) (d d' : Db) → db_put k v d ≡ some d' → db_get k d' ≡ some v)
      → IsTypedState s
      → IsTypedState t
      → store_state_commit blake db_put db_get prefix height s db ≡ ok db'
      → (IsSameState s t → verify_state_commit blake db_put db_get prefix height t db' ≡ ok tt)
        × (verify_state_commit blake db_put db_get prefix height t db' ≡ ok tt
            → HaveSameAccounts s t ⊎ Collision blake)
  verify-store_state_commit height s t db db' sized kept hs ht e =
      let root : Hash = compute_state_root blake s in
      let mine : Hash = compute_state_root blake t in
      let found : verify_state_commit blake db_put db_get prefix height t db'
          ≡ ite (bytes_discrete mine root) (ok tt) (err marker_mismatch) =
        verify_stored height t db' root (kept _ root db db' (store_put height s db db' e))
          (length-root blake s sized) in
      (
        λ (h : IsSameState s t).
            found
            ∙ if_pos (bytes_discrete mine root) (sym (compute_state_root_same blake s t h)) (ok tt)
                (err marker_mismatch),
        λ (accepted : verify_state_commit blake db_put db_get prefix height t db' ≡ ok tt).
            elim (bytes_discrete mine root) [
              | yes same ↦ compute_state_root-binding blake s t sized hs ht (sym same)
              | no other ↦ absurd (
                  failed (
                    sym (if_neg (bytes_discrete mine root) other (rooted tt) (err marker_mismatch))
                    ∙ sym found
                    ∙ accepted))
            ],
      )
