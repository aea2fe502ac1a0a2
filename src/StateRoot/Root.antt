-- ===== src/StateRoot/Root.antt =====
-- The state root of blocks/stateRoot.go, its check, and the marker of a state in the database.
use qwid_node.Base.{
  List, Option, Result, [], err, if◌then◌else◌, ite, length, none, ok, some, ℕ, ◌++◌, ◌==◌, ◌∷◌,
}
use qwid_node.Base.Int.{eqb_ℤ, pos, ℤ}
use qwid_node.Types.{Hash, bytes_discrete, hash_length, zero_account}
use qwid_node.Wire.{get_byte_int64}
use qwid_node.Wire.Fields.{get_hash_from_bytes}
use qwid_node.Staking.Eligible.{ids_from}
use qwid_node.StateRoot.{
  ConsensusState, account_entry, bind_entry, dex_entry, evm_stream, staking_loop, walk_map,
  write_section, zero_bind, zero_dex_account,
}

-- The names of the sections, in ASCII.
abbrev pub accounts_section : List ℕ
accounts_section = 97 ∷ 99 ∷ 99 ∷ 111 ∷ 117 ∷ 110 ∷ 116 ∷ 115 ∷ []

abbrev pub recovery_binds_section : List ℕ
recovery_binds_section =
    114 ∷ 101 ∷ 99 ∷ 111 ∷ 118 ∷ 101 ∷ 114 ∷ 121 ∷ 45 ∷ 98 ∷ 105 ∷ 110 ∷ 100 ∷ 115 ∷ []

abbrev pub staking_section : List ℕ
staking_section = 115 ∷ 116 ∷ 97 ∷ 107 ∷ 105 ∷ 110 ∷ 103 ∷ []

abbrev pub dex_section : List ℕ
dex_section = 100 ∷ 101 ∷ 120 ∷ []

abbrev pub evm_section : List ℕ
evm_section = 101 ∷ 118 ∷ 109 ∷ []

-- Everything that `computeStateRoot` writes to the hash.
unfoldable pub root_stream : ConsensusState → List ℕ
unfolding write_section walk_map account_entry bind_entry staking_loop dex_entry evm_stream ids_from
root_stream s =
    write_section accounts_section
    ++ (walk_map account_entry zero_account s.accounts.all_accounts
        ++ (write_section recovery_binds_section
            ++ (walk_map bind_entry zero_bind s.accounts.recovery_binds
                ++ (write_section staking_section
                    ++ (staking_loop s.staking_accounts (ids_from 0 256)
                        ++ (write_section dex_section
                            ++ (walk_map dex_entry zero_dex_account s.dex_accounts
                                ++ (write_section evm_section ++ evm_stream s.evm))))))))

pub data RootError : Type 0 where
  root_mismatch never_committed marker_mismatch database_error : RootError

module _ (blake : List ℕ → List ℕ) where
  unfoldable pub compute_state_root : ConsensusState → Hash
  unfolding root_stream get_hash_from_bytes
  compute_state_root s = get_hash_from_bytes (blake (root_stream s))

  -- `VerifyStateRoot`, given the height and the state root of the block's header.
  unfoldable pub verify_state_root : ℤ → Hash → ConsensusState → Result RootError (Unit {0})
  unfolding compute_state_root
  verify_state_root height state_root s =
      if eqb_ℤ height (pos 0)
      then ok tt
      else ite (bytes_discrete (compute_state_root s) state_root) (ok tt) (err root_mismatch)

  module _ {Db : Type 0} (db_put : List ℕ → List ℕ → Db → Option Db)
      (db_get : List ℕ → Db → Option (List ℕ)) (state_commit_prefix : List ℕ) where
    abbrev pub state_commit_key : ℤ → List ℕ
    state_commit_key height = state_commit_prefix ++ get_byte_int64 height

    unfoldable pub store_state_commit : ℤ → ConsensusState → Db → Result RootError Db
    unfolding compute_state_root
    store_state_commit height s db =
        elim (db_put (state_commit_key height) (compute_state_root s) db) [
          | none ↦ err database_error
          | some db' ↦ ok db'
        ]

    unfoldable pub verify_state_commit : ℤ → ConsensusState → Db → Result RootError (Unit {0})
    unfolding compute_state_root
    verify_state_commit height s db = elim (db_get (state_commit_key height) db) [
      | none ↦ err never_committed
      | some want ↦
          if length want == hash_length
          then ite (bytes_discrete (compute_state_root s) want) (ok tt) (err marker_mismatch)
          else err never_committed
    ]
