-- ===== src/StateRoot/Binding.antt =====
-- What the state root of blocks/stateRoot.go determines of the accounts and of the recovery binds.
use qwid_node.StateRoot.Walk.{AreRelated}
use qwid_node.Recovery.{RecoveryBind}
use qwid_node.Hashes.{Collision, same_input}
use qwid_node.Base.Table.{get}
use qwid_node.Base.{List, [], arith, inl, inr, length, refl, sym, ℕ, ◌++◌, ◌∙◌, ◌∷◌, ◌≡◌, ◌⊎◌}
use qwid_node.Types.{Account, Address, Hash, bytes_discrete, zero_account}
use qwid_node.Wire.Fields.{get_hash_from_bytes_lem, join, join_front}
use qwid_node.StateRoot.Root.{
  accounts_section, compute_state_root, recovery_binds_section, root_stream, staking_section,
}
use qwid_node.StateRoot.{
  ConsensusState, account_entry, all_bytes, bind_entry, write_bytes, write_section, zero_bind,
}
use qwid_node.StateRoot.Fields.{Field, bytes_split_end, writes}
use qwid_node.StateRoot.Maps.{IsTypedMap, walk_map_split}
use qwid_node.StateRoot.Agree.{IsSameAccount}
use qwid_node.StateRoot.Entries.{
  IsSameBind, IsTypedAccount, IsTypedBind, account_entry_fields, account_split, bind_fields,
  bind_split, head_fields, tail_fields,
}

abbrev tail_of : List Field → List Field
tail_of [] = []
tail_of (f ∷ fs) = fs

pub zero_account_typed : IsTypedAccount zero_account
zero_account_typed =
    (ground arith, ground arith, omega arith, omega arith, tt, refl, refl, ground arith, refl, refl)

zero_bind_typed : IsTypedBind zero_bind
zero_bind_typed = (refl, refl, ground arith)

account_starts :
    (k : List ℕ) (a : Account) (r : List ℕ)
    → (x : List ℕ) × (account_entry k a ++ r ≡ write_bytes k ++ x)
account_starts k a r = (
  join (writes (tail_of (head_fields k a)))
      ++ (join (all_bytes a.multi_sign_addresses) ++ (join (writes (tail_fields a)) ++ r)),
  account_entry_fields k a r ∙ join_front (write_bytes k) (writes (tail_of (head_fields k a))) _,
)

bind_starts :
    (k : List ℕ) (b : RecoveryBind) (r : List ℕ)
    → (x : List ℕ) × (bind_entry k b ++ r ≡ write_bytes k ++ x)
unfolding bind_entry
bind_starts k b r = (
  join (writes (tail_of (bind_fields k b))) ++ r,
  join_front (write_bytes k) (writes (tail_of (bind_fields k b))) r,
)

-- What Go's types say of the accounts and of the recovery binds.
abbrev pub IsTypedState : ConsensusState → Type 0
IsTypedState s =
    IsTypedMap 20 IsTypedAccount s.accounts.all_accounts
    × IsTypedMap 32 IsTypedBind s.accounts.recovery_binds

-- At every key the two states hold the same consensus fields of an account and of a bind, or both
-- hold nothing.
abbrev pub HaveSameAccounts : ConsensusState → ConsensusState → Type 0
HaveSameAccounts s t =
    ((k : Address)
      → AreRelated IsSameAccount (get bytes_discrete k s.accounts.all_accounts)
          (get bytes_discrete k t.accounts.all_accounts))
    × ((k : Hash)
        → AreRelated IsSameBind (get bytes_discrete k s.accounts.recovery_binds)
            (get bytes_discrete k t.accounts.recovery_binds))

root_stream-binding :
    (s t : ConsensusState)
    → IsTypedState s
    → IsTypedState t
    → root_stream s ≡ root_stream t
    → HaveSameAccounts s t
unfolding root_stream write_section
root_stream-binding s t (ha, hb) (ka, kb) e =
    let (u, accounts) =
      bytes_split_end accounts_section accounts_section _ _ (omega arith) (omega arith) e in
    let (first, binds) =
      walk_map_split account_entry zero_account IsTypedAccount IsSameAccount 20
        recovery_binds_section account_split account_starts (λ (c : 14 ≡ 20). omega arith)
        (omega arith) (omega arith) s.accounts.all_accounts t.accounts.all_accounts _ _
        zero_account_typed ha ka (unfold write_section in accounts) in
    let (second, rest) =
      walk_map_split bind_entry zero_bind IsTypedBind IsSameBind 32 staking_section bind_split
        bind_starts (λ (c : 7 ≡ 32). omega arith) (omega arith) (omega arith)
        s.accounts.recovery_binds t.accounts.recovery_binds _ _ zero_bind_typed hb kb
        (unfold write_section in binds) in
    (first, second)

-- Two states with one state root hold the same consensus fields of accounts and the same recovery
-- binds under every key, or give a collision of Blake2b; for hashes of 32 bytes and for fields that
-- fit their Go types.
pub compute_state_root-binding :
    (blake : List ℕ → List ℕ) (s t : ConsensusState)
    → ((x : List ℕ) → length (blake x) ≡ 32)
    → IsTypedState s
    → IsTypedState t
    → compute_state_root blake s ≡ compute_state_root blake t
    → HaveSameAccounts s t ⊎ Collision blake
unfolding compute_state_root
compute_state_root-binding blake s t sized h k e =
    let same : blake (root_stream s) ≡ blake (root_stream t) =
      sym (get_hash_from_bytes_lem (blake (root_stream s)) (sized (root_stream s)))
      ∙ e
      ∙ get_hash_from_bytes_lem (blake (root_stream t)) (sized (root_stream t)) in
    elim (same_input blake (root_stream s) (root_stream t) same) [
      | inl one ↦ inl (root_stream-binding s t h k one)
      | inr collision ↦ inr collision
    ]
