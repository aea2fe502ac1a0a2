-- ===== src/StateRoot/Ambiguity.antt =====
-- The section `evm` of the stream of blocks/stateRoot.go, whose maps follow each other.
use qwid_node.StateRoot.Order.{bytes_less_asym}
use qwid_node.Wire.Fields.{join}
use qwid_node.Base.Sort.{insert, sort}
use qwid_node.Base.{
  List, [], append-nil, arith, if_pos, ite, none, refl, some, true, ℕ, ◌++◌, ◌∷◌, ◌≡◌, ◌≢◌,
}
use qwid_node.Base.Table.{get}
use qwid_node.Types.{Address, bytes_discrete, zero_account}
use qwid_node.Staking.Eligible.{bytes_less}
use qwid_node.StateRoot.Root.{compute_state_root, root_stream}
use qwid_node.StateRoot.{
  ConsensusState, EvmMaps, evm_stream, key_entry, slot_entry, sorted_keys, walk, walk_map,
  write_bytes,
}

-- Two contracts with no code, and no contract with the second address as the code of the first.
abbrev pub two_accounts : Address → Address → EvmMaps → EvmMaps
two_accounts a b e = record e { accounts = (a, zero_account) ∷ (b, zero_account) ∷ []; codes = [] }

abbrev pub one_code : Address → Address → EvmMaps → EvmMaps
one_code a b e = record e { accounts = []; codes = (a, b) ∷ [] }

abbrev pub with_evm : ConsensusState → EvmMaps → ConsensusState
with_evm s e = record s { evm = e }

sorted_two : (a b : Address) → bytes_less a b ≡ true → sort bytes_less (a ∷ b ∷ []) ≡ a ∷ b ∷ []
unfolding sort insert
sorted_two a b h = rw (bytes_less_asym a b h) refl

walk_map_empty : {V : Type 0} (f : List ℕ → V → List ℕ) (z : V) → walk_map f z [] ≡ []
unfolding walk_map sorted_keys walk sort
walk_map_empty f z = refl

two_keys :
    (a b : Address)
    → bytes_less a b ≡ true
    → walk_map key_entry zero_account ((a, zero_account) ∷ (b, zero_account) ∷ [])
      ≡ write_bytes a ++ (write_bytes b ++ [])
unfolding walk_map sorted_keys walk key_entry
two_keys a b h = rw (sorted_two a b h, walk, key_entry) refl

one_entry :
    (a b : Address) → walk_map slot_entry [] ((a, b) ∷ []) ≡ (write_bytes a ++ write_bytes b) ++ []
unfolding walk_map sorted_keys walk slot_entry sort insert get
one_entry a b = rw (if_pos (bytes_discrete a a) refl) refl

stream_ambiguous :
    (a b : Address) (e : EvmMaps)
    → bytes_less a b ≡ true
    → evm_stream (two_accounts a b e) ≡ evm_stream (one_code a b e)
unfolding evm_stream join
stream_ambiguous a b e h =
    rw
      (
        two_keys a b h,
        one_entry a b,
        walk_map_empty slot_entry [],
        walk_map_empty key_entry zero_account,
        append-nil (write_bytes b),
        append-nil (write_bytes a ++ write_bytes b),
      )
      refl

no_code : {b : Address} → none ≢ some b
no_code e = ground arith

-- The state root does not tell two EVM accounts without code from no EVM account with the second
-- one's address stored as the code of the first, whatever the hash function and the rest of the
-- state: the two states have different codes and one root. The condition is that the first
-- address comes before the second.
pub compute_state_root-ambiguous :
    (blake : List ℕ → List ℕ) (a b : Address) (s : ConsensusState)
    → bytes_less a b ≡ true
    → (compute_state_root blake (with_evm s (two_accounts a b s.evm))
        ≡ compute_state_root blake (with_evm s (one_code a b s.evm)))
      × (get bytes_discrete a (two_accounts a b s.evm).codes
          ≢ get bytes_discrete a (one_code a b s.evm).codes)
unfolding compute_state_root root_stream get
compute_state_root-ambiguous blake a b s h = (
  rw (stream_ambiguous a b s.evm h) refl,
  λ (e : none ≡ ite (bytes_discrete a a) (some b) none).
      no_code (rw (if_pos (bytes_discrete a a) refl) at e),
)
