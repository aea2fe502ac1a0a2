-- ===== src/StateDb/Ends.antt =====
-- What the end of a transaction and the rewinding of the chain leave of a contract: `FinaliseTx`
-- and `CleanupContractsAfterHeight`.
use qwid_node.Base.Update.{exists, upd}
use qwid_node.Base.{
  Bool, Bool-cases, List, Option, [], arith, false, if◌then◌else◌, inl, inr, ite, none, refl, true,
  ℕ, ◌&&◌, ◌||◌, ◌∙◌, ◌∷◌, ◌≡◌,
}
use qwid_node.Base.Int.{ltb_ℤ, ℤ, ℤ_discrete}
use qwid_node.Base.Table.{Table, get, get-delete}
use qwid_node.Types.{Address, Hash, bytes_discrete, zero_hash}
use qwid_node.StateDb.{StateAccount}
use qwid_node.StateDb.Methods.{
  cleanup_contracts_after_height, cleanup_loop, forget_contracts, get_code, get_code_hash,
  get_nonce,
}
use qwid_node.StateDb.Storage.{exist, finalise_tx, get_state, has_suicided}

-- All that a reader finds at an address.
pub record Contract : Type 0 where
  pub code : List ℕ
  pub code_hash : Hash
  pub nonce : ℕ
  pub there : Bool
  pub storage : Hash → Hash

unfoldable pub contract_at : StateAccount → Address → Contract
unfolding get_code get_code_hash get_nonce exist get_state
contract_at s a = record {
  code = get_code s a;
  code_hash = get_code_hash s a;
  nonce = get_nonce s a;
  there = exist s a;
  storage = λ h. get_state s a h;
}

abbrev pub no_contract : Contract
no_contract = record {
  code = [];
  code_hash = zero_hash;
  nonce = 0;
  there = false;
  storage = λ h. zero_hash;
}

-- After `FinaliseTx` nothing is left of a contract that self-destructed, every other one is as it
-- was, and nothing is marked as self-destructed any more.
contract_at-finalise_tx :
    (s : StateAccount) (a : Address)
    → (contract_at (finalise_tx s) a ≡ (if has_suicided s a then no_contract else contract_at s a))
      × (has_suicided (finalise_tx s) a ≡ false)
unfolding contract_at finalise_tx has_suicided
contract_at-finalise_tx s a = elim (Bool-cases (s.suicided a)) [
  | inl marked ↦ (simp marked, refl)
  | inr live ↦ (simp live, refl)
]

abbrev pub contains : Address → List Address → Bool
contains a [] = false
contains a (c ∷ cs) = ite (bytes_discrete c a) true (contains a cs)

-- The contract was recorded at a height above the given one.
abbrev pub made_after : Table ℤ (List Address) → ℤ → Address → Bool
made_after [] height a = false
made_after ((h, cs) ∷ rest) height a = (ltb_ℤ height h && contains a cs) || made_after rest height a

-- What the clean-up looks at and changes.
pub record Traces : Type 0 where
  pub code : Option (List ℕ)
  pub code_hash : Option Hash
  pub nonce : Option ℕ

abbrev pub traces : StateAccount → Address → Traces
traces s a = record { code = s.codes a; code_hash = s.code_hashes a; nonce = s.nonces a }

abbrev pub no_traces : Traces
no_traces = record { code = none; code_hash = none; nonce = none }

traces-forget_contracts :
    (cs : List Address) (s : StateAccount) (a : Address)
    → traces (forget_contracts cs s) a ≡ (if contains a cs then no_traces else traces s a)
unfolding forget_contracts upd
traces-forget_contracts [] s a = refl
traces-forget_contracts (c ∷ cs) s a = rw (traces-forget_contracts cs _ a) (ground arith)

by_height-forget_contracts :
    (cs : List Address) (s : StateAccount)
    → (forget_contracts cs s).contracts_by_height ≡ s.contracts_by_height
unfolding forget_contracts
by_height-forget_contracts [] s = refl
by_height-forget_contracts (c ∷ cs) s = by_height-forget_contracts cs _

traces-cleanup_loop :
    (rest : Table ℤ (List Address)) (height : ℤ) (s : StateAccount) (a : Address)
    → traces (cleanup_loop rest height s) a
      ≡ (if made_after rest height a then no_traces else traces s a)
unfolding cleanup_loop
traces-cleanup_loop [] height s a = refl
traces-cleanup_loop ((h, cs) ∷ rest) height s a =
    rw (traces-cleanup_loop rest height _ a) (ground (arith, traces-forget_contracts cs s a))

-- The heights that the loop still has before it and that lie above the given one lose their entry.
by_height-cleanup_loop :
    (rest : Table ℤ (List Address)) (height : ℤ) (s : StateAccount) (k : ℤ)
    → get ℤ_discrete k (cleanup_loop rest height s).contracts_by_height ≡ (
        if ltb_ℤ height k && exists (get ℤ_discrete k rest)
        then none
        else get ℤ_discrete k s.contracts_by_height)
unfolding cleanup_loop get
by_height-cleanup_loop [] height s k = ground arith
by_height-cleanup_loop ((h, cs) ∷ rest) height s k = rw (by_height-cleanup_loop rest height _ k) (
    ground
      (arith, get-delete ℤ_discrete h k s.contracts_by_height, by_height-forget_contracts cs s))

-- The clean-up after a height removes the code, the code hash and the nonce of exactly the
-- contracts recorded above that height, and exactly the records above it.
cleanup_contracts_after_height_lem :
    (s : StateAccount) (height : ℤ)
    → let t = cleanup_contracts_after_height height s in
      ((a : Address)
        → traces t a
          ≡ (if made_after s.contracts_by_height height a then no_traces else traces s a))
      × ((k : ℤ)
          → get ℤ_discrete k t.contracts_by_height
            ≡ (if ltb_ℤ height k then none else get ℤ_discrete k s.contracts_by_height))
unfolding cleanup_contracts_after_height
cleanup_contracts_after_height_lem s height = (
  traces-cleanup_loop s.contracts_by_height height s,
  λ k. by_height-cleanup_loop s.contracts_by_height height s k ∙ ground arith,
)
