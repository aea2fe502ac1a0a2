-- ===== src/StateDb/Storage.antt =====
-- The methods of core/stateDB/methods.go on contract storage, self-destructs, the access list and
-- the logs, and those that begin and end a transaction; `NativeBalanceDelta` of journal.go.
use qwid_node.Base.{
  Bool, List, Option, [], false, if◌then◌else◌, length, none, some, true, ℕ, ◌&&◌, ◌==◌, ◌∷◌,
}
use qwid_node.Base.Int.{eqb_ℤ, pos, ℤ}
use qwid_node.Base.Update.{Map, exists, upd, value_or}
use qwid_node.Types.{Address, Hash, Log, bytes_discrete, zero_hash}
use qwid_node.StateDb.{
  StateAccount, access_addr_change, access_slot_change, log_change, slot_change, suicide_change,
}
use qwid_node.StateDb.Methods.{empty_map, get_balance, record_change}

-- A read through two maps; a missing inner map reads as an empty one.
abbrev pub inner {ℓ} : {K V : Type ℓ} → V → Option (K → V) → K → V
inner d none k = d
inner d (some m) k = m k

unfoldable pub get_state : StateAccount → Address → Hash → Hash
get_state sa a h = value_or zero_hash (inner none (sa.states_hashes a) h)

unfoldable pub get_committed_state : StateAccount → Address → Hash → Hash
unfolding get_state
get_committed_state sa a h = elim (inner none (sa.origin_storage a) h) [
  | some v ↦ v
  | none ↦ get_state sa a h
]

-- The slot's value is recorded on its first write only.
abbrev pub note_origin : Option Hash → Map Hash Hash → Hash → Hash → Map Hash Hash
note_origin (some v) m h prev = m
note_origin none m h prev = upd bytes_discrete m h (some prev)

unfoldable pub set_origin : Address → Hash → Hash → StateAccount → StateAccount
unfolding upd
set_origin a h prev sa =
    let origin = value_or empty_map (sa.origin_storage a) in
    record sa {
      origin_storage =
          upd bytes_discrete sa.origin_storage a (some (note_origin (origin h) origin h prev));
    }

unfoldable pub set_state : Address → Hash → Hash → StateAccount → StateAccount
unfolding record_change set_origin upd
set_state a h h2 sa =
    let m = value_or empty_map (sa.states_hashes a) in
    let prev = value_or zero_hash (m h) in
    let sa' = record_change (slot_change a h prev (exists (m h))) (set_origin a h prev sa) in
    record sa' {
      states_hashes =
          upd bytes_discrete sa'.states_hashes a (some (upd bytes_discrete m h (some h2)));
    }

unfoldable pub exist : StateAccount → Address → Bool
exist sa a = exists (sa.accounts a)

unfoldable pub has_suicided : StateAccount → Address → Bool
has_suicided sa a = sa.suicided a

unfoldable pub suicide : Address → StateAccount → StateAccount × Bool
unfolding record_change upd
suicide a sa =
    if exists (sa.accounts a)
    then (
      (if sa.suicided a
          then sa
          else (let sa' = record_change (suicide_change a) sa in
              record sa' { suicided = upd bytes_discrete sa'.suicided a true })),
      true,
    )
    else (sa, false)

unfoldable pub empty : StateAccount → Address → Bool
unfolding get_balance
empty sa a =
    value_or 0 (sa.nonces a) == 0
    && length (value_or [] (sa.codes a)) == 0
    && eqb_ℤ (get_balance sa a) (pos 0)

unfoldable pub add_addr_no_journal : Address → StateAccount → StateAccount
unfolding upd
add_addr_no_journal a sa = record sa { access_addrs = upd bytes_discrete sa.access_addrs a true }

unfoldable pub add_slot_no_journal : Address → Hash → StateAccount → StateAccount
unfolding upd
add_slot_no_journal a slot sa =
    let m = value_or (λ h. false) (sa.access_slots a) in
    record sa {
      access_slots = upd bytes_discrete sa.access_slots a (some (upd bytes_discrete m slot true));
    }

pub record AccessTuple : Type 0 where
  pub address : Address
  pub storage_keys : List Hash

unfoldable pub add_addrs : List Address → StateAccount → StateAccount
unfolding add_addr_no_journal
add_addrs [] sa = sa
add_addrs (p ∷ ps) sa = add_addrs ps (add_addr_no_journal p sa)

unfoldable pub add_slots : Address → List Hash → StateAccount → StateAccount
unfolding add_slot_no_journal
add_slots a [] sa = sa
add_slots a (h ∷ hs) sa = add_slots a hs (add_slot_no_journal a h sa)

unfoldable pub add_tuples : List AccessTuple → StateAccount → StateAccount
unfolding add_slots add_addr_no_journal
add_tuples [] sa = sa
add_tuples (t ∷ ts) sa =
    add_tuples ts (add_slots t.address t.storage_keys (add_addr_no_journal t.address sa))

abbrev pub option_list {ℓ} : {A : Type ℓ} → Option A → List A
option_list none = []
option_list (some a) = a ∷ []

unfoldable pub clear_access_list : StateAccount → StateAccount
clear_access_list sa = record sa { access_addrs = λ a. false; access_slots = empty_map }

unfoldable pub prepare_access_list :
    Address → Option Address → List Address → List AccessTuple → StateAccount → StateAccount
unfolding clear_access_list add_addr_no_journal add_addrs add_tuples
prepare_access_list sender dest precompiles tx_accesses sa = add_tuples tx_accesses (
    add_addrs precompiles
      (add_addrs (option_list dest) (add_addr_no_journal sender (clear_access_list sa))))

unfoldable pub slot_in_access_list : StateAccount → Address → Hash → Bool × Bool
slot_in_access_list sa addr slot = (sa.access_addrs addr, inner false (sa.access_slots addr) slot)

unfoldable pub add_address_to_access_list : Address → StateAccount → StateAccount
unfolding record_change upd
add_address_to_access_list a sa =
    if sa.access_addrs a
    then sa
    else (let sa' = record_change (access_addr_change a) sa in
        record sa' { access_addrs = upd bytes_discrete sa'.access_addrs a true })

-- The second half of `AddSlotToAccessList`.
unfoldable pub warm_slot : Address → Hash → StateAccount → StateAccount
unfolding record_change add_slot_no_journal
warm_slot a slot sa =
    if inner false (sa.access_slots a) slot
    then sa
    else add_slot_no_journal a slot (record_change (access_slot_change a slot) sa)

unfoldable pub add_slot_to_access_list : Address → Hash → StateAccount → StateAccount
unfolding add_address_to_access_list warm_slot
add_slot_to_access_list a slot sa = warm_slot a slot (add_address_to_access_list a sa)

unfoldable pub add_log : Log → StateAccount → StateAccount
unfolding record_change
add_log l sa = let sa' = record_change log_change sa in record sa' { logs = l ∷ sa'.logs }

unfoldable pub clear_logs : StateAccount → StateAccount
clear_logs sa = record sa { logs = [] }

unfoldable pub clear_suicided : StateAccount → StateAccount
clear_suicided sa = record sa { suicided = λ a. false }

unfoldable pub reset_transient : StateAccount → StateAccount
reset_transient sa = record sa {
  journal = [];
  snap_shot_num = 0;
  logs = [];
  suicided = λ a. false;
  access_addrs = λ a. false;
  access_slots = empty_map;
  refund = 0;
  origin_storage = empty_map;
}

-- `for addr := range sa.suicided { delete(m, addr) }`
abbrev pub drop_marked : {V : Type 0} → (Address → Bool) → Map Address V → Map Address V
drop_marked marked m a = if marked a then none else m a

unfoldable pub finalise_tx : StateAccount → StateAccount
finalise_tx sa = record sa {
  codes = drop_marked sa.suicided sa.codes;
  code_hashes = drop_marked sa.suicided sa.code_hashes;
  states_hashes = drop_marked sa.suicided sa.states_hashes;
  nonces = drop_marked sa.suicided sa.nonces;
  accounts = drop_marked sa.suicided sa.accounts;
  suicided = λ a. false;
}

unfoldable pub add_preimage : Hash → List ℕ → StateAccount → StateAccount
unfolding upd
add_preimage h b sa = record sa { states = upd bytes_discrete sa.states h (some b) }

unfoldable pub get_coin_balance : StateAccount → Address → Address → ℤ
get_coin_balance sa acc coin = value_or (pos 0) (inner none (sa.balances acc) coin)

unfoldable pub set_coin_balance : Address → Address → ℤ → StateAccount → StateAccount
unfolding upd
set_coin_balance acc coin value sa =
    let m = value_or empty_map (sa.balances acc) in
    record sa {
      balances = upd bytes_discrete sa.balances acc (some (upd bytes_discrete m coin (some value)));
    }
