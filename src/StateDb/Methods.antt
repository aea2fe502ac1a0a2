-- ===== src/StateDb/Methods.antt =====
-- The methods of core/stateDB/methods.go. The Keccak-256 hash is a parameter.
use qwid_node.Base.{
  Bool, List, Option, [], false, if◌then◌else◌, leb, length, ltb, none, some, true, ℕ, ◌%◌, ◌&&◌,
  ◌++◌, ◌+◌, ◌-◌, ◌^◌, ◌∷◌,
}
use qwid_node.Base.Int.{eqb_ℤ, ltb_ℤ, neg_part, pos, pos_part, ℤ, ℤ_discrete}
use qwid_node.Base.Int64.{add64, sub64}
use qwid_node.Base.Table.{Table, delete, get, put}
use qwid_node.Base.Update.{Map, exists, upd, value_or}
use qwid_node.Types.{Account, Address, Hash, bytes_discrete, max_int64, zero_account, zero_hash}
use qwid_node.StateDb.{
  ChangeEntry, StateAccount, balance_change, code_change, create_account_change, get_native_balance,
  nonce_change, set_native_balance,
}

-- `sa.journal = append(sa.journal, e); sa.SnapShotNum = len(sa.journal)`
unfoldable pub record_change : ChangeEntry → StateAccount → StateAccount
record_change e sa = record sa { journal = e ∷ sa.journal; snap_shot_num = length sa.journal + 1 }

abbrev pub empty_map : {K V : Type 0} → Map K V
empty_map k = none

unfoldable pub create_state_db : Map Address Account → StateAccount
create_state_db native = record {
  accounts = empty_map;
  codes = empty_map;
  code_hashes = empty_map;
  states_hashes = empty_map;
  nonces = empty_map;
  states = empty_map;
  balances = empty_map;
  tokens = empty_map;
  snap_shot_num = 0;
  journal = [];
  logs = [];
  suicided = λ a. false;
  access_addrs = λ a. false;
  access_slots = empty_map;
  refund = 0;
  origin_storage = empty_map;
  height_to_snap_shot_num = empty_map;
  contracts_by_height = [];
  changed_since_store = false;
  native = native;
}

unfoldable pub mark_changed : StateAccount → StateAccount
mark_changed sa = record sa { changed_since_store = true }

unfoldable pub set_snap_shot_num : ℤ → ℕ → StateAccount → StateAccount
unfolding upd
set_snap_shot_num height snap_num sa = record sa {
  height_to_snap_shot_num = upd ℤ_discrete sa.height_to_snap_shot_num height (some snap_num);
}

unfoldable pub record_contract_creation : ℤ → Address → StateAccount → StateAccount
unfolding get put
record_contract_creation height addr sa =
    let created = value_or [] (get ℤ_discrete height sa.contracts_by_height) in
    record sa {
      contracts_by_height = put ℤ_discrete height (created ++ addr ∷ []) sa.contracts_by_height;
    }

-- The inner loop of `CleanupContractsAfterHeight`.
unfoldable pub forget_contracts : List Address → StateAccount → StateAccount
unfolding upd
forget_contracts [] sa = sa
forget_contracts (addr ∷ contracts) sa = forget_contracts contracts (record sa {
  nonces = upd bytes_discrete sa.nonces addr none;
  codes = upd bytes_discrete sa.codes addr none;
  code_hashes = upd bytes_discrete sa.code_hashes addr none;
})

-- The outer loop, over the entries of the map in some order.
unfoldable pub cleanup_loop : Table ℤ (List Address) → ℤ → StateAccount → StateAccount
unfolding forget_contracts delete
cleanup_loop [] height sa = sa
cleanup_loop ((h, contracts) ∷ rest) height sa = cleanup_loop rest height (
    if ltb_ℤ height h
    then (let cleaned = forget_contracts contracts sa in
        record cleaned { contracts_by_height = delete ℤ_discrete h cleaned.contracts_by_height })
    else sa)

unfoldable pub cleanup_contracts_after_height : ℤ → StateAccount → StateAccount
unfolding cleanup_loop
cleanup_contracts_after_height height sa = cleanup_loop sa.contracts_by_height height sa

unfoldable pub create_account : Address → StateAccount → StateAccount
unfolding record_change upd
create_account a sa =
    let prev = sa.accounts a in
    let sa' =
      record_change (create_account_change a (value_or zero_account prev) (exists prev)) sa in
    record sa' {
      accounts = upd bytes_discrete sa'.accounts a (some (record zero_account { address = a }));
    }

unfoldable pub register_new_token : Address → List ℕ → List ℕ → ℕ → StateAccount → StateAccount
unfolding upd
register_new_token a name symbol decimals sa = record sa {
  tokens =
      upd bytes_discrete sa.tokens a
        (some (record { name = name; symbols = symbol; decimals = decimals }));
}

-- `amount.IsInt64()`
abbrev pub is_int64 : ℤ → Bool
is_int64 a = ltb (pos_part a) (2 ^ 63) && leb (neg_part a) (2 ^ 63)

-- A nil amount is `none`.
unfoldable pub big_to_base_units : Option ℤ → ℤ × Bool
big_to_base_units none = (pos 0, true)
big_to_base_units (some amount) = if is_int64 amount then (amount, true) else (pos 0, false)

-- The amount that `AddBalance` and `SubBalance` go on with: out of range, it is MaxInt64.
unfoldable pub saturated_amount : Option ℤ → ℤ
unfolding big_to_base_units
saturated_amount amount =
    let (amt, fits) = big_to_base_units amount in if fits then amt else max_int64

-- The last lines of both: nothing is recorded when the balance does not change.
unfoldable pub change_balance : Address → ℤ → ℤ → StateAccount → StateAccount
unfolding record_change set_native_balance
change_balance a prev next sa =
    if eqb_ℤ next prev
    then sa
    else (let sa' = record_change (balance_change a prev) sa in
        record sa' { native = set_native_balance sa'.native a next })

-- `next` in `AddBalance`
unfoldable pub raised : ℤ → ℤ → ℤ
unfolding add64
raised prev amt = let next = add64 prev amt in if ltb_ℤ next prev then max_int64 else next

-- `next` in `SubBalance`
unfoldable pub lowered : ℤ → ℤ → ℤ
unfolding sub64
lowered prev amt = let next = sub64 prev amt in if ltb_ℤ next (pos 0) then pos 0 else next

unfoldable pub add_balance : Address → Option ℤ → StateAccount → StateAccount
unfolding change_balance get_native_balance saturated_amount raised
add_balance a amount sa =
    let prev = get_native_balance sa.native a in
    change_balance a prev (raised prev (saturated_amount amount)) sa

unfoldable pub sub_balance : Address → Option ℤ → StateAccount → StateAccount
unfolding change_balance get_native_balance saturated_amount lowered
sub_balance a amount sa =
    let prev = get_native_balance sa.native a in
    change_balance a prev (lowered prev (saturated_amount amount)) sa

unfoldable pub get_balance : StateAccount → Address → ℤ
unfolding get_native_balance
get_balance sa a = get_native_balance sa.native a

unfoldable pub get_nonce : StateAccount → Address → ℕ
get_nonce sa a = value_or 0 (sa.nonces a)

unfoldable pub set_nonce : Address → ℕ → StateAccount → StateAccount
unfolding record_change upd
set_nonce a n sa =
    let prev = sa.nonces a in
    let sa' = record_change (nonce_change a (value_or 0 prev) (exists prev)) sa in
    record sa' { nonces = upd bytes_discrete sa'.nonces a (some n) }

unfoldable pub get_code_hash : StateAccount → Address → Hash
get_code_hash sa a = value_or zero_hash (sa.code_hashes a)

unfoldable pub get_code : StateAccount → Address → List ℕ
get_code sa a = value_or [] (sa.codes a)

unfoldable pub set_code : (List ℕ → Hash) → Address → List ℕ → StateAccount → StateAccount
unfolding record_change upd
set_code keccak256 a c sa =
    let prev = sa.codes a in
    let prev_hash = value_or zero_hash (sa.code_hashes a) in
    let sa' = record_change (code_change a (value_or [] prev) prev_hash (exists prev)) sa in
    record sa' {
      codes = upd bytes_discrete sa'.codes a (some c);
      code_hashes = upd bytes_discrete sa'.code_hashes a (some (keccak256 c));
    }

unfoldable pub get_code_size : StateAccount → Address → ℕ
get_code_size sa a = length (value_or [] (sa.codes a))

-- `refund` is a uint64.
unfoldable pub add_refund : ℕ → StateAccount → StateAccount
add_refund gas sa = record sa { refund = (sa.refund + gas) % 2 ^ 64 }

unfoldable pub sub_refund : ℕ → StateAccount → StateAccount
sub_refund gas sa = record sa { refund = if ltb sa.refund gas then 0 else sa.refund - gas }
