-- ===== src/StateDb/Balances.antt =====
-- `NativeBalanceDelta` of core/stateDB/journal.go, and what balance changes do.
use qwid_node.Base.{
  List, Option, [], arith, if◌then◌else◌, leb, none, some, ◌+◌, ◌-◌, ◌^◌, ◌∷◌, ◌≡◌,
}
use qwid_node.Base.Int.{negsuc, pos, pos_part, ℤ, ◌≤ℤ◌}
use qwid_node.Base.Int64.{Fits64, add64, sub64}
use qwid_node.Base.Table.{Table, get, put}
use qwid_node.Types.{Address, bytes_discrete, max_int64}
use qwid_node.StateDb.{ChangeEntry, StateAccount, balance_change}
use qwid_node.StateDb.Methods.{get_balance, lowered, raised}

abbrev pub first_seen : Option ℤ → Address → ℤ → Table Address ℤ → Table Address ℤ
first_seen (some v) a prev before = before
first_seen none a prev before = put bytes_discrete a prev before

-- The loop over the journal, oldest entry first: the balance before each account's first change.
unfoldable pub balances_before : List ChangeEntry → Table Address ℤ
unfolding get put
balances_before [] = []
balances_before (balance_change a prev ∷ es) =
    let before = balances_before es in first_seen (get bytes_discrete a before) a prev before
balances_before (e ∷ es) = balances_before es

unfoldable pub sum_deltas : (Address → ℤ) → Table Address ℤ → ℤ → ℤ
unfolding add64 sub64
sum_deltas now [] delta = delta
sum_deltas now ((a, prev) ∷ before) delta = sum_deltas now before (add64 delta (sub64 (now a) prev))

unfoldable pub native_balance_delta : StateAccount → ℤ
unfolding balances_before sum_deltas get_balance
native_balance_delta sa = sum_deltas (get_balance sa) (balances_before sa.journal) (pos 0)

-- A non-negative int64 amount is added exactly to a non-negative int64 balance, and a sum above
-- MaxInt64 becomes MaxInt64.
raised_exact :
    (prev amt : ℤ)
    → Fits64 prev
    → pos 0 ≤ℤ prev
    → pos 0 ≤ℤ amt
    → Fits64 amt
    → raised prev amt ≡ (
        if leb (pos_part prev + pos_part amt) (2 ^ 63 - 1)
        then pos (pos_part prev + pos_part amt)
        else max_int64)
unfolding raised
raised_exact (pos p) (pos a) h k l m = ground arith
raised_exact (pos p) (negsuc a) h k l m = absurd (omega arith)
raised_exact (negsuc p) a h k l m = absurd (omega arith)

-- A non-negative int64 amount is taken off a non-negative int64 balance, down to zero.
lowered_exact :
    (prev amt : ℤ)
    → Fits64 prev
    → pos 0 ≤ℤ prev
    → pos 0 ≤ℤ amt
    → Fits64 amt
    → lowered prev amt ≡ pos (pos_part prev - pos_part amt)
unfolding lowered
lowered_exact (pos p) (pos a) h k l m = ground arith
lowered_exact (pos p) (negsuc a) h k l m = absurd (omega arith)
lowered_exact (negsuc p) a h k l m = absurd (omega arith)
