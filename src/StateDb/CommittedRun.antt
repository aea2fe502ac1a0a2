-- ===== src/StateDb/CommittedRun.antt =====
-- `GetCommittedState` through a run of calls.
use qwid_node.Base.{
  All, All-drop, All-take, Bool-cases, List, [], drop, false, inl, inr, length, refl, take, ℕ, ◌-◌,
  ◌∙◌, ◌∷◌, ◌≡◌,
}
use qwid_node.Base.Int.{eqb_ℤ, pos, ℤ}
use qwid_node.Base.Update.{exists}
use qwid_node.Types.{Address, Hash}
use qwid_node.StateDb.{
  ChangeEntry, StateAccount, access_addr_change, access_slot_change, balance_change, clamp_snapshot,
  get_native_balance, revert_to_snapshot, suicide_change, truncate,
}
use qwid_node.StateDb.Methods.{
  add_balance, add_refund, change_balance, create_account, lowered, raised, saturated_amount,
  set_code, set_nonce, sub_balance, sub_refund,
}
use qwid_node.StateDb.Storage.{
  add_address_to_access_list, add_log, add_preimage, add_slot_to_access_list, get_committed_state,
  get_state, inner, reset_transient, set_state, suicide, warm_slot,
}
use qwid_node.StateDb.Calls.{
  Call, back_to, code_to, destroy, emit, nonce_to, open_account, pay_in, pay_out, preimage,
  refund_down, refund_up, run, run_call, slot_to, warm_address, warm_storage,
}
use qwid_node.StateDb.Committed.{
  IsNoted, IsNoted-mono, Kept, journal-revert_entries, revert_entries_committed,
  set_state_committed, set_state_notes, set_state_origins,
}

abbrev Stays : StateAccount → StateAccount → Type 0
Stays s t = Kept s t × All (IsNoted t) t.journal

-- A call that pushes nothing and leaves storage alone.
silent :
    (s t : StateAccount)
    → t.journal ≡ s.journal
    → t.states_hashes ≡ s.states_hashes
    → t.origin_storage ≡ s.origin_storage
    → All (IsNoted s) s.journal
    → Stays s t
unfolding get_committed_state
silent s t j m o n = (
  record { committed = λ b h. rw (m, o) refl; origins = λ b h p. rw o p },
  rw j (IsNoted-mono s t s.journal (λ b h p. rw o p) n),
)

Stays-put : (s : StateAccount) → All (IsNoted s) s.journal → Stays s s
Stays-put s n = (record { committed = λ b h. refl; origins = λ b h e. e }, n)

-- A call that pushes one entry and leaves storage alone.
quiet :
    (e : ChangeEntry) (s t : StateAccount)
    → t.journal ≡ e ∷ s.journal
    → t.states_hashes ≡ s.states_hashes
    → t.origin_storage ≡ s.origin_storage
    → IsNoted t e
    → All (IsNoted s) s.journal
    → Stays s t
unfolding get_committed_state
quiet e s t j m o c n = (
  record { committed = λ b h. rw (m, o) refl; origins = λ b h p. rw o p },
  rw j (c, IsNoted-mono s t s.journal (λ b h p. rw o p) n),
)

module _ (s : StateAccount) (n : All (IsNoted s) s.journal) where
  change_balance-Stays : (a : Address) (prev next : ℤ) → Stays s (change_balance a prev next s)
  unfolding change_balance
  change_balance-Stays a prev next = elim (Bool-cases (eqb_ℤ next prev)) [
    | inl same ↦ rw (same, change_balance) (Stays-put s n)
    | inr other ↦ rw (other, change_balance) (quiet (balance_change a prev) s _ refl refl refl tt n)
  ]

  suicide-Stays : (a : Address) → Stays s (suicide a s).0
  unfolding suicide
  suicide-Stays a = elim (Bool-cases (exists (s.accounts a))) [
    | inr absent ↦ rw (absent, suicide) (Stays-put s n)
    | inl there ↦ elim (Bool-cases (s.suicided a)) [
      | inl marked ↦ rw (there, marked, suicide) (Stays-put s n)
      | inr live ↦ rw (there, live, suicide) (quiet (suicide_change a) s _ refl refl refl tt n)
    ]
  ]

  add_address-Stays : (a : Address) → Stays s (add_address_to_access_list a s)
  unfolding add_address_to_access_list
  add_address-Stays a = elim (Bool-cases (s.access_addrs a)) [
    | inl warm ↦ rw (warm, add_address_to_access_list) (Stays-put s n)
    | inr cold ↦
        rw (cold, add_address_to_access_list) (quiet (access_addr_change a) s _ refl refl refl tt n)
  ]

  warm_slot-Stays : (a : Address) (k : Hash) → Stays s (warm_slot a k s)
  unfolding warm_slot
  warm_slot-Stays a k = elim (Bool-cases (inner false (s.access_slots a) k)) [
    | inl warm ↦ rw (warm, warm_slot) (Stays-put s n)
    | inr cold ↦ rw (cold, warm_slot) (quiet (access_slot_change a k) s _ refl refl refl tt n)
  ]

  set_state-Stays : (a : Address) (k v : Hash) → Stays s (set_state a k v s)
  set_state-Stays a k v = (
    record { committed = set_state_committed a k v s; origins = set_state_origins a k v s },
    unfold set_state in
        (
          set_state_notes a k v s,
          IsNoted-mono s (set_state a k v s) s.journal (set_state_origins a k v s) n,
        ),
  )

  revert-Stays : (m : ℕ) → Stays s (revert_to_snapshot (pos m) s)
  unfolding revert_to_snapshot truncate get_committed_state
  revert-Stays m =
      let k = length s.journal - clamp_snapshot (pos m) (length s.journal) in
      let r = revert_entries_committed (take k s.journal) s (All-take (IsNoted s) k s.journal n) in
      (
        record { committed = r.committed; origins = r.origins },
        rw (journal-revert_entries (take k s.journal) s) (
            IsNoted-mono s (revert_to_snapshot (pos m) s) (drop k s.journal) r.origins
              (All-drop (IsNoted s) k s.journal n)),
      )

Stays-trans : (s t u : StateAccount) → Stays s t → Stays t u → Stays s u
Stays-trans s t u p q = (
  record {
    committed = λ b h. q.0.committed b h ∙ p.0.committed b h;
    origins = λ b h e. q.0.origins b h (p.0.origins b h e);
  },
  q.1,
)

module _ (keccak256 : List ℕ → Hash) where
  run_call-Stays :
      (c : Call) (s : StateAccount) → All (IsNoted s) s.journal → Stays s (run_call keccak256 c s)
  unfolding run_call create_account add_balance sub_balance set_nonce set_code add_log add_refund
      sub_refund add_preimage add_slot_to_access_list
  run_call-Stays (open_account a) s n = quiet _ s _ refl refl refl tt n
  run_call-Stays (pay_in a amount) s n =
      change_balance-Stays s n a (get_native_balance s.native a)
        (raised (get_native_balance s.native a) (saturated_amount amount))
  run_call-Stays (pay_out a amount) s n =
      change_balance-Stays s n a (get_native_balance s.native a)
        (lowered (get_native_balance s.native a) (saturated_amount amount))
  run_call-Stays (nonce_to a x) s n = quiet _ s _ refl refl refl tt n
  run_call-Stays (code_to a c) s n = quiet _ s _ refl refl refl tt n
  run_call-Stays (slot_to a k v) s n = set_state-Stays s n a k v
  run_call-Stays (destroy a) s n = suicide-Stays s n a
  run_call-Stays (warm_address a) s n = add_address-Stays s n a
  run_call-Stays (warm_storage a k) s n =
      let p = add_address-Stays s n a in
      Stays-trans s (add_address_to_access_list a s) _ p
        (warm_slot-Stays (add_address_to_access_list a s) p.1 a k)
  run_call-Stays (emit l) s n = quiet _ s _ refl refl refl tt n
  run_call-Stays (refund_up gas) s n = silent s _ refl refl refl n
  run_call-Stays (refund_down gas) s n = silent s _ refl refl refl n
  run_call-Stays (preimage k b) s n = silent s _ refl refl refl n
  run_call-Stays (back_to m) s n = revert-Stays s n m

  run-Stays :
      (cs : List Call) (s : StateAccount) → All (IsNoted s) s.journal → Stays s (run keccak256 cs s)
  unfolding run
  run-Stays [] s n = Stays-put s n
  run-Stays (c ∷ cs) s n =
      let p = run_call-Stays c s n in
      Stays-trans s (run_call keccak256 c s) _ p (run-Stays cs (run_call keccak256 c s) p.1)

-- After `ResetTransient` and any calls, reverts to any snapshot included, the committed state of
-- every slot is the value that the slot had before the first call.
pub get_committed_state-run :
    (keccak256 : List ℕ → Hash) (cs : List Call) (s : StateAccount) (a : Address) (h : Hash)
    → get_committed_state (run keccak256 cs (reset_transient s)) a h ≡ get_state s a h
get_committed_state-run keccak256 cs s a h =
    (run-Stays keccak256 cs (reset_transient s) (unfold reset_transient in tt)).0.committed a h
    ∙ unfold reset_transient get_committed_state get_state in refl
