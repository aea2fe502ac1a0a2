-- ===== src/StateDb/Calls.antt =====
-- Runs of journalled methods, and what a run adds to the journal.
use qwid_node.Base.{
  All, Bool-cases, List, Option, [], ap, append_assoc, false, inl, inr, refl, sym, ℕ, ◌++◌, ◌∙◌,
  ◌∷◌, ◌≡◌,
}
use qwid_node.Base.Int.{eqb_ℤ, pos, ℤ}
use qwid_node.Base.Update.{exists}
use qwid_node.Types.{Address, Hash, Log}
use qwid_node.StateDb.{
  ChangeEntry, StateAccount, get_native_balance, revert_to_snapshot, slot_change,
}
use qwid_node.StateDb.Methods.{
  add_balance, add_refund, change_balance, create_account, set_code, set_nonce, sub_balance,
  sub_refund,
}
use qwid_node.StateDb.Storage.{
  add_address_to_access_list, add_log, add_preimage, add_slot_to_access_list, inner, set_state,
  suicide, warm_slot,
}
use qwid_node.StateDb.View.{IsCovered, View, undo, undo_all, view}
use qwid_node.StateDb.Undo.{
  IsHashed, KeepsStorage, Pushes, add_address-Pushes, change_balance-Pushes, mark_suicide-Pushes,
  warm_slot-Pushes,
}

pub record IsSound (sa : StateAccount) : Type 0 where
  pub covered : All (IsCovered sa) sa.journal
  pub hashed : IsHashed sa

-- `t` comes from `s` by entries whose undoing, newest first, gives back the view of `s`.
pub record Grown (s t : StateAccount) : Type 0 where
  pub added : List ChangeEntry
  pub journal : t.journal ≡ added ++ s.journal
  pub undone : undo_all added (view t) ≡ view s
  pub sound : IsSound t

IsCovered-mono :
    (s t : StateAccount) (e : ChangeEntry) → KeepsStorage s t → IsCovered s e → IsCovered t e
IsCovered-mono s t (slot_change a k prev existed) h c = h a c
IsCovered-mono s t _ h c = tt

pub All-IsCovered_mono :
    (s t : StateAccount) (es : List ChangeEntry)
    → KeepsStorage s t
    → All (IsCovered s) es
    → All (IsCovered t) es
All-IsCovered_mono s t [] h c = tt
All-IsCovered_mono s t (e ∷ es) h c = (IsCovered-mono s t e h c.0, All-IsCovered_mono s t es h c.1)

pub undo_all-append :
    (es fs : List ChangeEntry) (v : View) → undo_all (es ++ fs) v ≡ undo_all fs (undo_all es v)
unfolding undo_all
undo_all-append [] fs v = refl
undo_all-append (e ∷ es) fs v = undo_all-append es fs (undo e v)

pub Grown-refl : (s : StateAccount) → IsSound s → Grown s s
unfolding undo_all
Grown-refl s h = record { added = []; journal = refl; undone = refl; sound = h }

pub Grown-push : (e : ChangeEntry) (s t : StateAccount) → IsSound s → Pushes e s t → Grown s t
unfolding undo_all
Grown-push e s t h p = record {
  added = e ∷ [];
  journal = p.journal;
  undone = p.undone;
  sound = record {
    covered = rw p.journal (p.covered, All-IsCovered_mono s t s.journal p.keeps h.covered);
    hashed = p.hashed h.hashed;
  };
}

pub Grown-trans : {s t u : StateAccount} → Grown s t → Grown t u → Grown s u
Grown-trans {s} {t} {u} g k = record {
  added = k.added ++ g.added;
  journal = k.journal ∙ ap (◌++◌ k.added) g.journal ∙ sym (append_assoc k.added g.added s.journal);
  undone = undo_all-append k.added g.added (view u) ∙ ap (undo_all g.added) k.undone ∙ g.undone;
  sound = k.sound;
}

-- The calls that the EVM makes while it runs a transaction.
pub data Call : Type 0 where
  open_account : Address → Call
  pay_in : Address → Option ℤ → Call
  pay_out : Address → Option ℤ → Call
  nonce_to : Address → ℕ → Call
  code_to : Address → List ℕ → Call
  slot_to : Address → Hash → Hash → Call
  destroy : Address → Call
  warm_address : Address → Call
  warm_storage : Address → Hash → Call
  emit : Log → Call
  refund_up : ℕ → Call
  refund_down : ℕ → Call
  preimage : Hash → List ℕ → Call
  back_to : ℕ → Call

module _ (keccak256 : List ℕ → Hash) where
  unfoldable pub run_call : Call → StateAccount → StateAccount
  run_call (open_account a) s = create_account a s
  run_call (pay_in a amount) s = add_balance a amount s
  run_call (pay_out a amount) s = sub_balance a amount s
  run_call (nonce_to a n) s = set_nonce a n s
  run_call (code_to a c) s = set_code keccak256 a c s
  run_call (slot_to a h v) s = set_state a h v s
  run_call (destroy a) s = (suicide a s).0
  run_call (warm_address a) s = add_address_to_access_list a s
  run_call (warm_storage a h) s = add_slot_to_access_list a h s
  run_call (emit l) s = add_log l s
  run_call (refund_up gas) s = add_refund gas s
  run_call (refund_down gas) s = sub_refund gas s
  run_call (preimage h b) s = add_preimage h b s
  run_call (back_to n) s = revert_to_snapshot (pos n) s

  unfoldable pub run : List Call → StateAccount → StateAccount
  unfolding run_call
  run [] s = s
  run (c ∷ cs) s = run cs (run_call c s)

module _ (s : StateAccount) (h : IsSound s) where
  pub change_balance-Grown :
      (a : Address) (next : ℤ) → Grown s (change_balance a (get_native_balance s.native a) next s)
  unfolding change_balance
  change_balance-Grown a next = elim (Bool-cases (eqb_ℤ next (get_native_balance s.native a))) [
    | inl same ↦ rw (same, change_balance) (Grown-refl s h)
    | inr other ↦ Grown-push _ s _ h (change_balance-Pushes s a next other)
  ]

  pub suicide-Grown : (a : Address) → Grown s (suicide a s).0
  unfolding suicide
  suicide-Grown a = elim (Bool-cases (exists (s.accounts a))) [
    | inr absent ↦ rw (absent, suicide) (Grown-refl s h)
    | inl there ↦ elim (Bool-cases (s.suicided a)) [
      | inl marked ↦ rw (there, marked, suicide) (Grown-refl s h)
      | inr live ↦ Grown-push _ s _ h (mark_suicide-Pushes s a there live)
    ]
  ]

  pub add_address-Grown : (a : Address) → Grown s (add_address_to_access_list a s)
  unfolding add_address_to_access_list
  add_address-Grown a = elim (Bool-cases (s.access_addrs a)) [
    | inl warm ↦ rw (warm, add_address_to_access_list) (Grown-refl s h)
    | inr cold ↦ Grown-push _ s _ h (add_address-Pushes s a cold)
  ]

  pub warm_slot-Grown : (a : Address) (k : Hash) → Grown s (warm_slot a k s)
  unfolding warm_slot
  warm_slot-Grown a k = elim (Bool-cases (inner false (s.access_slots a) k)) [
    | inl warm ↦ rw (warm, warm_slot) (Grown-refl s h)
    | inr cold ↦ Grown-push _ s _ h (warm_slot-Pushes s a k cold)
  ]

  -- Methods that touch neither the journal nor what the view shows.
  pub refund_up-Grown : (gas : ℕ) → Grown s (add_refund gas s)
  unfolding add_refund undo_all view
  refund_up-Grown gas = record {
    added = [];
    journal = refl;
    undone = refl;
    sound = record { covered = h.covered; hashed = h.hashed };
  }

  pub refund_down-Grown : (gas : ℕ) → Grown s (sub_refund gas s)
  unfolding sub_refund undo_all view
  refund_down-Grown gas = record {
    added = [];
    journal = refl;
    undone = refl;
    sound = record { covered = h.covered; hashed = h.hashed };
  }

  pub preimage-Grown : (k : Hash) (b : List ℕ) → Grown s (add_preimage k b s)
  unfolding add_preimage undo_all view
  preimage-Grown k b = record {
    added = [];
    journal = refl;
    undone = refl;
    sound = record { covered = h.covered; hashed = h.hashed };
  }
