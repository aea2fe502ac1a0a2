-- ===== src/StateDb/Rollback.antt =====
-- A snapshot that is reverted gives back what the EVM could read when it was taken.
use qwid_node.Types.{Hash}
use qwid_node.StateDb.Methods.{add_balance, lowered, raised, saturated_amount, sub_balance}
use qwid_node.StateDb.Storage.{add_slot_to_access_list}
use qwid_node.StateDb.Undo.{
  IsHashed, KeepsStorage, add_log-Pushes, create_account-Pushes, set_code-Pushes, set_nonce-Pushes,
  set_state-Pushes,
}
use native.Mathlib.Nat.{le_refl}
use qwid_node.Base.{
  All, All-drop, All-take, List, [], ap, arith, drop, drop-append_le, length, length-append,
  length-drop, refl, sym, take, take-append-drop, take-append_le, ℕ, ◌++◌, ◌+◌, ◌-◌, ◌∙◌, ◌∷◌, ◌≡◌,
  ◌≤◌,
}
use qwid_node.Base.Int.{pos}
use qwid_node.Base.Update.{upd}
use qwid_node.StateDb.{
  ChangeEntry, StateAccount, access_slot_change, clamp_snapshot, code_change, get_native_balance,
  log_change, revert, revert_entries, revert_to_snapshot, slot_change, snapshot, truncate,
  write_back,
}
use qwid_node.StateDb.View.{IsCovered, undo_all, view, view-revert}
use qwid_node.StateDb.Calls.{
  All-IsCovered_mono, Call, Grown, Grown-push, Grown-refl, Grown-trans, IsSound, add_address-Grown,
  back_to, change_balance-Grown, code_to, destroy, emit, nonce_to, open_account, pay_in, pay_out,
  preimage, preimage-Grown, refund_down, refund_down-Grown, refund_up, refund_up-Grown, run,
  run_call, slot_to, suicide-Grown, undo_all-append, warm_address, warm_slot-Grown, warm_storage,
}

revert-KeepsStorage : (e : ChangeEntry) (t : StateAccount) → KeepsStorage t (revert e t)
unfolding revert write_back upd
revert-KeepsStorage (slot_change a k prev existed) t b h = ground arith
revert-KeepsStorage (access_slot_change a k) t b h = ground arith
revert-KeepsStorage log_change t b h = h
revert-KeepsStorage _ t b h = h

revert-IsHashed : (e : ChangeEntry) (t : StateAccount) → IsHashed t → IsHashed (revert e t)
unfolding revert write_back upd
revert-IsHashed (slot_change a k prev existed) t h b c = ground (arith, h b)
revert-IsHashed (access_slot_change a k) t h b c = ground (arith, h b)
revert-IsHashed (code_change a p q existed) t h b c = ground (arith, h b)
revert-IsHashed log_change t h b c = h b c
revert-IsHashed _ t h b c = h b c

pub journal-revert : (e : ChangeEntry) (t : StateAccount) → (revert e t).journal ≡ t.journal
unfolding revert
journal-revert (slot_change a k prev existed) t = ground arith
journal-revert (access_slot_change a k) t = ground arith
journal-revert log_change t = refl
journal-revert _ t = refl

-- Reverting covered entries, newest first, undoes them on the view, and keeps the rest sound.
pub record Reverted (es : List ChangeEntry) (t u : StateAccount) : Type 0 where
  pub undone : view u ≡ undo_all es (view t)
  pub journal : u.journal ≡ t.journal
  pub keeps : KeepsStorage t u
  pub hashed : IsHashed t → IsHashed u

revert_entries-Reverted :
    (es : List ChangeEntry) (t : StateAccount)
    → All (IsCovered t) es
    → Reverted es t (revert_entries es t)
unfolding revert_entries undo_all
revert_entries-Reverted [] t c = record {
  undone = refl;
  journal = refl;
  keeps = λ b h. h;
  hashed = λ h. h;
}
revert_entries-Reverted (e ∷ es) t c =
    let kept = revert-KeepsStorage e t in
    let rest =
      revert_entries-Reverted es (revert e t) (All-IsCovered_mono t (revert e t) es kept c.1) in
    record {
      undone = rest.undone ∙ ap (undo_all es) (view-revert e t c.0);
      journal = rest.journal ∙ journal-revert e t;
      keeps = λ b h. rest.keeps b (kept b h);
      hashed = λ h. rest.hashed (revert-IsHashed e t h);
    }

-- Undoing no more entries than a run has added stays above the run's start.
truncate-Grown :
    (s t : StateAccount) (k : ℕ) (g : Grown s t)
    → k ≤ length g.added
    → Grown s (truncate k (revert_entries (take k t.journal) t))
unfolding truncate view
truncate-Grown s t k g le = record {
  added = drop k g.added;
  journal = ap (drop k) (r.journal ∙ g.journal) ∙ drop-append_le k g.added s.journal le;
  undone =
      ap (undo_all (drop k g.added)) (
        r.undone
        ∙ ap (λ (es : List ChangeEntry). undo_all es (view t))
            (ap (take k) g.journal ∙ take-append_le k g.added s.journal le))
      ∙ sym (undo_all-append (take k g.added) (drop k g.added) (view t))
      ∙ ap (λ (es : List ChangeEntry). undo_all es (view t)) (take-append-drop k g.added)
      ∙ g.undone;
  sound = record {
    covered = rw r.journal (
        All-IsCovered_mono t u (drop k t.journal) r.keeps
          (All-drop (IsCovered t) k t.journal g.sound.covered));
    hashed = r.hashed g.sound.hashed;
  };
}
  where
    u : StateAccount
    u = revert_entries (take k t.journal) t

    r : Reverted (take k t.journal) t u
    r =
        revert_entries-Reverted (take k t.journal) t
          (All-take (IsCovered t) k t.journal g.sound.covered)

-- The number of entries that a revert to `n` undoes.
abbrev undone_count : ℕ → StateAccount → ℕ
undone_count n t = length t.journal - clamp_snapshot (pos n) (length t.journal)

undone_count_bounds :
    (s t : StateAccount) (n : ℕ) (g : Grown s t)
    → length s.journal ≤ n
    → (undone_count n t ≤ length g.added)
      × (n ≤ length t.journal → length t.journal - undone_count n t ≡ n)
unfolding clamp_snapshot
undone_count_bounds s t n g le =
    let e : length t.journal ≡ length g.added + length s.journal =
      ap length g.journal ∙ length-append g.added s.journal in
    (ground arith, λ h. ground arith)

revert_to-Grown :
    (s t : StateAccount) (n : ℕ)
    → Grown s t
    → length s.journal ≤ n
    → Grown s (revert_to_snapshot (pos n) t)
unfolding revert_to_snapshot
revert_to-Grown s t n g le =
    truncate-Grown s t (undone_count n t) g (undone_count_bounds s t n g le).0

-- A run may go back to its own snapshots only.
abbrev pub IsAbove : ℕ → Call → Type 0
IsAbove n (back_to m) = n ≤ m
IsAbove n _ = Unit

module _ (keccak256 : List ℕ → Hash) where
  run_call-Grown :
      (c : Call) (s t : StateAccount)
      → Grown s t
      → IsAbove (length s.journal) c
      → Grown s (run_call keccak256 c t)
  unfolding run_call add_balance sub_balance add_slot_to_access_list
  run_call-Grown (open_account a) s t g h =
      Grown-trans g (Grown-push _ t _ g.sound (create_account-Pushes t a))
  run_call-Grown (pay_in a amount) s t g h = Grown-trans g (
      change_balance-Grown t g.sound a
        (raised (get_native_balance t.native a) (saturated_amount amount)))
  run_call-Grown (pay_out a amount) s t g h = Grown-trans g (
      change_balance-Grown t g.sound a
        (lowered (get_native_balance t.native a) (saturated_amount amount)))
  run_call-Grown (nonce_to a n) s t g h =
      Grown-trans g (Grown-push _ t _ g.sound (set_nonce-Pushes t a n))
  run_call-Grown (code_to a c) s t g h =
      Grown-trans g (Grown-push _ t _ g.sound (set_code-Pushes t keccak256 a c g.sound.hashed))
  run_call-Grown (slot_to a k v) s t g h =
      Grown-trans g (Grown-push _ t _ g.sound (set_state-Pushes t a k v))
  run_call-Grown (destroy a) s t g h = Grown-trans g (suicide-Grown t g.sound a)
  run_call-Grown (warm_address a) s t g h = Grown-trans g (add_address-Grown t g.sound a)
  run_call-Grown (warm_storage a k) s t g h =
      let g' = add_address-Grown t g.sound a in
      Grown-trans g (Grown-trans g' (warm_slot-Grown _ g'.sound a k))
  run_call-Grown (emit l) s t g h = Grown-trans g (Grown-push _ t _ g.sound (add_log-Pushes t l))
  run_call-Grown (refund_up gas) s t g h = Grown-trans g (refund_up-Grown t g.sound gas)
  run_call-Grown (refund_down gas) s t g h = Grown-trans g (refund_down-Grown t g.sound gas)
  run_call-Grown (preimage k b) s t g h = Grown-trans g (preimage-Grown t g.sound k b)
  run_call-Grown (back_to n) s t g h = revert_to-Grown s t n g h

  run-Grown :
      (cs : List Call) (s t : StateAccount)
      → Grown s t
      → All (IsAbove (length s.journal)) cs
      → Grown s (run keccak256 cs t)
  unfolding run
  run-Grown [] s t g h = g
  run-Grown (c ∷ cs) s t g h = run-Grown cs s _ (run_call-Grown c s t g h.0) h.1

empty_of_length : {A : Type 0} (xs ys : List A) → length (xs ++ ys) ≡ length ys → xs ≡ []
empty_of_length [] ys e = refl
empty_of_length (x ∷ xs) ys e = absurd (omega (arith, length-append xs ys))

-- A run that has as many journal entries as at its start shows what it showed then.
Grown-balanced :
    (s t : StateAccount)
    → Grown s t
    → length t.journal ≡ length s.journal
    → (view t ≡ view s) × (t.journal ≡ s.journal)
unfolding undo_all
Grown-balanced s t g e =
    let nil : g.added ≡ [] = empty_of_length g.added s.journal (ap length (sym g.journal) ∙ e) in
    (
      ap (λ (es : List ChangeEntry). undo_all es (view t)) (sym nil) ∙ g.undone,
      g.journal ∙ ap (λ (es : List ChangeEntry). es ++ s.journal) nil,
    )

length-revert_to :
    (s t : StateAccount) (n : ℕ)
    → Grown s t
    → n ≡ length s.journal
    → length (revert_to_snapshot (pos n) t).journal ≡ length s.journal
unfolding revert_to_snapshot truncate
length-revert_to s t n g e =
    let k = undone_count n t in
    let u = revert_entries (take k t.journal) t in
    let r =
      revert_entries-Reverted (take k t.journal) t
        (All-take (IsCovered t) k t.journal g.sound.covered) in
    length-drop k u.journal
    ∙ ap (λ (x : ℕ). x - k) (ap length r.journal)
    ∙ (undone_count_bounds s t n g (omega arith)).1
        (omega (arith, ap length g.journal, length-append g.added s.journal))
    ∙ e

-- On a sound state (entries of slots have their storage, and an account without code has no hash),
-- whatever a run calls after a snapshot, reverts to it or to later ones included, a revert to the
-- snapshot gives back the journal and all that could be read when it was taken: accounts, codes,
-- code hashes, nonces, storage slots, logs, self-destructs, the access list and native balances.
pub revert_to_snapshot-run :
    (keccak256 : List ℕ → Hash) (s : StateAccount) (cs : List Call)
    → IsSound s
    → All (IsAbove (snapshot s)) cs
    → let t = revert_to_snapshot (pos (snapshot s)) (run keccak256 cs s) in
      (view t ≡ view s) × (t.journal ≡ s.journal)
unfolding snapshot
revert_to_snapshot-run keccak256 s cs h above =
    let g = run-Grown keccak256 cs s s (Grown-refl s h) above in
    Grown-balanced s _ (revert_to-Grown s _ (length s.journal) g (le_refl _))
      (length-revert_to s _ (length s.journal) g refl)
