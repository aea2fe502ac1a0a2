-- ===== src/StateDb/Committed.antt =====
-- What `SetState` and the undoing of a journal entry do to `GetCommittedState` and to the recorded
-- first values of slots.
use qwid_node.StateDb.Rollback.{journal-revert}
use qwid_node.Base.{All, List, [], arith, none, refl, true, ℕ, ◌∙◌, ◌∷◌, ◌≡◌}
use qwid_node.Base.Update.{exists, upd}
use qwid_node.StateDb.{
  ChangeEntry, StateAccount, access_slot_change, log_change, revert, revert_entries, slot_change,
  write_back,
}
use qwid_node.StateDb.Storage.{get_committed_state, inner, set_state}

-- The slot of a journal entry has its first value recorded.
abbrev pub IsNoted : StateAccount → ChangeEntry → Type 0
IsNoted s (slot_change a k prev existed) = exists (inner none (s.origin_storage a) k) ≡ true
IsNoted s _ = Unit

-- What a step keeps.
pub record Kept (s t : StateAccount) : Type 0 where
  pub committed : (b h : List ℕ) → get_committed_state t b h ≡ get_committed_state s b h
  pub origins :
      (b h : List ℕ)
      → exists (inner none (s.origin_storage b) h) ≡ true
      → exists (inner none (t.origin_storage b) h) ≡ true

pub set_state_committed :
    (a k v : List ℕ) (s : StateAccount) (b h : List ℕ)
    → get_committed_state (set_state a k v s) b h ≡ get_committed_state s b h
unfolding set_state get_committed_state upd
set_state_committed a k v s b h = ground arith

pub set_state_origins :
    (a k v : List ℕ) (s : StateAccount) (b h : List ℕ)
    → exists (inner none (s.origin_storage b) h) ≡ true
    → exists (inner none ((set_state a k v s).origin_storage b) h) ≡ true
unfolding set_state upd
set_state_origins a k v s b h e = ground arith

pub set_state_notes :
    (a k v : List ℕ) (s : StateAccount)
    → exists (inner none ((set_state a k v s).origin_storage a) k) ≡ true
unfolding set_state upd
set_state_notes a k v s = ground arith

revert_committed :
    (e : ChangeEntry) (s : StateAccount) (b h : List ℕ)
    → IsNoted s e
    → get_committed_state (revert e s) b h ≡ get_committed_state s b h
unfolding revert get_committed_state write_back upd
revert_committed (slot_change a k prev existed) s b h n = ground arith
revert_committed (access_slot_change a k) s b h n = ground arith
revert_committed log_change s b h n = refl
revert_committed _ s b h n = refl

revert_origins :
    (e : ChangeEntry) (s : StateAccount) → (revert e s).origin_storage ≡ s.origin_storage
unfolding revert
revert_origins (slot_change a k prev existed) s = ground arith
revert_origins (access_slot_change a k) s = ground arith
revert_origins log_change s = refl
revert_origins _ s = refl

pub IsNoted-mono :
    (s t : StateAccount) (es : List ChangeEntry)
    → ((b h : List ℕ)
        → exists (inner none (s.origin_storage b) h) ≡ true
        → exists (inner none (t.origin_storage b) h) ≡ true)
    → All (IsNoted s) es
    → All (IsNoted t) es
IsNoted-mono s t [] o n = tt
IsNoted-mono s t (slot_change a k prev existed ∷ es) o n = (o a k n.0, IsNoted-mono s t es o n.1)
IsNoted-mono s t (log_change ∷ es) o n = (tt, IsNoted-mono s t es o n.1)
IsNoted-mono s t (_ ∷ es) o n = (tt, IsNoted-mono s t es o n.1)

pub revert_entries_committed :
    (es : List ChangeEntry) (s : StateAccount) → All (IsNoted s) es → Kept s (revert_entries es s)
unfolding revert_entries
revert_entries_committed [] s n = record { committed = λ b h. refl; origins = λ b h e. e }
revert_entries_committed (e ∷ es) s n =
    let kept : (b h : List ℕ)
        → exists (inner none (s.origin_storage b) h) ≡ true
        → exists (inner none ((revert e s).origin_storage b) h) ≡ true =
      λ b h p. rw (revert_origins e s) p in
    let rest = revert_entries_committed es (revert e s) (IsNoted-mono s (revert e s) es kept n.1) in
    record {
      committed = λ b h. rest.committed b h ∙ revert_committed e s b h n.0;
      origins = λ b h p. rest.origins b h (kept b h p);
    }

pub journal-revert_entries :
    (es : List ChangeEntry) (s : StateAccount) → (revert_entries es s).journal ≡ s.journal
unfolding revert_entries
journal-revert_entries [] s = refl
journal-revert_entries (e ∷ es) s = journal-revert_entries es (revert e s) ∙ journal-revert e s
