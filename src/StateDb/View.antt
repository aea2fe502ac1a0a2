-- ===== src/StateDb/View.antt =====
-- What EVM execution can read of the state, with the absent and the empty inner map taken as one,
-- and the undoing of a journal entry on that view.
use qwid_node.Base.{
  Bool, List, Option, [], ap, false, none, refl, some, sym, true, ℕ, ◌∙◌, ◌∷◌, ◌≡◌,
}
use qwid_node.Base.Int.{ℤ}
use qwid_node.Base.Update.{Map, exists, exists-eq_true, map-upd, put_back, upd, upd_self, value_or}
use qwid_node.Types.{Account, Address, Hash, Log, bytes_discrete, zero_account, zero_hash}
use qwid_node.StateDb.{
  ChangeEntry, StateAccount, access_addr_change, access_slot_change, balance_change, code_change,
  create_account_change, get_native_balance, log_change, nonce_change, revert, set_native_balance,
  slot_change, suicide_change, write_back,
}
use qwid_node.StateDb.Storage.{inner}

pub record View : Type 0 where
  pub contracts : Map Address Account
  pub codes : Map Address (List ℕ)
  pub hashes : Address → Hash
  pub nonces : Map Address ℕ
  pub slots : Address → Hash → Option Hash
  pub logs : List Log
  pub suicided : Address → Bool
  pub warm_addrs : Address → Bool
  pub warm_slots : Address → Hash → Bool
  pub coins : Address → ℤ

unfoldable pub view : StateAccount → View
unfolding get_native_balance
view sa = record {
  contracts = sa.accounts;
  codes = sa.codes;
  hashes = λ a. value_or zero_hash (sa.code_hashes a);
  nonces = sa.nonces;
  slots = λ a. inner none (sa.states_hashes a);
  logs = sa.logs;
  suicided = sa.suicided;
  warm_addrs = sa.access_addrs;
  warm_slots = λ a. inner false (sa.access_slots a);
  coins = λ a. get_native_balance sa.native a;
}

abbrev pub upd2 : {V : Type 0} → (Address → Hash → V) → Address → Hash → V → Address → Hash → V
upd2 f a h v = upd bytes_discrete f a (upd bytes_discrete (f a) h v)

unfoldable pub undo : ChangeEntry → View → View
undo (slot_change a k prev existed) v = record v {
  slots = upd2 v.slots a k (put_back existed prev);
}
undo log_change v = record v { logs = elim v.logs [ [] ↦ [] | l ∷ ls ↦ ls ] }
undo (suicide_change a) v = record v { suicided = upd bytes_discrete v.suicided a false }
undo (access_addr_change a) v = record v { warm_addrs = upd bytes_discrete v.warm_addrs a false }
undo (access_slot_change a slot) v = record v { warm_slots = upd2 v.warm_slots a slot false }
undo (balance_change a prev) v = record v { coins = upd bytes_discrete v.coins a prev }
undo (create_account_change a prev existed) v = record v {
  contracts = upd bytes_discrete v.contracts a (put_back existed prev);
}
undo (nonce_change a prev existed) v = record v {
  nonces = upd bytes_discrete v.nonces a (put_back existed prev);
}
undo (code_change a c h existed) v = record v {
  codes = upd bytes_discrete v.codes a (put_back existed c);
  hashes = upd bytes_discrete v.hashes a (value_or zero_hash (put_back existed h));
}

unfoldable pub undo_all : List ChangeEntry → View → View
undo_all [] v = v
undo_all (e ∷ es) v = undo_all es (undo e v)

-- The contract of a slot entry has its storage map, which nothing removes before the transaction
-- ends.
abbrev pub IsCovered : StateAccount → ChangeEntry → Type 0
IsCovered sa (slot_change a k prev existed) = exists (sa.states_hashes a) ≡ true
IsCovered sa _ = Unit

view-revert_slot :
    (a k prev : List ℕ) (existed : Bool) (sa : StateAccount) (m : Map Hash Hash)
    → sa.states_hashes a ≡ some m
    → view (revert (slot_change a k prev existed) sa)
      ≡ undo (slot_change a k prev existed) (view sa)
unfolding view revert undo write_back
view-revert_slot a k prev existed sa m e =
    rw (e, revert)
      (ap (λ (f : Address → Map Hash Hash). record (view sa) { slots = f })
        (map-upd bytes_discrete (inner none) sa.states_hashes a
          (some (write_back m k existed prev))))

view-revert_access :
    (a k : List ℕ) (sa : StateAccount) (o : Option (Hash → Bool))
    → sa.access_slots a ≡ o
    → view (revert (access_slot_change a k) sa) ≡ undo (access_slot_change a k) (view sa)
unfolding view revert undo
view-revert_access a k sa none e =
    rw (e, revert)
      (ap (λ (f : Address → Hash → Bool). record (view sa) { warm_slots = f })
        (sym (
          upd_self bytes_discrete (λ j. inner false (sa.access_slots j)) a _
            (ap (inner false) e ∙ sym (upd_self bytes_discrete (inner false none) k false refl)))))
view-revert_access a k sa (some m) e =
    rw (e, revert)
      (ap (λ (f : Address → Hash → Bool). record (view sa) { warm_slots = f })
        (map-upd bytes_discrete (inner false) sa.access_slots a
          (some (upd bytes_discrete m k false))))

view-revert_balance :
    (a : Address) (prev : ℤ) (sa : StateAccount)
    → view (revert (balance_change a prev) sa) ≡ undo (balance_change a prev) (view sa)
unfolding view revert undo get_native_balance set_native_balance
view-revert_balance a prev sa =
    ap (λ (f : Address → ℤ). record (view sa) { coins = f })
      (map-upd bytes_discrete (λ (o : Option Account). (value_or zero_account o).balance) sa.native
        a _)

view-revert_code :
    (a : Address) (p : List ℕ) (h : Hash) (existed : Bool) (sa : StateAccount)
    → view (revert (code_change a p h existed) sa) ≡ undo (code_change a p h existed) (view sa)
unfolding view revert undo write_back
view-revert_code a p h existed sa =
    ap
      (λ (f : Address → Hash). record (view sa) {
        codes = upd bytes_discrete sa.codes a (put_back existed p);
        hashes = f;
      })
      (map-upd bytes_discrete (value_or zero_hash) sa.code_hashes a (put_back existed h))

-- On the view, the source's undoing of a covered entry is `undo`.
pub view-revert :
    (e : ChangeEntry) (sa : StateAccount) → IsCovered sa e → view (revert e sa) ≡ undo e (view sa)
view-revert (slot_change a k prev existed) sa c =
    let (m, e) = exists-eq_true (sa.states_hashes a) c in view-revert_slot a k prev existed sa m e
view-revert (access_slot_change a slot) sa c = view-revert_access a slot sa _ refl
view-revert (balance_change a prev) sa c = view-revert_balance a prev sa
view-revert (code_change a p h existed) sa c = view-revert_code a p h existed sa
view-revert log_change sa c = unfold view revert undo in refl
view-revert _ sa c = unfold view revert undo write_back in refl
