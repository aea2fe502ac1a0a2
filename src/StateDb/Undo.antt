-- ===== src/StateDb/Undo.antt =====
-- Every journalled method pushes one entry, whose undoing takes back what the method did.
use qwid_node.Base.{
  Bool, List, Option, [], ap, arith, false, fun_ext, none, refl, some, sym, true, ℕ, ◌∙◌, ◌∷◌, ◌≡◌,
}
use qwid_node.Base.Int.{eqb_ℤ, ℤ}
use qwid_node.Base.Update.{
  Map, exists, map-upd, map-upd_restore, put_back, put_back_lem, upd, upd-put_back, upd-upd, upd_at,
  upd_restore, upd_self, value_or,
}
use qwid_node.Types.{Account, Address, Hash, Log, bytes_discrete, zero_account, zero_hash}
use qwid_node.StateDb.{
  ChangeEntry, StateAccount, access_addr_change, access_slot_change, balance_change, code_change,
  create_account_change, get_native_balance, log_change, nonce_change, set_native_balance,
  slot_change, suicide_change,
}
use qwid_node.StateDb.Methods.{change_balance, create_account, empty_map, set_code, set_nonce}
use qwid_node.StateDb.Storage.{
  add_address_to_access_list, add_log, inner, set_state, suicide, warm_slot,
}
use qwid_node.StateDb.View.{IsCovered, undo, upd2, view}

-- An account without code has no code hash either.
abbrev pub IsHashed : StateAccount → Type 0
IsHashed sa =
    (a : Address) → exists (sa.codes a) ≡ false → value_or zero_hash (sa.code_hashes a) ≡ zero_hash

abbrev pub KeepsStorage : StateAccount → StateAccount → Type 0
KeepsStorage s t =
    (a : Address) → exists (s.states_hashes a) ≡ true → exists (t.states_hashes a) ≡ true

pub record Pushes (e : ChangeEntry) (s t : StateAccount) : Type 0 where
  pub journal : t.journal ≡ e ∷ s.journal
  pub undone : undo e (view t) ≡ view s
  pub covered : IsCovered t e
  pub keeps : KeepsStorage s t
  pub hashed : IsHashed s → IsHashed t

inner-value_or :
    {V : Type 0} (d : V) (o : Option (Hash → V)) (k : Hash)
    → inner d o k ≡ value_or (λ (h : Hash). d) o k
inner-value_or d none k = refl
inner-value_or d (some m) k = refl

-- A write through both maps, and the write that takes it back.
upd2-inner :
    {V : Type 0} (f : Address → Option (Hash → V)) (a : Address) (k : Hash) (d x w : V)
    → value_or (λ (h : Hash). d) (f a) k ≡ w
    → upd2
        (λ j. inner d (
          upd bytes_discrete f a
            (some (upd bytes_discrete (value_or (λ (h : Hash). d) (f a)) k x))
            j))
        a
        k
        w
      ≡ (λ j. inner d (f j))
upd2-inner {V} f a k d x w e =
    ap (λ (h : Address → Hash → V). upd2 h a k w) (map-upd bytes_discrete (inner d) f a (some m'))
    ∙ upd-upd bytes_discrete g a m' (upd bytes_discrete (upd bytes_discrete g a m' a) k w)
    ∙ upd_self bytes_discrete g a _ (
        fun_ext (inner-value_or d (f a))
        ∙ sym (
            ap (λ (h : Hash → V). upd bytes_discrete h k w) (upd_at bytes_discrete g a m')
            ∙ upd_restore bytes_discrete m k x w e))
  where
    m : Hash → V
    m = value_or (λ (h : Hash). d) (f a)

    m' : Hash → V
    m' = upd bytes_discrete m k x

    g : Address → Hash → V
    g = λ j. inner d (f j)

kept_hash :
    (b : Bool) (h : Hash) → (b ≡ false → h ≡ zero_hash) → h ≡ value_or zero_hash (put_back b h)
kept_hash true h e = refl
kept_hash false h e = e refl

module _ (s : StateAccount) where
  pub create_account-Pushes :
      (a : Address)
      → Pushes
          (create_account_change a (value_or zero_account (s.accounts a)) (exists (s.accounts a)))
          s
          (create_account a s)
  unfolding create_account undo view
  create_account-Pushes a = record {
    journal = refl;
    undone =
        ap (λ (f : Map Address Account). record (view s) { contracts = f })
          (upd-put_back bytes_discrete s.accounts a _ zero_account);
    covered = tt;
    keeps = λ b h. h;
    hashed = λ h. h;
  }

  pub set_nonce-Pushes :
      (a : Address) (n : ℕ)
      → Pushes (nonce_change a (value_or 0 (s.nonces a)) (exists (s.nonces a))) s (set_nonce a n s)
  unfolding set_nonce undo view
  set_nonce-Pushes a n = record {
    journal = refl;
    undone =
        ap (λ (f : Map Address ℕ). record (view s) { nonces = f })
          (upd-put_back bytes_discrete s.nonces a _ 0);
    covered = tt;
    keeps = λ b h. h;
    hashed = λ h. h;
  }

  pub add_log-Pushes : (l : Log) → Pushes log_change s (add_log l s)
  unfolding add_log undo view
  add_log-Pushes l = record {
    journal = refl;
    undone = refl;
    covered = tt;
    keeps = λ b h. h;
    hashed = λ h. h;
  }

  pub change_balance-Pushes :
      (a : Address) (next : ℤ)
      → let prev = get_native_balance s.native a in
        eqb_ℤ next prev ≡ false → Pushes (balance_change a prev) s (change_balance a prev next s)
  unfolding change_balance undo view get_native_balance set_native_balance
  change_balance-Pushes a next h =
      rw (h, change_balance)
        (record {
          journal = refl;
          undone =
              ap (λ (f : Address → ℤ). record (view s) { coins = f })
                (map-upd_restore bytes_discrete
                  (λ (o : Option Account). (value_or zero_account o).balance) s.native a _ _ refl);
          covered = tt;
          keeps = λ b i. i;
          hashed = λ i. i;
        })

  pub mark_suicide-Pushes :
      (a : Address)
      → exists (s.accounts a) ≡ true
      → s.suicided a ≡ false
      → Pushes (suicide_change a) s (suicide a s).0
  unfolding suicide undo view
  mark_suicide-Pushes a h k =
      rw (h, k, suicide)
        (record {
          journal = refl;
          undone =
              ap (λ (f : Address → Bool). record (view s) { suicided = f })
                (upd_restore bytes_discrete s.suicided a true false k);
          covered = tt;
          keeps = λ b i. i;
          hashed = λ i. i;
        })

  pub add_address-Pushes :
      (a : Address)
      → s.access_addrs a ≡ false
      → Pushes (access_addr_change a) s (add_address_to_access_list a s)
  unfolding add_address_to_access_list undo view
  add_address-Pushes a h =
      rw (h, add_address_to_access_list)
        (record {
          journal = refl;
          undone =
              ap (λ (f : Address → Bool). record (view s) { warm_addrs = f })
                (upd_restore bytes_discrete s.access_addrs a true false h);
          covered = tt;
          keeps = λ b i. i;
          hashed = λ i. i;
        })

  pub warm_slot-Pushes :
      (a : Address) (k : Hash)
      → inner false (s.access_slots a) k ≡ false
      → Pushes (access_slot_change a k) s (warm_slot a k s)
  unfolding warm_slot undo view
  warm_slot-Pushes a k h =
      rw (h, warm_slot)
        (record {
          journal = refl;
          undone =
              ap (λ (f : Address → Hash → Bool). record (view s) { warm_slots = f })
                (upd2-inner s.access_slots a k false true false
                  (sym (inner-value_or false (s.access_slots a) k) ∙ h));
          covered = tt;
          keeps = λ b i. i;
          hashed = λ i. i;
        })

  pub set_state-Pushes :
      (a : Address) (k v : Hash)
      → let o = value_or empty_map (s.states_hashes a) k in
        Pushes (slot_change a k (value_or zero_hash o) (exists o)) s (set_state a k v s)
  unfolding set_state undo view upd
  set_state-Pushes a k v = record {
    journal = refl;
    undone =
        ap (λ (f : Address → Hash → Option Hash). record (view s) { slots = f })
          (upd2-inner s.states_hashes a k none (some v) _
            (sym (put_back_lem zero_hash (value_or empty_map (s.states_hashes a) k))));
    covered = ap exists (upd_at bytes_discrete s.states_hashes a _);
    keeps = λ b i. ground arith;
    hashed = λ i. i;
  }

  pub set_code-Pushes :
      (keccak256 : List ℕ → Hash) (a : Address) (c : List ℕ)
      → IsHashed s
      → Pushes
          (code_change a
            (value_or [] (s.codes a))
            (value_or zero_hash (s.code_hashes a))
            (exists (s.codes a)))
          s
          (set_code keccak256 a c s)
  unfolding set_code undo view upd
  set_code-Pushes keccak256 a c h = record {
    journal = refl;
    undone = λ i. record (view s) {
      codes = upd-put_back bytes_discrete s.codes a (some c) [] i;
      hashes = restored i;
    };
    covered = tt;
    keeps = λ b i. i;
    hashed = λ i b j. ground (arith, i b);
  }
    where
      restored :
          upd bytes_discrete
            (λ j. value_or zero_hash (upd bytes_discrete s.code_hashes a (some (keccak256 c)) j))
            a
            (value_or zero_hash
              (put_back (exists (s.codes a)) (value_or zero_hash (s.code_hashes a))))
          ≡ (λ j. value_or zero_hash (s.code_hashes j))
      restored =
          map-upd_restore bytes_discrete (value_or zero_hash) s.code_hashes a _ _
            (kept_hash (exists (s.codes a)) _ (h a))
