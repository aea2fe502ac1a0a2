-- ===== src/Transactions/Revealed.antt =====
-- What an accepted recovery reveal proves: `verifyRecoveryReveal` of transactionsDefinition/recovery.go.
use qwid_node.Base.Table.{get}
use qwid_node.Base.{
  Bool, List, Option, Option-cases, Result, ap, arith, drop, err, false, if_neg, if◌then◌else◌, inl,
  inr, length, length-drop, none, not, not_negated, ok, refl, some, sym, take, true, ℕ, ◌>>=◌, ◌∙◌,
  ◌≡◌,
}
use qwid_node.Base.Int.{ltb_ℤ, ℤ}
use qwid_node.Base.Int64.{add64}
use qwid_node.Types.{Account, Address, Hash, bytes_discrete}
use qwid_node.Wire.Fields.{FullAddress, bytes_to_address_lem}
use qwid_node.Recovery.{
  Accounts, RecoveryBind, effective_recovery_commit, get_recovery_bind, is_expired, is_set,
}
use qwid_node.Transactions.{Transaction}
use qwid_node.Transactions.Secrets.{
  Outside, RevealError, already_registered, bad_key_length, expired, has_policy_fields, no_bind,
  no_commitment, no_key, recovery_bind_delay_blocks, recovery_bind_key, recovery_commitment,
  recovery_payload, recovery_tag, same_bytes, too_early, wrong_key_address, wrong_payload,
  wrong_secret,
}
use qwid_node.Transactions.Recovering.{is_address_reveal, parse_recovery_reveal}
use qwid_node.Transactions.Reveals.{
  check_bind, known_account, open_commitment, open_reveal, recovery_height, revealed_key,
  verify_recovery_reveal,
}

bind_ok :
    {A B : Type 0} (m : Result RevealError A) (f : A → Result RevealError B) (b : B)
    → (m >>= f) ≡ ok b
    → (a : A) × (m ≡ ok a) × (f a ≡ ok b)
bind_ok (ok a) f b e = (a, refl, e)
bind_ok (err x) f b e = absurd (ground arith)

guard_ok :
    {A : Type 0} (t : Bool) (x : RevealError) (r : Result RevealError A) (b : A)
    → (if t then err x else r) ≡ ok b
    → (t ≡ false) × (r ≡ ok b)
guard_ok true x r b e = absurd (ground arith)
guard_ok false x r b e = (refl, e)

failed : {A : Type 0} {x : RevealError} {a : A} → err x ≡ ok a → ⊥
failed e = ground arith

abbrev value_of : {A : Type 0} → A → Result RevealError A → A
value_of d (ok a) = a
value_of d (err x) = d

test_ok :
    {A : Type 0} (t : Bool) (x : RevealError) (r : Result RevealError A) (b : A)
    → (if t then r else err x) ≡ ok b
    → (t ≡ true) × (r ≡ ok b)
test_ok true x r b e = (refl, e)
test_ok false x r b e = absurd (ground arith)

same_bytes-eq : (a b : List ℕ) → same_bytes a b ≡ true → a ≡ b
same_bytes-eq a b e = elim (bytes_discrete a b) [
  | yes p ↦ p
  | no n ↦ absurd (wrong (sym (if_neg (bytes_discrete a b) n true false) ∙ e))
]
  where
    wrong : false ≡ true → ⊥
    wrong h = ground arith

-- What the bind of an accepted reveal is.
abbrev pub IsOpenBind : Outside → Accounts → Address → ℤ → List ℕ → Hash → RecoveryBind → Type 0
IsOpenBind o s sender height secret payload bind =
    (get_recovery_bind (recovery_bind_key o sender (recovery_tag o secret)) s ≡ some bind)
    × (bind.identity ≡ sender)
    × (ltb_ℤ height (add64 bind.height recovery_bind_delay_blocks) ≡ false)
    × (is_expired height bind ≡ false)
    × (payload ≡ bind.payload)

parse_reveal :
    (opt : List ℕ)
    → length opt ≡ 52
    → parse_recovery_reveal opt
      ≡ ok (take 32 opt, record { byte_value = drop 32 opt; primary = true })
unfolding parse_recovery_reveal
parse_reveal opt e =
    let rest : length (drop 32 opt) ≡ 20 = omega (arith, length-drop 32 opt, e) in
    rw (e, bytes_to_address_lem (drop 32 opt) rest) refl

-- The address that a revealed key derives to.
abbrev pub key_address : Outside → Transaction → Address
key_address o tx =
    (o.pub_key_to_address tx.tx_data.pubkey.byte_value tx.tx_data.pubkey.primary).byte_value

abbrev pub secret_of : Transaction → List ℕ
secret_of tx = take 32 tx.tx_data.opt_data

abbrev pub next_of : Transaction → Address
next_of tx = drop 32 tx.tx_data.opt_data

abbrev pub sender_of : Transaction → Address
sender_of tx = tx.tx_param.sender.byte_value

-- The payload that a reveal of a commitment must have been bound to.
abbrev pub payload_of : Outside → Transaction → Hash
payload_of o tx = recovery_payload o (sender_of tx) (key_address o tx) (next_of tx) (secret_of tx)

-- The secret opens the commitment that is in force for an account.
abbrev pub OpensCommitment : Outside → Transaction → Account → ℤ → Type 0
OpensCommitment o tx acc height =
    (is_set (effective_recovery_commit acc height) ≡ true)
    × (c : FullAddress) × (recovery_commitment o (secret_of tx) ≡ ok c)
    × (c.byte_value ≡ effective_recovery_commit acc height)

module _ (o : Outside) (s : Accounts) where
  check_bind_ok :
      (sender : Address) (height : ℤ) (secret : List ℕ) (payload : Hash)
      → check_bind o s sender height secret payload ≡ ok tt
      → (bind : RecoveryBind) × IsOpenBind o s sender height secret payload bind
  unfolding check_bind
  check_bind_ok sender height secret payload e =
      elim (Option-cases
        (get_recovery_bind (recovery_bind_key o sender (recovery_tag o secret)) s)) [
          | inl none_there ↦ absurd (failed (rw (none_there, check_bind) at e))
          | inr (bind, found) ↦
              let (named, e1) =
                guard_ok (not (same_bytes bind.identity sender)) no_bind _ tt
                  (rw (found, check_bind) at e) in
              let (ripe, e2) = guard_ok _ too_early _ tt e1 in
              let (fresh, e3) = guard_ok (is_expired height bind) expired _ tt e2 in
              let (same, e4) = test_ok (same_bytes payload bind.payload) wrong_payload _ tt e3 in
              (
                bind,
                (
                  found,
                  same_bytes-eq bind.identity sender (not_negated _ named),
                  ripe,
                  fresh,
                  same_bytes-eq payload bind.payload same,
                ),
              )
        ]

  opened :
      (tx : Transaction) (acc : Account) (height : ℤ) (p : List ℕ × Hash)
      → length tx.tx_data.opt_data ≡ 52
      → open_commitment o s tx (key_address o tx) acc height ≡ ok p
      → (p ≡ (secret_of tx, payload_of o tx)) × OpensCommitment o tx acc height
  unfolding open_commitment
  opened tx acc height p l e =
      let (c, e1, e2) =
        bind_ok _ _ p (rw (parse_reveal tx.tx_data.opt_data l, open_commitment) at e) in
      let (set, e3) =
        test_ok (is_set (effective_recovery_commit acc height)) no_commitment
          (recovery_commitment o (secret_of tx)) c e1 in
      let (same, e4) =
        test_ok (same_bytes c.byte_value (effective_recovery_commit acc height)) wrong_secret _ p
          e2 in
      (
        sym (ap (value_of p) e4),
        (set, c, e3, same_bytes-eq c.byte_value (effective_recovery_commit acc height) same),
      )

  revealed_key_ok :
      (tx : Transaction) (as_of : ℤ) (k : Address)
      → revealed_key o s tx as_of ≡ ok k
      → (k ≡ key_address o tx) × (o.is_registered (key_address o tx) as_of ≡ false)
  unfolding revealed_key
  revealed_key_ok tx as_of k e =
      let (a, e1) = guard_ok _ has_policy_fields _ k e in
      let (b, e2) = guard_ok _ no_key _ k e1 in
      let (c, e3) = guard_ok _ bad_key_length _ k e2 in
      let (d, e4) = guard_ok _ wrong_key_address _ k e3 in
      let (fresh, e5) =
        guard_ok (o.is_registered (key_address o tx) as_of) already_registered _ k e4 in
      (sym (ap (value_of k) e5), fresh)

  not_address_reveal :
      (tx : Transaction) → length tx.tx_data.opt_data ≡ 52 → is_address_reveal tx ≡ false
  unfolding is_address_reveal
  not_address_reveal tx l = rw l (ground arith)

  some_account : (a : Option Account) (acc : Account) → known_account a ≡ ok acc → a ≡ some acc
  some_account none acc e = absurd (failed e)
  some_account (some x) acc e = ap some (ap (value_of acc) e)

  -- What the acceptance of a commitment reveal proves.
  abbrev pub IsAuthorised : Transaction → ℤ → Type 0
  IsAuthorised tx as_of =
      (acc : Account) × (get bytes_discrete (sender_of tx) s.all_accounts ≡ some acc)
      × OpensCommitment o tx acc (recovery_height o s as_of)
      × (o.is_registered (key_address o tx) as_of ≡ false)
      × ((bind : RecoveryBind) × IsOpenBind o s (sender_of tx) (recovery_height o s as_of)
            (secret_of tx) (payload_of o tx) bind)

  opened_key :
      (tx : Transaction) (as_of : ℤ) (k : Address) (acc : Account) (p : List ℕ × Hash)
      → length tx.tx_data.opt_data ≡ 52
      → k ≡ key_address o tx
      → open_reveal o s tx k acc as_of ≡ ok p
      → open_commitment o s tx (key_address o tx) acc (recovery_height o s as_of) ≡ ok p
  unfolding open_reveal
  opened_key tx as_of k acc p l key e = rw (key, not_address_reveal tx l, open_reveal) at e

  -- The steps of the check, put together.
  authorised :
      (tx : Transaction) (as_of : ℤ) (k : Address) (acc : Account) (p : List ℕ × Hash)
      → length tx.tx_data.opt_data ≡ 52
      → revealed_key o s tx as_of ≡ ok k
      → known_account (get bytes_discrete (sender_of tx) s.all_accounts) ≡ ok acc
      → open_reveal o s tx k acc as_of ≡ ok p
      → check_bind o s (sender_of tx) (recovery_height o s as_of) (p.0) (p.1) ≡ ok tt
      → IsAuthorised tx as_of
  authorised tx as_of k acc p l e1 e2 e3 e4 =
      let (key, fresh) = revealed_key_ok tx as_of k e1 in
      let (both, commitment) =
        opened tx acc (recovery_height o s as_of) p l (opened_key tx as_of k acc p l key e3) in
      (
        acc,
        some_account (get bytes_discrete (sender_of tx) s.all_accounts) acc e2,
        commitment,
        fresh,
        check_bind_ok (sender_of tx) (recovery_height o s as_of) (secret_of tx) (payload_of o tx)
            (rw both at e4),
      )

  -- A reveal of a recovery commitment is accepted only if its secret opens the commitment in force
  -- for its sender at the height it is judged at, its key is not registered, and the store holds a
  -- bind under the sender and the secret that names the sender, is 360 blocks old or older, has not
  -- expired, and holds the payload of exactly this sender, key, next commitment and secret. The
  -- data of the transaction has 52 bytes, which tells such a reveal from that of an address.
  pub verify_recovery_reveal-IsAuthorised :
      (tx : Transaction) (hash : Hash) (as_of : ℤ)
      → length tx.tx_data.opt_data ≡ 52
      → verify_recovery_reveal o s tx hash as_of ≡ ok tt
      → IsAuthorised tx as_of
  unfolding verify_recovery_reveal
  verify_recovery_reveal-IsAuthorised tx hash as_of l e =
      let (k, e1, f1) = bind_ok (revealed_key o s tx as_of) _ tt e in
      let (acc, e2, f2) =
        bind_ok (known_account (get bytes_discrete (sender_of tx) s.all_accounts)) _ tt f1 in
      let (p, e3, f3) = bind_ok (open_reveal o s tx k acc as_of) _ tt f2 in
      let (u, e4, f4) =
        bind_ok (check_bind o s (sender_of tx) (recovery_height o s as_of) (p.0) (p.1)) _ tt f3 in
      authorised tx as_of k acc p l e1 e2 e3 e4
