-- ===== src/Transactions/FirstBind.antt =====
-- Two reveals of one secret that the same bind opens. The check is `verifyRecoveryReveal` of transactionsDefinition/recovery.go.
use qwid_node.Base.{
  Bool, List, [], ap, arith, inl, inr, length, length-drop, ok, some, sym, ℕ, ◌<◌, ◌^◌, ◌∙◌, ◌∷◌,
  ◌≡◌, ◌⊎◌,
}
use qwid_node.Base.Int.{ℤ}
use qwid_node.Types.{Hash}
use qwid_node.Hashes.{Collision, same_input}
use qwid_node.Wire.{LenResult, bytes_with_len_to_bytes, fails, parts}
use qwid_node.Wire.RoundTrip.{bytes_with_len-bytes_to_len}
use qwid_node.Wire.Fields.{get_hash_from_bytes_lem}
use qwid_node.Recovery.{Accounts, RecoveryBind, get_recovery_bind}
use qwid_node.Transactions.{Transaction}
use qwid_node.Transactions.Secrets.{
  Outside, lens, payload_domain, recovery_bind_key, recovery_input, recovery_payload, recovery_tag,
}
use qwid_node.Transactions.Reveals.{verify_recovery_reveal}
use qwid_node.Transactions.Revealed.{
  key_address, next_of, secret_of, sender_of, verify_recovery_reveal-IsAuthorised,
}

abbrev first_part : LenResult → List ℕ
first_part (parts x rest) = x
first_part (fails e) = []

abbrev last_part : LenResult → List ℕ
last_part (parts x rest) = rest
last_part (fails e) = []

lens_split :
    (b c : List ℕ) (ps qs : List (List ℕ))
    → length b < 2 ^ 32
    → length c < 2 ^ 32
    → lens (b ∷ ps) ≡ lens (c ∷ qs)
    → (b ≡ c) × (lens ps ≡ lens qs)
lens_split b c ps qs h k e =
    let same : parts b (lens ps) ≡ parts c (lens qs) =
      sym (bytes_with_len-bytes_to_len b (lens ps) h)
      ∙ ap bytes_with_len_to_bytes e
      ∙ bytes_with_len-bytes_to_len c (lens qs) k in
    (ap first_part same, ap last_part same)

-- Payloads of one identity that are equal are of one key and one next commitment.
recovery_payload_inj :
    (o : Outside) (identity k k' n n' secret secret' : List ℕ)
    → ((x : List ℕ) → length (o.hash256 x) ≡ 32)
    → length identity ≡ 20
    → length k ≡ 20
    → length k' ≡ 20
    → length n ≡ 20
    → length n' ≡ 20
    → recovery_payload o identity k n secret ≡ recovery_payload o identity k' n' secret'
    → ((k ≡ k') × (n ≡ n')) ⊎ Collision o.hash256
unfolding recovery_payload recovery_input
recovery_payload_inj o identity k k' n n' secret secret' sized hi hk hk' hn hn' e =
    let x : List ℕ = lens (payload_domain ∷ identity ∷ k ∷ n ∷ secret ∷ []) in
    let y : List ℕ = lens (payload_domain ∷ identity ∷ k' ∷ n' ∷ secret' ∷ []) in
    let hashes : o.hash256 x ≡ o.hash256 y =
      sym (get_hash_from_bytes_lem (o.hash256 x) (sized x))
      ∙ e
      ∙ get_hash_from_bytes_lem (o.hash256 y) (sized y) in
    elim (same_input o.hash256 x y hashes) [
      | inr collision ↦ inr collision
      | inl same ↦
          (let (d, e1) =
              lens_split payload_domain payload_domain (identity ∷ k ∷ n ∷ secret ∷ [])
                (identity ∷ k' ∷ n' ∷ secret' ∷ []) (omega arith) (omega arith) same in
            let (i, e2) =
              lens_split identity identity (k ∷ n ∷ secret ∷ []) (k' ∷ n' ∷ secret' ∷ [])
                (omega (arith, hi)) (omega (arith, hi)) e1 in
            let (keys, e3) =
              lens_split k k' (n ∷ secret ∷ []) (n' ∷ secret' ∷ []) (omega (arith, hk))
                (omega (arith, hk')) e2 in
            let (nexts, e4) =
              lens_split n n' (secret ∷ []) (secret' ∷ []) (omega (arith, hn)) (omega (arith, hn'))
                e3 in
            inl (keys, nexts))
    ]

some_eq : (a b : RecoveryBind) → some a ≡ some b → a ≡ b
some_eq a b e = cc

-- Two reveals of a recovery commitment with one sender and one secret that are both accepted, each
-- against a state, at a height and with a hash of its own, name the same key and the same next
-- commitment, if the two states hold the same bind for the sender and the secret; or Blake2b has a
-- collision. Hashes have 32 bytes, addresses 20, and the data of each transaction 52.
pub verify_recovery_reveal-binding :
    (o : Outside) (s s' : Accounts) (tx tx' : Transaction) (hash hash' : Hash) (as_of as_of' : ℤ)
    → ((x : List ℕ) → length (o.hash256 x) ≡ 32)
    → ((b : List ℕ) (p : Bool) → length (o.pub_key_to_address b p).byte_value ≡ 20)
    → length (sender_of tx) ≡ 20
    → length tx.tx_data.opt_data ≡ 52
    → length tx'.tx_data.opt_data ≡ 52
    → sender_of tx' ≡ sender_of tx
    → secret_of tx' ≡ secret_of tx
    → get_recovery_bind (recovery_bind_key o (sender_of tx) (recovery_tag o (secret_of tx))) s'
      ≡ get_recovery_bind (recovery_bind_key o (sender_of tx) (recovery_tag o (secret_of tx))) s
    → verify_recovery_reveal o s tx hash as_of ≡ ok tt
    → verify_recovery_reveal o s' tx' hash' as_of' ≡ ok tt
    → ((key_address o tx ≡ key_address o tx') × (next_of tx ≡ next_of tx')) ⊎ Collision o.hash256
verify_recovery_reveal-binding o s s' tx tx' hash hash' as_of as_of' sized addresses hs l l' es et
      eb e e' =
    let (acc, a1, a2, a3, a4) = verify_recovery_reveal-IsAuthorised o s tx hash as_of l e in
    let (acc', b1, b2, b3, b4) = verify_recovery_reveal-IsAuthorised o s' tx' hash' as_of' l' e' in
    let (bind, (found, a6, a7, a8, payload)) = a4 in
    let (bind', (found', b6, b7, b8, payload')) = b4 in
    let there : get_recovery_bind
          (recovery_bind_key o (sender_of tx) (recovery_tag o (secret_of tx))) s'
        ≡ some bind' =
      rw (es, et) at found' in
    let one : bind ≡ bind' = some_eq bind bind' (sym found ∙ sym eb ∙ there) in
    let same : recovery_payload o (sender_of tx) (key_address o tx) (next_of tx) (secret_of tx)
        ≡ recovery_payload o (sender_of tx) (key_address o tx') (next_of tx') (secret_of tx') =
      payload
      ∙ ap (λ (b : RecoveryBind). b.payload) one
      ∙ sym payload'
      ∙ ap (λ z. recovery_payload o z (key_address o tx') (next_of tx') (secret_of tx')) es in
    recovery_payload_inj o (sender_of tx) (key_address o tx) (key_address o tx') (next_of tx)
      (next_of tx') (secret_of tx) (secret_of tx') sized hs (addresses _ _) (addresses _ _)
      (omega (arith, length-drop 32 tx.tx_data.opt_data, l))
      (omega (arith, length-drop 32 tx'.tx_data.opt_data, l')) same
