-- ===== src/Randao/Binding.antt =====
-- What a producer can choose about the randomness of its block (blocks/randao.go).
use qwid_node.Staking.{StakingAccounts, StakingError}
use qwid_node.Base.{
  List, Result, [], ap, append-nil, arith, drop, drop-append, err, false, inl, inr, length, ok,
  refl, sym, true, ℕ, ◌++◌, ◌>>=◌, ◌∙◌, ◌∷◌, ◌≡◌, ◌⊎◌,
}
use qwid_node.Base.Int.{eq_of_parts, eqb_ℤ, pos, ℤ}
use qwid_node.Types.{Hash, hash_length}
use qwid_node.Hashes.{Collision, same_input}
use qwid_node.Wire.{bytes_to_len_and_bytes}
use qwid_node.Wire.Fields.{get_hash_from_bytes_lem}
use qwid_node.Staking.Nodes.{RandCommit, get_rand_commit}
use qwid_node.Blocks.{Block}
use qwid_node.Randao.{
  RandaoError, check_reveal, domain_hash, header_of, mix_hash, must_delegated_account_id,
  parent_mix, parts_bytes, rand_from_mix, randao_commit_domain, randao_commitment, reveal_due,
  staking_result, verify_randao_reveal, verify_randao_stateless,
}

same_held : (r : Result StakingError RandCommit) (x y : RandCommit) → r ≡ ok x → r ≡ ok y → x ≡ y
same_held r x y e f = cc

eq_of_eqb : (a b : ℤ) → eqb_ℤ a b ≡ true → a ≡ b
eq_of_eqb a b e = eq_of_parts a b (ground arith)

after_staking :
    (r : Result StakingError RandCommit) (check : RandCommit → Result RandaoError (Unit {0}))
    → (staking_result r >>= check) ≡ ok tt
    → (held : RandCommit) × (r ≡ ok held) × (check held ≡ ok tt)
after_staking (ok held) check e = (held, refl, e)
after_staking (err x) check e = absurd (cc)

module _ (calc_hash : List ℕ → Hash) where
  -- The second of two slices with their lengths is what is behind the first.
  behind :
      (domain x : List ℕ)
      → drop 4 (
          drop
            (length (bytes_to_len_and_bytes domain))
            (bytes_to_len_and_bytes domain ++ parts_bytes (x ∷ [])))
        ≡ x
  behind domain x =
      ap (drop 4) (
        drop-append (bytes_to_len_and_bytes domain) (parts_bytes (x ∷ []))
          (length (bytes_to_len_and_bytes domain)) refl)
      ∙ unfold bytes_to_len_and_bytes in append-nil x

  same_seed :
      (sized : (x : List ℕ) → length (calc_hash x) ≡ hash_length) (x y : List ℕ)
      → randao_commitment calc_hash x ≡ randao_commitment calc_hash y
      → (x ≡ y) ⊎ Collision calc_hash
  unfolding randao_commitment domain_hash
  same_seed sized x y e =
      let input =
        λ (z : List ℕ). bytes_to_len_and_bytes randao_commit_domain ++ parts_bytes (z ∷ []) in
      let hash = λ (z : List ℕ). get_hash_from_bytes_lem (calc_hash (input z)) (sized (input z)) in
      elim (same_input calc_hash (input x) (input y) (sym (hash x) ∙ e ∙ hash y)) [
        | inl same ↦ inl (
            sym (behind randao_commit_domain x)
            ∙ ap (λ b. drop 4 (drop (length (bytes_to_len_and_bytes randao_commit_domain)) b)) same
            ∙ behind randao_commit_domain y)
        | inr c ↦ inr c
      ]

  stateless_fields :
      (x last : Block)
      → eqb_ℤ (header_of x).height (pos 0) ≡ false
      → verify_randao_stateless calc_hash x last ≡ ok tt
      → (x.base_block.rand_mix
          ≡ mix_hash calc_hash
              (parent_mix calc_hash last)
              (header_of x).height
              x.base_block.rand_reveal)
        × (eqb_ℤ x.base_block.rand_oracle (rand_from_mix calc_hash x.base_block.rand_mix) ≡ true)
  unfolding verify_randao_stateless
  stateless_fields x last h e = ground arith

  -- An accepted reveal opens the commitment that is due, or is empty where none is.
  accepted_reveal :
      (height : ℤ) (x : List ℕ) (held : RandCommit)
      → check_reveal calc_hash height x held ≡ ok tt
      → ((reveal_due held.height height ≡ true) × (randao_commitment calc_hash x ≡ held.commit))
        ⊎ ((reveal_due held.height height ≡ false) × (x ≡ []))
  unfolding check_reveal
  accepted_reveal height [] held e = ground arith
  accepted_reveal height (b ∷ x) held e = ground arith

  same_reveal :
      (sized : (x : List ℕ) → length (calc_hash x) ≡ hash_length) (height : ℤ) (x y : List ℕ)
      (held : RandCommit)
      → check_reveal calc_hash height x held ≡ ok tt
      → check_reveal calc_hash height y held ≡ ok tt
      → (x ≡ y) ⊎ Collision calc_hash
  same_reveal sized height x y held e f = elim (accepted_reveal height x held e) [
    | inl (due, p) ↦ elim (accepted_reveal height y held f) [
      | inl (d, q) ↦ same_seed sized x y (p ∙ sym q)
      | inr (d, q) ↦ absurd (cc)
    ]
    | inr (due, p) ↦ elim (accepted_reveal height y held f) [
      | inl (d, q) ↦ absurd (cc)
      | inr (d, q) ↦ inl (p ∙ sym q)
    ]
  ]

  -- The check of an accepted block's reveal, by the commitment that the chain holds for its operator.
  reveal_checked :
      (x : Block) (s : StakingAccounts)
      → eqb_ℤ (header_of x).height (pos 0) ≡ false
      → verify_randao_reveal calc_hash x s ≡ ok tt
      → (held : RandCommit) × (get_rand_commit
            (must_delegated_account_id (header_of x).delegated_account.byte_value)
            (header_of x).operator_account.byte_value
            s
          ≡ ok held)
        × (check_reveal calc_hash (header_of x).height x.base_block.rand_reveal held ≡ ok tt)
  unfolding verify_randao_reveal
  reveal_checked x s h e =
      let header = header_of x in
      after_staking
        (get_rand_commit (must_delegated_account_id header.delegated_account.byte_value)
          header.operator_account.byte_value s)
        (check_reveal calc_hash header.height x.base_block.rand_reveal) (ground arith)

  -- The hash gives 32 bytes. Of two blocks of one operator, accepted at the same height on the same
  -- parent and the same staking state, neither being the genesis block, the mixes and the random
  -- values are equal, or two different inputs of the hash with one value are found.
  pub verify_randao-binding :
      (sized : (x : List ℕ) → length (calc_hash x) ≡ hash_length) (last x y : Block)
      (s : StakingAccounts)
      → eqb_ℤ (header_of x).height (pos 0) ≡ false
      → (header_of x).height ≡ (header_of y).height
      → (header_of x).delegated_account.byte_value ≡ (header_of y).delegated_account.byte_value
      → (header_of x).operator_account.byte_value ≡ (header_of y).operator_account.byte_value
      → verify_randao_stateless calc_hash x last ≡ ok tt
      → verify_randao_stateless calc_hash y last ≡ ok tt
      → verify_randao_reveal calc_hash x s ≡ ok tt
      → verify_randao_reveal calc_hash y s ≡ ok tt
      → ((x.base_block.rand_mix ≡ y.base_block.rand_mix)
          × (x.base_block.rand_oracle ≡ y.base_block.rand_oracle))
        ⊎ Collision calc_hash
  verify_randao-binding sized last x y s h eh ed eo vx vy rx ry =
      let (held, ex, cx) = reveal_checked x s h rx in
      let (held', ey, cy) = reveal_checked y s (ap (λ n. eqb_ℤ n (pos 0)) (sym eh) ∙ h) ry in
      let (mx, ox) = stateless_fields x last h vx in
      let (my, oy) = stateless_fields y last (ap (λ n. eqb_ℤ n (pos 0)) (sym eh) ∙ h) vy in
      let moved : get_rand_commit
            (must_delegated_account_id (header_of x).delegated_account.byte_value)
            (header_of x).operator_account.byte_value s
          ≡ ok held' =
        rw (ed, eo) ey in
      let one = same_held _ held held' ex moved in
      let there : check_reveal calc_hash (header_of x).height y.base_block.rand_reveal held
          ≡ ok tt =
        rw (eh, one) cy in
      elim (same_reveal sized (header_of x).height x.base_block.rand_reveal y.base_block.rand_reveal
        held cx there) [
          | inl same ↦
              let mixes : x.base_block.rand_mix ≡ y.base_block.rand_mix = cc in
              inl (
                mixes,
                eq_of_eqb x.base_block.rand_oracle (rand_from_mix calc_hash x.base_block.rand_mix)
                      ox
                    ∙ ap (rand_from_mix calc_hash) mixes
                    ∙ sym (
                        eq_of_eqb y.base_block.rand_oracle
                          (rand_from_mix calc_hash y.base_block.rand_mix) oy),
              )
          | inr c ↦ inr c
        ]
