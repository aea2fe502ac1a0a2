-- ===== src/Randao/Producing.antt =====
-- A producer's randomness is accepted (blocks/randao.go, services/blockCreation.go).
use qwid_node.Staking.Reveals.{get-set_rand_commit}
use qwid_node.Staking.Nodes.{RandCommit, get_rand_commit}
use qwid_node.Staking.{StakingAccount, StakingAccounts}
use qwid_node.Delegated.{int_delegated_account_from_address}
use qwid_node.Wire.Fields.{get_hash_from_bytes_lem}
use qwid_node.Base.Table.{get}
use qwid_node.Base.{
  Bool-cases, List, [], ap, arith, false, inl, inr, length, ok, refl, some, sym, true, ℕ, ◌<◌, ◌∙◌,
  ◌≡◌, ◌≢◌, ◌⊎◌,
}
use qwid_node.Base.Int.{eqb_ℤ, pos, ℤ, ◌<ℤ◌}
use qwid_node.Types.{Address, Hash, bytes_discrete, hash_length, zero_hash}
use qwid_node.Blocks.{Block}
use qwid_node.Randao.{
  RandaoFields, Wallet, apply_randao_commit, check_reveal, domain_hash, header_of, is_delegated,
  mix_hash, must_delegated_account_id, open_commitment, parent_mix, rand_from_mix,
  randao_commitment, randao_fields, randao_for_block, randao_seed, reveal_due, verify_randao_reveal,
  verify_randao_stateless,
}

-- The block with the fields that were made for it, and no other source of randomness.
abbrev pub with_randao : RandaoFields → Block → Block
with_randao f b = record b {
  base_block = record b.base_block {
    rand_oracle = f.rand;
    rand_oracle_data = [];
    rand_reveal = f.reveal;
    rand_commit = f.commit;
    rand_mix = f.mix;
  };
}

eqb_refl : (a : ℤ) → eqb_ℤ a a ≡ true
eqb_refl a = ground arith

must_delegated_account_id_lem :
    (a : Address) (n : ℕ)
    → int_delegated_account_from_address a ≡ ok n
    → must_delegated_account_id a ≡ pos n
unfolding must_delegated_account_id
must_delegated_account_id_lem a n e = ground arith

module _ (calc_hash : List ℕ → Hash)
    (sized : (x : List ℕ) → length (calc_hash x) ≡ hash_length) where
  length-randao_seed :
      (w : Wallet) (height : ℤ) (seed : List ℕ)
      → randao_seed calc_hash w height ≡ ok seed
      → length seed ≡ hash_length
  unfolding randao_seed
  length-randao_seed w height seed e = grind (arith, sized)

  -- The reveal that is made passes its check.
  reveal_accepted :
      (w : Wallet) (height at : ℤ) (seed : List ℕ)
      → randao_seed calc_hash w at ≡ ok seed
      → (reveal : List ℕ) × (open_commitment calc_hash w height
            (record { commit = randao_commitment calc_hash seed; height = at })
          ≡ ok reveal)
        × (check_reveal calc_hash height reveal
              (record { commit = randao_commitment calc_hash seed; height = at })
            ≡ ok tt)
        × ((length reveal ≡ 0) ⊎ (length reveal ≡ hash_length))
  unfolding open_commitment check_reveal
  reveal_accepted w height at seed e = elim (Bool-cases (reveal_due at height)) [
    | inl due ↦ (
      seed,
      ground (arith, due, e),
      ground (arith, due, length-randao_seed w at seed e),
      inr (length-randao_seed w at seed e),
    )
    | inr not_due ↦ ([], ground (arith, not_due), ground (arith, not_due), inl refl)
  ]

  pub stateless_accepted :
      (x parent : Block) (reveal next : List ℕ)
      → eqb_ℤ (header_of x).height (pos 0) ≡ false
      → (length reveal ≡ 0) ⊎ (length reveal ≡ hash_length)
      → randao_commitment calc_hash next ≢ zero_hash
      → verify_randao_stateless calc_hash
          (with_randao (randao_fields calc_hash parent (header_of x).height reveal next) x)
          parent
        ≡ ok tt
  unfolding verify_randao_stateless randao_fields
  stateless_accepted x parent reveal next h k nz = ground (
    arith,
    h,
    k,
    nz,
    eqb_refl (
        rand_from_mix calc_hash
          (mix_hash calc_hash (parent_mix calc_hash parent) (header_of x).height reveal)),
  )

  length-randao_commitment :
      (seed : List ℕ) → length (randao_commitment calc_hash seed) ≡ hash_length
  unfolding randao_commitment domain_hash
  length-randao_commitment seed = ap length (get_hash_from_bytes_lem _ (sized _)) ∙ sized _

  -- What the chain holds after a block's commitment is applied.
  commitment_applied :
      (b : Block) (n : ℕ) (s : StakingAccounts) (sa : StakingAccount) (seed : List ℕ)
      → int_delegated_account_from_address (header_of b).delegated_account.byte_value ≡ ok n
      → is_delegated (pos n) ≡ true
      → pos 0 <ℤ (header_of b).height
      → b.base_block.rand_commit ≡ randao_commitment calc_hash seed
      → get bytes_discrete (header_of b).operator_account.byte_value (s n).all_staking_accounts
        ≡ some sa
      → (t : StakingAccounts) × (apply_randao_commit b s ≡ ok t)
        × (get_rand_commit (pos n) (header_of b).operator_account.byte_value t
            ≡ ok (record {
              commit = randao_commitment calc_hash seed;
              height = (header_of b).height;
            }))
  unfolding apply_randao_commit
  commitment_applied b n s sa seed en dn h ec ea =
      let a = (header_of b).operator_account.byte_value in
      let small : n < 256 = ground (arith, dn) in
      let (t, set, got) =
        get-set_rand_commit n n a a (randao_commitment calc_hash seed) (header_of b).height sa s
          small small ea in
      let id : must_delegated_account_id (header_of b).delegated_account.byte_value ≡ pos n =
        must_delegated_account_id_lem _ n en in
      let copied =
        get_hash_from_bytes_lem (randao_commitment calc_hash seed)
          (length-randao_commitment seed) in
      (t, rw (id, ec, copied, set) (ground (arith, h, dn)), grind (arith, got))

  fields_made :
      (w : Wallet) (delegated : Address) (parent : Block) (height : ℤ) (n : ℕ) (t : StakingAccounts)
      (held : RandCommit) (reveal next : List ℕ)
      → int_delegated_account_from_address delegated ≡ ok n
      → is_delegated (pos n) ≡ true
      → get_rand_commit (pos n) w.main_address t ≡ ok held
      → open_commitment calc_hash w height held ≡ ok reveal
      → randao_seed calc_hash w height ≡ ok next
      → randao_for_block calc_hash w delegated parent height t
        ≡ ok (randao_fields calc_hash parent height reveal next)
  unfolding randao_for_block
  fields_made w delegated parent height n t held reveal next en dn eh eo ex =
      ground (arith, en, dn, eh, eo, ex)

  reveal_passes :
      (x : Block) (n : ℕ) (t : StakingAccounts) (held : RandCommit)
      → must_delegated_account_id (header_of x).delegated_account.byte_value ≡ pos n
      → is_delegated (pos n) ≡ true
      → eqb_ℤ (header_of x).height (pos 0) ≡ false
      → get_rand_commit (pos n) (header_of x).operator_account.byte_value t ≡ ok held
      → check_reveal calc_hash (header_of x).height x.base_block.rand_reveal held ≡ ok tt
      → verify_randao_reveal calc_hash x t ≡ ok tt
  unfolding verify_randao_reveal
  reveal_passes x n t held en dn hx eh ec = rw (hx, en, dn, eh) ec

  -- The hash gives 32 bytes. The wallet has a secret and belongs to a staker of a delegated account. An
  -- earlier block of this staker, above height 0, carries the commitment to the wallet's seed of that
  -- height; the commitment to its seed of the height of the next block, which is not 0, is not all
  -- zeros. Then the earlier commitment is applied without an error; on every parent the wallet gets
  -- its randomness fields for the next block, whether the commitment is due or has lapsed; and the
  -- block with these fields passes both checks.
  pub randao_for_block-accepted :
      (w : Wallet) (n : ℕ) (s : StakingAccounts) (sa : StakingAccount) (b x parent : Block)
      (first next : List ℕ)
      → int_delegated_account_from_address (header_of b).delegated_account.byte_value ≡ ok n
      → is_delegated (pos n) ≡ true
      → get bytes_discrete w.main_address (s n).all_staking_accounts ≡ some sa
      → (header_of b).operator_account.byte_value ≡ w.main_address
      → (header_of x).operator_account.byte_value ≡ w.main_address
      → (header_of x).delegated_account.byte_value ≡ (header_of b).delegated_account.byte_value
      → pos 0 <ℤ (header_of b).height
      → eqb_ℤ (header_of x).height (pos 0) ≡ false
      → randao_seed calc_hash w (header_of b).height ≡ ok first
      → b.base_block.rand_commit ≡ randao_commitment calc_hash first
      → randao_seed calc_hash w (header_of x).height ≡ ok next
      → randao_commitment calc_hash next ≢ zero_hash
      → (t : StakingAccounts) × (f : RandaoFields) × (apply_randao_commit b s ≡ ok t)
        × (randao_for_block calc_hash w
              (header_of x).delegated_account.byte_value
              parent
              (header_of x).height
              t
            ≡ ok f)
        × (verify_randao_stateless calc_hash (with_randao f x) parent ≡ ok tt)
        × (verify_randao_reveal calc_hash (with_randao f x) t ≡ ok tt)
  unfolding randao_fields
  randao_for_block-accepted w n s sa b x parent first next en dn ea ob ox dx hb hx ef ec ex nz =
      let (t, applied, held) = commitment_applied b n s sa first en dn hb ec (rw ob ea) in
      let (reveal, opened, checked, size) =
        reveal_accepted w (header_of x).height (header_of b).height first ef in
      let got : get_rand_commit (pos n) w.main_address t
          ≡ ok (record {
            commit = randao_commitment calc_hash first;
            height = (header_of b).height;
          }) =
        rw (sym ob) held in
      let account : int_delegated_account_from_address (header_of x).delegated_account.byte_value
          ≡ ok n =
        ap int_delegated_account_from_address dx ∙ en in
      let id = must_delegated_account_id_lem _ n account in
      let f = randao_fields calc_hash parent (header_of x).height reveal next in
      (
        t,
        f,
        applied,
        fields_made w (header_of x).delegated_account.byte_value parent (header_of x).height n t _
            reveal next account dn got opened ex,
        stateless_accepted x parent reveal next hx size nz,
        reveal_passes (with_randao f x) n t _ id dn hx (rw ox got) checked,
      )
