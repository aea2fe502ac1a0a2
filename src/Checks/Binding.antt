-- ===== src/Checks/Binding.antt =====
-- What the hash of a block determines of it when `CheckBaseBlock` of blocks/processBlock.go passes.
use qwid_node.Blocks.RoundTrip.{base_block_from_bytes-base_block_bytes}
use qwid_node.Blocks.WellFormed.{IsBaseBlock}
use qwid_node.Blocks.Bytes.{base_block_bytes, base_block_from_bytes}
use qwid_node.Wire.Fields.{get_hash_from_bytes_lem}
use qwid_node.Merkle.Roots.{ZeroPreimage, get_root_hash-binding}
use qwid_node.Hashes.{Collision, same_input}
use qwid_node.Base.{
  All, Bool, List, Result, [], ap, arith, err, false, if_neg, inl, inr, length, not, not_negated,
  ok, refl, sym, true, ℕ, ◌&&◌, ◌++◌, ◌>>=◌, ◌∙◌, ◌∷◌, ◌≡◌, ◌⊎◌,
}
use qwid_node.Base.Int.{ltb_ℤ, pos, ℤ}
use qwid_node.Types.{Hash, bytes_discrete}
use qwid_node.Blocks.{BaseBlock, Block, BlockError}
use qwid_node.Merkle.{MerkleTree, build_merkle_tree, get_root_hash, same_hash}
use qwid_node.Randao.{header_of}
use qwid_node.Checks.{
  CheckError, all_of, base_block_checks, calc_block_hash, calc_body_hash, calc_header_hash,
  check_base_block, reject_if, wrong_block_hash, wrong_body_hash, wrong_header_hash,
  wrong_merkle_root,
}

all_of_ok :
    (cs : List (Result CheckError (Unit {0}))) (u : Unit {0})
    → all_of cs ≡ ok u
    → All (λ c. c ≡ ok tt) cs
unfolding all_of
all_of_ok [] u e = tt
all_of_ok (ok v ∷ cs) u e = (refl, all_of_ok cs u e)
all_of_ok (err x ∷ cs) u e = absurd (ground arith)

then_ok :
    {B : Type 0} (m : Result CheckError (Unit {0})) (x y : B)
    → (m >>= (λ u. ok x)) ≡ ok y
    → m ≡ ok tt
then_ok (ok u) x y e = refl
then_ok (err z) x y e = absurd (ground arith)

same_hash-eq : (a b : List ℕ) → same_hash a b ≡ true → a ≡ b
same_hash-eq a b e = elim (bytes_discrete a b) [
  | yes p ↦ p
  | no n ↦ absurd (wrong (sym (if_neg (bytes_discrete a b) n true false) ∙ e))
]
  where
    wrong : false ≡ true → ⊥
    wrong h = ground arith

not_rejected : (bad : Bool) (e : CheckError) → reject_if bad e ≡ ok tt → bad ≡ false
not_rejected true e h = absurd (ground arith)
not_rejected false e h = refl

rejected_both : (a b : Bool) → (a && not b) ≡ false → a ≡ true → b ≡ true
rejected_both a b h k = ground arith

abbrev read_ok : BaseBlock → List ℕ → Result BlockError (BaseBlock × List ℕ)
read_ok x r = ok (x, r)

abbrev block_in : BaseBlock → Result BlockError (BaseBlock × List ℕ) → BaseBlock
block_in d (ok p) = p.0
block_in d (err e) = d

-- The bytes of a base block determine it.
base_block_bytes_inj :
    (bb other : BaseBlock)
    → IsBaseBlock bb
    → IsBaseBlock other
    → base_block_bytes bb ≡ base_block_bytes other
    → bb ≡ other
base_block_bytes_inj bb other h k e = same_block (
    sym (base_block_from_bytes-base_block_bytes bb [] h)
    ∙ ap (λ x. base_block_from_bytes (x ++ [])) e
    ∙ base_block_from_bytes-base_block_bytes other [] k)
  where
    same_block : {x y : BaseBlock} {r t : List ℕ} → read_ok x r ≡ read_ok y t → x ≡ y
    same_block {x} q = ap (block_in x) q

module _ (calc_hash : List ℕ → Hash) (valid_proof : Hash → ℤ → Bool)
    (authentic : Block → Block → Bool) (schemes_allowed : Block → Block → Bool) (now : ℤ) where
  -- What an accepted block has been compared with.
  abbrev pub IsBound : Block → Type 0
  IsBound b =
      (calc_block_hash calc_hash b ≡ b.block_hash)
      × (calc_header_hash calc_hash (header_of b) ≡ b.base_block.block_header_hash)
      × (calc_body_hash calc_hash b.base_block ≡ (header_of b).body_hash)
      × (ltb_ℤ (pos 0) (header_of b).height ≡ true
          → get_root_hash (build_merkle_tree calc_hash b.transactions_hashes)
            ≡ (header_of b).root_merkle_tree)

  check_base_block-IsBound :
      (b last : Block) (force : Bool) (tree : MerkleTree)
      → check_base_block calc_hash valid_proof authentic schemes_allowed now b last force ≡ ok tree
      → IsBound b
  unfolding check_base_block base_block_checks
  check_base_block-IsBound b last force tree e =
      let passed : All (λ c. c ≡ ok tt)
          (base_block_checks calc_hash valid_proof authentic schemes_allowed now b last force) =
        all_of_ok
          (base_block_checks calc_hash valid_proof authentic schemes_allowed now b last force) tt
          (then_ok
            (all_of
              (base_block_checks calc_hash valid_proof authentic schemes_allowed now b last force))
            _ tree e) in
      let (
        c1,
        (c2, (c3, (c4, (c5, (block_hash, (header_hash, (body_hash, (c9, (root, more))))))))),
      ) =
        passed in
      (
        same_hash-eq (calc_block_hash calc_hash b) b.block_hash
            (not_negated _ (not_rejected _ wrong_block_hash block_hash)),
        same_hash-eq (calc_header_hash calc_hash (header_of b)) b.base_block.block_header_hash
            (not_negated _ (not_rejected _ wrong_header_hash header_hash)),
        same_hash-eq (calc_body_hash calc_hash b.base_block) (header_of b).body_hash
            (not_negated _ (not_rejected _ wrong_body_hash body_hash)),
        λ (h : ltb_ℤ (pos 0) (header_of b).height ≡ true).
            same_hash-eq (get_root_hash (build_merkle_tree calc_hash b.transactions_hashes))
              (header_of b).root_merkle_tree
              (rejected_both _ _ (not_rejected _ wrong_merkle_root root) h),
      )

  same_base :
      ((x : List ℕ) → length (calc_hash x) ≡ 32)
      → (b c : Block) → IsBaseBlock b.base_block
      → IsBaseBlock c.base_block
      → calc_block_hash calc_hash b ≡ calc_block_hash calc_hash c
      → (b.base_block ≡ c.base_block) ⊎ Collision calc_hash
  unfolding calc_block_hash
  same_base sized b c h k e =
      let x : List ℕ = base_block_bytes b.base_block in
      let y : List ℕ = base_block_bytes c.base_block in
      elim (same_input calc_hash x y (
        sym (get_hash_from_bytes_lem (calc_hash x) (sized x))
        ∙ e
        ∙ get_hash_from_bytes_lem (calc_hash y) (sized y))) [
          | inl same ↦ inl (base_block_bytes_inj b.base_block c.base_block h k same)
          | inr collision ↦ inr collision
        ]

  -- Two blocks with one block hash that `CheckBaseBlock` accepts, each against a parent of its own,
  -- have the same base block, header and body, and the same transaction hashes in the same order; or
  -- else the hash function has a collision or an input whose hash is zero. Hashes have 32 bytes, the
  -- fields fit their Go types and the limits of the encoding, and the blocks are not at height 0.
  -- The fee that a block carries beside its base block is not covered.
  pub check_base_block-binding :
      ((x : List ℕ) → length (calc_hash x) ≡ 32)
      → (b c last last' : Block) (force force' : Bool) (tree tree' : MerkleTree)
      → IsBaseBlock b.base_block
      → IsBaseBlock c.base_block
      → ltb_ℤ (pos 0) (header_of b).height ≡ true
      → check_base_block calc_hash valid_proof authentic schemes_allowed now b last force ≡ ok tree
      → check_base_block calc_hash valid_proof authentic schemes_allowed now c last' force'
        ≡ ok tree'
      → b.block_hash ≡ c.block_hash
      → ((b.base_block ≡ c.base_block) × (b.transactions_hashes ≡ c.transactions_hashes))
        ⊎ (Collision calc_hash ⊎ ZeroPreimage calc_hash)
  check_base_block-binding sized b c last last' force force' tree tree' hb hc high eb ec same =
      let (hash_b, header_b, body_b, root_b) = check_base_block-IsBound b last force tree eb in
      let (hash_c, header_c, body_c, root_c) = check_base_block-IsBound c last' force' tree' ec in
      elim (same_base sized b c hb hc (hash_b ∙ same ∙ sym hash_c)) [
        | inr collision ↦ inr (inl collision)
        | inl one ↦
            let high_c : ltb_ℤ (pos 0) (header_of c).height ≡ true =
              ap (λ (bb : BaseBlock). ltb_ℤ (pos 0) bb.base_header.height) (sym one) ∙ high in
            let roots : get_root_hash (build_merkle_tree calc_hash b.transactions_hashes)
                ≡ get_root_hash (build_merkle_tree calc_hash c.transactions_hashes) =
              root_b high
              ∙ ap (λ (bb : BaseBlock). bb.base_header.root_merkle_tree) one
              ∙ sym (root_c high_c) in
            elim (get_root_hash-binding calc_hash sized b.transactions_hashes c.transactions_hashes
              roots) [ inl txs ↦ inl (one, txs) | inr broken ↦ inr broken ]
      ]
