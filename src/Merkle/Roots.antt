-- ===== src/Merkle/Roots.antt =====
-- The root hash that a header carries, and the trees it can be of: transactionsPool/merkleTree.go.
use qwid_node.Base.{
  All, Bool-cases, List, [], ap, arith, inl, inr, length, ltb, map, refl, suc, sym, zero, ℕ, ◌++◌,
  ◌∙◌, ◌∷◌, ◌≡◌, ◌≤◌, ◌⊎◌,
}
use qwid_node.Types.{Hash, hash_length, zero_hash}
use qwid_node.Hashes.{Collision}
use qwid_node.Merkle.{
  MerkleNode, build_levels, build_merkle_tree, get_root_hash, merkle_inner_tag, merkle_leaf_tag,
  new_inner, new_leaf, new_merkle_tree, next_level, node_data,
}
use qwid_node.Merkle.Binding.{length-new_merkle_tree, new_merkle_tree-binding}

-- An input whose hash is zero.
abbrev pub ZeroPreimage : (List ℕ → Hash) → Type 0
ZeroPreimage calc_hash = (x : List ℕ) × (calc_hash x ≡ zero_hash)

module _ (calc_hash : List ℕ → Hash) where
  abbrev IsHashed : MerkleNode → Type 0
  IsHashed n = (x : List ℕ) × (calc_hash x ≡ node_data n)

  leaves-IsHashed : (xs : List (List ℕ)) → All IsHashed (map (new_leaf calc_hash) xs)
  unfolding new_leaf
  leaves-IsHashed [] = tt
  leaves-IsHashed (x ∷ xs) = ((merkle_leaf_tag ∷ x, refl), leaves-IsHashed xs)

  next_level-IsHashed :
      (ns : List MerkleNode) → All IsHashed ns → All IsHashed (next_level calc_hash ns)
  unfolding next_level new_inner
  next_level-IsHashed [] h = tt
  next_level-IsHashed (a ∷ []) h = h
  next_level-IsHashed (a ∷ b ∷ ns) (ha, (hb, h)) =
      ((merkle_inner_tag ∷ node_data a ++ node_data b, refl), next_level-IsHashed ns h)

  build_levels-IsHashed :
      (fuel : ℕ) (ns : List MerkleNode)
      → All IsHashed ns
      → All IsHashed (build_levels calc_hash fuel ns)
  unfolding build_levels
  build_levels-IsHashed zero ns h = h
  build_levels-IsHashed (suc fuel) ns h = elim (Bool-cases (ltb 1 (length ns))) [
    | inl e ↦
        rw (e, build_levels)
          (build_levels-IsHashed fuel (next_level calc_hash ns) (next_level-IsHashed ns h))
    | inr e ↦ rw (e, build_levels) h
  ]

  new_merkle_tree-IsHashed : (xs : List (List ℕ)) → All IsHashed (new_merkle_tree calc_hash xs)
  unfolding new_merkle_tree
  new_merkle_tree-IsHashed xs =
      build_levels-IsHashed (length xs) (map (new_leaf calc_hash) xs) (leaves-IsHashed xs)

  abbrev root_of : List MerkleNode → Hash
  root_of [] = zero_hash
  root_of (n ∷ ns) = node_data n

  same_roots :
      (ns ms : List MerkleNode)
      → All IsHashed ns
      → All IsHashed ms
      → length ns ≤ 1
      → length ms ≤ 1
      → root_of ns ≡ root_of ms
      → (map node_data ns ≡ map node_data ms) ⊎ ZeroPreimage calc_hash
  same_roots [] [] h k a b e = inl refl
  same_roots [] (m ∷ ms) h ((y, k), ks) a b e = inr (y, k ∙ sym e)
  same_roots (n ∷ ns) [] ((x, h), hs) k a b e = inr (x, h ∙ e)
  same_roots (n ∷ []) (m ∷ []) h k a b e = inl (ap (λ d. d ∷ []) e)
  same_roots (n ∷ n' ∷ ns) (m ∷ ms) h k a b e = absurd (omega arith)
  same_roots (n ∷ []) (m ∷ m' ∷ ms) h k a b e = absurd (omega arith)

  get_root_hash_lem :
      (xs : List (List ℕ))
      → get_root_hash (build_merkle_tree calc_hash xs) ≡ root_of (new_merkle_tree calc_hash xs)
  unfolding get_root_hash build_merkle_tree
  get_root_hash_lem xs =
      elim (new_merkle_tree calc_hash xs)
        as (λ ns. get_root_hash (record { root = ns; tx_hashes = xs }) ≡ root_of ns) [
          | [] ↦ refl
          | n ∷ ns ↦ refl
        ]

  one_root : (xs : List (List ℕ)) → length (new_merkle_tree calc_hash xs) ≤ 1
  one_root xs = ground (arith, length-new_merkle_tree calc_hash xs)

  -- Two lists of transaction hashes with one root hash are equal, or else the hash function has a
  -- collision or an input whose hash is zero, the root hash of the empty list.
  pub get_root_hash-binding :
      ((x : List ℕ) → length (calc_hash x) ≡ hash_length)
      → (xs ys : List (List ℕ))
      → get_root_hash (build_merkle_tree calc_hash xs)
        ≡ get_root_hash (build_merkle_tree calc_hash ys)
      → (xs ≡ ys) ⊎ (Collision calc_hash ⊎ ZeroPreimage calc_hash)
  get_root_hash-binding sized xs ys e =
      elim (same_roots (new_merkle_tree calc_hash xs) (new_merkle_tree calc_hash ys)
        (new_merkle_tree-IsHashed xs) (new_merkle_tree-IsHashed ys) (one_root xs) (one_root ys)
        (sym (get_root_hash_lem xs) ∙ e ∙ get_root_hash_lem ys)) [
          | inr z ↦ inr (inr z)
          | inl roots ↦ elim (new_merkle_tree-binding calc_hash sized xs ys roots) [
            | inl same ↦ inl same
            | inr c ↦ inr (inl c)
          ]
        ]
