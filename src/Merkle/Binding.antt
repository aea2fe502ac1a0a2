-- ===== src/Merkle/Binding.antt =====
-- A root commits to the list of hashes: two lists with one root are equal, or show a collision of the
-- hash function.
use qwid_node.Base.{
  Bool-cases, List, [], ap, append_assoc, arith, drop, drop-append, if◌then◌else◌, inl, inr, length,
  ltb, map, refl, suc, sym, take, take-append, zero, ℕ, ◌*◌, ◌++◌, ◌<◌, ◌==◌, ◌∙◌, ◌∷◌, ◌≡◌, ◌≤◌,
  ◌⊎◌,
}
use qwid_node.Hashes.{Collision, same_input}
use qwid_node.Types.{Hash, hash_length}
use qwid_node.Merkle.{
  MerkleNode, build_levels, inner, leaf, merkle_inner_tag, merkle_leaf_tag, new_inner, new_leaf,
  new_merkle_tree, next_level, node_data,
}

module _ (calc_hash : List ℕ → Hash) where
  -- The node is the root of a tree with these leaves.
  abbrev Covers : MerkleNode → List (List ℕ) → Type 0
  Covers (leaf d) xs = (x : List ℕ) × (xs ≡ x ∷ []) × (d ≡ calc_hash (merkle_leaf_tag ∷ x))
  Covers (inner l r d) xs =
      (ys : List (List ℕ)) × (zs : List (List ℕ)) × (xs ≡ ys ++ zs)
      × Covers l ys
      × Covers r zs
      × (d ≡ calc_hash (merkle_inner_tag ∷ node_data l ++ node_data r))

  abbrev CoverAll : List MerkleNode → List (List ℕ) → Type 0
  CoverAll [] xs = xs ≡ []
  CoverAll (n ∷ ns) xs =
      (ys : List (List ℕ)) × (zs : List (List ℕ)) × (xs ≡ ys ++ zs) × Covers n ys × CoverAll ns zs

  new_inner-Covers :
      (a b : MerkleNode) (xs ys : List (List ℕ))
      → Covers a xs
      → Covers b ys
      → Covers (new_inner calc_hash a b) (xs ++ ys)
  unfolding new_inner
  new_inner-Covers a b xs ys h k = (xs, ys, refl, h, k, refl)

  leaves_cover : (xs : List (List ℕ)) → CoverAll (map (new_leaf calc_hash) xs) xs
  unfolding new_leaf
  leaves_cover [] = refl
  leaves_cover (x ∷ xs) = (x ∷ [], xs, refl, (x, refl, refl), leaves_cover xs)

  next_level-CoverAll :
      (ns : List MerkleNode) (xs : List (List ℕ))
      → CoverAll ns xs
      → CoverAll (next_level calc_hash ns) xs
  unfolding next_level
  next_level-CoverAll [] xs h = h
  next_level-CoverAll (a ∷ []) xs h = h
  next_level-CoverAll (a ∷ b ∷ ns) xs (us, rest, e, ca, (bs, zs, f, cb, more)) = (
    us ++ bs,
    zs,
    e ∙ ap (◌++◌ us) f ∙ sym (append_assoc us bs zs),
    new_inner-Covers a b us bs ca cb,
    next_level-CoverAll ns zs more,
  )

  length-next_level :
      (ns : List MerkleNode) → 2 * length (next_level calc_hash ns) ≤ suc (length ns)
  unfolding next_level
  length-next_level [] = omega arith
  length-next_level (a ∷ []) = omega arith
  length-next_level (a ∷ b ∷ ns) = omega (arith, length-next_level ns)

  next_level_some : (ns : List MerkleNode) → 0 < length ns → 0 < length (next_level calc_hash ns)
  unfolding next_level
  next_level_some [] h = h
  next_level_some (a ∷ []) h = h
  next_level_some (a ∷ b ∷ ns) h = omega arith

  build_levels-CoverAll :
      (fuel : ℕ) (ns : List MerkleNode) (xs : List (List ℕ))
      → CoverAll ns xs
      → CoverAll (build_levels calc_hash fuel ns) xs
  unfolding build_levels
  build_levels-CoverAll zero ns xs h = h
  build_levels-CoverAll (suc fuel) ns xs h = elim (Bool-cases (ltb 1 (length ns))) [
    | inl more ↦
        rw (more, build_levels)
          (build_levels-CoverAll fuel (next_level calc_hash ns) xs (next_level-CoverAll ns xs h))
    | inr done ↦ rw (done, build_levels) h
  ]

  -- Enough fuel ends with one node, or with none if there was none.
  build_levels_end :
      (fuel : ℕ) (ns : List MerkleNode)
      → length ns ≤ fuel
      → (length (build_levels calc_hash fuel ns) ≤ 1)
        × (0 < length ns → 0 < length (build_levels calc_hash fuel ns))
  unfolding build_levels
  build_levels_end zero ns h = (omega arith, λ k. k)
  build_levels_end (suc fuel) ns h = elim (Bool-cases (ltb 1 (length ns))) [
    | inl more ↦
        let two : 1 < length ns = ground arith in
        let (a, b) =
          build_levels_end fuel (next_level calc_hash ns)
            (omega (arith, length-next_level ns, two)) in
        rw (more, build_levels) (a, λ k. b (next_level_some ns k))
    | inr done ↦ rw (done, build_levels) (ground arith, λ k. k)
  ]

  abbrev leaves : List (List ℕ) → List MerkleNode
  leaves xs = map (new_leaf calc_hash) xs

  abbrev built : List (List ℕ) → List MerkleNode
  built xs = build_levels calc_hash (length xs) (leaves xs)

  length-leaves : (xs : List (List ℕ)) → length (leaves xs) ≡ length xs
  length-leaves [] = refl
  length-leaves (x ∷ xs) = ap suc (length-leaves xs)

  -- The loop that builds the tree ends: a list that is not empty has exactly one root, and the empty
  -- list has none.
  pub length-new_merkle_tree :
      (xs : List (List ℕ))
      → length (new_merkle_tree calc_hash xs) ≡ (if length xs == 0 then 0 else 1)
  unfolding new_merkle_tree
  length-new_merkle_tree [] = unfold build_levels in refl
  length-new_merkle_tree (x ∷ xs) =
      let (a, b) =
        build_levels_end (length (x ∷ xs)) (leaves (x ∷ xs)) (omega (arith, length-leaves xs)) in
      ground (arith, a, b (omega arith))

  module _ (sized : (x : List ℕ) → length (calc_hash x) ≡ hash_length) where
    length-node_data :
        (n : MerkleNode) (xs : List (List ℕ)) → Covers n xs → length (node_data n) ≡ hash_length
    length-node_data (leaf d) xs (x, e, h) = rw h (sized (merkle_leaf_tag ∷ x))
    length-node_data (inner l r d) xs (ys, zs, e, cl, cr, h) =
        rw h (sized (merkle_inner_tag ∷ node_data l ++ node_data r))

    split_data : (a b c d : List ℕ) → length a ≡ length c → a ++ b ≡ c ++ d → (a ≡ c) × (b ≡ d)
    split_data a b c d e h = (
      sym (take-append a b (length a) refl) ∙ ap (take (length a)) h ∙ take-append c d (length a) e,
      sym (drop-append a b (length a) refl) ∙ ap (drop (length a)) h ∙ drop-append c d (length a) e,
    )

    tags_differ : (x y : List ℕ) → ¬ (merkle_leaf_tag ∷ x ≡ merkle_inner_tag ∷ y)
    tags_differ x y h = cc

    same_leaves :
        (n m : MerkleNode) (xs ys : List (List ℕ))
        → Covers n xs
        → Covers m ys
        → node_data n ≡ node_data m
        → (xs ≡ ys) ⊎ Collision calc_hash
    same_leaves (leaf d) (leaf d') xs ys (x, e, h) (y, f, k) same =
        elim (same_input calc_hash (merkle_leaf_tag ∷ x) (merkle_leaf_tag ∷ y) (sym h ∙ same ∙ k)) [
          | inl q ↦ inl (cc)
          | inr c ↦ inr c
        ]
    same_leaves (leaf d) (inner l r d') xs ys (x, e, h) (ys1, ys2, f, cl, cr, k) same =
        elim (same_input calc_hash (merkle_leaf_tag ∷ x)
          (merkle_inner_tag ∷ node_data l ++ node_data r) (sym h ∙ same ∙ k)) [
            | inl q ↦ absurd (tags_differ x (node_data l ++ node_data r) q)
            | inr c ↦ inr c
          ]
    same_leaves (inner l r d) (leaf d') xs ys (xs1, xs2, e, cl, cr, h) (y, f, k) same =
        elim (same_input calc_hash (merkle_leaf_tag ∷ y)
          (merkle_inner_tag ∷ node_data l ++ node_data r) (sym k ∙ sym same ∙ h)) [
            | inl q ↦ absurd (tags_differ y (node_data l ++ node_data r) q)
            | inr c ↦ inr c
          ]
    same_leaves (inner l r d) (inner l' r' d') xs ys (xs1, xs2, e, cl, cr, h)
          (ys1, ys2, f, cl', cr', k) same =
        elim (same_input calc_hash (merkle_inner_tag ∷ node_data l ++ node_data r)
          (merkle_inner_tag ∷ node_data l' ++ node_data r') (sym h ∙ same ∙ k)) [
            | inl q ↦
                let (a, b) =
                  split_data (node_data l) (node_data r) (node_data l') (node_data r')
                    (length-node_data l xs1 cl ∙ sym (length-node_data l' ys1 cl'))
                    (ap (drop 1) q) in
                elim (same_leaves l l' xs1 ys1 cl cl' a) [
                  | inl p ↦ elim (same_leaves r r' xs2 ys2 cr cr' b) [
                    | inl p' ↦ inl (cc)
                    | inr c ↦ inr c
                  ]
                  | inr c ↦ inr c
                ]
            | inr c ↦ inr c
          ]

    same_root :
        (ns ms : List MerkleNode) (xs ys : List (List ℕ))
        → CoverAll ns xs
        → CoverAll ms ys
        → length ns ≤ 1
        → length ms ≤ 1
        → map node_data ns ≡ map node_data ms
        → (xs ≡ ys) ⊎ Collision calc_hash
    same_root [] [] xs ys h k a b e = inl (h ∙ sym k)
    same_root [] (m ∷ ms) xs ys h k a b e = absurd (cc)
    same_root (n ∷ ns) [] xs ys h k a b e = absurd (cc)
    same_root (n ∷ []) (m ∷ []) xs ys (xs1, xs2, p, cn, more) (ys1, ys2, q, cm, others) a b e =
        elim (same_leaves n m xs1 ys1 cn cm (cc)) [ inl f ↦ inl (cc) | inr c ↦ inr c ]
    same_root (n ∷ n' ∷ ns) (m ∷ ms) xs ys h k a b e = absurd (omega arith)
    same_root (n ∷ []) (m ∷ m' ∷ ms) xs ys h k a b e = absurd (omega arith)

    -- Where every hash has 32 bytes, the trees over two lists of transaction hashes have the same root
    -- only if the lists are equal, length and order included, or else two different inputs of the hash
    -- function with one hash are at hand.
    pub new_merkle_tree-binding :
        (xs ys : List (List ℕ))
        → map node_data (new_merkle_tree calc_hash xs)
          ≡ map node_data (new_merkle_tree calc_hash ys)
        → (xs ≡ ys) ⊎ Collision calc_hash
    unfolding new_merkle_tree
    new_merkle_tree-binding xs ys e =
        same_root (built xs) (built ys) xs ys
          (build_levels-CoverAll (length xs) (leaves xs) xs (leaves_cover xs))
          (build_levels-CoverAll (length ys) (leaves ys) ys (leaves_cover ys))
          (build_levels_end (length xs) (leaves xs) (omega (arith, length-leaves xs))).0
          (build_levels_end (length ys) (leaves ys) (omega (arith, length-leaves ys))).0 e
