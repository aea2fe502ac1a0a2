-- ===== src/Merkle.antt =====
-- The Merkle tree over the transaction hashes of a block: transactionsPool/merkleTree.go. The hash,
-- `common.CalcHashToByte`, is the parameter `calc_hash`; it is Blake2b without a key, which has no
-- error case. Storing and loading trees is not modelled.
pub mod Binding
pub mod Roots
use qwid_node.Base.{
  Bool, List, [], false, if◌then◌else◌, ite, length, ltb, map, suc, true, zero, ℕ, ◌++◌, ◌∷◌,
}
use qwid_node.Types.{Hash, bytes_discrete, zero_hash}

-- A node is made without children or with both.
pub data MerkleNode : Type 0 where
  leaf : List ℕ → MerkleNode
  inner : MerkleNode → MerkleNode → List ℕ → MerkleNode

abbrev pub node_data : MerkleNode → List ℕ
node_data (leaf d) = d
node_data (inner left right d) = d

pub record MerkleTree : Type 0 where
  pub root : List MerkleNode
  pub tx_hashes : List (List ℕ)

abbrev pub merkle_leaf_tag : ℕ
merkle_leaf_tag = 0

abbrev pub merkle_inner_tag : ℕ
merkle_inner_tag = 1

module _ (calc_hash : List ℕ → Hash) where
  -- `NewMerkleNode(nil, nil, data)` and `NewMerkleNode(left, right, nil)`.
  unfoldable pub new_leaf : List ℕ → MerkleNode
  new_leaf d = leaf (calc_hash (merkle_leaf_tag ∷ d))

  unfoldable pub new_inner : MerkleNode → MerkleNode → MerkleNode
  new_inner left right =
      inner left right (calc_hash (merkle_inner_tag ∷ node_data left ++ node_data right))

  -- One level: neighbours are paired, and an odd last node is promoted as it is.
  unfoldable pub next_level : List MerkleNode → List MerkleNode
  unfolding new_inner
  next_level [] = []
  next_level (a ∷ []) = a ∷ []
  next_level (a ∷ b ∷ nodes) = new_inner a b ∷ next_level nodes

  -- `for len(nodes) > 1`, with fuel.
  unfoldable pub build_levels : ℕ → List MerkleNode → List MerkleNode
  unfolding next_level
  build_levels zero nodes = nodes
  build_levels (suc fuel) nodes =
      let rest = build_levels fuel (next_level nodes) in
      if ltb 1 (length nodes) then rest else nodes

  -- Each level is shorter, so as many rounds as there are leaves are enough.
  unfoldable pub new_merkle_tree : List (List ℕ) → List MerkleNode
  unfolding new_leaf build_levels
  new_merkle_tree hashes = build_levels (length hashes) (map new_leaf hashes)

  unfoldable pub build_merkle_tree : List (List ℕ) → MerkleTree
  unfolding new_merkle_tree
  build_merkle_tree hashes = record { root = new_merkle_tree hashes; tx_hashes = hashes }

-- `GetRootHash`
unfoldable pub get_root_hash : MerkleTree → Hash
get_root_hash t = elim t.root [ [] ↦ zero_hash | n ∷ ns ↦ node_data n ]

abbrev pub same_hash : List ℕ → List ℕ → Bool
same_hash a b = ite (bytes_discrete a b) true false

unfoldable pub is_listed : List ℕ → List (List ℕ) → Bool
is_listed hash [] = false
is_listed hash (h ∷ hs) = let rest = is_listed hash hs in if same_hash h hash then true else rest

unfoldable pub is_tx_hash_in_tree : List ℕ → MerkleTree → Bool
unfolding is_listed
is_tx_hash_in_tree hash t = is_listed hash t.tx_hashes
