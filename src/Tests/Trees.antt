-- ===== src/Tests/Trees.antt =====
-- Merkle trees on concrete inputs.
use qwid_node.Base.{List, [], length, map, refl, ℕ, ◌++◌, ◌∷◌, ◌≡◌, ◌⊎◌}
use qwid_node.Hashes.{Collision}
use qwid_node.Merkle.{build_levels, new_merkle_tree, node_data}
use qwid_node.Merkle.Binding.{length-new_merkle_tree, new_merkle_tree-binding}
use qwid_node.Tests.Samples.{length-sample_hash, sample_hash, slot_one, value_two}

abbrev tx_hashes : List (List ℕ)
tx_hashes = slot_one ∷ value_two ∷ slot_one ∷ []

length-new_merkle_tree_example : length (new_merkle_tree sample_hash tx_hashes) ≡ 1
length-new_merkle_tree_example = length-new_merkle_tree sample_hash tx_hashes

-- The sample hash looks at the first 32 bytes only, so these two lists have the same root.
abbrev long_hashes : List (List ℕ)
long_hashes = (slot_one ++ 7 ∷ []) ∷ value_two ∷ []

abbrev short_hashes : List (List ℕ)
short_hashes = slot_one ∷ value_two ∷ []

same_roots :
    map node_data (new_merkle_tree sample_hash long_hashes)
    ≡ map node_data (new_merkle_tree sample_hash short_hashes)
unfolding new_merkle_tree build_levels
same_roots = refl

new_merkle_tree-binding_example : (long_hashes ≡ short_hashes) ⊎ Collision sample_hash
new_merkle_tree-binding_example =
    new_merkle_tree-binding sample_hash length-sample_hash long_hashes short_hashes same_roots
