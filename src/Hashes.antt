-- ===== src/Hashes.antt =====
-- What is assumed of `common.CalcHashToByte` (common/types.go), which calls Blake2b: nothing but that
-- equal inputs have equal hashes. That different inputs have different ones is not assumed; theorems
-- that need it give a collision instead.
use qwid_node.Base.{List, inl, inr, ℕ, ◌≡◌, ◌≢◌, ◌⊎◌}
use qwid_node.Types.{Hash, bytes_discrete}

module _ (calc_hash : List ℕ → Hash) where
  abbrev pub Collision : Type 0
  Collision = (x : List ℕ) × (y : List ℕ) × (x ≢ y) × (calc_hash x ≡ calc_hash y)

  -- Two inputs with one hash are equal or collide.
  pub same_input : (x y : List ℕ) → calc_hash x ≡ calc_hash y → (x ≡ y) ⊎ Collision
  same_input x y e = elim (bytes_discrete x y) [
    | yes same ↦ inl same
    | no other ↦ inr (x, y, other, e)
  ]
