-- ===== src/Voting/Tally.antt =====
-- What the counting loop of `stakedForValue` counts, and which votes it drops.
use qwid_node.Base.{
  Bool, Bool-cases, List, [], add_assoc, ap, arith, false, if◌then◌else◌, inl, inr, ite, length,
  not, refl, true, ℕ, ◌&&◌, ◌++◌, ◌+◌, ◌<◌, ◌==◌, ◌^◌, ◌∙◌, ◌∷◌, ◌≡◌, ◌≢◌, ◌≤◌,
}
use qwid_node.Base.Int.{leb_ℤ, negsuc, pos, pos_part, ℤ, ◌≤ℤ◌}
use qwid_node.Base.Int64.{add64}
use qwid_node.Base.Table.{Table}
use qwid_node.Types.{bytes_discrete}
use qwid_node.Voting.{Votes, is_live, staked_for_value, staked_loop}

abbrev pub weight : Votes → ℕ
weight po = pos_part po.staked

-- The vote is not empty, and was made at most 60 blocks before.
abbrev pub is_current : ℤ → Votes → Bool
is_current height po = leb_ℤ height (add64 po.height (pos 60)) && not (length po.values == 0)

abbrev pub is_for : List ℕ → Votes → Bool
is_for want po = ite (bytes_discrete po.values want) true false

-- The stake behind the current votes for exactly this value, as a plain sum.
unfoldable pub backing : ℤ → List ℕ → Table ℕ Votes → ℕ
backing height want [] = 0
backing height want ((i, po) ∷ m) =
    if is_current height po && is_for want po
    then weight po + backing height want m
    else backing height want m

-- The stake behind all votes.
unfoldable pub total_weight : Table ℕ Votes → ℕ
total_weight [] = 0
total_weight ((i, po) ∷ m) = weight po + total_weight m

-- No vote has a negative stake, and all stakes together are at most the supply.
abbrev pub IsNonneg : Table ℕ Votes → Type 0
IsNonneg [] = Unit
IsNonneg ((i, po) ∷ m) = (pos 0 ≤ℤ po.staked) × IsNonneg m

abbrev pub max_total_supply : ℕ
max_total_supply = 230_000_000_000_000_000

pub record IsFunded (m : Table ℕ Votes) : Type 0 where
  pub nonneg : IsNonneg m
  pub bounded : total_weight m ≤ max_total_supply

add64_pos :
    (acc : ℕ) (z : ℤ)
    → pos 0 ≤ℤ z
    → acc + pos_part z < 2 ^ 63
    → add64 (pos acc) z ≡ pos (acc + pos_part z)
unfolding add64
add64_pos acc (pos n) h k = ground arith
add64_pos acc (negsuc n) h k = absurd (omega arith)

is_live_lem : (height : ℤ) (po : Votes) → is_live height po ≡ is_current height po
unfolding is_live
is_live_lem height po = refl

staked_loop-backing :
    (height : ℤ) (want : List ℕ) (m : Table ℕ Votes) (acc : ℕ) (rm : List ℕ)
    → IsNonneg m
    → acc + total_weight m < 2 ^ 63
    → (staked_loop height want m (pos acc, rm)).0 ≡ pos (acc + backing height want m)
unfolding staked_loop backing total_weight
staked_loop-backing height want [] acc rm f h = ap pos (omega arith)
staked_loop-backing height want ((i, po) ∷ m) acc rm f h =
    elim (Bool-cases (is_current height po)) [
      | inr expired ↦
          rw (is_live_lem height po, expired, staked_loop)
            (staked_loop-backing height want m acc (rm ++ i ∷ []) f.1 (omega arith))
      | inl live ↦ elim (Bool-cases (is_for want po)) [
        | inr other ↦
            simp (is_live_lem height po, live, other)
              (staked_loop-backing height want m acc rm f.1 (omega arith))
        | inl same ↦
            simp (is_live_lem height po, live, same, add64_pos acc po.staked f.0 (omega arith))
              (staked_loop-backing height want m (acc + weight po) rm f.1 (omega arith)
                ∙ ap pos (add_assoc acc (weight po) (backing height want m)))
      ]
    ]

pub staked_for_value-backing :
    (height : ℤ) (want : List ℕ) (m : Table ℕ Votes)
    → IsFunded m
    → (staked_for_value m height want).0 ≡ pos (backing height want m)
unfolding staked_for_value
staked_for_value-backing height want m f =
    staked_loop-backing height want m 0 [] f.nonneg (omega (arith, f.bounded))
    ∙ ap pos (omega arith)

pub backing-le-total_weight :
    (height : ℤ) (want : List ℕ) (m : Table ℕ Votes) → backing height want m ≤ total_weight m
unfolding backing total_weight
backing-le-total_weight height want [] = omega arith
backing-le-total_weight height want ((i, po) ∷ m) =
    ground (arith, backing-le-total_weight height want m)

-- Votes for two values are counted apart.
pub backing_disjoint :
    (height : ℤ) (want other : List ℕ) (m : Table ℕ Votes)
    → want ≢ other
    → backing height want m + backing height other m ≤ total_weight m
unfolding backing total_weight
backing_disjoint height want other [] ne = omega arith
backing_disjoint height want other ((i, po) ∷ m) ne =
    ground (arith, backing_disjoint height want other m ne)
