-- ===== src/Voting/Thresholds.antt =====
-- When a change of a signature scheme is authorised.
use qwid_node.Base.{Bool, List, arith, false, true, ℕ, ◌*◌, ◌<◌, ◌↔◌, ◌≡◌, ◌≢◌, ◌≤◌}
use qwid_node.Base.Int.{negsuc, pos, ℤ, ◌<ℤ◌, ◌≤ℤ◌}
use qwid_node.Base.Int64.{mul64}
use qwid_node.Base.Table.{Table}
use qwid_node.Voting.{
  Votes, VotingState, count_stake, may_pause, may_replace, verify_encryption_for_pausing,
  verify_encryption_for_replacing,
}
use qwid_node.Voting.Tally.{
  IsFunded, backing, backing-le-total_weight, backing_disjoint, max_total_supply,
  staked_for_value-backing, total_weight,
}

-- The map that a verifier counts.
abbrev pub votes_for : Bool → VotingState → Table ℕ Votes
votes_for true s = s.votes_encryption1
votes_for false s = s.votes_encryption2

count_stake-backing :
    (height : ℤ) (primary : Bool) (want : List ℕ) (s : VotingState)
    → IsFunded (votes_for primary s)
    → (count_stake height primary want s).0 ≡ pos (backing height want (votes_for primary s))
unfolding count_stake
count_stake-backing height true want s f =
    staked_for_value-backing height want s.votes_encryption1 f
count_stake-backing height false want s f =
    staked_for_value-backing height want s.votes_encryption2 f

may_pause_iff :
    (b : ℕ) (total : ℤ)
    → b ≤ max_total_supply
    → (may_pause (pos b) total ≡ true) ↔ ((0 < b) × (pos 0 <ℤ total) × (total ≤ℤ pos (3 * b)))
unfolding may_pause mul64
may_pause_iff b (pos t) h = (λ e. ground arith, λ e. ground arith)
may_pause_iff b (negsuc t) h = (λ e. ground arith, λ e. ground arith)

may_replace_iff :
    (b t : ℕ)
    → b ≤ max_total_supply
    → t ≤ max_total_supply
    → (may_replace (pos b) (pos t) ≡ true) ↔ ((0 < b) × (0 < t) × (2 * t ≤ 3 * b))
unfolding may_replace mul64
may_replace_iff b t h k = (λ e. ground arith, λ e. ground arith)

module _ (height : ℤ) (primary : Bool) (s : VotingState) (f : IsFunded (votes_for primary s)) where
  -- Where no vote's stake is negative and all stakes are at most the supply of 2.3e17, pausing a
  -- scheme is authorised exactly when the live votes for this very value carry some
  -- stake, the total stake is positive, and they carry at least a third of it.
  pub verify_encryption_for_pausing_iff :
      (total : ℤ) (want : List ℕ)
      → let b = backing height want (votes_for primary s) in
        ((verify_encryption_for_pausing height total primary want s).0 ≡ true)
        ↔ ((0 < b) × (pos 0 <ℤ total) × (total ≤ℤ pos (3 * b)))
  unfolding verify_encryption_for_pausing
  verify_encryption_for_pausing_iff total want = rw (count_stake-backing height primary want s f) (
      may_pause_iff (backing height want (votes_for primary s)) total
        (omega (arith, f.bounded, backing-le-total_weight height want (votes_for primary s))))

  -- Where no vote's stake is negative and all stakes, like the total, are at most the supply of
  -- 2.3e17, replacing a scheme is authorised exactly when the votes for this very value that are not
  -- empty and were made at most 60 blocks before carry some stake, the total stake is positive, and
  -- they carry at least two thirds of it.
  pub verify_encryption_for_replacing_iff :
      (total : ℕ) (want : List ℕ)
      → total ≤ max_total_supply
      → let b = backing height want (votes_for primary s) in
        ((verify_encryption_for_replacing height (pos total) primary want s).0 ≡ true)
        ↔ ((0 < b) × (0 < total) × (2 * total ≤ 3 * b))
  unfolding verify_encryption_for_replacing
  verify_encryption_for_replacing_iff total want h =
      rw (count_stake-backing height primary want s f) (
        may_replace_iff (backing height want (votes_for primary s)) total
          (omega (arith, f.bounded, backing-le-total_weight height want (votes_for primary s))) h)

  -- Where no vote's stake is negative, and the votes carry no more than the total stake, which is at
  -- most the supply of 2.3e17, two different replacements of a scheme are never both authorised.
  pub replacements_exclusive :
      (total : ℕ) (want other : List ℕ)
      → total ≤ max_total_supply
      → total_weight (votes_for primary s) ≤ total
      → want ≢ other
      → (verify_encryption_for_replacing height (pos total) primary want s).0 ≡ true
      → ¬ ((verify_encryption_for_replacing height (pos total) primary other s).0 ≡ true)
  replacements_exclusive total want other h w ne p q =
      let (b, t, p') = (verify_encryption_for_replacing_iff total want h).0 p in
      let (c, u, q') = (verify_encryption_for_replacing_iff total other h).0 q in
      absurd (omega (arith, backing_disjoint height want other (votes_for primary s) ne))
