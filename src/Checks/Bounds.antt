-- ===== src/Checks/Bounds.antt =====
-- What the checks of a block bound: the difficulty of blocks/proofOfSynergy.go, and the lists and the
-- heights of transactions (blocks/processBlock.go).
use qwid_node.Base.{
  All, Bool-cases, List, [], arith, err, false, if_neg, if_pos, if◌then◌else◌, inl, inr, length,
  ltb, ok, refl, sym, true, ◌↔◌, ◌∙◌, ◌∷◌, ◌≡◌, ◌≢◌, ◌≤◌,
}
use qwid_node.Base.Int.{leb_ℤ, ltb_ℤ, pos, ℤ, ◌+ℤ◌, ◌-ℤ◌}
use qwid_node.Types.{Hash, bytes_discrete}
use qwid_node.Checks.{
  CheckError, adjust_difficulty, clamp_difficulty, max_transactions_per_block, seen, tx_hashes_loop,
  validate_block_tx_hashes, wrap32,
}

clamp_bounds :
    (d : ℤ)
    → (leb_ℤ (pos 1) (clamp_difficulty d) ≡ true) × (leb_ℤ (clamp_difficulty d) (pos 65280) ≡ true)
unfolding clamp_difficulty
clamp_bounds d = ground arith

-- The difficulty derived from a parent is between 1 and 0xff00, whatever the parent's difficulty and
-- the two timestamps are.
adjust_difficulty_bounds :
    (last interval : ℤ)
    → (leb_ℤ (pos 1) (adjust_difficulty last interval) ≡ true)
      × (leb_ℤ (adjust_difficulty last interval) (pos 65280) ≡ true)
unfolding adjust_difficulty
adjust_difficulty_bounds last interval = clamp_bounds (
    if ltb_ℤ (pos 13) interval
    then wrap32 (last -ℤ pos 10)
    else if ltb_ℤ interval (pos 8)
    then wrap32 (last +ℤ pos 10)
    else last)

-- Every hash of the list is another than `h`.
abbrev pub IsApart : Hash → List Hash → Type 0
IsApart h = All (λ k. h ≢ k)

-- No two positions of the list hold the same hash.
abbrev pub AreDistinct : List Hash → Type 0
AreDistinct [] = Unit
AreDistinct (h ∷ txs) = IsApart h txs × AreDistinct txs

failed : {x : CheckError} → err x ≡ ok (tt {0}) → ⊥
failed e = ground arith

was_seen : true ≡ false → ⊥
was_seen e = ground arith

-- A hash is not seen again just when it is another than each hash before it.
seen-cons :
    (k h : Hash) (before : List Hash)
    → (seen h (k ∷ before) ≡ false) ↔ ((k ≢ h) × (seen h before ≡ false))
seen-cons k h before = elim (bytes_discrete k h) [
  | yes e ↦ rw (if_pos (bytes_discrete k h) e) (λ x. absurd (was_seen x), λ x. absurd (x.0 e))
  | no n ↦ rw (if_neg (bytes_discrete k h) n) (λ x. (n, x), λ x. x.1)
]

abbrev AreUnseen : List Hash → List Hash → Type 0
AreUnseen before = All (λ h. seen h before ≡ false)

AreUnseen-cons :
    (k : Hash) (before txs : List Hash)
    → AreUnseen (k ∷ before) txs ↔ (IsApart k txs × AreUnseen before txs)
AreUnseen-cons k before [] = (λ x. (tt, tt), λ x. tt)
AreUnseen-cons k before (h ∷ txs) =
    let head = seen-cons k h before in
    let rest = AreUnseen-cons k before txs in
    (
      (λ x. (((head.0 x.0).0, (rest.0 x.1).0), ((head.0 x.0).1, (rest.0 x.1).1))),
      λ x. (head.1 (x.0.0, x.1.0), rest.1 (x.0.1, x.1.1)),
    )

AreUnseen-nil : (txs : List Hash) → AreUnseen [] txs
AreUnseen-nil [] = tt
AreUnseen-nil (h ∷ txs) = (refl, AreUnseen-nil txs)

tx_hashes_loop_iff :
    (before txs : List Hash)
    → (tx_hashes_loop before txs ≡ ok tt) ↔ (AreUnseen before txs × AreDistinct txs)
unfolding tx_hashes_loop
tx_hashes_loop_iff before [] = (λ e. (tt, tt), λ h. refl)
tx_hashes_loop_iff before (h ∷ txs) = elim (Bool-cases (seen h before)) [
  | inl e ↦ rw (e, tx_hashes_loop) (λ x. absurd (failed x), λ x. absurd (was_seen x.0.0))
  | inr e ↦
      let rest = tx_hashes_loop_iff (h ∷ before) txs in
      let more = AreUnseen-cons h before txs in
      rw (e, tx_hashes_loop)
        (
          (λ x.
              let (unseen, distinct) = rest.0 x in
              ((refl, (more.0 unseen).1), ((more.0 unseen).0, distinct))),
          λ x. rest.1 (more.1 (x.1.0, x.0.1), x.1.1),
        )
]

not_above :
    (txs : List Hash)
    → length txs ≤ max_transactions_per_block
    → ltb max_transactions_per_block (length txs) ≡ false
not_above txs h = ground arith

-- A list of transaction hashes passes just when it has at most 5000 hashes and no two of its
-- positions hold the same hash.
pub validate_block_tx_hashes_iff :
    (txs : List Hash)
    → (validate_block_tx_hashes txs ≡ ok tt) ↔ ((length txs ≤ 5000) × AreDistinct txs)
unfolding validate_block_tx_hashes
validate_block_tx_hashes_iff txs = elim (Bool-cases (ltb max_transactions_per_block (length txs))) [
  | inl e ↦
      rw (e, validate_block_tx_hashes)
        (λ x. absurd (failed x), λ x. absurd (was_seen (sym e ∙ not_above txs x.0)))
  | inr e ↦
      rw (e, validate_block_tx_hashes)
        (
          (λ x. (ground arith, ((tx_hashes_loop_iff [] txs).0 x).1)),
          λ x. (tx_hashes_loop_iff [] txs).1 (AreUnseen-nil txs, x.1),
        )
]
