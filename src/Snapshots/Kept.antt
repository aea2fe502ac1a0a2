-- ===== src/Snapshots/Kept.antt =====
-- What pruning leaves for a later read (account/snapshotRetention.go).
use qwid_node.Base.{
  Bool, Bool-cases, List, [], ap, arith, false, if◌then◌else◌, inl, inr, not, refl, sym, true, ℕ,
  ◌%◌, ◌&&◌, ◌*◌, ◌/◌, ◌==◌, ◌↔◌, ◌∙◌, ◌∷◌, ◌≡◌, ◌≢◌, ◌⊎◌,
}
use qwid_node.Base.Int.{
  eq_of_parts, eqb_ℤ, int_laws, le_of_leb, leb_of_le, leb_ℤ, ltb_ℤ, negsuc, pos, pos_part, ℤ, ◌+ℤ◌,
  ◌-ℤ◌, ◌<ℤ◌, ◌≤ℤ◌,
}
use qwid_node.Base.Int64.{Fits64, sub64, sub64_exact}
use qwid_node.Snapshots.{
  better, closest_loop, closest_stored_snapshot_height, delete_height, delete_heights, is_kept,
  prune_snapshots, snapshots_to_prune,
}

ltb_high : (low x high : ℤ) → low <ℤ high → x ≡ high → ltb_ℤ low x ≡ true
ltb_high low x high h e = rw e (ground arith)

better_cases :
    (height low high x : ℤ)
    → low <ℤ high
    → (better height low x ≡ better height high x)
      ⊎ ((better height low x <ℤ high) × (better height high x ≡ high))
better_cases height low high x h = elim (Bool-cases (leb_ℤ x height)) [
  | inr f ↦ inr (rw f h, rw f refl)
  | inl t ↦ elim (Bool-cases (ltb_ℤ high x)) [
    | inl above ↦ inl (ground arith)
    | inr below ↦ elim (Bool-cases (ltb_ℤ x high)) [
      | inl less ↦ inr (ground arith, ground arith)
      | inr same ↦ inl (
          let e : x ≡ high = eq_of_parts x high (ground arith) in
          let takes : better height low x ≡ x = rw (t, ltb_high low x high h e) refl in
          let leaves : better height high x ≡ high = rw (t, below) refl in takes ∙ e ∙ sym leaves)
    ]
  ]
]

-- A higher start changes nothing when the loop leaves it.
higher_start :
    (height low high : ℤ) (hs : List ℤ)
    → low <ℤ high
    → closest_loop height high hs ≢ high
    → closest_loop height low hs ≡ closest_loop height high hs
unfolding closest_loop
higher_start height low high [] h n = absurd (n refl)
higher_start height low high (x ∷ hs) h n = elim (better_cases height low high x h) [
  | inl e ↦ ap (λ b. closest_loop height b hs) e
  | inr (l, e) ↦
      higher_start height (better height low x) high hs l
        (λ q. n (ap (λ b. closest_loop height b hs) e ∙ q))
      ∙ ap (λ b. closest_loop height b hs) (sym e)
]

dropped : (tip x c : ℤ) → is_kept tip x ≡ false → is_kept tip c ≡ true → c ≢ x
dropped tip x c e f q = absurd (cc)

loop-delete_height :
    (height tip best h : ℤ) (hs : List ℤ)
    → is_kept tip h ≡ false
    → is_kept tip (closest_loop height best hs) ≡ true
    → closest_loop height best (delete_height h hs) ≡ closest_loop height best hs
unfolding closest_loop delete_height
loop-delete_height height tip best h [] d e = refl
loop-delete_height height tip best h (x ∷ hs) d e = elim (Bool-cases (eqb_ℤ x h)) [
  | inr k ↦ rw k (loop-delete_height height tip (better height best x) h hs d e)
  | inl k ↦
      let gone : is_kept tip x ≡ false =
        ap (is_kept tip) (eq_of_parts x h (ground (arith, k))) ∙ d in
      rw k (elim (Bool-cases (leb_ℤ x height && ltb_ℤ best x)) [
        | inl t ↦
            let taken : better height best x ≡ x = rw t refl in
            let above : best <ℤ x = ground arith in
            let found : is_kept tip (closest_loop height x hs) ≡ true =
              ap (λ b. is_kept tip (closest_loop height b hs)) (sym taken) ∙ e in
            let same = higher_start height best x hs above (λ q. dropped tip x _ gone found q) in
            loop-delete_height height tip best h hs d (ap (is_kept tip) same ∙ found)
            ∙ same
            ∙ ap (λ b. closest_loop height b hs) (sym taken)
        | inr f ↦
            let left : better height best x ≡ best = rw f refl in
            loop-delete_height height tip best h hs d
              (ap (λ b. is_kept tip (closest_loop height b hs)) (sym left) ∙ e)
            ∙ ap (λ b. closest_loop height b hs) (sym left)
      ])
]

delete_heights-loop :
    (height tip best : ℤ) (hs stored : List ℤ)
    → is_kept tip (closest_loop height best stored) ≡ true
    → closest_loop height best (delete_heights (snapshots_to_prune hs tip) stored)
      ≡ closest_loop height best stored
unfolding delete_heights snapshots_to_prune
delete_heights-loop height tip best [] stored e = refl
delete_heights-loop height tip best (h ∷ hs) stored e = elim (Bool-cases (is_kept tip h)) [
  | inl k ↦ rw k (delete_heights-loop height tip best hs stored e)
  | inr k ↦
      let same = loop-delete_height height tip best h stored k e in
      rw k (
        delete_heights-loop height tip best hs (delete_height h stored) (ap (is_kept tip) same ∙ e)
        ∙ same)
]

-- What the policy keeps: genesis, the 4320 heights below the tip and all above, and every 8640th
-- height.
abbrev pub IsRetained : ℤ → ℤ → Type 0
IsRetained tip h = (h ≤ℤ pos 0) ⊎ ((tip ≤ℤ (h +ℤ pos 4320)) ⊎ ((q : ℕ) × (h ≡ pos (q * 8640))))

window_exact : (tip : ℤ) → Fits64 tip → pos 0 ≤ℤ tip → sub64 tip (pos 4320) ≡ tip -ℤ pos 4320
window_exact tip f h = sub64_exact tip (pos 4320) (omega int_laws)

multiple :
    (h : ℤ) (k : ℕ)
    → leb_ℤ h (pos 0) ≡ false
    → k ≡ pos_part h / 8640
    → pos_part h % 8640 == 0 ≡ true
    → h ≡ pos (k * 8640)
multiple (pos n) k a e d = ap pos (ground arith)
multiple (negsuc n) k a e d = absurd (ground arith)

is_kept-IsRetained :
    (tip h : ℤ) → Fits64 tip → pos 0 ≤ℤ tip → (is_kept tip h ≡ true) ↔ IsRetained tip h
unfolding is_kept
is_kept-IsRetained tip h f n = rw (window_exact tip f n) (
  (λ e. elim (Bool-cases (leb_ℤ h (pos 0))) [
    | inl low ↦ inl (ground arith)
    | inr high ↦ elim (Bool-cases (leb_ℤ (tip -ℤ pos 4320) h)) [
      | inl recent ↦ inr (inl (omega (int_laws, le_of_leb (tip -ℤ pos 4320) h recent)))
      | inr old ↦
          inr (inr (pos_part h / 8640, multiple h (pos_part h / 8640) high refl (ground arith)))
    ]
  ]),
  λ r. elim r [
    | inl low ↦ ground arith
    | inr (inl recent) ↦ rw (leb_of_le (tip -ℤ pos 4320) h (omega int_laws)) (ground arith)
    | inr (inr (q, e)) ↦ rw e (ground arith)
  ],
)

-- Is a snapshot stored at the height?
abbrev pub has_snapshot : ℤ → List ℤ → Bool
has_snapshot h [] = false
has_snapshot h (x ∷ xs) = let rest = has_snapshot h xs in if eqb_ℤ x h then true else rest

has_snapshot-delete_height :
    (h x : ℤ) (stored : List ℤ)
    → has_snapshot h (delete_height x stored) ≡ (has_snapshot h stored && not (eqb_ℤ x h))
unfolding delete_height
has_snapshot-delete_height h x [] = refl
has_snapshot-delete_height h x (y ∷ stored) = ground (arith, has_snapshot-delete_height h x stored)

has_snapshot-delete_heights :
    (h : ℤ) (hs stored : List ℤ)
    → has_snapshot h (delete_heights hs stored) ≡ (has_snapshot h stored && not (has_snapshot h hs))
unfolding delete_heights
has_snapshot-delete_heights h [] stored = ground arith
has_snapshot-delete_heights h (x ∷ hs) stored = ground (
  arith,
  has_snapshot-delete_heights h hs (delete_height x stored),
  has_snapshot-delete_height h x stored,
)

has_snapshot-snapshots_to_prune :
    (tip h : ℤ) (hs : List ℤ)
    → has_snapshot h (snapshots_to_prune hs tip) ≡ (has_snapshot h hs && not (is_kept tip h))
unfolding snapshots_to_prune
has_snapshot-snapshots_to_prune tip h [] = refl
has_snapshot-snapshots_to_prune tip h (x ∷ hs) = elim (Bool-cases (eqb_ℤ x h)) [
  | inl k ↦
      let same : is_kept tip x ≡ is_kept tip h =
        ap (is_kept tip) (eq_of_parts x h (ground (arith, k))) in
      ground (arith, k, same, has_snapshot-snapshots_to_prune tip h hs)
  | inr k ↦ ground (arith, k, has_snapshot-snapshots_to_prune tip h hs)
]

-- For a tip from 0 to 2^63 - 1: pruning leaves exactly the stored snapshots of genesis, of the 4320
-- heights below the tip and those above, and of every 8640th height; and a read for any height that
-- found one of these, or none at all, finds the same one after pruning.
pub closest_stored-prune_snapshots :
    (tip : ℤ) (stored : List ℤ)
    → Fits64 tip
    → pos 0 ≤ℤ tip
    → ((h : ℤ)
        → (has_snapshot h (prune_snapshots tip stored) ≡ true)
          ↔ ((has_snapshot h stored ≡ true) × IsRetained tip h))
      × ((height : ℤ)
          → IsRetained tip (closest_stored_snapshot_height height stored)
          → closest_stored_snapshot_height height (prune_snapshots tip stored)
            ≡ closest_stored_snapshot_height height stored)
unfolding closest_stored_snapshot_height prune_snapshots
closest_stored-prune_snapshots tip stored f n = (
  (λ h.
      let kept = is_kept-IsRetained tip h f n in
      rw (has_snapshot-delete_heights h (snapshots_to_prune stored tip) stored) (
        rw (has_snapshot-snapshots_to_prune tip h stored)
          ((λ e. (ground arith, kept.0 (ground arith))), λ k. ground (arith, k.0, kept.1 k.1)))),
  λ height e.
      delete_heights-loop height tip (negsuc 0) stored stored ((is_kept-IsRetained tip _ f n).1 e),
)
