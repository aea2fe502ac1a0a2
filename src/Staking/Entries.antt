-- ===== src/Staking/Entries.antt =====
-- The locks of an account as a list of entries, and what scanning them counts
-- (account/stakeAccount.go).
use qwid_node.Base.{
  All, Bool-cases, List, [], add_assoc, ap, append-nil, append_assoc, arith, false, if◌then◌else◌,
  inl, inr, some, true, ℕ, ◌*◌, ◌++◌, ◌+◌, ◌-◌, ◌<◌, ◌==◌, ◌^◌, ◌∙◌, ◌∷◌, ◌≡◌, ◌≤◌,
}
use qwid_node.Base.Int.{leb_ℤ, negsuc, pos, pos_part, ℤ, ◌*ℤ◌, ◌-ℤ◌, ◌≤ℤ◌}
use qwid_node.Base.Int64.{add64, mul64, mul64_exact, sub64, sub64_exact}
use qwid_node.Staking.Scan.{LockScan, lock_left, scan_locks}

pub record Lock : Type 0 where
  pub amount : ℤ
  pub release : ℤ
  pub init : ℤ

abbrev pub entries : List ℤ → List ℤ → List ℤ → List Lock
entries (a ∷ amounts) (r ∷ rs) (i ∷ is) =
    record { amount = a; release = r; init = i } ∷ entries amounts rs is
entries _ _ _ = []

-- The three slices have one length.
pub data IsParallel : List ℤ → List ℤ → List ℤ → Type 0 where
  none_left : IsParallel [] [] []
  one_more :
      {a r i : ℤ} {amounts rs is : List ℤ}
      → IsParallel amounts rs is
      → IsParallel (a ∷ amounts) (r ∷ rs) (i ∷ is)

-- The exact amount that is still locked of an entry: what was locked, less what has been released in
-- each block since.
abbrev pub left_of : ℤ → Lock → ℕ
left_of height l = pos_part l.amount - (pos_part height - pos_part l.init) * pos_part l.release

-- The entry holds amounts from 0 to 2^63 - 1, was made at a height from 0 to this one, and has not
-- been released for so long that the product of the release and the blocks leaves an int64.
abbrev pub IsExact : ℤ → Lock → Type 0
IsExact height l =
    (pos 0 ≤ℤ l.amount)
    × (pos_part l.amount < 2 ^ 63)
    × (pos 0 ≤ℤ l.release)
    × (pos 0 ≤ℤ l.init)
    × (l.init ≤ℤ height)
    × (pos_part height < 2 ^ 63)
    × ((pos_part height - pos_part l.init) * pos_part l.release < 2 ^ 63)

-- The entries of which something is still locked, and how much.
unfoldable pub still_locked : ℤ → List Lock → List Lock
still_locked height [] = []
still_locked height (l ∷ ls) =
    let rest = still_locked height ls in if left_of height l == 0 then rest else l ∷ rest

unfoldable pub locked_total : ℤ → List Lock → ℕ
locked_total height [] = 0
locked_total height (l ∷ ls) = left_of height l + locked_total height ls

-- The indices that the scan marks.
unfoldable pub released : ℤ → ℕ → List Lock → List ℕ
released height ind [] = []
released height ind (l ∷ ls) =
    let rest = released height (ind + 1) ls in if left_of height l == 0 then ind ∷ rest else rest

blocks_exact : (h i : ℕ) → i ≤ h → h < 2 ^ 63 → sub64 (pos h) (pos i) ≡ pos (h - i)
blocks_exact h i le small =
    sub64_exact (pos h) (pos i) (unfold ◌-ℤ◌ in ground arith) ∙ unfold ◌-ℤ◌ in ground arith

product_exact : (m n : ℕ) → m * n < 2 ^ 63 → mul64 (pos m) (pos n) ≡ pos (m * n)
product_exact m n small =
    mul64_exact (pos m) (pos n) (unfold ◌*ℤ◌ in ground arith) ∙ unfold ◌*ℤ◌ in ground arith

rest_exact :
    (a p : ℕ)
    → a < 2 ^ 63
    → p < 2 ^ 63
    → (leb_ℤ (sub64 (pos a) (pos p)) (pos 0) ≡ (a - p == 0))
      × (pos_part (sub64 (pos a) (pos p)) ≡ a - p)
rest_exact a p ha hp =
    rw (sub64_exact (pos a) (pos p) (unfold ◌-ℤ◌ in ground arith))
      (unfold ◌-ℤ◌ in (ground arith, ground arith))

-- The code's expression for what is left is exact where nothing overflows.
lock_left_exact :
    (height a r i : ℤ)
    → let l : Lock = record { amount = a; release = r; init = i } in
      IsExact height l
      → (leb_ℤ (lock_left height a r i) (pos 0) ≡ (left_of height l == 0))
        × (pos_part (lock_left height a r i) ≡ left_of height l)
unfolding lock_left
lock_left_exact (pos h) (pos a) (pos r) (pos i) (ha, ka, hr, hi, le, kh, kp) =
    rw (blocks_exact h i (omega arith) kh)
      (rw (product_exact (h - i) r kp) (rest_exact a ((h - i) * r) ka kp))
lock_left_exact height a r i e = absurd (omega arith)

add64_pos :
    (c : ℕ) (z : ℤ)
    → leb_ℤ z (pos 0) ≡ false
    → c + pos_part z < 2 ^ 63
    → add64 (pos c) z ≡ pos (c + pos_part z)
unfolding add64
add64_pos c (pos n) h k = ground arith
add64_pos c (negsuc n) h k = ground arith

drop_nothing :
    (c : ℕ) (z : ℤ)
    → leb_ℤ z (pos 0) ≡ true
    → c < 2 ^ 63
    → (add64 (pos c) (pos 0) ≡ pos c) × (pos_part z ≡ 0)
unfolding add64
drop_nothing c (pos n) h k = ground arith
drop_nothing c (negsuc n) h k = ground arith

-- A step of the scan over an entry of which nothing is left.
scan-gone :
    (height a r i : ℤ) (ind c : ℕ) (amounts rs is : List ℤ) (rm : List ℕ)
    → leb_ℤ (lock_left height a r i) (pos 0) ≡ true
    → c < 2 ^ 63
    → scan_locks height ind
        (a ∷ amounts)
        (r ∷ rs)
        (i ∷ is)
        (record { locked = pos c; to_remove = rm })
      ≡ scan_locks height
          (ind + 1)
          amounts
          rs
          is
          (record { locked = pos c; to_remove = rm ++ ind ∷ [] })
unfolding scan_locks
scan-gone height a r i ind c amounts rs is rm gone h =
    rw (gone, (drop_nothing c (lock_left height a r i) gone h).0)

-- A step over an entry of which something is left.
scan-left :
    (height a r i : ℤ) (ind c k : ℕ) (amounts rs is : List ℤ) (rm : List ℕ)
    → leb_ℤ (lock_left height a r i) (pos 0) ≡ false
    → pos_part (lock_left height a r i) ≡ k
    → c + k < 2 ^ 63
    → scan_locks height ind
        (a ∷ amounts)
        (r ∷ rs)
        (i ∷ is)
        (record { locked = pos c; to_remove = rm })
      ≡ scan_locks height (ind + 1) amounts rs is (record { locked = pos (c + k); to_remove = rm })
unfolding scan_locks
scan-left height a r i ind c k amounts rs is rm left e h =
    rw (left, add64_pos c (lock_left height a r i) left (omega (arith, e, h)), e)

released-gone :
    (height : ℤ) (ind : ℕ) (l : Lock) (ls : List Lock)
    → (left_of height l == 0) ≡ true
    → released height ind (l ∷ ls) ≡ ind ∷ released height (ind + 1) ls
unfolding released
released-gone height ind l ls gone = rw (gone)

released-left :
    (height : ℤ) (ind : ℕ) (l : Lock) (ls : List Lock)
    → (left_of height l == 0) ≡ false
    → released height ind (l ∷ ls) ≡ released height (ind + 1) ls
unfolding released
released-left height ind l ls left = rw (left)

-- What the scan of `ls` ends in.
unfoldable pub scanned : ℤ → ℕ → ℕ → List ℕ → List Lock → LockScan
scanned height ind c rm ls = record {
  locked = pos (c + locked_total height ls);
  to_remove = rm ++ released height ind ls;
}

scanned-gone :
    (height : ℤ) (ind c : ℕ) (rm : List ℕ) (l : Lock) (ls : List Lock)
    → (left_of height l == 0) ≡ true
    → scanned height (ind + 1) c (rm ++ ind ∷ []) ls ≡ scanned height ind c rm (l ∷ ls)
unfolding scanned locked_total
scanned-gone height ind c rm l ls gone = ground (
  arith,
  released-gone height ind l ls gone,
  append_assoc rm (ind ∷ []) (released height (ind + 1) ls),
)

scanned-left :
    (height : ℤ) (ind c : ℕ) (rm : List ℕ) (l : Lock) (ls : List Lock)
    → (left_of height l == 0) ≡ false
    → scanned height (ind + 1) (c + left_of height l) rm ls ≡ scanned height ind c rm (l ∷ ls)
unfolding scanned locked_total
scanned-left height ind c rm l ls left =
    rw (released-left height ind l ls left, add_assoc c (left_of height l) (locked_total height ls))

pub scan_locks-entries :
    {amounts rs is : List ℤ} (height : ℤ) (ind c : ℕ) (rm : List ℕ)
    → IsParallel amounts rs is
    → All (IsExact height) (entries amounts rs is)
    → c + locked_total height (entries amounts rs is) < 2 ^ 63
    → scan_locks height ind amounts rs is (record { locked = pos c; to_remove = rm })
      ≡ some (scanned height ind c rm (entries amounts rs is))
unfolding locked_total
scan_locks-entries height ind c rm none_left x h =
    unfold scan_locks in unfold scanned in unfold released in ground (arith, append-nil rm)
scan_locks-entries height ind c rm
      (one_more {a = a} {r = r} {i = i} {amounts = amounts} {rs = rs} {is = is} p) (x, xs) h =
    let l : Lock = record { amount = a; release = r; init = i } in
    let (tests, counts) = lock_left_exact height a r i x in
    let k = left_of height l in
    let ls = entries amounts rs is in
    elim (Bool-cases (left_of height l == 0)) [
      | inl gone ↦
          scan-gone height a r i ind c amounts rs is rm (tests ∙ gone) (omega (arith, h))
          ∙ scan_locks-entries height (ind + 1) c (rm ++ ind ∷ []) p xs (omega (arith, h))
          ∙ ap some (scanned-gone height ind c rm l ls gone)
      | inr left ↦
          scan-left height a r i ind c k amounts rs is rm (tests ∙ left) counts (omega (arith, h))
          ∙ scan_locks-entries height (ind + 1) (c + k) rm p xs (omega (arith, h))
          ∙ ap some (scanned-left height ind c rm l ls left)
    ]
