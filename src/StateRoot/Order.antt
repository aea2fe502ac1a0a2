-- ===== src/StateRoot/Order.antt =====
-- The order of `bytes.Compare`, and the keys of a map sorted by it (`sortedAddrKeys` of
-- blocks/stateRoot.go).
use qwid_node.Base.Sort.{All-insert, insert, sort}
use qwid_node.Base.{
  All, Bool, Bool-cases, List, [], ap, arith, false, if_neg, if_pos, inl, inr, ite, refl, sym, true,
  ℕ, ◌∙◌, ◌∷◌, ◌≡◌, ◌≢◌, ◌⊎◌,
}
use qwid_node.Types.{bytes_discrete}
use qwid_node.Staking.Eligible.{bytes_less}

bytes_less_irrefl : (x : List ℕ) → bytes_less x x ≡ false
unfolding bytes_less
bytes_less_irrefl [] = refl
bytes_less_irrefl (x ∷ xs) = ground (arith, bytes_less_irrefl xs)

bytes_less_trans :
    (x y z : List ℕ) → bytes_less x y ≡ true → bytes_less y z ≡ true → bytes_less x z ≡ true
unfolding bytes_less
bytes_less_trans [] [] z h k = absurd (ground arith)
bytes_less_trans [] (y ∷ ys) [] h k = absurd (ground arith)
bytes_less_trans [] (y ∷ ys) (z ∷ zs) h k = refl
bytes_less_trans (x ∷ xs) [] z h k = absurd (ground arith)
bytes_less_trans (x ∷ xs) (y ∷ ys) [] h k = absurd (ground arith)
bytes_less_trans (x ∷ xs) (y ∷ ys) (z ∷ zs) h k = ground (arith, bytes_less_trans xs ys zs)

bytes_less_cases : (x y : List ℕ) → (bytes_less x y ≡ true) ⊎ ((x ≡ y) ⊎ (bytes_less y x ≡ true))
unfolding bytes_less
bytes_less_cases [] [] = inr (inl refl)
bytes_less_cases [] (y ∷ ys) = inl refl
bytes_less_cases (x ∷ xs) [] = inr (inr refl)
bytes_less_cases (x ∷ xs) (y ∷ ys) = elim (bytes_less_cases xs ys) [
  | inl h ↦ ground arith
  | inr (inl e) ↦ ground (arith, ap (◌∷◌ x) e)
  | inr (inr h) ↦ ground arith
]

pub bytes_less_asym : (x y : List ℕ) → bytes_less x y ≡ true → bytes_less y x ≡ false
bytes_less_asym x y h = elim (Bool-cases (bytes_less y x)) [
  | inl t ↦ absurd (ground (arith, bytes_less_trans x y x h t, bytes_less_irrefl x))
  | inr f ↦ f
]

-- Every key comes after this one.
abbrev pub AreAbove : List ℕ → List (List ℕ) → Type 0
AreAbove k = All (λ j. bytes_less k j ≡ true)

abbrev pub AreSorted : List (List ℕ) → Type 0
AreSorted [] = Unit
AreSorted (k ∷ ks) = AreAbove k ks × AreSorted ks

unfoldable pub listed : List ℕ → List (List ℕ) → Bool
listed k [] = false
listed k (j ∷ ks) = let rest = listed k ks in ite (bytes_discrete j k) true rest

AreAbove-trans :
    (k j : List ℕ) (ks : List (List ℕ)) → bytes_less k j ≡ true → AreAbove j ks → AreAbove k ks
AreAbove-trans k j [] h a = tt
AreAbove-trans k j (i ∷ ks) h (a, bs) = (bytes_less_trans k j i h a, AreAbove-trans k j ks h bs)

listed-AreAbove : (k : List ℕ) (ks : List (List ℕ)) → AreAbove k ks → listed k ks ≡ false
unfolding listed
listed-AreAbove k [] a = refl
listed-AreAbove k (j ∷ ks) (a, bs) =
    let other : j ≢ k = λ (e : j ≡ k). ground (arith, bytes_less_irrefl k) in
    rw (if_neg (bytes_discrete j k) other) (listed-AreAbove k ks bs)

listed-insert :
    (k x : List ℕ) (ks : List (List ℕ)) → listed k (insert bytes_less x ks) ≡ listed k (x ∷ ks)
unfolding listed insert
listed-insert k x [] = refl
listed-insert k x (y ∷ ys) = ground (arith, listed-insert k x ys)

pub listed-sort : (k : List ℕ) (ks : List (List ℕ)) → listed k (sort bytes_less ks) ≡ listed k ks
unfolding listed sort
listed-sort k [] = refl
listed-sort k (x ∷ ks) = listed-insert k x (sort bytes_less ks) ∙ ground (arith, listed-sort k ks)

AreAbove-insert :
    (k x : List ℕ) (ks : List (List ℕ))
    → bytes_less k x ≡ true
    → AreAbove k ks
    → AreAbove k (insert bytes_less x ks)
AreAbove-insert k x ks h a = All-insert bytes_less (λ j. bytes_less k j ≡ true) x ks h a

insert-AreSorted :
    (x : List ℕ) (ks : List (List ℕ))
    → AreSorted ks
    → listed x ks ≡ false
    → AreSorted (insert bytes_less x ks)
unfolding insert listed
insert-AreSorted x [] s h = (tt, tt)
insert-AreSorted x (y ∷ ys) (a, s) h = elim (bytes_less_cases y x) [
  | inl e ↦ rw (e, insert) (AreAbove-insert y x ys e a, insert-AreSorted x ys s (ground arith))
  | inr (inl e) ↦ absurd (ground arith)
  | inr (inr e) ↦ rw (bytes_less_asym x y e, insert) ((e, AreAbove-trans x y ys e a), (a, s))
]

abbrev pub AreDifferent : List (List ℕ) → Type 0
AreDifferent [] = Unit
AreDifferent (k ∷ ks) = (listed k ks ≡ false) × AreDifferent ks

pub sort-AreSorted : (ks : List (List ℕ)) → AreDifferent ks → AreSorted (sort bytes_less ks)
unfolding sort
sort-AreSorted [] d = tt
sort-AreSorted (k ∷ ks) (h, d) =
    insert-AreSorted k (sort bytes_less ks) (sort-AreSorted ks d) (listed-sort k ks ∙ h)

listed_nil : (k : List ℕ) → listed k [] ≡ false
unfolding listed
listed_nil k = refl

listed_skip : (x k : List ℕ) (xs : List (List ℕ)) → x ≢ k → listed k (x ∷ xs) ≡ listed k xs
unfolding listed
listed_skip x k xs n = rw (if_neg (bytes_discrete x k) n) refl

-- What the tails of two lists with one head and the same members have in common.
listed_tail :
    (x : List ℕ) (xs ys : List (List ℕ))
    → AreAbove x xs
    → AreAbove x ys
    → ((k : List ℕ) → listed k (x ∷ xs) ≡ listed k (x ∷ ys))
    → (k : List ℕ) → listed k xs ≡ listed k ys
listed_tail x xs ys a b h k = elim (bytes_discrete x k) [
  | yes e ↦
      let left : listed k xs ≡ false = rw (← e) (listed-AreAbove x xs a) in
      let right : listed k ys ≡ false = rw (← e) (listed-AreAbove x ys b) in rw (left, right) refl
  | no n ↦ sym (listed_skip x k xs n) ∙ h k ∙ listed_skip x k ys n
]

listed_head : (x : List ℕ) (xs : List (List ℕ)) → listed x (x ∷ xs) ≡ true
unfolding listed
listed_head x xs = rw (if_pos (bytes_discrete x x) refl) refl

-- A key before the head of a sorted list is not in it.
listed_before :
    (x y : List ℕ) (ys : List (List ℕ))
    → bytes_less x y ≡ true
    → AreAbove y ys
    → listed x (y ∷ ys) ≡ false
listed_before x y ys h a = listed-AreAbove x (y ∷ ys) (h, AreAbove-trans x y ys h a)

-- Sorted lists of different keys with the same members are equal.
pub AreSorted-unique :
    (xs ys : List (List ℕ))
    → AreSorted xs
    → AreSorted ys
    → ((k : List ℕ) → listed k xs ≡ listed k ys)
    → xs ≡ ys
AreSorted-unique [] [] s t h = refl
AreSorted-unique [] (y ∷ ys) s t h = absurd (ground (arith, h y, listed_head y ys, listed_nil y))
AreSorted-unique (x ∷ xs) [] s t h = absurd (ground (arith, h x, listed_head x xs, listed_nil x))
AreSorted-unique (x ∷ xs) (y ∷ ys) (a, s) (b, t) h = elim (bytes_less_cases x y) [
  | inl e ↦ absurd (ground (arith, h x, listed_head x xs, listed_before x y ys e b))
  | inr (inr e) ↦ absurd (ground (arith, h y, listed_head y ys, listed_before y x xs e a))
  | inr (inl e) ↦
      let b' : AreAbove x ys = rw e b in
      let h' : (k : List ℕ) → listed k (x ∷ xs) ≡ listed k (x ∷ ys) =
        λ (k : List ℕ). rw (← e) at (h k) in
      ap (◌∷◌ x) (AreSorted-unique xs ys s t (listed_tail x xs ys a b' h')) ∙ ap (λ z. z ∷ ys) e
]
