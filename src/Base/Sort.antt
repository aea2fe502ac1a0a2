-- ===== src/Base/Sort.antt =====
-- `sort.Slice` by a test that says which of two items comes first: the items in order.
use qwid_node.Base.Int.{negsuc, pos, ℤ, ◌<ℤ◌}
use qwid_node.Base.{
  All, Bool, Bool-cases, List, [], arith, if◌then◌else◌, inl, inr, length, ltb, refl, suc, ℕ, ◌+◌,
  ◌∷◌, ◌≡◌, ◌≢◌,
}

module _ {ℓ} {A : Type ℓ} (first : A → A → Bool) where
  unfoldable pub insert : A → List A → List A
  insert x [] = x ∷ []
  insert x (y ∷ ys) = let rest = insert x ys in if first y x then y ∷ rest else x ∷ y ∷ ys

  unfoldable pub sort : List A → List A
  unfolding insert
  sort [] = []
  sort (x ∷ xs) = insert x (sort xs)

-- How many items pass a test.
abbrev pub count {ℓ} : {A : Type ℓ} → (A → Bool) → List A → ℕ
count p [] = 0
count p (x ∷ xs) = (if p x then 1 else 0) + count p xs

module _ {ℓ} {A : Type ℓ} (first : A → A → Bool) (p : A → Bool) where
  count-insert : (x : A) (xs : List A) → count p (insert first x xs) ≡ count p (x ∷ xs)
  unfolding insert
  count-insert x [] = refl
  count-insert x (y ∷ ys) = ground (arith, count-insert x ys)

  pub count-sort : (xs : List A) → count p (sort first xs) ≡ count p xs
  unfolding sort
  count-sort [] = refl
  count-sort (x ∷ xs) = omega (arith, count-insert x (sort first xs), count-sort xs)

module _ {ℓ} {A : Type ℓ} (first : A → A → Bool) where
  length-insert : (x : A) (xs : List A) → length (insert first x xs) ≡ suc (length xs)
  unfolding insert
  length-insert x [] = refl
  length-insert x (y ∷ ys) = ground (arith, length-insert x ys)

  pub length-sort : (xs : List A) → length (sort first xs) ≡ length xs
  unfolding sort
  length-sort [] = refl
  length-sort (x ∷ xs) = omega (arith, length-insert x (sort first xs), length-sort xs)

module _ {ℓ κ} {A : Type ℓ} (first : A → A → Bool) (P : A → Type κ) where
  pub All-insert : (x : A) (xs : List A) → P x → All P xs → All P (insert first x xs)
  unfolding insert
  All-insert x [] h k = (h, tt)
  All-insert x (y ∷ ys) h k = elim (Bool-cases (first y x)) [
    | inl e ↦ rw (e, insert) (k.0, All-insert x ys h k.1)
    | inr e ↦ rw (e, insert) (h, k)
  ]

  pub All-sort : (xs : List A) → All P xs → All P (sort first xs)
  unfolding sort
  All-sort [] h = tt
  All-sort (x ∷ xs) h = All-insert x (sort first xs) h.0 (All-sort xs h.1)

-- Numbers in strictly ascending order, all above `prev`.
abbrev pub IsAscending : ℤ → List ℕ → Type 0
IsAscending prev [] = Unit
IsAscending prev (i ∷ ids) = (prev <ℤ pos i) × IsAscending (pos i) ids

abbrev pub IsOther : ℕ → ℕ → Type 0
IsOther x y = x ≢ y

abbrev pub AreDistinct : List ℕ → Type 0
AreDistinct [] = Unit
AreDistinct (x ∷ xs) = All (IsOther x) xs × AreDistinct xs

insert-IsAscending :
    (prev : ℤ) (x : ℕ) (ids : List ℕ)
    → prev <ℤ pos x
    → IsAscending prev ids
    → All (IsOther x) ids
    → IsAscending prev (insert ltb x ids)
unfolding insert
insert-IsAscending prev x [] h k o = (h, tt)
insert-IsAscending prev x (y ∷ ys) h k o = elim (Bool-cases (ltb y x)) [
  | inl e ↦ rw (e, insert) (k.0, insert-IsAscending (pos y) x ys (ground arith) k.1 o.1)
  | inr e ↦ rw (e, insert) (h, (ground arith, k.1))
]

pub sort-IsAscending : (ids : List ℕ) → AreDistinct ids → IsAscending (negsuc 0) (sort ltb ids)
unfolding sort
sort-IsAscending [] h = tt
sort-IsAscending (x ∷ xs) h =
    insert-IsAscending (negsuc 0) x (sort ltb xs) (omega arith) (sort-IsAscending xs h.1)
      (All-sort ltb (IsOther x) xs h.0)
