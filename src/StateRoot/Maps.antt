-- ===== src/StateRoot/Maps.antt =====
-- What the stream of a walk over a whole map of blocks/stateRoot.go determines.
use qwid_node.Base.{
  All, List, Option, [], ap, append_assoc, arith, if_neg, if_pos, length, none, refl, some, sym,
  true, ℕ, ◌++◌, ◌<◌, ◌^◌, ◌∙◌, ◌∷◌, ◌≡◌, ◌≢◌,
}
use qwid_node.Base.Table.{Table, get}
use qwid_node.Base.Update.{exists, value_or}
use qwid_node.Base.Sort.{All-sort}
use qwid_node.Types.{bytes_discrete}
use qwid_node.Wire.Slices.{AreAllSized}
use qwid_node.Staking.Eligible.{bytes_less}
use qwid_node.StateRoot.{keys, sorted_keys, walk, walk_map, write_bytes, write_section}
use qwid_node.StateRoot.Order.{listed}
use qwid_node.StateRoot.Walk.{AreRelated, listed-sorted_keys}
use qwid_node.StateRoot.Fields.{bytes_split_end, length_split}
use mathlib.Core.Path.{subst}

-- A Go map from arrays of `n` bytes to values that their type allows.
abbrev pub IsTypedMap : {V : Type 0} → ℕ → (V → Type 0) → Table (List ℕ) V → Type 0
IsTypedMap n P [] = Unit
IsTypedMap n P ((k, v) ∷ m) = (length k ≡ n) × P v × IsTypedMap n P m

abbrev value_at : {V : Type 0} → V → Table (List ℕ) V → List ℕ → V
value_at z m k = value_or z (get bytes_discrete k m)

module _ {V : Type 0} (n : ℕ) (P : V → Type 0) where
  keys-sized : (m : Table (List ℕ) V) → IsTypedMap n P m → AreAllSized n (keys m)
  keys-sized [] h = tt
  keys-sized ((k, v) ∷ m) (e, p, h) = (e, keys-sized m h)

  sorted_keys-sized : (m : Table (List ℕ) V) → IsTypedMap n P m → AreAllSized n (sorted_keys m)
  unfolding sorted_keys
  sorted_keys-sized m h = All-sort bytes_less (λ x. length x ≡ n) (keys m) (keys-sized m h)

  at_typed :
      (z : V) → P z → (m : Table (List ℕ) V) → IsTypedMap n P m → (k : List ℕ) → P (value_at z m k)
  unfolding get
  at_typed z pz [] h k = pz
  at_typed z pz ((j, v) ∷ m) (e, p, h) k = elim (bytes_discrete j k) [
    | yes same ↦ rw (if_pos (bytes_discrete j k) same) p
    | no other ↦ rw (if_neg (bytes_discrete j k) other) (at_typed z pz m h k)
  ]

listed-All :
    (Q : List ℕ → Type 0) (k : List ℕ) (ks : List (List ℕ)) → listed k ks ≡ true → All Q ks → Q k
unfolding listed
listed-All Q k [] h a = absurd (ground arith)
listed-All Q k (j ∷ ks) h (q, a) = elim (bytes_discrete j k) [
  | yes same ↦ subst Q same q
  | no other ↦ listed-All Q k ks (rw (if_neg (bytes_discrete j k) other) at h) a
]

related :
    {V : Type 0} (R : V → V → Type 0) (z : V) (o p : Option V)
    → exists o ≡ exists p
    → (exists o ≡ true → R (value_or z o) (value_or z p))
    → AreRelated R o p
related R z none none e h = tt
related R z (some v) (some w) e h = h refl
related R z none (some w) e h = absurd (ground arith)
related R z (some v) none e h = absurd (ground arith)

module _ {V : Type 0} (f : List ℕ → V → List ℕ) (z : V) (P : V → Type 0) (R : V → V → Type 0)
    (n : ℕ) (mark : List ℕ)
    (split : (k j : List ℕ) (v w : V) (r t : List ℕ)
      → length k ≡ n
      → length j ≡ n
      → P v
      → P w
      → f k v ++ r ≡ f j w ++ t
      → (k ≡ j) × R v w × (r ≡ t))
    (starts : (k : List ℕ) (v : V) (r : List ℕ) → (x : List ℕ) × (f k v ++ r ≡ write_bytes k ++ x))
    (apart : length mark ≢ n) (small : n < 2 ^ 63) (mark_small : length mark < 2 ^ 63) where
  -- The next section cannot be taken for an entry.
  not_section :
      (k : List ℕ) (v : V) (r t : List ℕ) → length k ≡ n → write_section mark ++ r ≡ f k v ++ t → ⊥
  unfolding write_section
  not_section k v r t h e =
      let (x, s) = starts k v t in
      apart ((length_split mark k r x mark_small (omega (arith, h)) (e ∙ s)).0 ∙ h)

  section_end : (r t : List ℕ) → write_section mark ++ r ≡ write_section mark ++ t → r ≡ t
  unfolding write_section
  section_end r t e = (bytes_split_end mark mark r t mark_small mark_small e).1

  walk_split :
      (m m' : Table (List ℕ) V) (ks js : List (List ℕ)) (r t : List ℕ)
      → AreAllSized n ks
      → AreAllSized n js
      → ((k : List ℕ) → P (value_at z m k))
      → ((k : List ℕ) → P (value_at z m' k))
      → walk f z m ks ++ (write_section mark ++ r) ≡ walk f z m' js ++ (write_section mark ++ t)
      → (ks ≡ js) × All (λ k. R (value_at z m k) (value_at z m' k)) ks × (r ≡ t)
  unfolding walk
  walk_split m m' [] [] r t hs js p q e = (refl, tt, section_end r t e)
  walk_split m m' [] (j ∷ js) r t hs (h, hj) p q e = absurd (
      not_section j (value_at z m' j) r (walk f z m' js ++ (write_section mark ++ t)) h
        (e ∙ append_assoc (f j (value_at z m' j)) (walk f z m' js) (write_section mark ++ t)))
  walk_split m m' (k ∷ ks) [] r t (h, hk) hj p q e = absurd (
      not_section k (value_at z m k) t (walk f z m ks ++ (write_section mark ++ r)) h
        (sym e ∙ append_assoc (f k (value_at z m k)) (walk f z m ks) (write_section mark ++ r)))
  walk_split m m' (k ∷ ks) (j ∷ js) r t (hk, hks) (hj, hjs) p q e =
      let (key, value, more) =
        split k j (value_at z m k) (value_at z m' j) (walk f z m ks ++ (write_section mark ++ r))
          (walk f z m' js ++ (write_section mark ++ t)) hk hj (p k) (q j)
          (sym (append_assoc (f k (value_at z m k)) (walk f z m ks) (write_section mark ++ r))
            ∙ e
            ∙ append_assoc (f j (value_at z m' j)) (walk f z m' js) (write_section mark ++ t)) in
      let (others, values, rest) = walk_split m m' ks js r t hks hjs p q more in
      (
        ap (λ i. i ∷ ks) key ∙ ap (◌∷◌ j) others,
        (subst (λ i. R (value_at z m k) (value_at z m' i)) (sym key) value, values),
        rest,
      )

  -- Two maps that are walked to the same stream, with the next section behind it, hold related
  -- values under the same keys.
  pub walk_map_split :
      (m m' : Table (List ℕ) V) (r t : List ℕ)
      → P z
      → IsTypedMap n P m
      → IsTypedMap n P m'
      → walk_map f z m ++ (write_section mark ++ r) ≡ walk_map f z m' ++ (write_section mark ++ t)
      → ((k : List ℕ) → AreRelated R (get bytes_discrete k m) (get bytes_discrete k m')) × (r ≡ t)
  unfolding walk_map
  walk_map_split m m' r t pz h h' e =
      let (same, values, rest) =
        walk_split m m' (sorted_keys m) (sorted_keys m') r t (sorted_keys-sized n P m h)
          (sorted_keys-sized n P m' h') (at_typed n P z pz m h) (at_typed n P z pz m' h') e in
      let here : (k : List ℕ) (l : Table (List ℕ) V)
          → listed k (sorted_keys l) ≡ exists (get bytes_discrete k l) =
        λ (k : List ℕ) (l : Table (List ℕ) V). listed-sorted_keys k l in
      (
        λ (k : List ℕ).
            related R z (get bytes_discrete k m) (get bytes_discrete k m')
              (sym (here k m) ∙ ap (listed k) same ∙ here k m')
              (λ (u : exists (get bytes_discrete k m) ≡ true).
                listed-All (λ i. R (value_at z m i) (value_at z m' i)) k (sorted_keys m)
                  (here k m ∙ u) values),
        rest,
      )
