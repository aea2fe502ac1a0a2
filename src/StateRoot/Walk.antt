-- ===== src/StateRoot/Walk.antt =====
-- The walk over one map of blocks/stateRoot.go, in two orders of iteration.
use qwid_node.Base.{
  List, Option, [], ap, arith, if_pos, length, none, refl, some, sym, ℕ, ◌==◌, ◌∙◌, ◌∷◌, ◌≡◌,
}
use qwid_node.Base.Table.{IsTable, Table, get}
use qwid_node.Base.Update.{exists, value_or}
use qwid_node.Types.{bytes_discrete}
use qwid_node.StateRoot.{keys, sorted_keys, walk, walk_map}
use qwid_node.StateRoot.Order.{AreDifferent, AreSorted-unique, listed, listed-sort, sort-AreSorted}

listed-keys :
    {V : Type 0} (k : List ℕ) (m : Table (List ℕ) V)
    → listed k (keys m) ≡ exists (get bytes_discrete k m)
unfolding listed get
listed-keys k [] = refl
listed-keys k ((j, v) ∷ m) = ground (arith, listed-keys k m)

pub listed-sorted_keys :
    {V : Type 0} (k : List ℕ) (m : Table (List ℕ) V)
    → listed k (sorted_keys m) ≡ exists (get bytes_discrete k m)
unfolding sorted_keys
listed-sorted_keys k m = listed-sort k (keys m) ∙ listed-keys k m

keys-AreDifferent :
    {V : Type 0} (m : Table (List ℕ) V) → IsTable bytes_discrete m → AreDifferent (keys m)
keys-AreDifferent [] h = tt
keys-AreDifferent ((k, v) ∷ m) (h, t) = (listed-keys k m ∙ ap exists h, keys-AreDifferent m t)

-- Two maps with the same keys.
abbrev pub HaveSameKeys : {V : Type 0} → Table (List ℕ) V → Table (List ℕ) V → Type 0
HaveSameKeys m n = (k : List ℕ) → exists (get bytes_discrete k m) ≡ exists (get bytes_discrete k n)

sorted_keys_same :
    {V : Type 0} (m n : Table (List ℕ) V)
    → IsTable bytes_discrete m
    → IsTable bytes_discrete n
    → HaveSameKeys m n
    → sorted_keys m ≡ sorted_keys n
unfolding sorted_keys
sorted_keys_same m n s t h =
    AreSorted-unique _ _ (sort-AreSorted (keys m) (keys-AreDifferent m s))
      (sort-AreSorted (keys n) (keys-AreDifferent n t))
      (λ (k : List ℕ).
        listed-sort k (keys m)
        ∙ listed-keys k m
        ∙ h k
        ∙ sym (listed-keys k n)
        ∙ sym (listed-sort k (keys n)))

module _ {V : Type 0} (f : List ℕ → V → List ℕ) (z : V) where
  walk_same :
      (m n : Table (List ℕ) V) (ks : List (List ℕ))
      → ((k : List ℕ)
          → f k (value_or z (get bytes_discrete k m)) ≡ f k (value_or z (get bytes_discrete k n)))
      → walk f z m ks ≡ walk f z n ks
  unfolding walk
  walk_same m n [] h = refl
  walk_same m n (k ∷ ks) h = rw (h k, walk_same m n ks h) refl

  pub walk_map_same :
      (m n : Table (List ℕ) V)
      → IsTable bytes_discrete m
      → IsTable bytes_discrete n
      → HaveSameKeys m n
      → ((k : List ℕ)
          → f k (value_or z (get bytes_discrete k m)) ≡ f k (value_or z (get bytes_discrete k n)))
      → walk_map f z m ≡ walk_map f z n
  unfolding walk_map
  walk_map_same m n s t k h = rw (sorted_keys_same m n s t k) (walk_same m n (sorted_keys n) h)

-- What two maps hold at each key is related, and both or neither hold something.
abbrev pub AreRelated : {V : Type 0} → (V → V → Type 0) → Option V → Option V → Type 0
AreRelated R none none = Unit
AreRelated R (some v) (some w) = R v w
AreRelated R _ _ = ⊥

AreRelated-exists :
    {V : Type 0} (R : V → V → Type 0) (o p : Option V) → AreRelated R o p → exists o ≡ exists p
AreRelated-exists R none none h = refl
AreRelated-exists R (some v) (some w) h = refl
AreRelated-exists R none (some w) h = absurd h
AreRelated-exists R (some v) none h = absurd h

module _ {V : Type 0} (R : V → V → Type 0) where
  -- Two maps of no key twice, which agree at every key up to `R`.
  abbrev pub AreSame : Table (List ℕ) V → Table (List ℕ) V → Type 0
  AreSame m n =
      IsTable bytes_discrete m
      × (IsTable bytes_discrete n
          × ((k : List ℕ) → AreRelated R (get bytes_discrete k m) (get bytes_discrete k n)))

  value_or_same :
      (f : V → List ℕ) (z : V) (o p : Option V)
      → AreRelated R o p
      → ((v w : V) → R v w → f v ≡ f w)
      → f (value_or z o) ≡ f (value_or z p)
  value_or_same f z none none h g = refl
  value_or_same f z (some v) (some w) h g = g v w h
  value_or_same f z none (some w) h g = absurd h
  value_or_same f z (some v) none h g = absurd h

  pub walk_map-AreSame :
      (f : List ℕ → V → List ℕ) (z : V) (m n : Table (List ℕ) V)
      → AreSame m n
      → ((k : List ℕ) (v w : V) → R v w → f k v ≡ f k w)
      → walk_map f z m ≡ walk_map f z n
  walk_map-AreSame f z m n (s, (t, h)) g =
      walk_map_same f z m n s t
        (λ (k : List ℕ).
          AreRelated-exists R (get bytes_discrete k m) (get bytes_discrete k n) (h k))
        (λ (k : List ℕ).
          value_or_same (f k) z (get bytes_discrete k m) (get bytes_discrete k n) (h k) (g k))

-- A map that holds nothing is the empty table.
pub length-AreSame :
    {V : Type 0} (R : V → V → Type 0) (m n : Table (List ℕ) V)
    → AreSame R m n
    → (length m == 0) ≡ (length n == 0)
unfolding get
length-AreSame R [] [] h = refl
length-AreSame R (p ∷ m) (q ∷ n) h = ground arith
length-AreSame R [] ((k, v) ∷ n) (s, (t, h)) =
    absurd (rw (if_pos (bytes_discrete k k) refl) at (h k))
length-AreSame R ((k, v) ∷ m) [] (s, (t, h)) =
    absurd (rw (if_pos (bytes_discrete k k) refl) at (h k))
