-- ===== src/Base/Table.antt =====
-- A Go map that the program ranges over: an association list, in some order of iteration.
use qwid_node.Base.{
  Bool, List, Option, [], arith, false, if◌then◌else◌, ite, none, refl, some, true, ◌∷◌, ◌≡◌,
}

abbrev pub Table {ℓ} : Type ℓ → Type ℓ → Type ℓ
Table K V = List (K × V)

abbrev pub keep_if {ℓ} : {V : Type ℓ} → Bool → Option V → Option V
keep_if true o = o
keep_if false o = none

module _ {ℓ} {K V : Type ℓ} where
  -- A loop `for k, v := range m { if !p(k, v) { delete(m, k) } }`, in whatever order it runs.
  unfoldable pub retain : (K → V → Bool) → Table K V → Table K V
  retain p [] = []
  retain p ((k, v) ∷ m) = let rest = retain p m in if p k v then (k, v) ∷ rest else rest

  abbrev pub kept : (K → V → Bool) → K → Option V → Option V
  kept p k none = none
  kept p k (some v) = keep_if (p k v) (some v)

module _ {ℓ} {K V : Type ℓ} (dec : Discrete K) where
  -- `m[k]`
  unfoldable pub get : K → Table K V → Option V
  get k [] = none
  get k ((j, v) ∷ m) = ite (dec j k) (some v) (get k m)

  -- `m[k] = v`
  unfoldable pub put : K → V → Table K V → Table K V
  put k v [] = (k, v) ∷ []
  put k v ((j, w) ∷ m) = ite (dec j k) ((k, v) ∷ m) ((j, w) ∷ put k v m)

  -- `delete(m, k)`
  unfoldable pub delete : K → Table K V → Table K V
  delete k [] = []
  delete k ((j, w) ∷ m) = let rest = delete k m in ite (dec j k) rest ((j, w) ∷ rest)

  pub get-put :
      (k j : K) (v : V) (m : Table K V) → get j (put k v m) ≡ ite (dec k j) (some v) (get j m)
  unfolding get put
  get-put k j v [] = refl
  get-put k j v ((i, w) ∷ m) = ground (arith, get-put k j v m)

  pub get-delete : (k j : K) (m : Table K V) → get j (delete k m) ≡ ite (dec k j) none (get j m)
  unfolding get delete
  get-delete k j [] = ground arith
  get-delete k j ((i, w) ∷ m) = ground (arith, get-delete k j m)

  -- No key is listed twice, as in every Go map.
  abbrev pub IsTable : Table K V → Type ℓ
  IsTable [] = Unit
  IsTable ((k, v) ∷ m) = (get k m ≡ none) × IsTable m

  pub put-IsTable : (k : K) (v : V) (m : Table K V) → IsTable m → IsTable (put k v m)
  unfolding get put
  put-IsTable k v [] h = (refl, tt)
  put-IsTable k v ((j, w) ∷ m) h = ground (arith, put-IsTable k v m h.1, get-put k j v m)

  delete-IsTable : (k : K) (m : Table K V) → IsTable m → IsTable (delete k m)
  unfolding get delete
  delete-IsTable k [] h = tt
  delete-IsTable k ((j, w) ∷ m) h = ground (arith, delete-IsTable k m h.1, get-delete k j m)

  get-none-retain :
      (p : K → V → Bool) (k : K) (m : Table K V) → get k m ≡ none → get k (retain p m) ≡ none
  unfolding get retain
  get-none-retain p k [] h = refl
  get-none-retain p k ((j, w) ∷ m) h = ground (arith, get-none-retain p k m)

  retain-IsTable : (p : K → V → Bool) (m : Table K V) → IsTable m → IsTable (retain p m)
  unfolding retain
  retain-IsTable p [] h = tt
  retain-IsTable p ((j, w) ∷ m) h =
      ground (arith, retain-IsTable p m h.1, get-none-retain p j m h.0)

  -- What a pruning loop leaves at each key.
  pub get-retain :
      (p : K → V → Bool) (k : K) (m : Table K V)
      → IsTable m
      → get k (retain p m) ≡ kept p k (get k m)
  unfolding get retain
  get-retain p k [] h = refl
  get-retain p k ((j, w) ∷ m) h =
      ground (arith, get-retain p k m h.1, get-none-retain p k m, get-none-retain p j m h.0)
