-- ===== src/Base/Update.antt =====
-- A Go map that is only read and written by key: its lookup function. `upd` is one write.
use qwid_node.Base.{
  Bool, Option, ap, arith, false, fun_ext, ite, none, refl, some, sym, true, ◌∙◌, ◌≡◌,
}

abbrev pub Map {ℓ} : Type ℓ → Type ℓ → Type ℓ
Map K V = K → Option V

-- `v, ok := m[k]`: the value, with the zero value for a missing key, and whether it is there.
abbrev pub value_or {ℓ} : {V : Type ℓ} → V → Option V → V
value_or d none = d
value_or d (some v) = v

abbrev pub exists {ℓ} : {V : Type ℓ} → Option V → Bool
exists none = false
exists (some v) = true

-- What a journal entry writes back from such a pair.
abbrev pub put_back {ℓ} : {V : Type ℓ} → Bool → V → Option V
put_back true v = some v
put_back false v = none

pub put_back_lem {ℓ} : {V : Type ℓ} (d : V) (o : Option V) → put_back (exists o) (value_or d o) ≡ o
put_back_lem d none = refl
put_back_lem d (some v) = refl

pub exists-eq_true {ℓ} : {V : Type ℓ} (o : Option V) → exists o ≡ true → (v : V) × (o ≡ some v)
exists-eq_true none h = cc
exists-eq_true (some v) h = (v, refl)

module _ {ℓ} {K V : Type ℓ} (dec : Discrete K) where
  unfoldable pub upd : (K → V) → K → V → K → V
  upd f k v j = ite (dec k j) v (f j)

  pub upd-upd : (f : K → V) (k : K) (v w : V) → upd (upd f k v) k w ≡ upd f k w
  unfolding upd
  upd-upd f k v w = fun_ext (λ j. ground arith)

  pub upd_self : (f : K → V) (k : K) (v : V) → f k ≡ v → upd f k v ≡ f
  unfolding upd
  upd_self f k v h = fun_ext (λ j. ground arith)

  pub upd_at : (f : K → V) (k : K) (v : V) → upd f k v k ≡ v
  unfolding upd
  upd_at f k v = ground arith

  -- A write and the write that takes it back.
  pub upd_restore : (f : K → V) (k : K) (v w : V) → f k ≡ w → upd (upd f k v) k w ≡ f
  upd_restore f k v w h = upd-upd f k v w ∙ upd_self f k w h

module _ {ℓ} {K V W : Type ℓ} (dec : Discrete K) where
  pub map-upd :
      (g : V → W) (f : K → V) (k : K) (v : V)
      → (λ (j : K). g (upd dec f k v j)) ≡ upd dec (λ (j : K). g (f j)) k (g v)
  unfolding upd
  map-upd g f k v = fun_ext (λ j. ground arith)

  pub map-upd_restore :
      (g : V → W) (f : K → V) (k : K) (v : V) (w : W)
      → g (f k) ≡ w
      → upd dec (λ (j : K). g (upd dec f k v j)) k w ≡ (λ (j : K). g (f j))
  map-upd_restore g f k v w e =
      ap (λ (h : K → W). upd dec h k w) (map-upd g f k v)
      ∙ upd_restore dec (λ (j : K). g (f j)) k (g v) w e

module _ {ℓ} {K V : Type ℓ} (dec : Discrete K) where
  -- A write to a map, and the write back of what was there.
  pub upd-put_back :
      (f : Map K V) (k : K) (v : Option V) (d : V)
      → upd dec (upd dec f k v) k (put_back (exists (f k)) (value_or d (f k))) ≡ f
  upd-put_back f k v d = upd_restore dec f k v _ (sym (put_back_lem d (f k)))
