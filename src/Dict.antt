-- ===== src/Dict.antt =====
-- Python's `dict` with text keys, in insertion order.
use graphon.Prelude.{
  String, ◌≡◌, refl, ap, Bool, true, false, Option, none, some, List, [], ◌∷◌, arith, ◌==◌, eq_iff,
  eq_refl, if◌then◌else◌, All,
}

abbrev pub Dict {ℓ} : Type ℓ → Type ℓ
Dict V = List (String × V)

module _ {ℓ} {V : Type ℓ} where
  -- d.get(k)
  unfoldable pub get : Dict V → String → Option V
  get [] k = none
  get ((j, v) ∷ d) k = if j == k then some v else get d k

  -- d[k] = v
  unfoldable pub put : Dict V → String → V → Dict V
  put [] k v = (k, v) ∷ []
  put ((j, w) ∷ d) k v = if j == k then (j, v) ∷ d else (j, w) ∷ put d k v

  -- d.pop(k, None)
  unfoldable pub remove : Dict V → String → Dict V
  remove [] k = []
  remove ((j, v) ∷ d) k = let rest = remove d k in if j == k then rest else (j, v) ∷ rest

  -- k in d
  unfoldable pub has : Dict V → String → Bool
  has [] k = false
  has ((j, v) ∷ d) k = if j == k then true else has d k

  unfoldable pub values : Dict V → List V
  values [] = []
  values ((j, v) ∷ d) = v ∷ values d

  unfoldable pub keys : Dict V → List String
  keys [] = []
  keys ((j, v) ∷ d) = j ∷ keys d

  abbrev pub or_else : Option V → V → V
  or_else none v = v
  or_else (some w) v = w

  -- d.get(k, default)
  unfoldable pub get_or : Dict V → String → V → V
  get_or d k v = or_else (get d k) v

  pub get-put :
      (entries : Dict V) (key other : String) (new : V)
      → get (put entries key new) other ≡ (if key == other then some new else get entries other)
  unfolding get put
  get-put [] key other new = refl
  get-put ((i, w) ∷ entries) key other new =
      ground (arith, eq_iff key other, eq_iff i key, eq_iff i other, get-put entries key other new)

  pub get-remove :
      (entries : Dict V) (key other : String)
      → get (remove entries key) other ≡ (if key == other then none else get entries other)
  unfolding get remove
  get-remove [] key other = ground arith
  get-remove ((i, w) ∷ entries) key other =
      ground (arith, eq_iff key other, eq_iff i key, eq_iff i other, get-remove entries key other)

  pub get-put_self : (d : Dict V) (k : String) (v : V) → get (put d k v) k ≡ some v
  get-put_self d k v = simp (get-put, eq_refl)

  pub has-get :
      (d : Dict V) (k : String) → has d k ≡ elim (get d k) [ none ↦ false | some _ ↦ true ]
  unfolding get has
  has-get [] k = refl
  has-get ((i, w) ∷ d) k = ground (arith, has-get d k)

  -- A key that is in a dictionary has a value.
  pub get_of_has : (d : Dict V) (k : String) → has d k ≡ true → (v : V) × (get d k ≡ some v)
  unfolding get has
  get_of_has [] k h = cc
  get_of_has ((i, w) ∷ entries) k h = go (i == k) h (get_of_has entries k)
    where
      go :
          (b : Bool)
          → (if b then true else has entries k) ≡ true
          → (has entries k ≡ true → (v : V) × (get entries k ≡ some v))
          → (v : V) × ((if b then some w else get entries k) ≡ some v)
      go true is rest = (w, refl)
      go false is rest = rest is

  pub get_or-put_self : (d : Dict V) (k : String) (v w : V) → get_or (put d k v) k w ≡ v
  unfolding get_or
  get_or-put_self d k v w = simp get-put_self

  pub get_or-put :
      (d : Dict V) (k j : String) (v w : V)
      → get_or (put d k v) j w ≡ (if k == j then v else get_or d j w)
  unfolding get_or
  get_or-put d k j v w = rw get-put (ground arith)

  -- What holds of all values holds of the one at a key.
  pub get-All :
      (P : V → Type 0) (d : Dict V) (k : String) (v : V) → All P (values d) → get d k ≡ some v → P v
  unfolding get values
  get-All P [] k v h found = cc
  get-All P ((j, w) ∷ d) k v h found = go (j == k) found (get-All P d k v h.1)
    where
      go : (b : Bool) → (if b then some w else get d k) ≡ some v → (get d k ≡ some v → P v) → P v
      go true is rest = let same : w ≡ v = ap (λ o. or_else o w) is in rw same at h.0
      go false is rest = rest is
