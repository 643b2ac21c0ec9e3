-- ===== src/Response/Events/Removal.antt =====
-- Python's dict: what a removal leaves.
use graphon.Prelude.{
  ◌≤◌, ◌<◌, String, ◌≡◌, refl, ap, Bool, true, false, none, some, [], ◌∷◌, length, All, ◌==◌, arith,
  if◌then◌else◌,
}
use graphon.Dict
use graphon.Dict.{Dict}

-- A removal takes at most one entry's room, and one where the key is there.
pub remove-length : {A : Type 0} (d : Dict A) (k : String) → length (Dict.remove d k) ≤ length d
unfolding Dict.remove
remove-length [] k = omega arith
remove-length ((j, v) ∷ d) k = ground (arith, remove-length d k)

pub remove-shorter :
    {A : Type 0} (d : Dict A) (k : String) (v : A)
    → Dict.get d k ≡ some v
    → length (Dict.remove d k) < length d
unfolding Dict.remove Dict.get
remove-shorter [] k v h = cc
remove-shorter ((j, w) ∷ d) k v h = ground (arith, remove-length d k, remove-shorter d k v)

pub remove-All :
    {A : Type 0} (P : A → Type 0) (d : Dict A) (k : String)
    → All P (Dict.values d)
    → All P (Dict.values (Dict.remove d k))
unfolding Dict.remove Dict.values
remove-All P [] k h = tt
remove-All P ((j, v) ∷ d) k h = go (j == k) (remove-All P d k h.1)
  where
    go :
        (b : Bool)
        → All P (Dict.values (Dict.remove d k))
        → All P (Dict.values (if b then Dict.remove d k else (j, v) ∷ Dict.remove d k))
    go true rest = rest
    go false rest = (h.0, rest)

pub remove-absent :
    {A : Type 0} (d : Dict A) (k : String) → Dict.get d k ≡ none → Dict.remove d k ≡ d
unfolding Dict.remove Dict.get
remove-absent [] k h = refl
remove-absent ((j, v) ∷ d) k h = go (j == k) h (remove-absent d k)
  where
    go :
        (b : Bool)
        → (if b then some v else Dict.get d k) ≡ none
        → (Dict.get d k ≡ none → Dict.remove d k ≡ d)
        → (if b then Dict.remove d k else (j, v) ∷ Dict.remove d k) ≡ (j, v) ∷ d
    go true is rest = absurd (let clash : some v ≡ none = is in cc)
    go false is rest = ap (λ r. (j, v) ∷ r) (rest is)
