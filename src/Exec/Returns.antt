-- ===== src/Exec/Returns.antt =====
-- Rules for a method that returns from one state, and what it leaves behind there.
use graphon.Prelude.{String, ◌≡◌, refl, sym, ap, ◌∙◌, subst, Option, some}
use graphon.Exec.{Result, ok, Exec, pure, gets, require, from_result, continue, ◌>>=◌}

-- `m` returns from `state`, and `Q` holds of its value and of the state that it leaves.
pub record Returns {ℓ κ} {S A : Type ℓ} (m : Exec S A) (state : S) (Q : A → S → Type κ)
    : Type (ℓ ⊔ κ) where
  pub value : A
  pub is_ok : (m state).0 ≡ ok value
  pub after : Q value (m state).1

module _ {ℓ κ} {S A : Type ℓ} {Q : A → S → Type κ} where
  pub Returns-pure : (a : A) (state : S) → Q a state → Returns (pure a) state Q
  Returns-pure a state h = record { value = a; is_ok = refl; after = h }

  pub Returns-gets : (read : S → A) (state : S) → Q (read state) state → Returns (gets read) state Q
  Returns-gets read state h = record { value = read state; is_ok = refl; after = h }

  pub Returns-require :
      (k : String) (o : Option A) (a : A) (state : S)
      → o ≡ some a
      → Q a state
      → Returns (require k o) state Q
  Returns-require k o a state e h = rw e (Returns-pure a state h)

  pub Returns-from_result :
      (r : Result A) (a : A) (state : S) → r ≡ ok a → Q a state → Returns (from_result r) state Q
  Returns-from_result r a state e h = record { value = a; is_ok = e; after = h }

  -- A method that does the same at the state.
  pub Returns-same :
      (m n : Exec S A) (state : S) → m state ≡ n state → Returns n state Q → Returns m state Q
  Returns-same m n state e h = record {
    value = h.value;
    is_ok = ap (λ r. r.0) e ∙ h.is_ok;
    after = subst (λ r. Q h.value r.1) (sym e) h.after;
  }

module _ {ℓ κ} {S A B : Type ℓ} {Q : A → S → Type κ} {R : B → S → Type κ} where
  pub Returns-bind :
      (m : Exec S A) (f : A → Exec S B) (state : S)
      → Returns m state Q
      → ((a : A) (s : S) → Q a s → Returns (f a) s R)
      → Returns (m >>= f) state R
  unfolding ◌>>=◌
  Returns-bind m f state h next =
      let back = go (m state).0 (m state).1 h.value h.is_ok h.after in
      record { value = back.value; is_ok = back.is_ok; after = back.after }
    where
      go : (r : Result A) (s : S) (a : A) → r ≡ ok a → Q a s → Returns (λ _. continue r f s) state R
      go r s a e q =
          rw e (let n = next a s q in record { value = n.value; is_ok = n.is_ok; after = n.after })

module _ {ℓ κ} {S A : Type ℓ} {Q : A → S → Type κ} {R : A → S → Type κ} where
  pub Returns-map :
      (m : Exec S A) (state : S)
      → Returns m state Q
      → ((a : A) (s : S) → Q a s → R a s)
      → Returns m state R
  Returns-map m state h f = record { value = h.value; is_ok = h.is_ok; after = f h.value _ h.after }

module _ {ℓ κ} {S A B : Type ℓ} {R : B → S → Type κ} (f : A → Exec S B) (state : S) where
  pub Returns-after_gets :
      (read : S → A) → Returns (f (read state)) state R → Returns (gets read >>= f) state R
  unfolding ◌>>=◌
  Returns-after_gets read h = record { value = h.value; is_ok = h.is_ok; after = h.after }

  -- The same with a value that the state is known to hold.
  pub Returns-after_known :
      (read : S → A) (a : A)
      → read state ≡ a
      → Returns (f a) state R
      → Returns (gets read >>= f) state R
  Returns-after_known read a e h = Returns-after_gets read (rw e h)

  pub Returns-after_require :
      (k : String) (o : Option A) (a : A)
      → o ≡ some a
      → Returns (f a) state R
      → Returns (require k o >>= f) state R
  unfolding ◌>>=◌
  Returns-after_require k o a e h =
      rw e record { value = h.value; is_ok = h.is_ok; after = h.after }

  pub Returns-after_result :
      (r : Result A) (a : A)
      → r ≡ ok a
      → Returns (f a) state R
      → Returns (from_result r >>= f) state R
  unfolding ◌>>=◌
  Returns-after_result r a e h = rw e record { value = h.value; is_ok = h.is_ok; after = h.after }
