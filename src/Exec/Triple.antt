-- ===== src/Exec/Triple.antt =====
-- Rules for what a method leaves behind: `Keeps` speaks of every end, `Triple` of a normal return,
-- and `Total` says that there is one.
use graphon.Prelude.{
  String, ◌≡◌, refl, Bool, true, false, List, [], ◌∷◌, Option, none, some, All, if◌then◌else◌,
}
use graphon.Exec.{
  Exception, key_error, Result, ok, err, Exec, pure, raise, gets, require, continue, ◌>>=◌,
  for_each,
}

-- `m` keeps `P`, whether it returns or raises.
pub record Keeps {ℓ κ} {S A : Type ℓ} (P : S → Type κ) (m : Exec S A) : Type (ℓ ⊔ κ) where
  pub at : (s : S) → P s → P (m s).1

-- If `m` returns from a state with `P`, then `Q` holds of its value and of the state left.
pub record Triple {ℓ κ} {S A : Type ℓ} (P : S → Type κ) (m : Exec S A) (Q : A → S → Type κ)
    : Type (ℓ ⊔ κ) where
  pub run : (s : S) → P s → (a : A) → (m s).0 ≡ ok a → Q a (m s).1

module _ {ℓ κ} {S A : Type ℓ} {P : S → Type κ} where
  pub Keeps-pure : (a : A) → Keeps P (pure a)
  Keeps-pure a = record { at = λ s h. h }

  pub Keeps-raise : (e : Exception) → Keeps P (raise {A = A} e)
  Keeps-raise e = record { at = λ s h. h }

  pub Keeps-require : (k : String) (o : Option A) → Keeps P (require k o)
  Keeps-require k none = Keeps-raise (key_error k)
  Keeps-require k (some a) = Keeps-pure a

  pub Keeps-gets : (read : S → A) → Keeps P (gets read)
  Keeps-gets read = record { at = λ s h. h }

  pub Keeps-if : (b : Bool) (m n : Exec S A) → Keeps P m → Keeps P n → Keeps P (if b then m else n)
  Keeps-if true m n hm hn = hm
  Keeps-if false m n hm hn = hn

module _ {ℓ κ} {S A B : Type ℓ} {P : S → Type κ} where
  Keeps-continue :
      (r : Result A) (next : A → Exec S B) (state : S)
      → ((a : A) → Keeps P (next a))
      → P state
      → P (continue r next state).1
  Keeps-continue (ok a) next state kept_after h = (kept_after a).at state h
  Keeps-continue (err e) next state kept_after h = h

  pub Keeps-bind :
      (action : Exec S A) (next : A → Exec S B)
      → Keeps P action
      → ((a : A) → Keeps P (next a))
      → Keeps P (action >>= next)
  unfolding ◌>>=◌
  Keeps-bind action next kept kept_after = record {
    at = λ state h.
        let (r, state') = action state in Keeps-continue r next state' kept_after (kept.at state h);
  }

  -- The same from one state, where `P` is known behind `action`.
  pub Keeps-bind_from :
      (action : Exec S A) (next : A → Exec S B) (state : S)
      → P (action state).1
      → ((a : A) → Keeps P (next a))
      → P ((action >>= next) state).1
  unfolding ◌>>=◌
  Keeps-bind_from action next state h kept_after =
      let (r, state') = action state in Keeps-continue r next state' kept_after h

  pub Keeps-require_found :
      (k : String) (o : Option A) (a : A) (next : A → Exec S B)
      → o ≡ some a
      → Keeps P (next a)
      → Keeps P (require k o >>= next)
  unfolding ◌>>=◌
  Keeps-require_found k o a next e t = record { at = λ state h. rw e (t.at state h) }

pub Keeps-for_each {ℓ κ} :
    {S A : Type ℓ} {P : S → Type κ} (body : A → Exec S (Unit {ℓ})) (xs : List A)
    → ((x : A) → Keeps P (body x))
    → Keeps P (for_each body xs)
unfolding for_each
Keeps-for_each body [] k = Keeps-pure tt
Keeps-for_each body (x ∷ xs) k = Keeps-bind (body x) _ (k x) (λ _. Keeps-for_each body xs k)

module _ {ℓ κ} {S A B : Type ℓ} {Q : A → S → Type κ} (f : A → Exec S B) where
  continue_run :
      {R : B → S → Type κ} (r : Result A) (s : S)
      → ((a : A) → Triple (Q a) (f a) R)
      → ((a : A) → r ≡ ok a → Q a s)
      → (b : B) → (continue r f s).0 ≡ ok b
      → R b (continue r f s).1
  continue_run (ok a) s tf q b e = (tf a).run s (q a refl) b e
  continue_run (err x) s tf q b e = cc

module _ {ℓ κ} {S A B : Type ℓ} {P : S → Type κ} (m : Exec S A) (f : A → Exec S B) where
  pub Triple-bind :
      {Q : A → S → Type κ} {R : B → S → Type κ}
      → Triple P m Q
      → ((a : A) → Triple (Q a) (f a) R)
      → Triple P (m >>= f) R
  unfolding ◌>>=◌
  Triple-bind tm tf = record {
    run = λ s h b e. let (r, s') = m s in continue_run f r s' tf (tm.run s h) b e;
  }

-- A loop whose body has `P` before and after it.
pub Triple-for_each {ℓ κ} :
    {S A : Type ℓ} {P : S → Type κ} (body : A → Exec S (Unit {ℓ})) (xs : List A)
    → ((x : A) → Triple P (body x) (λ _. P))
    → Triple P (for_each body xs) (λ _. P)
unfolding for_each
Triple-for_each body [] k = record { run = λ s h _ _. h }
Triple-for_each body (x ∷ xs) k = Triple-bind (body x) _ (k x) (λ _. Triple-for_each body xs k)

-- The same, with a property of the members that the body may use.
pub Triple-for_each_All {ℓ κ} :
    {S A : Type ℓ} {P : S → Type κ} (D : A → Type κ) (body : A → Exec S (Unit {ℓ})) (xs : List A)
    → All D xs
    → ((x : A) → D x → Triple P (body x) (λ _. P))
    → Triple P (for_each body xs) (λ _. P)
unfolding for_each
Triple-for_each_All D body [] d k = record { run = λ s h _ _. h }
Triple-for_each_All D body (x ∷ xs) d k =
    Triple-bind (body x) _ (k x d.0) (λ _. Triple-for_each_All D body xs d.1 k)

-- `m` returns from every state: no exception, and no end of the recursion depth.
pub record Total {ℓ} {S A : Type ℓ} (m : Exec S A) : Type ℓ where
  pub at : (s : S) → (a : A) × ((m s).0 ≡ ok a)

module _ {ℓ} {S A B : Type ℓ} where
  pub Total-bind :
      (m : Exec S A) (f : A → Exec S B) → Total m → ((a : A) → Total (f a)) → Total (m >>= f)
  unfolding ◌>>=◌
  Total-bind m f tm tf = record {
    at = λ s. let (a, e) = tm.at s in let (r, s') = m s in rw e ((tf a).at s');
  }

  pub Total-require :
      (k : String) (o : Option A) (a : A) (f : A → Exec S B)
      → o ≡ some a
      → Total (f a)
      → Total (require k o >>= f)
  unfolding ◌>>=◌
  Total-require k o a f e t = record { at = λ s. rw e (t.at s) }

pub Total-for_each {ℓ κ} :
    {S A : Type ℓ} (D : A → Type κ) (body : A → Exec S (Unit {ℓ})) (xs : List A)
    → All D xs
    → ((x : A) → D x → Total (body x))
    → Total (for_each body xs)
unfolding for_each
Total-for_each D body [] d t = record { at = λ s. (tt, refl) }
Total-for_each D body (x ∷ xs) d t =
    Total-bind (body x) _ (t x d.0) (λ _. Total-for_each D body xs d.1 t)

-- What each round establishes and no round destroys holds for all members at the end.
pub Triple-for_each_each {ℓ κ} :
    {S A : Type ℓ} (D : A → Type κ) (P : S → Type κ) (Q : A → S → Type κ)
    (body : A → Exec S (Unit {ℓ})) (xs : List A)
    → All D xs
    → ((x : A) → D x → Triple P (body x) (λ _ s. P s × Q x s))
    → ((x y : A) → Keeps (Q y) (body x))
    → Triple P (for_each body xs) (λ _ s. P s × All (λ x. Q x s) xs)
unfolding for_each
Triple-for_each_each D P Q body [] d t k = record { run = λ s h _ _. (h, tt) }
Triple-for_each_each D P Q body (x ∷ xs) d t k = Triple-bind (body x) _ (t x d.0) λ _. record {
  run = λ s h a e.
      let (p, all) = (Triple-for_each_each D P Q body xs d.1 t k).run s h.0 a e in
      (p, ((Keeps-for_each body xs (λ y. k y x)).at s h.1, all));
}

-- What holds on every end holds beside what holds on a return.
pub Triple-Keeps {ℓ κ} :
    {S A : Type ℓ} {P K : S → Type κ} {Q : A → S → Type κ} (m : Exec S A)
    → Triple P m Q
    → Keeps K m
    → Triple (λ s. P s × K s) m (λ a s. Q a s × K s)
Triple-Keeps m t k = record { run = λ s h a e. (t.run s h.0 a e, k.at s h.1) }

module _ {ℓ κ} {S A : Type ℓ} {P : S → Type κ} {Q : A → S → Type κ} where
  pub Triple-if :
      (b : Bool) (m n : Exec S A) → Triple P m Q → Triple P n Q → Triple P (if b then m else n) Q
  Triple-if true m n tm tn = tm
  Triple-if false m n tm tn = tn

  pub Triple-raise : (e : Exception) → Triple P (raise e) Q
  Triple-raise e = record { run = λ s h a r. cc }

pub Triple-require {ℓ κ} :
    {S A : Type ℓ} {P : S → Type κ} (k : String) (o : Option A) → Triple P (require k o) (λ _. P)
Triple-require k none = Triple-raise (key_error k)
Triple-require k (some a) = record { run = λ s h _ _. h }

pub Total-if {ℓ} :
    {S A : Type ℓ} (b : Bool) (m n : Exec S A) → Total m → Total n → Total (if b then m else n)
Total-if true m n tm tn = tm
Total-if false m n tm tn = tn
