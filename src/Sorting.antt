-- ===== src/Sorting.antt =====
-- Python's sorted(), which is stable, also in the reverse order.
pub mod TextOrder
use mathlib.Core.List.{Perm}
use mathlib.Core.List.Perm
use graphon.Prelude.{
  ◌≡◌, refl, sym, ap, ◌∙◌, inl, inr, Bool, true, false, ◌&&◌, not, List, [], ◌∷◌, All, All-map,
  select, Bool-cases, arith, if◌then◌else◌,
}

module _ {A : Type 0} (before : A → A → Bool) where
  unfoldable pub insert : A → List A → List A
  insert x [] = x ∷ []
  insert x (y ∷ ys) = let rest = insert x ys in if before y x then y ∷ rest else x ∷ y ∷ ys

  unfoldable pub sort : List A → List A
  unfolding insert
  sort [] = []
  sort (x ∷ xs) = insert x (sort xs)

  -- No element has to stand before an earlier one.
  abbrev pub IsSorted : List A → Type 0
  IsSorted [] = Unit
  IsSorted (x ∷ xs) = All (λ y. before y x ≡ false) xs × IsSorted xs

  -- Neither of the two has to stand before the other.
  abbrev pub is_tied : A → A → Bool
  is_tied x y = not (before x y) && not (before y x)

  -- What a strict weak order asks.
  pub record IsOrder : Type 0 where
    pub asym : (x y : A) → before x y ≡ true → before y x ≡ false
    pub trans : (x y z : A) → before y x ≡ false → before z y ≡ false → before z x ≡ false

  -- `ys` is `xs` in order, with the order of `xs` among the tied ones.
  pub record IsStableSort (xs ys : List A) : Type 0 where
    pub ordered : IsSorted ys
    pub permuted : Perm ys xs
    pub stable : (a : A) → select (is_tied a) ys ≡ select (is_tied a) xs

  insert-perm : (x : A) (ys : List A) → Perm (insert x ys) (x ∷ ys)
  unfolding insert
  insert-perm x [] = Perm.rfl
  insert-perm x (y ∷ ys) = elim (Bool-cases (before y x)) [
    | inl later ↦ rw later (Perm.trans (Perm.cons y (insert-perm x ys)) (Perm.swap x y ys))
    | inr here ↦ rw here Perm.rfl
  ]

  pub sort-perm : (xs : List A) → Perm (sort xs) xs
  unfolding sort
  sort-perm [] = Perm.rfl
  sort-perm (x ∷ xs) = Perm.trans (insert-perm x (sort xs)) (Perm.cons x (sort-perm xs))

  All-insert : (P : A → Type 0) (x : A) (ys : List A) → P x → All P ys → All P (insert x ys)
  unfolding insert
  All-insert P x [] px pys = (px, tt)
  All-insert P x (y ∷ ys) px pys = elim (Bool-cases (before y x)) [
    | inl later ↦ rw later (pys.0, All-insert P x ys px pys.1)
    | inr here ↦ rw here (px, pys)
  ]

  insert-IsSorted : IsOrder → (x : A) (ys : List A) → IsSorted ys → IsSorted (insert x ys)
  unfolding insert
  insert-IsSorted order x [] s = (tt, tt)
  insert-IsSorted order x (y ∷ ys) s = elim (Bool-cases (before y x)) [
    | inl later ↦ rw later (
      All-insert (λ z. before z y ≡ false) x ys (order.asym y x later) s.0,
      insert-IsSorted order x ys s.1,
    )
    | inr here ↦ rw here (
      (
        here,
        All-map (λ z. before z y ≡ false) (λ z. before z x ≡ false) ys
            (λ z after_y. order.trans x y z here after_y) s.0,
      ),
      s,
    )
  ]

  sort-IsSorted : IsOrder → (xs : List A) → IsSorted (sort xs)
  unfolding sort
  sort-IsSorted order [] = tt
  sort-IsSorted order (x ∷ xs) = insert-IsSorted order x (sort xs) (sort-IsSorted order xs)

  -- Of two elements with the property, the later one stays later.
  select-insert :
      (p : A → Bool) (x : A) (ys : List A)
      → ((y : A) → p x ≡ true → p y ≡ true → before y x ≡ false)
      → select p (insert x ys) ≡ select p (x ∷ ys)
  unfolding insert
  select-insert p x [] apart = refl
  select-insert p x (y ∷ ys) apart = elim (Bool-cases (before y x)) [
    | inr here ↦ rw here refl
    | inl later ↦ rw later (elim (Bool-cases (p x)) [
      | inl px ↦ elim (Bool-cases (p y)) [
        | inl py ↦ absurd (let clash : true ≡ false = sym later ∙ apart y px py in cc)
        | inr py ↦ rw (px, py) (select-insert p x ys apart ∙ rw px refl)
      ]
      | inr px ↦
          rw px
            (ap (λ rest. if p y then y ∷ rest else rest) (select-insert p x ys apart ∙ rw px refl))
    ])
  ]

  tied_apart : IsOrder → (a x y : A) → is_tied a x ≡ true → is_tied a y ≡ true → before y x ≡ false
  tied_apart order a x y tx ty = order.trans x a y (ground arith) (ground arith)

  sort-stable :
      IsOrder → (a : A) (xs : List A) → select (is_tied a) (sort xs) ≡ select (is_tied a) xs
  unfolding sort
  sort-stable order a [] = refl
  sort-stable order a (x ∷ xs) =
      select-insert (is_tied a) x (sort xs) (tied_apart order a x)
      ∙ ap (λ rest. if is_tied a x then x ∷ rest else rest) (sort-stable order a xs)

  pub sort-IsStableSort : IsOrder → (xs : List A) → IsStableSort xs (sort xs)
  sort-IsStableSort order xs = record {
    ordered = sort-IsSorted order xs;
    permuted = sort-perm xs;
    stable = λ a. sort-stable order a xs;
  }
