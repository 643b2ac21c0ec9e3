-- ===== src/ListOperator/Filtering.antt =====
-- nodes/list_operator/node.py, _apply_filter: what the conditions leave of a list.
use graphon.Prelude.{
  ◌≡◌, refl, sym, ap, ◌∙◌, inl, inr, Bool, true, false, List, [], ◌∷◌, ◌&&◌, all, select,
  Bool-cases, if◌then◌else◌,
}
use graphon.Exec.{Result, ok, err}
use graphon.Conditions.{PyOps}
use graphon.Conditions.Evaluators.{and_then, result_map}
use graphon.ListOperator.{
  FilterCondition, Object, Supported, array_file, array_number, array_string, array_boolean,
  PoolOps,
}
use graphon.ListOperator.Filters.{Filter, filter_list}
use graphon.ListOperator.Node.{
  string_filter, number_filter, file_filter, boolean_filter, filter_by_condition, apply_filter,
}

abbrev is_yes : Result Bool → Bool
is_yes (ok b) = b
is_yes (err e) = false

module _ {A : Type 0} where
  -- The filter that is made, at a value.
  abbrev pub passes : Filter A → A → Bool
  passes filter x = is_yes (and_then filter (λ f. f x))

  -- The values that pass all filters.
  abbrev pub passing : {C : Type 0} → (C → Filter A) → List C → List A → List A
  passing make cs xs = select (λ x. all (λ c. passes (make c) x) cs) xs

  get : A → Result A → A
  get default (ok a) = a
  get default (err e) = default

pub ok_inj : {A : Type 0} {a b : A} → ok a ≡ ok b → a ≡ b
unfolding get
ok_inj {a} e = ap (get a) e

module _ {A : Type 0} where
  filter_list-select :
      (f : A → Result Bool) (xs ys : List A)
      → filter_list f xs ≡ ok ys
      → select (λ x. is_yes (f x)) xs ≡ ys
  unfolding filter_list
  filter_list-select f [] ys e = ok_inj e
  filter_list-select f (x ∷ xs) ys e =
      go (f x) (filter_list f xs) (λ zs is. filter_list-select f xs zs is) e
    where
      go :
          (r : Result Bool) (rest : Result (List A))
          → ((zs : List A) → rest ≡ ok zs → select (λ x. is_yes (f x)) xs ≡ zs)
          → and_then r (λ kept. result_map (λ zs. if kept then x ∷ zs else zs) rest) ≡ ok ys
          → (let zs = select (λ x. is_yes (f x)) xs in if is_yes r then x ∷ zs else zs) ≡ ys
      go (err _) rest tail e = cc
      go (ok b) (err _) tail e = cc
      go (ok b) (ok zs) tail e = ap (λ l. if b then x ∷ l else l) (tail zs refl) ∙ ok_inj e

  pub select_all : (xs : List A) → select (λ x. true) xs ≡ xs
  select_all [] = refl
  select_all (x ∷ xs) = ap (◌∷◌ x) (select_all xs)

  -- Two selections are one by both tests.
  select-select :
      (p q : A → Bool) (xs : List A) → select q (select p xs) ≡ select (λ x. p x && q x) xs
  select-select p q [] = refl
  select-select p q (x ∷ xs) = elim (Bool-cases (p x)) [
    | inl kept ↦ rw kept (ap (λ l. if q x then x ∷ l else l) (select-select p q xs))
    | inr dropped ↦ rw dropped (select-select p q xs)
  ]

module _ {F D : Type 0} (py : PyOps F (Object D)) (pool : PoolOps F D) where
  -- What the conditions leave, by the kind of the list.
  abbrev pub keep_all : List FilterCondition → Supported F → Supported F
  keep_all cs (array_string xs) = array_string (passing (string_filter py pool) cs xs)
  keep_all cs (array_number xs) = array_number (passing (number_filter py pool) cs xs)
  keep_all cs (array_file xs) = array_file (passing (file_filter py pool) cs xs)
  keep_all cs (array_boolean xs) = array_boolean (passing (boolean_filter py pool) cs xs)

  -- The loop over the conditions, for one kind of list.
  kept :
      {A : Type 0} (wrap : List A → Supported F) (make : FilterCondition → Filter A)
      → ((c : FilterCondition) (xs : List A)
          → filter_by_condition py pool c (wrap xs)
            ≡ and_then (make c) (λ f. result_map wrap (filter_list f xs)))
      → (cs : List FilterCondition) (xs : List A) (w : Supported F)
      → apply_filter py pool cs (wrap xs) ≡ ok w
      → wrap (passing make cs xs) ≡ w
  unfolding apply_filter
  kept wrap make step [] xs w e = ap wrap (select_all xs) ∙ ok_inj e
  kept {A} wrap make step (c ∷ cs) xs w e =
      made (make c) (λ ys. kept wrap make step cs ys w) (rw step at e)
    where
      listed :
          (f : A → Result Bool) (r : Result (List A))
          → ((ys : List A)
              → apply_filter py pool cs (wrap ys) ≡ ok w
              → wrap (passing make cs ys) ≡ w)
          → filter_list f xs ≡ r
          → and_then (result_map wrap r) (apply_filter py pool cs) ≡ ok w
          → wrap (select (λ x. is_yes (f x) && all (λ d. passes (make d) x) cs) xs) ≡ w
      listed f (err _) later is e' = cc
      listed f (ok ys) later is e' =
          ap wrap (
            sym (select-select (λ x. is_yes (f x)) (λ x. all (λ d. passes (make d) x) cs) xs)
            ∙ ap (select (λ x. all (λ d. passes (make d) x) cs)) (filter_list-select f xs ys is))
          ∙ later ys e'

      made :
          (filter : Filter A)
          → ((ys : List A)
              → apply_filter py pool cs (wrap ys) ≡ ok w
              → wrap (passing make cs ys) ≡ w)
          → and_then
              (and_then filter (λ f. result_map wrap (filter_list f xs)))
              (apply_filter py pool cs)
            ≡ ok w
          → wrap (select (λ x. passes filter x && all (λ d. passes (make d) x) cs) xs) ≡ w
      made (err _) later e' = cc
      made (ok f) later e' = listed f (filter_list f xs) later refl e'

  -- A filter that goes through leaves those values, in their order, that pass the filter of every
  -- condition, and it leaves a list of the same kind.
  pub apply_filter-keep_all :
      (cs : List FilterCondition) (v w : Supported F)
      → apply_filter py pool cs v ≡ ok w
      → w ≡ keep_all cs v
  unfolding filter_by_condition
  apply_filter-keep_all cs (array_string xs) w e =
      sym (kept array_string (string_filter py pool) (λ c ys. refl) cs xs w e)
  apply_filter-keep_all cs (array_number xs) w e =
      sym (kept array_number (number_filter py pool) (λ c ys. refl) cs xs w e)
  apply_filter-keep_all cs (array_file xs) w e =
      sym (kept array_file (file_filter py pool) (λ c ys. refl) cs xs w e)
  apply_filter-keep_all cs (array_boolean xs) w e =
      sym (kept array_boolean (boolean_filter py pool) (λ c ys. refl) cs xs w e)
