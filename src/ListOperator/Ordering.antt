-- ===== src/ListOperator/Ordering.antt =====
-- nodes/list_operator/node.py, _apply_order and _order_file: what sorting makes of a list.
use graphon.Prelude.{
  String, ◌≡◌, refl, sym, ap, ◌∙◌, inl, inr, Bool, true, false, List, Bool-cases, arith, subst,
  ◌==◌, ◌||◌, eq_iff, if◌then◌else◌,
}
use graphon.Exec.{Result, ok, err}
use graphon.Conditions.Evaluators.{result_map}
use graphon.ListOperator.Filtering.{ok_inj}
use graphon.Conditions.{ℤ, pos, negsuc, integer_lt, PyOps, number_lt}
use graphon.ListOperator.{
  Order, asc, desc, is_desc, File, Object, Supported, array_file, array_number, array_string,
  array_boolean, PoolOps,
}
use graphon.Sorting.{IsOrder, IsStableSort, sort-IsStableSort}
use graphon.Sorting.TextOrder.{text_lt, text_asym, text_trans}
use graphon.ListOperator.Filters.{get_file_extract_string_func}
use graphon.ListOperator.Cuts.{sorted, truth_lt, order_file}
use graphon.ListOperator.Node.{apply_order}

text-IsOrder : IsOrder text_lt
text-IsOrder = record { asym = text_asym; trans = text_trans }

pub integer-IsOrder : IsOrder integer_lt
integer-IsOrder = record { asym = integer_asym; trans = integer_trans }
  where
    integer_asym : (a b : ℤ) → integer_lt a b ≡ true → integer_lt b a ≡ false
    integer_asym (pos a) (pos b) h = ground arith
    integer_asym (pos a) (negsuc b) h = cc
    integer_asym (negsuc a) (pos b) h = refl
    integer_asym (negsuc a) (negsuc b) h = ground arith

    integer_trans :
        (a b c : ℤ) → integer_lt b a ≡ false → integer_lt c b ≡ false → integer_lt c a ≡ false
    integer_trans (pos a) (pos b) (pos c) h k = ground arith
    integer_trans (pos a) (pos b) (negsuc c) h k = cc
    integer_trans (pos a) (negsuc b) c h k = cc
    integer_trans (negsuc a) b (pos c) h k = refl
    integer_trans (negsuc a) (pos b) (negsuc c) h k = cc
    integer_trans (negsuc a) (negsuc b) (negsuc c) h k = ground arith

truth-IsOrder : IsOrder truth_lt
truth-IsOrder = record { asym = truth_asym; trans = truth_trans }
  where
    truth_asym : (a b : Bool) → truth_lt a b ≡ true → truth_lt b a ≡ false
    truth_asym false true h = refl
    truth_asym false false h = refl
    truth_asym true b h = cc

    truth_trans :
        (a b c : Bool) → truth_lt b a ≡ false → truth_lt c b ≡ false → truth_lt c a ≡ false
    truth_trans false false false h k = refl
    truth_trans false false true h k = refl
    truth_trans false true true h k = refl
    truth_trans false true false h k = refl
    truth_trans true b true h k = refl
    truth_trans true true false h k = cc
    truth_trans true false false h k = cc

-- The order that the values are to stand in.
abbrev pub directed {ℓ} : {A : Type ℓ} → Order → (A → A → Bool) → A → A → Bool
directed asc lt a b = lt a b
directed desc lt a b = lt b a

module _ {A K : Type 0} (lt : K → K → Bool) (key : A → K) (is_order : IsOrder lt) where
  keyed-IsOrder : (order : Order) → IsOrder (λ a b. directed order lt (key a) (key b))
  keyed-IsOrder asc = record {
    asym = λ a b. is_order.asym (key a) (key b);
    trans = λ a b c. is_order.trans (key a) (key b) (key c);
  }
  keyed-IsOrder desc = record {
    asym = λ a b. is_order.asym (key b) (key a);
    trans = λ a b c h k. is_order.trans (key c) (key b) (key a) k h;
  }

  sorted-IsStableSort :
      (order : Order) (xs : List A)
      → IsStableSort
          (λ a b. directed order lt (key a) (key b))
          xs
          (sorted lt key (is_desc order) xs)
  unfolding sorted
  sorted-IsStableSort asc xs = sort-IsStableSort _ (keyed-IsOrder asc) xs
  sorted-IsStableSort desc xs = sort-IsStableSort _ (keyed-IsOrder desc) xs

abbrev by_text : Result (File → String) → File → File → Bool
by_text (ok extract) a b = text_lt (extract a) (extract b)
by_text (err e) a b = false

-- The order of two files by a key.
abbrev pub file_lt : String → File → File → Bool
file_lt key =
    if key == "size"
    then (λ a b. integer_lt a.size b.size)
    else by_text (get_file_extract_string_func key)

abbrev is_text_key : String → Bool
is_text_key key =
    key == "name"
    || (key == "type"
        || (key == "extension"
            || (key == "mime_type"
                || (key == "transfer_method" || (key == "url" || key == "related_id")))))

not_size : (key : String) → is_text_key key ≡ true → (key == "size") ≡ false
not_size key h = elim (Bool-cases (key == "size")) [
  | inl is ↦
      absurd (let clash : false ≡ true = ap is_text_key (sym ((eq_iff key "size").0 is)) ∙ h in cc)
  | inr e ↦ e
]

by_text-IsStableSort :
    (order : Order) (r : Result (File → String)) (xs ys : List File)
    → result_map (λ extract. sorted text_lt extract (is_desc order) xs) r ≡ ok ys
    → IsStableSort (λ a b. directed order (by_text r) a b) xs ys
by_text-IsStableSort order (err _) xs ys e = cc
by_text-IsStableSort asc (ok extract) xs ys e =
    subst (IsStableSort (λ a b. text_lt (extract a) (extract b)) xs) (ok_inj e)
      (sorted-IsStableSort text_lt extract text-IsOrder asc xs)
by_text-IsStableSort desc (ok extract) xs ys e =
    subst (IsStableSort (λ a b. text_lt (extract b) (extract a)) xs) (ok_inj e)
      (sorted-IsStableSort text_lt extract text-IsOrder desc xs)

-- Files by an order that is the same at every two of them.
same_sort :
    (f g : File → File → Bool) (order : Order) (xs ys : List File)
    → f ≡ g
    → IsStableSort (λ a b. directed order g a b) xs ys
    → IsStableSort (λ a b. directed order f a b) xs ys
same_sort f g order xs ys e h =
    subst (λ k. IsStableSort (λ a b. directed order k a b) xs ys) (sym e) h

pub order_file-IsStableSort :
    (order : Order) (key : String) (xs ys : List File)
    → order_file order key xs ≡ ok ys
    → IsStableSort (λ a b. directed order (file_lt key) a b) xs ys
unfolding order_file
order_file-IsStableSort order key xs ys e = elim (Bool-cases (is_text_key key)) [
  | inl is ↦
      same_sort (file_lt key) (by_text (get_file_extract_string_func key)) order xs ys
        (rw (not_size key is) refl)
        (by_text-IsStableSort order (get_file_extract_string_func key) xs ys (rw is at e))
  | inr isnt ↦ elim (Bool-cases (key == "size")) [
    | inl is ↦
        same_sort (file_lt key) (λ a b. integer_lt a.size b.size) order xs ys (rw is refl)
          (subst (IsStableSort (λ a b. directed order (λ f g. integer_lt f.size g.size) a b) xs)
            (ok_inj (rw is at (rw isnt at e))) (size_sort order))
    | inr other ↦ absurd (let clash = rw other at (rw isnt at e) in cc)
  ]
]
  where
    size_sort :
        (d : Order)
        → IsStableSort
            (λ a b. directed d (λ f g. integer_lt f.size g.size) a b)
            xs
            (sorted integer_lt (λ f. f.size) (is_desc d) xs)
    size_sort asc = sorted-IsStableSort integer_lt (λ f. f.size) integer-IsOrder asc xs
    size_sort desc = sorted-IsStableSort integer_lt (λ f. f.size) integer-IsOrder desc xs

module _ {F D : Type 0} (py : PyOps F (Object D)) (pool : PoolOps F D) where
  -- `w` is `v`, sorted stably in the given direction: files by the key, other values by `<`.
  abbrev pub IsOrdered : Order → String → Supported F → Supported F → Type 0
  IsOrdered order key (array_string xs) (array_string ys) =
      IsStableSort (directed order text_lt) xs ys
  IsOrdered order key (array_number xs) (array_number ys) =
      IsStableSort (directed order (number_lt py)) xs ys
  IsOrdered order key (array_boolean xs) (array_boolean ys) =
      IsStableSort (directed order truth_lt) xs ys
  IsOrdered order key (array_file xs) (array_file ys) =
      IsStableSort (λ a b. directed order (file_lt key) a b) xs ys
  IsOrdered order key _ _ = ⊥

  files-IsOrdered :
      (order : Order) (key : String) (xs : List File) (r : Result (List File)) (w : Supported F)
      → order_file order key xs ≡ r
      → result_map array_file r ≡ ok w
      → IsOrdered order key (array_file xs) w
  files-IsOrdered order key xs (err _) w is e = cc
  files-IsOrdered order key xs (ok ys) w is e =
      subst (IsOrdered order key (array_file xs)) (ok_inj e)
        (order_file-IsStableSort order key xs ys is)

  -- Where `<` orders the numbers, which it does not if one is not a number, sorting that goes
  -- through gives a list of the same kind with the same values, each as often as before, that
  -- stands in the asked direction, by `<` or by the key of files; values of which neither has to
  -- stand before the other keep their order, in both directions.
  pub apply_order-IsOrdered :
      IsOrder (number_lt py)
      → (order : Order) (key : String) (v w : Supported F) → apply_order py pool order key v ≡ ok w
      → IsOrdered order key v w
  unfolding apply_order
  apply_order-IsOrdered numbers order key (array_string xs) w e =
      subst (IsOrdered order key (array_string xs)) (ok_inj e)
        (sorted-IsStableSort text_lt (λ x. x) text-IsOrder order xs)
  apply_order-IsOrdered numbers order key (array_number xs) w e =
      subst (IsOrdered order key (array_number xs)) (ok_inj e)
        (sorted-IsStableSort (number_lt py) (λ x. x) numbers order xs)
  apply_order-IsOrdered numbers order key (array_boolean xs) w e =
      subst (IsOrdered order key (array_boolean xs)) (ok_inj e)
        (sorted-IsStableSort truth_lt (λ x. x) truth-IsOrder order xs)
  apply_order-IsOrdered numbers order key (array_file xs) w e =
      files-IsOrdered order key xs (order_file order key xs) w refl e
