-- ===== src/ListOperator/Outcome.antt =====
-- nodes/list_operator/node.py, _apply_operations and _run: the values that come out of the node.
use mathlib.Core.List.{Perm}
use mathlib.Core.List.Perm
use graphon.Prelude.{
  String, ℕ, ◌≤◌, ◌≡◌, refl, sym, ap, subst, inl, inr, Bool, true, false, List, [], ◌∷◌, ◌++◌, map,
  length, arith, Bool-cases, if◌then◌else◌,
}
use graphon.Exec.{Result, ok, err}
use graphon.Conditions.{ℤ, pos, negsuc, Value, boolean, string, PyOps, number_lt}
use graphon.Conditions.Evaluators.{and_then, result_map}
use graphon.ListOperator.{
  Order, is_desc, FilterCondition, Limit, ListOperatorNodeData, Object, Supported, array_file,
  array_number, array_string, array_boolean, supported_values, PoolOps, of_number, of_file,
}
use graphon.Sorting.TextOrder.{text_lt}
use graphon.Sorting.{sort-perm}
use graphon.ListOperator.Filtering.{ok_inj, keep_all, apply_filter-keep_all}
use graphon.ListOperator.Ordering.{order_file-IsStableSort}
use graphon.ListOperator.Partition.{
  IsPart, IsPart-perm, IsPart-trans, IsPart-select, IsPart-slice_to, slice_bound, length-slice_to,
  length-IsPart, serial_item-IsPart,
}
use graphon.ListOperator.Cuts.{slice_to, sorted, truth_lt, order_file, serial_item}
use graphon.ListOperator.Node.{
  apply_filter, apply_order, apply_slice, extract_slice, item_at, when, limited, ordered_limited,
  extracted_ordered_limited, apply_operations,
}

-- A chain of two calls that goes through.
and_then-ok :
    {A B : Type 0} (r : Result A) (next : A → Result B) (b : B)
    → and_then r next ≡ ok b
    → (a : A) × (r ≡ ok a) × (next a ≡ ok b)
and_then-ok (ok a) next b e = (a, refl, e)
and_then-ok (err _) next b e = cc

slice_bound_mono : (size : ℤ) (m n k : ℕ) → m ≤ n → k ≤ slice_bound size m → k ≤ slice_bound size n
slice_bound_mono (pos b) m n k h l = l
slice_bound_mono (negsuc b) m n k h l = omega arith

module _ {A B : Type 0} (f : A → B) where
  map-append : (xs ys : List A) → map f (xs ++ ys) ≡ map f xs ++ map f ys
  map-append [] ys = refl
  map-append (x ∷ xs) ys = ap (◌∷◌ (f x)) (map-append xs ys)

  IsPart-map : {xs ys : List A} → IsPart xs ys → IsPart (map f xs) (map f ys)
  IsPart-map {xs} {ys} p = record {
    others = map f p.others;
    together = subst (λ l. Perm l (map f ys)) (map-append xs p.others) (Perm.map f p.together);
  }

  length-map : (xs : List A) → length (map f xs) ≡ length xs
  length-map [] = refl
  length-map (x ∷ xs) = omega (arith, length-map xs)

sorted-IsPart :
    {A K : Type 0} (lt : K → K → Bool) (key : A → K) (reverse : Bool) (xs : List A)
    → IsPart (sorted lt key reverse xs) xs
unfolding sorted
sorted-IsPart lt key false xs = IsPart-perm (sort-perm (λ a b. lt (key a) (key b)) xs)
sorted-IsPart lt key true xs = IsPart-perm (sort-perm (λ a b. lt (key b) (key a)) xs)

module _ {F D : Type 0} (py : PyOps F (Object D)) (pool : PoolOps F D) where
  abbrev pub values_of : Supported F → List (Value F (Object D))
  values_of = supported_values

  -- The values of the first list are a part of those of the second.
  abbrev pub Within : Supported F → Supported F → Type 0
  Within w v = IsPart (values_of w) (values_of v)

  keep_all-Within : (cs : List FilterCondition) (v : Supported F) → Within (keep_all py pool cs v) v
  keep_all-Within cs (array_string xs) = IsPart-map _ (IsPart-select _ xs)
  keep_all-Within cs (array_number xs) = IsPart-map _ (IsPart-select _ xs)
  keep_all-Within cs (array_file xs) = IsPart-map _ (IsPart-select _ xs)
  keep_all-Within cs (array_boolean xs) = IsPart-map _ (IsPart-select _ xs)

  apply_filter-Within :
      (cs : List FilterCondition) (v w : Supported F)
      → apply_filter py pool cs v ≡ ok w
      → Within w v
  apply_filter-Within cs v w e =
      subst (λ u. Within u v) (sym (apply_filter-keep_all py pool cs v w e)) (keep_all-Within cs v)

  replaced : (v : Supported F) {u w : Supported F} → Within u v → ok u ≡ ok w → Within w v
  replaced v part e = subst (λ x. Within x v) (ok_inj e) part

  -- An operation on the list inside a segment. `image` is how its values are seen.
  wrapped :
      {A : Type 0} (wrap : List A → Supported F) (image : A → Value F (Object D)) (xs : List A)
      (r : Result (List A)) (w : Supported F)
      → ((ys : List A) → values_of (wrap ys) ≡ map image ys)
      → ((ys : List A) → r ≡ ok ys → IsPart ys xs)
      → result_map wrap r ≡ ok w
      → Within w (wrap xs)
  wrapped wrap image xs (err _) w seen part e = cc
  wrapped wrap image xs (ok ys) w seen part e =
      replaced (wrap xs) (rw (seen ys, seen xs) (IsPart-map image (part ys refl))) e

  item_at-Within : (value : ℤ) (v w : Supported F) → item_at py pool value v ≡ ok w → Within w v
  item_at-Within value (array_string xs) w e =
      wrapped array_string string xs (serial_item value xs) w (λ ys. refl)
        (serial_item-IsPart value xs) e
  item_at-Within value (array_number xs) w e =
      wrapped array_number of_number xs (serial_item value xs) w (λ ys. refl)
        (serial_item-IsPart value xs) e
  item_at-Within value (array_boolean xs) w e =
      wrapped array_boolean boolean xs (serial_item value xs) w (λ ys. refl)
        (serial_item-IsPart value xs) e
  item_at-Within value (array_file xs) w e =
      wrapped array_file of_file xs (serial_item value xs) w (λ ys. refl)
        (serial_item-IsPart value xs) e

  extract_slice-Within :
      (serial : String) (v w : Supported F) → extract_slice py pool serial v ≡ ok w → Within w v
  unfolding extract_slice
  extract_slice-Within serial v w e =
      go (and_then (pool.convert_template serial) py.integer_of_text) e
    where
      go : (r : Result ℤ) → and_then r (λ value. item_at py pool value v) ≡ ok w → Within w v
      go (err _) e' = cc
      go (ok value) e' = item_at-Within value v w e'

  apply_order-Within :
      (order : Order) (key : String) (v w : Supported F)
      → apply_order py pool order key v ≡ ok w
      → Within w v
  unfolding apply_order
  apply_order-Within order key (array_string xs) w e =
      replaced (array_string xs) (IsPart-map _ (sorted-IsPart text_lt (λ x. x) (is_desc order) xs))
        e
  apply_order-Within order key (array_number xs) w e =
      replaced (array_number xs)
        (IsPart-map _ (sorted-IsPart (number_lt py) (λ x. x) (is_desc order) xs)) e
  apply_order-Within order key (array_boolean xs) w e =
      replaced (array_boolean xs)
        (IsPart-map _ (sorted-IsPart truth_lt (λ x. x) (is_desc order) xs)) e
  apply_order-Within order key (array_file xs) w e =
      wrapped array_file of_file xs (order_file order key xs) w (λ ys. refl)
        (λ ys is. IsPart-perm (order_file-IsStableSort order key xs ys is).permuted) e

  -- A slice of the list inside a segment.
  sliced :
      {A : Type 0} (wrap : List A → Supported F) (image : A → Value F (Object D)) (size : ℤ)
      (xs : List A) (w : Supported F)
      → ((ys : List A) → values_of (wrap ys) ≡ map image ys)
      → ok (wrap (slice_to size xs)) ≡ ok w
      → Within w (wrap xs) × length (values_of w) ≤ slice_bound size (length (values_of (wrap xs)))
  sliced wrap image size xs w seen e =
      subst
        (λ u.
          Within u (wrap xs)
          × length (values_of u) ≤ slice_bound size (length (values_of (wrap xs))))
        (ok_inj e)
        (rw (seen (slice_to size xs), seen xs)
          (
            IsPart-map image (IsPart-slice_to size xs),
            rw (length-map image (slice_to size xs), length-map image xs)
                (length-slice_to size xs (length xs) (omega arith)),
          ))

  apply_slice-Within :
      (size : ℤ) (v w : Supported F)
      → apply_slice py pool size v ≡ ok w
      → Within w v × length (values_of w) ≤ slice_bound size (length (values_of v))
  unfolding apply_slice
  apply_slice-Within size (array_string xs) w e =
      sliced array_string string size xs w (λ ys. refl) e
  apply_slice-Within size (array_number xs) w e =
      sliced array_number of_number size xs w (λ ys. refl) e
  apply_slice-Within size (array_boolean xs) w e =
      sliced array_boolean boolean size xs w (λ ys. refl) e
  apply_slice-Within size (array_file xs) w e = sliced array_file of_file size xs w (λ ys. refl) e

  -- How many values the limit lets through of as many as the second argument says.
  abbrev pub limit_bound : Limit → ℕ → ℕ
  limit_bound limit n = if limit.enabled then slice_bound limit.size n else n

  when-Within :
      (enabled : Bool) (operation : Supported F → Result (Supported F)) (v w : Supported F)
      → (operation v ≡ ok w → Within w v)
      → when py pool enabled operation v ≡ ok w
      → Within w v
  when-Within true operation v w part e = part e
  when-Within false operation v w part e = subst (λ u. Within u v) (ok_inj e) (IsPart-perm Perm.rfl)

  limited-size :
      (limit : Limit) (v w : Supported F) (n : ℕ)
      → when py pool limit.enabled (apply_slice py pool limit.size) v ≡ ok w
      → length (values_of v) ≤ n
      → length (values_of w) ≤ limit_bound limit n
  limited-size limit v w n e h = elim (Bool-cases limit.enabled) [
    | inl on ↦ rw on (
        slice_bound_mono limit.size (length (values_of v)) n (length (values_of w)) h
          (apply_slice-Within limit.size v w (rw on at e)).1)
    | inr off ↦ rw off (subst (λ u. length (values_of u) ≤ n) (ok_inj (rw off at e)) h)
  ]

  pub apply_operations-Within :
      (d : ListOperatorNodeData) (v w : Supported F)
      → apply_operations py pool d v ≡ ok w
      → Within w v × length (values_of w) ≤ limit_bound d.limit (length (values_of v))
  unfolding apply_operations
  apply_operations-Within d v w e =
      let filtering = apply_filter py pool d.filter_by.conditions in
      let extracting = extract_slice py pool d.extract_by.serial in
      let ordering = apply_order py pool d.order_by.value d.order_by.key in
      let slicing = apply_slice py pool d.limit.size in
      let (a, is_a, e1) =
        and_then-ok (when py pool d.filter_by.enabled filtering v)
          (extracted_ordered_limited py pool d) w e in
      let (b, is_b, e2) =
        and_then-ok (when py pool d.extract_by.enabled extracting a) (ordered_limited py pool d) w
          e1 in
      let (c, is_c, is_w) =
        and_then-ok (when py pool d.order_by.enabled ordering b) (limited py pool d) w e2 in
      let so_far =
        IsPart-trans
          (when-Within d.order_by.enabled ordering b c
            (apply_order-Within d.order_by.value d.order_by.key b c) is_c)
          (IsPart-trans
            (when-Within d.extract_by.enabled extracting a b
              (extract_slice-Within d.extract_by.serial a b) is_b)
            (when-Within d.filter_by.enabled filtering v a
              (apply_filter-Within d.filter_by.conditions v a) is_a)) in
      (
        IsPart-trans
            (when-Within d.limit.enabled slicing c w
              (λ sliced_to. (apply_slice-Within d.limit.size c w sliced_to).0) is_w)
            so_far,
        limited-size d.limit c w (length (values_of v)) is_w (length-IsPart so_far),
      )
