-- ===== src/ListOperator/Cuts.antt =====
-- nodes/list_operator/node.py: the sorting of files, slices and the item at a serial number.
use Prim.Native.String.{◌++◌ as str_append}
use graphon.Prelude.{
  ℕ, zero, suc, ◌-◌, String, Bool, true, false, Option, none, some, List, [], ◌∷◌, length, take,
  ltb, ◌==◌, ◌||◌, if◌then◌else◌,
}
use graphon.Prelude.Decimal.{decimal}
use graphon.Exec.{list_operator_error, value_error, Result, ok, err}
use graphon.Conditions.{ℤ, pos, negsuc, integer_lt}
use graphon.Conditions.Evaluators.{result_map}
use graphon.ListOperator.{Order, is_desc, File}
use graphon.Sorting.{sort}
use graphon.Sorting.TextOrder.{text_lt}
use graphon.ListOperator.Filters.{get_file_extract_string_func, get_file_extract_number_func}

abbrev pub first {ℓ} : {A : Type ℓ} → List A → Option A
first [] = none
first (x ∷ xs) = some x

abbrev pub last {ℓ} : {A : Type ℓ} → List A → Option A
last [] = none
last (x ∷ []) = some x
last (x ∷ y ∷ xs) = last (y ∷ xs)

-- xs[:size], also with a negative size
unfoldable pub slice_to : {A : Type 0} → ℤ → List A → List A
slice_to (pos n) xs = take n xs
slice_to (negsuc n) xs = take (length xs - suc n) xs

-- sorted(xs, key=key, reverse=reverse), by `<` alone
unfoldable pub sorted : {A K : Type 0} → (K → K → Bool) → (A → K) → Bool → List A → List A
unfolding sort
sorted lt key false xs = sort (λ a b. lt (key a) (key b)) xs
sorted lt key true xs = sort (λ a b. lt (key b) (key a)) xs

-- False < True
abbrev pub truth_lt : Bool → Bool → Bool
truth_lt false b = b
truth_lt true b = false

unfoldable pub order_file : Order → String → List File → Result (List File)
unfolding sorted text_lt
order_file order order_by files =
    if order_by == "name"
      || (order_by == "type"
          || (order_by == "extension"
              || (order_by == "mime_type"
                  || (order_by == "transfer_method"
                      || (order_by == "url" || order_by == "related_id")))))
    then result_map (λ extract. sorted text_lt extract (is_desc order) files)
        (get_file_extract_string_func order_by)
    else if order_by == "size"
    then result_map (λ extract. sorted integer_lt extract (is_desc order) files)
        (get_file_extract_number_func order_by)
    else err (list_operator_error (str_append "Invalid order key: " order_by))

-- The item at a serial number that is not below 1 and not beyond the end.
abbrev pub at_serial {ℓ} : {A : Type ℓ} → List A → ℕ → List A
at_serial [] n = []
at_serial (x ∷ xs) zero = []
at_serial (x ∷ xs) (suc zero) = x ∷ []
at_serial (x ∷ xs) (suc (suc n)) = at_serial xs (suc n)

abbrev serial_beyond : ℕ → ℕ → String
serial_beyond size n =
    str_append "Invalid serial index: must be <= "
      (str_append (decimal size) (str_append ", got " (decimal n)))

abbrev integer_text : ℤ → String
integer_text (pos n) = decimal n
integer_text (negsuc n) = str_append "-" (decimal (suc n))

-- [values[value - 1]], with its two tests
abbrev pub serial_item : {A : Type 0} → ℤ → List A → Result (List A)
serial_item (negsuc n) xs =
    err (
      value_error (str_append "Invalid serial index: must be >= 1, got " (integer_text (negsuc n))))
serial_item (pos n) xs =
    if ltb n 1
    then err
        (value_error (str_append "Invalid serial index: must be >= 1, got " (integer_text (pos n))))
    else if ltb (length xs) n
    then err (list_operator_error (serial_beyond (length xs) n))
    else ok (at_serial xs n)
