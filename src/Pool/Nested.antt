-- ===== src/Pool/Nested.antt =====
-- runtime/variable_pool.py: get, with the attributes of files and of objects.
use graphon.Prelude.{
  String, ◌≡◌, refl, sym, ap, fun_ext, ◌∙◌, Bool, false, Option, none, some, List, [], ◌∷◌, ◌++◌,
  contains, if◌then◌else◌,
}
use graphon.Exec.{Result, ok, err}
use graphon.Dict
use graphon.Dict.{Dict}
use graphon.Pool.{VariablePool, read, get_variable}

-- The segments of files and objects, file_manager.get_attr with build_segment, and build_segment.
pub record SegmentOps (V : Type 0) : Type 0 where
  pub is_file : V → Bool
  pub file_attr : V → String → Result V
  -- The dictionary of an ObjectSegment, with its plain values.
  pub object_value : V → Option (Dict V)
  pub build_segment : V → Result V

-- FileAttribute
abbrev file_attributes : List String
file_attributes =
    "type" ∷ "size" ∷ "name" ∷ "mime_type" ∷ "transfer_method" ∷ "url" ∷ "extension" ∷ "related_id"
    ∷ []

-- The end of a look-up whose value may be missing.
abbrev pub on_found {ℓ} :
    {A B : Type ℓ} → Result (Option A) → (A → Result (Option B)) → Result (Option B)
on_found (ok none) next = ok none
on_found (ok (some a)) next = next a
on_found (err e) next = err e

abbrev pub found {ℓ} : {A : Type ℓ} → Result A → Result (Option A)
found (ok a) = ok (some a)
found (err e) = err e

module _ {V : Type 0} (ops : SegmentOps V) where
  abbrev built : Option V → Result (Option V)
  built none = ok none
  built (some value) = found (ops.build_segment value)

  abbrev attribute_of : Option (Dict V) → String → Result (Option V)
  attribute_of none attr = ok none
  attribute_of (some d) attr = built (Dict.get d attr)

  -- _get_nested_attribute of _extract_value
  unfoldable pub get_nested_attribute : V → String → Result (Option V)
  get_nested_attribute segment attr = attribute_of (ops.object_value segment) attr

  unfoldable pub get_nested_segment : V → List String → Result (Option V)
  unfolding get_nested_attribute
  get_nested_segment segment [] = ok (some segment)
  get_nested_segment segment (attr ∷ attrs) =
      on_found (get_nested_attribute segment attr) (λ value. get_nested_segment value attrs)

  unfoldable pub get_file_attribute_segment : V → String → Result (Option V)
  get_file_attribute_segment segment attr =
      if contains file_attributes attr then found (ops.file_attr segment attr) else ok none

  abbrev pub attributes : V → List String → Result (Option V)
  attributes segment [] = ok (some segment)
  attributes segment (attr ∷ attrs) =
      if ops.is_file segment
      then get_file_attribute_segment segment attr
      else get_nested_segment segment (attr ∷ attrs)

  abbrev pub below : Option V → List String → Result (Option V)
  below none attrs = ok none
  below (some segment) attrs = attributes segment attrs

  unfoldable pub get : VariablePool V → List String → Result (Option V)
  unfolding get_file_attribute_segment get_nested_segment
  get pool [] = ok none
  get pool (node_id ∷ []) = ok none
  get pool (node_id ∷ name ∷ attrs) = below (read (Dict.get pool node_id) name) attrs

  below-two : (o : Option V) → below o [] ≡ ok o
  below-two none = refl
  below-two (some v) = refl

  on_found_assoc :
      {A B C : Type 0} (r : Result (Option A)) (f : A → Result (Option B))
      (g : B → Result (Option C))
      → on_found (on_found r f) g ≡ on_found r (λ a. on_found (f a) g)
  on_found_assoc (ok none) f g = refl
  on_found_assoc (ok (some a)) f g = refl
  on_found_assoc (err e) f g = refl

  nested-append :
      (segment : V) (attrs others : List String)
      → get_nested_segment segment (attrs ++ others)
        ≡ on_found (get_nested_segment segment attrs) (λ value. get_nested_segment value others)
  unfolding get_nested_segment
  nested-append segment [] others = refl
  nested-append segment (attr ∷ attrs) others =
      ap (on_found (get_nested_attribute segment attr))
        (fun_ext (λ value. nested-append value attrs others))
      ∙ sym (
          on_found_assoc (get_nested_attribute segment attr)
            (λ value. get_nested_segment value attrs) (λ value. get_nested_segment value others))

  on_found-ok : {A : Type 0} (r : Result (Option A)) → on_found r (λ a. ok (some a)) ≡ r
  on_found-ok (ok none) = refl
  on_found-ok (ok (some a)) = refl
  on_found-ok (err e) = refl

  -- What an attribute of a value is: nothing for a value that is no object or has no such
  -- attribute, and else the segment that is built of it.
  abbrev pub attribute : V → String → Result (Option V)
  attribute value attr = elim (ops.object_value value) [
    | none ↦ ok none
    | some object ↦ elim (Dict.get object attr) [
      | none ↦ ok none
      | some plain ↦ found (ops.build_segment plain)
    ]
  ]

  one-attribute :
      (value : V) (attr : String) → get_nested_segment value (attr ∷ []) ≡ attribute value attr
  unfolding get_nested_segment get_nested_attribute
  one-attribute value attr =
      on_found-ok (get_nested_attribute value attr) ∙ of (ops.object_value value)
    where
      of :
          (o : Option (Dict V))
          → attribute_of o attr ≡ elim o [
            | none ↦ ok none
            | some object ↦ elim (Dict.get object attr) [
              | none ↦ ok none
              | some plain ↦ found (ops.build_segment plain)
            ]
          ]
      of none = refl
      of (some object) = stored (Dict.get object attr)
        where
          stored :
              (p : Option V)
              → built p ≡ elim p [ none ↦ ok none | some plain ↦ found (ops.build_segment plain) ]
          stored none = refl
          stored (some plain) = refl

  -- A selector of two elements reads the variable itself; and below a variable that is no file,
  -- the attributes of a longer selector are read one after the other: what `attrs ++ others` reads
  -- is what `others` reads in the value that `attrs` reads, and nothing, or the same exception,
  -- where `attrs` reads none. One attribute more reads nothing in a value that is no object or has
  -- no such attribute, and else the segment that is built of the attribute.
  pub get-append :
      (pool : VariablePool V) (node_id name : String) (segment : V) (attrs others : List String)
      (attr : String)
      → get_variable pool (node_id ∷ name ∷ []) ≡ some segment
      → ops.is_file segment ≡ false
      → (get pool (node_id ∷ name ∷ []) ≡ ok (some segment))
        × (get pool (node_id ∷ name ∷ (attrs ++ others))
            ≡ on_found
                (get pool (node_id ∷ name ∷ attrs))
                (λ value. get_nested_segment value others))
        × (get pool (node_id ∷ name ∷ (attrs ++ attr ∷ []))
            ≡ on_found (get pool (node_id ∷ name ∷ attrs)) (λ value. attribute value attr))
  unfolding get get_variable
  get-append pool node_id name segment attrs others attr is no_file = (
    rw is refl,
    both others,
    both (attr ∷ [])
        ∙ ap (on_found (get pool (node_id ∷ name ∷ attrs)))
            (fun_ext (λ value. one-attribute value attr)),
  )
    where
      plainly : (xs : List String) → attributes segment xs ≡ get_nested_segment segment xs
      plainly [] = refl
      plainly (x ∷ xs) = rw no_file refl

      nested :
          (xs ys : List String)
          → attributes segment (xs ++ ys) ≡ get_nested_segment segment (xs ++ ys)
      nested xs ys = plainly (xs ++ ys)

      both :
          (others : List String)
          → get pool (node_id ∷ name ∷ (attrs ++ others))
            ≡ on_found
                (get pool (node_id ∷ name ∷ attrs))
                (λ value. get_nested_segment value others)
      both others = rw is (
          nested attrs others
          ∙ (nested-append segment attrs others
              ∙ ap (λ r. on_found r (λ value. get_nested_segment value others))
                  (sym (plainly attrs))))
