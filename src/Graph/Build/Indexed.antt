-- ===== src/Graph/Build/Indexed.antt =====
-- graph/graph.py: what `_build_edges` keeps from one edge of the
-- configuration to the next.
use text.Mathlib.TextLemmas.{append_cancel_left}
use graphon.Prelude.{
  ℕ, ◌≤◌, String, ◌≡◌, ◌≢◌, refl, sym, ap, ◌∙◌, inl, inr, subst, true, ◌||◌, ◌&&◌, ◌==◌, contains,
  contains-append, Option, none, some, List, [], ◌∷◌, All, All-append, All-map, arith, eq_refl,
  string_cases,
}
use graphon.Prelude.Decimal.{decimal-injective}
use graphon.Dict
use graphon.Dict.{Dict, get-put, get_or-put}
use graphon.Graph.{Edge}
use graphon.Graph.Build.{
  EdgeConfig, Built, nothing_built, edge_id, append_to, add_edge, with_ends, build_from,
  HandleField,
}

edge_id-injective : (m n : ℕ) → edge_id m ≡ edge_id n → m ≡ n
unfolding edge_id
edge_id-injective m n e = decimal-injective m n (append_cancel_left "edge_" _ _ e)

-- An id under which an edge with the property stands, under its own id.
abbrev pub Stands : Dict Edge → (Edge → Type 0) → String → Type 0
Stands edges P x = (e : Edge) × (Dict.get edges x ≡ some e) × P e × (e.id ≡ x)

-- The edge is in the list of its target and in that of its source.
abbrev pub IsListed : Dict (List String) → Dict (List String) → String → Edge → Type 0
IsListed in_edges out_edges x e =
    (contains (Dict.get_or in_edges e.head []) x ≡ true)
    × (contains (Dict.get_or out_edges e.tail []) x ≡ true)

pub record IsIndexed (b : Built) : Type 0 where
  pub into : (n : String) → All (Stands b.edges (λ e. e.head ≡ n)) (Dict.get_or b.in_edges n [])
  pub out_of : (n : String) → All (Stands b.edges (λ e. e.tail ≡ n)) (Dict.get_or b.out_edges n [])
  pub listed :
      (x : String) (e : Edge) → Dict.get b.edges x ≡ some e → IsListed b.in_edges b.out_edges x e
  pub fresh : (k : ℕ) → b.edge_counter ≤ k → Dict.get b.edges (edge_id k) ≡ none

-- A new edge under a fresh id leaves the old ones where they stand.
Stands-put :
    (edges : Dict Edge) (x y : String) (new : Edge) (P : Edge → Type 0)
    → Dict.get edges x ≡ none
    → Stands edges P y
    → Stands (Dict.put edges x new) P y
Stands-put edges x y new P absent (e, at, p, named) = (
  e,
  get-put edges x y new ∙ elim (string_cases x y) [
    | inl same ↦ absurd (none≢some (sym absent ∙ (ap (Dict.get edges) same) ∙ at))
    | inr other ↦ rw other at
  ],
  p,
  named,
)
  where
    none≢some : {e : Edge} → none ≢ some e
    none≢some h = cc

append_to-All :
    (d : Dict (List String)) (key item n : String) (Q : String → String → Type 0)
    → ((m : String) → All (Q m) (Dict.get_or d m []))
    → Q key item
    → All (Q n) (Dict.get_or (append_to d key item) n [])
unfolding append_to
append_to-All d key item n Q old new = rw get_or-put (elim (string_cases key n) [
  | inl same ↦ rw same (
      rw (eq_refl n)
        (All-append (Q n) (Dict.get_or d n []) (item ∷ []) (old n) ((rw same at new), tt)))
  | inr other ↦ rw other (old n)
])

-- What was listed stays so, and the new id is listed under its key.
append_to-contains :
    (d : Dict (List String)) (key item n x : String)
    → contains (Dict.get_or (append_to d key item) n []) x
      ≡ (contains (Dict.get_or d n []) x || ((key == n) && (item == x)))
unfolding append_to
append_to-contains d key item n x = rw get_or-put (elim (string_cases key n) [
  | inl same ↦
      rw same (rw (eq_refl n) (contains-append (Dict.get_or d n []) (item ∷ []) x ∙ ground arith))
  | inr other ↦ rw other (ground arith)
])

append_to-listed :
    (d : Dict (List String)) (key item n x : String)
    → contains (Dict.get_or d n []) x ≡ true
    → contains (Dict.get_or (append_to d key item) n []) x ≡ true
append_to-listed d key item n x h = append_to-contains d key item n x ∙ rw h refl

append_to-new :
    (d : Dict (List String)) (key item : String)
    → contains (Dict.get_or (append_to d key item) key []) item ≡ true
append_to-new d key item =
    append_to-contains d key item key item ∙ ground (arith, eq_refl key, eq_refl item)

pub add_edge-IsIndexed :
    (source target handle : String) (b : Built)
    → IsIndexed b
    → IsIndexed (add_edge source target handle b)
add_edge-IsIndexed source target handle b h = record {
  into = λ n.
      append_to-All b.in_edges target x n (λ m. Stands edges' (λ e. e.head ≡ m))
        (λ m.
          All-map _ _ (Dict.get_or b.in_edges m []) (λ y. Stands-put b.edges x y new _ absent)
            (h.into m))
        (new, at, refl, refl);
  out_of = λ n.
      append_to-All b.out_edges source x n (λ m. Stands edges' (λ e. e.tail ≡ m))
        (λ m.
          All-map _ _ (Dict.get_or b.out_edges m []) (λ y. Stands-put b.edges x y new _ absent)
            (h.out_of m))
        (new, at, refl, refl);
  listed = λ y e found. elim (string_cases x y) [
    | inl same ↦
        let is : new ≡ e =
          ap (λ o. Dict.or_else o new) (sym (ap (Dict.get edges') (sym same) ∙ at) ∙ found) in
        subst (IsListed (append_to b.in_edges target x) (append_to b.out_edges source x) y) is (
          subst
            (λ z. IsListed (append_to b.in_edges target x) (append_to b.out_edges source x) z new)
            same (append_to-new b.in_edges target x, append_to-new b.out_edges source x))
    | inr other ↦
        let old : Dict.get b.edges y ≡ some e =
          sym (get-put b.edges x y new ∙ rw other refl) ∙ found in
        let (into, out) = h.listed y e old in
        (
          append_to-listed b.in_edges target x e.head y into,
          append_to-listed b.out_edges source x e.tail y out,
        )
  ];
  fresh = λ k later. get-put b.edges x (edge_id k) new ∙ elim (string_cases x (edge_id k)) [
    | inl same ↦ absurd (let e = edge_id-injective b.edge_counter k same in omega arith)
    | inr other ↦ rw other (h.fresh k (omega arith))
  ];
}
  where
    x : String
    x = edge_id b.edge_counter

    new : Edge
    new = record { id = x; tail = source; head = target; source_handle = handle }

    edges' : Dict Edge
    edges' = Dict.put b.edges x new

    absent : Dict.get b.edges x ≡ none
    absent = h.fresh b.edge_counter (omega arith)

    at : Dict.get edges' x ≡ some new
    at = Dict.get-put_self b.edges x new

pub with_ends-IsIndexed :
    (s t : Option String) (f : HandleField) (b : Built)
    → IsIndexed b
    → IsIndexed (with_ends s t f b)
with_ends-IsIndexed (some s) (some t) HandleField.absent b h = add_edge-IsIndexed s t "source" b h
with_ends-IsIndexed (some s) (some t) (HandleField.text x) b h = add_edge-IsIndexed s t x b h
with_ends-IsIndexed (some s) (some t) HandleField.other b h = record {
  into = h.into;
  out_of = h.out_of;
  listed = h.listed;
  fresh = λ k later. h.fresh k (omega arith);
}
with_ends-IsIndexed (some s) none f b h = h
with_ends-IsIndexed none t f b h = h

pub build_from-IsIndexed :
    (configs : List EdgeConfig) (b : Built) → IsIndexed b → IsIndexed (build_from configs b)
unfolding build_from
build_from-IsIndexed [] b h = h
build_from-IsIndexed (c ∷ rest) b h =
    build_from-IsIndexed rest _ (with_ends-IsIndexed c.source c.target c.source_handle b h)

pub nothing-IsIndexed : IsIndexed nothing_built
unfolding Dict.get Dict.get_or
nothing-IsIndexed = record {
  into = λ n. tt;
  out_of = λ n. tt;
  listed = λ x e found. absurd (let clash : none ≡ some e = found in cc);
  fresh = λ k h. refl;
}
