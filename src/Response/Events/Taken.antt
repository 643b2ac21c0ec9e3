-- ===== src/Response/Events/Taken.antt =====
-- response_coordinator/coordinator.py, on_edge_taken: when a response node can be reached.
use graphon.Prelude.{
  String, ◌≡◌, refl, sym, ap, ◌∙◌, Bool, true, false, ◌||◌, List, [], ◌∷◌, ◌++◌, contains, any, all,
  All, ◌==◌, eq_iff, arith, inl, inr, Bool-cases, if◌then◌else◌,
}
use graphon.Response.Paths.{without, contains_edge, remove_edge, is_empty}
use graphon.Response.Paths.Simple.{Distinct}
use graphon.Response.Events.{take_edge}

-- The paths once the edges are taken, one after the other.
abbrev pub take_edges : List String → List (List String) → List (List String)
take_edges [] paths = paths
take_edges (edge_id ∷ taken) paths = take_edges taken (take_edge edge_id paths).0

-- Every edge of the path is one of the taken edges.
abbrev pub is_covered : List String → List String → Bool
is_covered taken path = all (contains taken) path

contains-without :
    (path : List String) (x y : String)
    → contains path x ≡ false
    → contains (without path y) x ≡ false
contains-without [] x y h = refl
contains-without (z ∷ path) x y h = ground (arith, contains-without path x y)

without-absent : (path : List String) (x : String) → contains path x ≡ false → without path x ≡ path
without-absent [] x h = refl
without-absent (y ∷ path) x h = ground (arith, without-absent path x)

remove_edge-without : (path : List String) (x : String) → remove_edge path x ≡ without path x
unfolding remove_edge contains_edge
remove_edge-without path x = go (contains path x) (without-absent path x)
  where
    go :
        (b : Bool)
        → (b ≡ false → without path x ≡ path)
        → (if b then without path x else path) ≡ without path x
    go true same = refl
    go false same = sym (same refl)

without-Distinct : (path : List String) (x : String) → Distinct path → Distinct (without path x)
without-Distinct [] x h = tt
without-Distinct (y ∷ path) x h = go (y == x) (without-Distinct path x h.1)
  where
    go : (b : Bool) → Distinct (without path x) → Distinct (if b then path else y ∷ without path x)
    go true rest = h.1
    go false rest = (contains-without path y x h.0, rest)

is_covered-absent :
    (path taken : List String) (x : String)
    → contains path x ≡ false
    → is_covered (x ∷ taken) path ≡ is_covered taken path
is_covered-absent [] taken x h = refl
is_covered-absent (y ∷ path) taken x h =
    ground (arith, eq_iff x y, eq_iff y x, is_covered-absent path taken x)

is_covered-without :
    (path taken : List String) (x : String)
    → Distinct path
    → is_covered taken (without path x) ≡ is_covered (x ∷ taken) path
is_covered-without [] taken x h = refl
is_covered-without (y ∷ path) taken x h = elim (Bool-cases (y == x)) [
  | inl same ↦
      let e : y ≡ x = (eq_iff y x).0 same in
      let absent : contains path x ≡ false = ap (contains path) (sym e) ∙ h.0 in
      ground (arith, same, eq_iff x y, e, is_covered-absent path taken x absent)
  | inr apart ↦ ground (arith, apart, eq_iff x y, eq_iff y x, is_covered-without path taken x h.1)
]

take_edge-Distinct :
    (edge_id : String) (paths : List (List String))
    → All Distinct paths
    → All Distinct (take_edge edge_id paths).0
unfolding take_edge
take_edge-Distinct edge_id [] h = tt
take_edge-Distinct edge_id (path ∷ paths) h = (
  rw (remove_edge-without path edge_id) (without-Distinct path edge_id h.0),
  take_edge-Distinct edge_id paths h.1,
)

take_edge-is_covered :
    (edge_id : String) (taken : List String) (paths : List (List String))
    → All Distinct paths
    → any (is_covered taken) (take_edge edge_id paths).0 ≡ any (is_covered (edge_id ∷ taken)) paths
unfolding take_edge
take_edge-is_covered edge_id taken [] h = refl
take_edge-is_covered edge_id taken (path ∷ paths) h =
    rw
      (
        remove_edge-without path edge_id,
        is_covered-without path taken edge_id h.0,
        take_edge-is_covered edge_id taken paths h.1,
      )
      refl

is_covered-nothing : (path : List String) → is_empty path ≡ is_covered [] path
unfolding is_empty
is_covered-nothing [] = refl
is_covered-nothing (x ∷ path) = ground arith

nothing_taken : (paths : List (List String)) → any is_empty paths ≡ any (is_covered []) paths
nothing_taken [] = refl
nothing_taken (path ∷ paths) = rw (is_covered-nothing path, nothing_taken paths) refl

-- A round of on_edge_taken says that a response node can be reached just when it leaves one of the
-- node's paths empty.
take_edge-reachable :
    (edge_id : String) (paths : List (List String))
    → (take_edge edge_id paths).1 ≡ any is_empty (take_edge edge_id paths).0
unfolding take_edge
take_edge-reachable edge_id [] = refl
take_edge-reachable edge_id (path ∷ paths) =
    ap (λ b. is_empty (remove_edge path edge_id) || b) (take_edge-reachable edge_id paths)

take_edges-is_covered :
    (taken : List String) (paths : List (List String))
    → All Distinct paths
    → any is_empty (take_edges taken paths) ≡ any (is_covered taken) paths
take_edges-is_covered [] paths h = nothing_taken paths
take_edges-is_covered (edge_id ∷ taken) paths h =
    take_edges-is_covered taken (take_edge edge_id paths).0 (take_edge-Distinct edge_id paths h)
    ∙ take_edge-is_covered edge_id taken paths h

-- When no path has an edge twice, the round for the last of a sequence of taken edges finds the
-- response node reachable just when all edges of one of its paths have been taken, in any order.
pub take_edge-is_reachable :
    (taken : List String) (last : String) (paths : List (List String))
    → All Distinct paths
    → (take_edge last (take_edges taken paths)).1 ≡ any (is_covered (taken ++ last ∷ [])) paths
take_edge-is_reachable taken last paths h =
    take_edge-reachable last (take_edges taken paths)
    ∙ (ap (any is_empty) (take_edges-append taken last paths)
        ∙ take_edges-is_covered (taken ++ last ∷ []) paths h)
  where
    take_edges-append :
        (xs : List String) (x : String) (ps : List (List String))
        → (take_edge x (take_edges xs ps)).0 ≡ take_edges (xs ++ x ∷ []) ps
    take_edges-append [] x ps = refl
    take_edges-append (y ∷ xs) x ps = take_edges-append xs x (take_edge y ps).0
