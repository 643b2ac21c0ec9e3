-- ===== src/Response/Paths/Depth.antt =====
-- response_coordinator/coordinator.py, _find_all_paths: the depth of its recursion.
use graphon.Prelude.{
  ℕ, zero, suc, ◌≤◌, ◌<◌, String, ◌≡◌, refl, inl, inr, Bool, true, false, List, [], ◌∷◌, ◌++◌,
  length, contains, All, Bool-cases, ◌==◌, eq_iff, arith, if◌then◌else◌,
}
use graphon.Exec.{Result, ok, err}
use graphon.Dict
use graphon.Graph.{Graph, Edge, get_outgoing_edges}
use graphon.Response.Paths.{through_edges, joined, find_all_paths}
use graphon.Response.Paths.Loop.{IsOk}

-- How many of the nodes have not been visited.
abbrev unvisited : List String → List String → ℕ
unvisited visited [] = 0
unvisited visited (n ∷ ns) =
    let rest = unvisited visited ns in if contains visited n then rest else suc rest

unvisited-length : (visited ns : List String) → unvisited visited ns ≤ length ns
unvisited-length visited [] = omega arith
unvisited-length visited (n ∷ ns) = ground (arith, unvisited-length visited ns)

unvisited-le :
    (visited ns : List String) (a : String) → unvisited (a ∷ visited) ns ≤ unvisited visited ns
unvisited-le visited [] a = omega arith
unvisited-le visited (n ∷ ns) a = ground (arith, unvisited-le visited ns a)

-- A visit makes the number smaller.
unvisited-lt :
    (visited ns : List String) (a : String)
    → contains ns a ≡ true
    → contains visited a ≡ false
    → unvisited (a ∷ visited) ns < unvisited visited ns
unvisited-lt visited [] a h fresh = cc
unvisited-lt visited (n ∷ ns) a h fresh =
    ground (arith, eq_iff a n, eq_iff n a, unvisited-le visited ns a, unvisited-lt visited ns a)

joined-returns :
    (first rest : Result (List (List String))) → IsOk first → IsOk rest → IsOk (joined first rest)
joined-returns (ok xs) (ok ys) h k = tt
joined-returns (ok xs) (err e) h k = absurd k
joined-returns (err e) rest h k = absurd h

through_edges-returns :
    (step : Edge → Result (List (List String))) (visited : List String) (P : Edge → Type 0)
    (edges : List Edge)
    → All P edges
    → ((edge : Edge) → P edge → contains visited edge.head ≡ false → IsOk (step edge))
    → IsOk (through_edges step visited edges)
through_edges-returns step visited P [] h fine = tt
through_edges-returns step visited P (edge ∷ edges) h fine =
    go (contains visited edge.head) refl (through_edges-returns step visited P edges h.1 fine)
  where
    go :
        (b : Bool)
        → contains visited edge.head ≡ b
        → IsOk (through_edges step visited edges)
        → IsOk (
            if b
            then through_edges step visited edges
            else joined (step edge) (through_edges step visited edges))
    go true old rest = rest
    go false fresh rest = joined-returns (step edge) _ (fine edge h.0 fresh) rest

result-ok :
    (r : Result (List (List String))) → IsOk r → (paths : List (List String)) × (r ≡ ok paths)
result-ok (ok paths) h = (paths, refl)
result-ok (err e) h = absurd h

-- Each edge of the graph leads to one of the graph's nodes.
abbrev pub LeadsToNodes : {V : Type 0} → Graph V → Type 0
LeadsToNodes graph =
    (n : String)
    → All (λ (edge : Edge). contains (Dict.keys graph.nodes) edge.head ≡ true)
        (get_outgoing_edges graph n)

module _ {V : Type 0} (graph : Graph V) (target : String) where
  find_all_paths-IsOk :
      (depth : ℕ) (current : String) (current_path visited : List String)
      → LeadsToNodes graph
      → contains (Dict.keys graph.nodes) current ≡ true
      → contains visited current ≡ false
      → unvisited visited (Dict.keys graph.nodes) < depth
      → IsOk (find_all_paths graph depth current target current_path visited)
  unfolding find_all_paths
  find_all_paths-IsOk zero current current_path visited leads known fresh h = absurd (omega arith)
  find_all_paths-IsOk (suc depth) current current_path visited leads known fresh h =
      elim (Bool-cases (current == target)) [
        | inl same ↦ rw same tt
        | inr apart ↦ rw apart (
            through_edges-returns _ (current ∷ visited) _ (get_outgoing_edges graph current)
              (leads current)
              λ edge is_node is_fresh.
                find_all_paths-IsOk depth edge.head (current_path ++ edge.id ∷ [])
                  (current ∷ visited) leads is_node is_fresh
                  (omega (arith, unvisited-lt visited (Dict.keys graph.nodes) current known fresh)))
      ]

-- When every edge of the graph leads to one of its nodes and the search begins at a node, a depth
-- of recursion above the number of nodes is enough for _find_all_paths to return, also on a graph
-- with cycles.
pub find_all_paths-returns :
    {V : Type 0} (graph : Graph V) (depth : ℕ) (source target : String)
    → LeadsToNodes graph
    → contains (Dict.keys graph.nodes) source ≡ true
    → length (Dict.keys graph.nodes) < depth
    → (paths : List (List String)) × (find_all_paths graph depth source target [] [] ≡ ok paths)
find_all_paths-returns graph depth source target leads known enough = result-ok _ (
    find_all_paths-IsOk graph target depth source [] [] leads known refl
      (omega (arith, unvisited-length [] (Dict.keys graph.nodes))))
