-- ===== src/Response/Paths/Simple.antt =====
-- response_coordinator/coordinator.py: what _find_all_paths finds.
use graphon.Prelude.{
  ℕ, zero, suc, String, ◌≡◌, refl, sym, ap, subst, ◌∙◌, ◌⊎◌, inl, inr, Bool, true, false, List, [],
  ◌∷◌, ◌++◌, contains, Bool-cases, ◌==◌, eq_iff, eq_refl, arith, if◌then◌else◌, ◌↔◌,
}
use mathlib.Core.List.{Memᴰ, append_assoc, append-nil}
use mathlib.Core.List.Memᴰ
use graphon.Exec.{ok}
use graphon.Graph.{Graph, Edge, get_outgoing_edges}
use graphon.Response.Paths.Loop.{In, IsOk, In-Through, through-Gives}
use graphon.Response.Paths.{through_edges, find_all_paths}

-- No text occurs twice.
abbrev pub Distinct : List String → Type 0
Distinct [] = Unit
Distinct (x ∷ xs) = (contains xs x ≡ false) × Distinct xs

module _ {V : Type 0} (graph : Graph V) where
  -- A walk along edges of the graph, with the nodes that it enters.
  pub data Walk : String → List String → List String → String → Type 0 where
    stop : (n : String) → Walk n [] [] n
    along :
        (n target : String) (edge : Edge) (edges nodes : List String)
        → Memᴰ edge (get_outgoing_edges graph n)
        → Walk edge.head edges nodes target
        → Walk n (edge.id ∷ edges) (edge.head ∷ nodes) target

  -- A path that enters no node twice.
  pub record IsSimplePath (source : String) (edges : List String) (target : String) : Type 0 where
    pub nodes : List String
    pub walk : Walk source edges nodes target
    pub distinct : Distinct (source ∷ nodes)

-- No member of the first list is in the second.
abbrev Avoids : List String → List String → Type 0
Avoids [] visited = Unit
Avoids (x ∷ xs) visited = (contains visited x ≡ false) × Avoids xs visited

avoids_head :
    (visited : List String) (a x : String)
    → contains (a ∷ visited) x ≡ false
    → ((x == a) ≡ false) × (contains visited x ≡ false)
avoids_head visited a x h = ground (arith, eq_iff a x, eq_iff x a)

Avoids-cons :
    (xs visited : List String) (a : String)
    → Avoids xs (a ∷ visited)
    → (contains xs a ≡ false) × Avoids xs visited
Avoids-cons [] visited a h = (refl, tt)
Avoids-cons (x ∷ xs) visited a h =
    let (apart, fresh) = avoids_head visited a x h.0 in
    let (others, rest) = Avoids-cons xs visited a h.1 in (rw (apart, others) refl, (fresh, rest))

cons-Avoids :
    (xs visited : List String) (a : String)
    → contains xs a ≡ false
    → Avoids xs visited
    → Avoids xs (a ∷ visited)
cons-Avoids [] visited a h k = tt
cons-Avoids (x ∷ xs) visited a h k = (
  ground (arith, eq_iff a x, eq_iff x a, h, k.0),
  cons-Avoids xs visited a (ground (arith, h)) k.1,
)

module _ {V : Type 0} (graph : Graph V) (target : String) where
  -- The path goes on from `current_path` by a simple path to the target past the visited nodes.
  record Extends (current : String) (current_path visited p : List String) : Type 0 where
    edges : List String
    nodes : List String
    extended : p ≡ current_path ++ edges
    walk : Walk graph current edges nodes target
    distinct : Distinct (current ∷ nodes)
    avoids : Avoids nodes visited

  prolong :
      (current : String) (current_path visited p : List String) (edge : Edge)
      → Memᴰ edge (get_outgoing_edges graph current)
      → contains (current ∷ visited) edge.head ≡ false
      → Extends edge.head (current_path ++ edge.id ∷ []) (current ∷ visited) p
      → Extends current current_path visited p
  prolong current current_path visited p edge is_edge fresh e =
      let (apart, rest) = Avoids-cons (edge.head ∷ e.nodes) visited current (fresh, e.avoids) in
      record {
        edges = edge.id ∷ e.edges;
        nodes = edge.head ∷ e.nodes;
        extended = e.extended ∙ append_assoc current_path (edge.id ∷ []) e.edges;
        walk = Walk.along current target edge e.edges e.nodes is_edge e.walk;
        distinct = (apart, e.distinct);
        avoids = rest;
      }

  In-Extends :
      (depth : ℕ) (current : String) (current_path visited p : List String)
      → In p (find_all_paths graph depth current target current_path visited)
      → Extends current current_path visited p
  unfolding find_all_paths
  In-Extends zero current current_path visited p m = absurd m
  In-Extends (suc depth) current current_path visited p m =
      go (λ edge. In-Extends depth edge.head (current_path ++ edge.id ∷ []) (current ∷ visited) p)
        (current == target) (eq_iff current target) m
    where
      go :
          ((edge : Edge)
            → In p (
                find_all_paths graph depth edge.head target
                  (current_path ++ edge.id ∷ [])
                  (current ∷ visited))
            → Extends edge.head (current_path ++ edge.id ∷ []) (current ∷ visited) p)
          → (b : Bool) → (b ≡ true) ↔ (current ≡ target)
          → In p (
              if b
              then ok (current_path ∷ [])
              else through_edges
                  (λ edge.
                    find_all_paths graph depth edge.head target
                      (current_path ++ edge.id ∷ [])
                      (current ∷ visited))
                  (current ∷ visited)
                  (get_outgoing_edges graph current))
          → Extends current current_path visited p
      go onward true same found = record {
        edges = [];
        nodes = [];
        extended = Memᴰ.eq_of_singleton found ∙ sym (append-nil current_path);
        walk = subst (λ t. Walk graph current [] [] t) (same.0 refl) (Walk.stop current);
        distinct = (refl, tt);
        avoids = tt;
      }
      go onward false same found =
          let t = In-Through _ (current ∷ visited) p (get_outgoing_edges graph current) found in
          prolong current current_path visited p t.edge t.is_edge t.is_fresh
            (onward t.edge t.behind)

  -- The target of a walk is where it stands, or the last node that it enters.
  Walk-target :
      (n : String) (edges nodes : List String)
      → Walk graph n edges nodes target
      → (n ≡ target) ⊎ (contains nodes target ≡ true)
  Walk-target n [] [] (Walk.stop _) = inl refl
  Walk-target n _ _ (Walk.along _ _ edge edges nodes m walk) =
      elim (Walk-target edge.head edges nodes walk) [
        | inl e ↦ inr (rw e (rw (eq_refl target) refl))
        | inr later ↦ inr (ground (arith, later))
      ]

  not_there :
      (current : String) (nodes : List String)
      → contains nodes current ≡ false
      → contains nodes target ≡ true
      → (current == target) ≡ false
  not_there current nodes absent present = elim (Bool-cases (current == target)) [
    | inl same ↦ absurd (
        let clash : true ≡ false =
          sym present ∙ (ap (contains nodes) (sym ((eq_iff current target).0 same)) ∙ absent) in
        cc)
    | inr apart ↦ apart
  ]

  step_target :
      (edge : Edge) (edges nodes : List String)
      → Walk graph edge.head edges nodes target
      → contains (edge.head ∷ nodes) target ≡ true
  step_target edge edges nodes walk = elim (Walk-target edge.head edges nodes walk) [
    | inl e ↦ rw e (rw (eq_refl target) refl)
    | inr later ↦ ground (arith, later)
  ]

  Walk-In :
      (depth : ℕ) (current : String) (current_path visited edges nodes : List String)
      → IsOk (find_all_paths graph depth current target current_path visited)
      → Walk graph current edges nodes target
      → Distinct (current ∷ nodes)
      → Avoids nodes visited
      → In (current_path ++ edges) (find_all_paths graph depth current target current_path visited)
  unfolding find_all_paths
  Walk-In zero current current_path visited edges nodes fine walk distinct avoids = absurd fine
  Walk-In (suc depth) current current_path visited _ _ fine (Walk.stop _) distinct avoids =
      rw (eq_refl current) (Memᴰ.head (append-nil current_path))
  Walk-In (suc depth) current current_path visited _ _ fine (Walk.along _ _ edge edges nodes m walk)
        distinct avoids =
      let apart =
        not_there current (edge.head ∷ nodes) distinct.0 (step_target edge edges nodes walk) in
      let past : Avoids (edge.head ∷ nodes) (current ∷ visited) =
        cons-Avoids (edge.head ∷ nodes) visited current distinct.0 avoids in
      rw apart (
        let (behind, gives) =
          through-Gives
            (λ edge.
              find_all_paths graph depth edge.head target (current_path ++ edge.id ∷ [])
                (current ∷ visited))
            (current ∷ visited) (current_path ++ edge.id ∷ edges) edge
            (get_outgoing_edges graph current) m (rw apart at fine) past.0 in
        gives (
          subst
            (λ q. In q (
              find_all_paths graph depth edge.head target (current_path ++ edge.id ∷ [])
                (current ∷ visited)))
            (append_assoc current_path (edge.id ∷ []) edges)
            (Walk-In depth edge.head (current_path ++ edge.id ∷ []) (current ∷ visited) edges nodes
              behind walk distinct.1 past.1)))

nothing-Avoids : (xs : List String) → Avoids xs []
nothing-Avoids [] = tt
nothing-Avoids (x ∷ xs) = (refl, nothing-Avoids xs)

-- When _find_all_paths returns, what it returns are the simple paths from the first node to the
-- second, all of them and no others.
pub find_all_paths-IsSimplePath :
    {V : Type 0} (graph : Graph V) (depth : ℕ) (source target : String) (paths : List (List String))
    (path : List String)
    → find_all_paths graph depth source target [] [] ≡ ok paths
    → Memᴰ path paths ↔ IsSimplePath graph source path target
find_all_paths-IsSimplePath graph depth source target paths path e = (
  λ m.
      let x = In-Extends graph target depth source [] [] path (rw e m) in
      record {
        nodes = x.nodes;
        walk = subst (λ q. Walk graph source q x.nodes target) (sym x.extended) x.walk;
        distinct = x.distinct;
      },
  λ p. rw e at (
      Walk-In graph target depth source [] [] path p.nodes (rw e tt) p.walk p.distinct
        (nothing-Avoids p.nodes)),
)
