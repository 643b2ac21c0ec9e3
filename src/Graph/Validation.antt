-- ===== src/Graph/Validation.antt =====
-- graph/validation.py: the rules that a graph has to satisfy, and what passing them means.
use graphon.Prelude.{
  String, ◌≡◌, ◌↔◌, refl, Bool, true, ◌||◌, Option, some, List, [], ◌∷◌, ◌++◌, All, arith, ◌==◌,
  if◌then◌else◌,
}
use graphon.Dict
use graphon.Dict.{Dict}
use graphon.Enums.{is_root}
use graphon.Graph.{Graph, Node, Edge}

-- A rule's finding: its code, and the node that it is about.
pub record GraphValidationIssue : Type 0 where
  pub issue_code : String
  pub node_id : Option String

abbrev issue : String → String → GraphValidationIssue
issue c n = record { issue_code = c; node_id = some n }

-- The node types that may be a root besides those of execution type ROOT.
abbrev pub is_container_entry : String → Bool
is_container_entry node_type = node_type == "iteration-start" || node_type == "loop-start"

append-nil_split : (xs ys : List GraphValidationIssue) → xs ++ ys ≡ [] → (xs ≡ []) × (ys ≡ [])
append-nil_split [] ys h = (refl, h)
append-nil_split (x ∷ xs) ys h = cc

module _ {V : Type 0} where
  -- _EdgeEndpointValidator: the two tests of the loop over the edges.
  unfoldable pub endpoint_issues : Dict (Node V) → List Edge → List GraphValidationIssue
  endpoint_issues nodes [] = []
  endpoint_issues nodes (edge ∷ rest) =
      (if Dict.has nodes edge.tail then [] else issue "MISSING_NODE" edge.tail ∷ [])
      ++ ((if Dict.has nodes edge.head then [] else issue "MISSING_NODE" edge.head ∷ [])
          ++ endpoint_issues nodes rest)

  -- _RootNodeValidator
  unfoldable pub root_issues : Graph V → List GraphValidationIssue
  root_issues graph =
      let root = graph.root_node in
      if Dict.has graph.nodes root.id
      then (if is_root root.execution_type || is_container_entry root.node_type
          then []
          else issue "INVALID_ROOT" root.id ∷ [])
      else issue "INVALID_ROOT" root.id ∷ []

  -- GraphValidator.validate with the default rules: the issues that it raises.
  unfoldable pub validate : Graph V → List GraphValidationIssue
  unfolding endpoint_issues root_issues
  validate graph = endpoint_issues graph.nodes (Dict.values graph.edges) ++ root_issues graph

  -- What a valid graph promises.
  pub record IsValidGraph (graph : Graph V) : Type 0 where
    pub ends :
        All
          (λ (e : Edge).
            (Dict.has graph.nodes e.tail ≡ true) × (Dict.has graph.nodes e.head ≡ true))
          (Dict.values graph.edges)
    pub root_known : Dict.has graph.nodes graph.root_node.id ≡ true
    pub root_kind :
        (is_root graph.root_node.execution_type || is_container_entry graph.root_node.node_type)
        ≡ true

  endpoint_issues-nil :
      (nodes : Dict (Node V)) (es : List Edge)
      → (endpoint_issues nodes es ≡ [])
        ↔ All (λ (e : Edge). (Dict.has nodes e.tail ≡ true) × (Dict.has nodes e.head ≡ true)) es
  unfolding endpoint_issues
  endpoint_issues-nil nodes [] = (λ _. tt, λ _. refl)
  endpoint_issues-nil nodes (e ∷ es) =
      let (to, from) = endpoint_issues-nil nodes es in
      (λ h. ground (arith, to), λ h. ground (arith, from h.1))

  -- The validator finds no issue exactly for the graphs whose edges begin and end at their nodes,
  -- and whose root is one of their nodes and of a kind that may be a root.
  pub validate_iff : (graph : Graph V) → (validate graph ≡ []) ↔ IsValidGraph graph
  unfolding validate root_issues
  validate_iff graph = (
    λ h.
        let (e, r) = append-nil_split _ _ h in
        record {
          ends = (endpoint_issues-nil graph.nodes _).0 e;
          root_known = ground arith;
          root_kind = ground arith;
        },
    λ v.
        rw ((endpoint_issues-nil graph.nodes _).1 v.ends)
          (ground (arith, v.root_known, v.root_kind)),
  )
