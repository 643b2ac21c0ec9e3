-- ===== src/Graph/Roots/Skipped.antt =====
-- graph/graph.py: which nodes the marking of inactive root branches skips.
use graphon.Prelude.{
  ℕ, zero, suc, String, ◌≡◌, ◌⊎◌, inl, inr, refl, Bool, true, false, List, [], ◌∷◌, all, All,
  contains, arith, eq_refl, string_cases, Option-cases, if◌then◌else◌,
}
use graphon.Exec.{
  Exec, Exception, key_error, ok, err, pure, modify, recursion_error, for_each, ◌>>=◌, ◌>>◌,
}
use graphon.Exec.Triple.{
  Keeps, Keeps-bind, Keeps-for_each, Keeps-pure, Keeps-raise, Keeps-require, Keeps-gets, Keeps-if,
}
use graphon.Dict
use graphon.Dict.{Dict}
use graphon.Enums.{NodeState, skipped, is_skipped}
use graphon.Graph.{Node, Edge, States, update, initial_states}
use graphon.Graph.Roots.{
  skip_node_state, all_in_skipped, settle_target, skip_edge, mark_downstream, inactive_roots,
  mark_inactive_root_branches,
}

-- One more skipped edge leaves a list of skipped edges one.
mark-all_skipped :
    (f : String → NodeState) (x : String) (ids : List String)
    → all (λ eid. is_skipped (f eid)) ids ≡ true
    → all (λ eid. is_skipped (update f x skipped eid)) ids ≡ true
mark-all_skipped f x [] h = refl
mark-all_skipped f x (e ∷ ids) h = ground (arith, mark-all_skipped f x ids)

module _ {V : Type 0} (nodes : Dict (Node V)) (edges : Dict Edge)
    (in_edges out_edges : Dict (List String)) (roots : List String) where
  -- A skipped node is one of the roots, or all its incoming edges are skipped.
  abbrev pub IsRootOrClosed : States → Type 0
  IsRootOrClosed st =
      (n : String)
      → st.node_state n ≡ skipped
      → (contains roots n ≡ true)
        ⊎ (all (λ eid. is_skipped (st.edge_state eid)) (Dict.get_or in_edges n []) ≡ true)

  mark_edge-IsRootOrClosed :
      (x : String)
      → Keeps IsRootOrClosed
          (modify (λ st. record st { edge_state = update st.edge_state x skipped }))
  mark_edge-IsRootOrClosed x = record {
    at = λ st h n skips. elim (h n skips) [
      | inl is_root ↦ inl is_root
      | inr closed ↦ inr (mark-all_skipped st.edge_state x (Dict.get_or in_edges n []) closed)
    ];
  }

  mark_node-IsRootOrClosed :
      (x : String) (st : States)
      → (contains roots x ≡ true)
        ⊎ (all (λ eid. is_skipped (st.edge_state eid)) (Dict.get_or in_edges x []) ≡ true)
      → IsRootOrClosed st
      → IsRootOrClosed (skip_node_state nodes edges in_edges out_edges x st).1
  mark_node-IsRootOrClosed x st why h n skips = elim (string_cases x n) [
    | inl same ↦ rw same at why
    | inr other ↦ h n (rw other at skips)
  ]

  -- The look-up of the edge states changes nothing, and says whether all are skipped.
  all_in-cases :
      (ids : List String) (st : States)
      → (all_in_skipped nodes edges in_edges out_edges ids st
          ≡ (ok (all (λ eid. is_skipped (st.edge_state eid)) ids), st))
        ⊎ ((e : Exception) × (all_in_skipped nodes edges in_edges out_edges ids st ≡ (err e, st)))
  unfolding all_in_skipped ◌>>=◌
  all_in-cases [] st = inl refl
  all_in-cases (x ∷ ids) st = elim (Option-cases (Dict.get edges x)) [
    | inl missing ↦ inr (key_error x, simp missing refl)
    | inr (edge, found) ↦ elim (all_in-cases ids st) [
      | inl all_known ↦ inl (simp (found, all_known) refl)
      | inr (e, raised) ↦ inr (e, simp (found, raised) refl)
    ]
  ]

  settle_target-IsRootOrClosed :
      (downstream : String → Exec States (Unit {0}))
      → ((n : String) → Keeps IsRootOrClosed (downstream n))
      → (target : String)
      → Keeps IsRootOrClosed (settle_target nodes edges in_edges out_edges downstream target)
  unfolding settle_target ◌>>=◌
  settle_target-IsRootOrClosed downstream keeps target = record {
    at = λ st h. elim (Option-cases (Dict.get nodes target)) [
      | inl missing ↦ rw missing h
      | inr (node, found) ↦ elim (all_in-cases (Dict.get_or in_edges target []) st) [
        | inl known ↦ rw found (rw known (settle st h _ refl))
        | inr (e, raised) ↦ rw found (rw raised h)
      ]
    ];
  }
    where
      settle :
          (st : States)
          → IsRootOrClosed st
          → (b : Bool)
          → all (λ eid. is_skipped (st.edge_state eid)) (Dict.get_or in_edges target []) ≡ b
          → IsRootOrClosed
              ((if b
                  then skip_node_state nodes edges in_edges out_edges target >> downstream target
                  else pure tt)
                st).1
      settle st h true all_skipped =
          (keeps target).at _ (mark_node-IsRootOrClosed target st (inr all_skipped) h)
      settle st h false open_edge = h

  skip_edge-IsRootOrClosed :
      (downstream : String → Exec States (Unit {0}))
      → ((n : String) → Keeps IsRootOrClosed (downstream n))
      → (eid : String)
      → Keeps IsRootOrClosed (skip_edge nodes edges in_edges out_edges downstream eid)
  unfolding skip_edge
  skip_edge-IsRootOrClosed downstream keeps eid =
      Keeps-bind _ _ (Keeps-require eid (Dict.get edges eid)) λ edge.
        Keeps-bind _ _ (mark_edge-IsRootOrClosed eid)
          λ _. settle_target-IsRootOrClosed downstream keeps edge.head

  mark_downstream-IsRootOrClosed :
      (depth : ℕ) (n : String)
      → Keeps IsRootOrClosed (mark_downstream nodes edges in_edges out_edges depth n)
  unfolding mark_downstream
  mark_downstream-IsRootOrClosed zero n = Keeps-raise recursion_error
  mark_downstream-IsRootOrClosed (suc depth) n =
      Keeps-bind _ _ (Keeps-require n (Dict.get nodes n)) λ _.
        Keeps-bind _ _ (Keeps-gets (λ st. st.node_state n)) λ state.
          Keeps-if (is_skipped state) _ _
            (Keeps-for_each _ (Dict.get_or out_edges n []) (
              skip_edge-IsRootOrClosed (mark_downstream nodes edges in_edges out_edges depth)
                (mark_downstream-IsRootOrClosed depth)))
            (Keeps-pure tt)

  skip_root-IsRootOrClosed :
      (r : String)
      → contains roots r ≡ true
      → Keeps IsRootOrClosed (λ st.
        (if Dict.has nodes r then skip_node_state nodes edges in_edges out_edges r else pure tt) st)
  skip_root-IsRootOrClosed r member =
      Keeps-if (Dict.has nodes r) _ _
        (record { at = λ st h. mark_node-IsRootOrClosed r st (inl member) h }) (Keeps-pure tt)

  skip_roots-IsRootOrClosed :
      (rs : List String)
      → All (λ r. contains roots r ≡ true) rs
      → Keeps IsRootOrClosed (
          for_each
            (λ r. λ st.
              (if Dict.has nodes r
                  then skip_node_state nodes edges in_edges out_edges r
                  else pure tt)
                st)
            rs)
  unfolding for_each
  skip_roots-IsRootOrClosed [] members = Keeps-pure tt
  skip_roots-IsRootOrClosed (r ∷ rs) members =
      Keeps-bind _ _ (skip_root-IsRootOrClosed r members.0)
        λ _. skip_roots-IsRootOrClosed rs members.1

contains_each :
    (xs ys : List String)
    → ((x : String) → contains xs x ≡ true → contains ys x ≡ true)
    → All (λ x. contains ys x ≡ true) xs
contains_each [] ys h = tt
contains_each (x ∷ xs) ys h =
    (h x (rw (eq_refl x) refl), contains_each xs ys (λ y member. h y (ground (arith, member))))

-- After the inactive root branches are marked in a new graph, each skipped node is an inactive
-- root, or all edges into it are skipped. This holds also when an exception ends the marking.
pub mark_inactive-IsRootOrClosed :
    {V : Type 0} (nodes : Dict (Node V)) (edges : Dict Edge)
    (in_edges out_edges : Dict (List String)) (depth : ℕ) (active_root_id : String)
    → IsRootOrClosed nodes edges in_edges out_edges
        (inactive_roots nodes edges in_edges out_edges active_root_id)
        (mark_inactive_root_branches nodes edges in_edges out_edges depth active_root_id
          initial_states).1
unfolding mark_inactive_root_branches
mark_inactive-IsRootOrClosed nodes edges in_edges out_edges depth active_root_id =
    let roots = inactive_roots nodes edges in_edges out_edges active_root_id in
    (Keeps-if _ _ _ (Keeps-pure tt) (
        Keeps-bind _ _
          (skip_roots-IsRootOrClosed nodes edges in_edges out_edges roots roots
            (contains_each roots roots (λ x member. member)))
          λ _.
            Keeps-for_each _ roots
              (mark_downstream-IsRootOrClosed nodes edges in_edges out_edges roots depth))).at
      initial_states (λ n e. cc)
