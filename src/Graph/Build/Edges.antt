-- ===== src/Graph/Build/Edges.antt =====
-- graph/graph.py: the graph that `_build_edges` makes.
use graphon.Prelude.{
  String, ◌≡◌, refl, sym, ap, ◌∙◌, inl, inr, Option, none, some, List, [], ◌∷◌, All, arith,
  string_cases,
}
use graphon.Dict
use graphon.Dict.{Dict, get-put, get_or-put}
use graphon.Graph.{
  Node, Edge, IsWellFormed, edges_of, with_found, get_incoming_edges, get_outgoing_edges,
}
use graphon.Graph.Build.{
  EdgeConfig, Built, nothing_built, edge_id, add_edge, with_ends, build_from, build_edges,
  HandleField,
}
use graphon.Graph.Build.Indexed.{
  Stands, IsListed, IsIndexed, add_edge-IsIndexed, with_ends-IsIndexed, build_from-IsIndexed,
  nothing-IsIndexed,
}

add_edge-keeps :
    (source target handle : String) (b : Built) (x : String) (e : Edge)
    → IsIndexed b
    → Dict.get b.edges x ≡ some e
    → Dict.get (add_edge source target handle b).edges x ≡ some e
add_edge-keeps source target handle b x e h at =
    get-put b.edges (edge_id b.edge_counter) x _ ∙ elim (string_cases (edge_id b.edge_counter) x) [
      | inl same ↦ absurd (
          let clash : none ≡ some e =
            sym (h.fresh b.edge_counter (omega arith)) ∙ ap (Dict.get b.edges) same ∙ at in
          cc)
      | inr other ↦ rw other at
    ]

edges_of-All :
    (edges : Dict Edge) (P : Edge → Type 0) (ids : List String)
    → All (Stands edges P) ids
    → All (λ (e : Edge). P e × (Dict.get edges e.id ≡ some e)) (edges_of edges ids)
unfolding edges_of
edges_of-All edges P [] h = tt
edges_of-All edges P (x ∷ ids) h =
    keep h.0.0 (Dict.get edges x) h.0.1 h.0.2 (ap (Dict.get edges) h.0.3 ∙ h.0.1)
      (edges_of-All edges P ids h.1)
  where
    keep :
        (e : Edge) (found : Option Edge)
        → found ≡ some e
        → P e
        → Dict.get edges e.id ≡ some e
        → All (λ (e : Edge). P e × (Dict.get edges e.id ≡ some e)) (edges_of edges ids)
        → All
            (λ (e : Edge). P e × (Dict.get edges e.id ≡ some e))
            (with_found found (edges_of edges ids))
    keep e found is p named rest = simp (is) ((p, named), rest)

-- A later edge of the configuration leaves the edges where they stand.
with_ends-keeps :
    (s t : Option String) (f : HandleField) (b : Built) (x : String) (e : Edge)
    → IsIndexed b
    → Dict.get b.edges x ≡ some e
    → Dict.get (with_ends s t f b).edges x ≡ some e
with_ends-keeps (some s) (some t) HandleField.absent b x e h at =
    add_edge-keeps s t "source" b x e h at
with_ends-keeps (some s) (some t) (HandleField.text y) b x e h at = add_edge-keeps s t y b x e h at
with_ends-keeps (some s) (some t) HandleField.other b x e h at = at
with_ends-keeps (some s) none f b x e h at = at
with_ends-keeps none t f b x e h at = at

build_from-keeps :
    (configs : List EdgeConfig) (b : Built) (x : String) (e : Edge)
    → IsIndexed b
    → Dict.get b.edges x ≡ some e
    → Dict.get (build_from configs b).edges x ≡ some e
unfolding build_from
build_from-keeps [] b x e h at = at
build_from-keeps (c ∷ rest) b x e h at =
    build_from-keeps rest _ x e (with_ends-IsIndexed c.source c.target c.source_handle b h)
      (with_ends-keeps c.source c.target c.source_handle b x e h at)

present :
    (rest : List EdgeConfig) (source target handle : String) (b : Built)
    → IsIndexed b
    → (x : String) × (e : Edge) × (Dict.get
          (build_from rest (add_edge source target handle b)).edges
          x
        ≡ some e)
      × (e.tail ≡ source)
      × (e.head ≡ target)
      × (e.source_handle ≡ handle)
present rest source target handle b h = (
  edge_id b.edge_counter,
  record { id = edge_id b.edge_counter; tail = source; head = target; source_handle = handle },
  build_from-keeps rest (add_edge source target handle b) _ _
      (add_edge-IsIndexed source target handle b h)
      (Dict.get-put_self b.edges (edge_id b.edge_counter) _),
  refl,
  refl,
  refl,
)

-- The handle of an edge, if it can be used; a missing one is "source".
abbrev pub usable_handle : HandleField → Option String
usable_handle HandleField.absent = some "source"
usable_handle (HandleField.text handle) = some handle
usable_handle HandleField.other = none

-- An edge with both ends and a usable handle stands among the edges.
abbrev pub IsPresent : Dict Edge → Option String → Option String → Option String → Type 0
IsPresent edges (some source) (some target) (some handle) =
    (x : String) × (e : Edge) × (Dict.get edges x ≡ some e)
    × (e.tail ≡ source)
    × (e.head ≡ target)
    × (e.source_handle ≡ handle)
IsPresent edges _ _ _ = Unit

build_from-IsPresent :
    (rest : List EdgeConfig) (s t : Option String) (f : HandleField) (b : Built)
    → IsIndexed b
    → IsPresent (build_from rest (with_ends s t f b)).edges s t (usable_handle f)
build_from-IsPresent rest (some s) (some t) HandleField.absent b h = present rest s t "source" b h
build_from-IsPresent rest (some s) (some t) (HandleField.text y) b h = present rest s t y b h
build_from-IsPresent rest (some s) (some t) HandleField.other b h = tt
build_from-IsPresent rest (some s) none f b h = tt
build_from-IsPresent rest none t f b h = tt

all-IsPresent :
    (configs : List EdgeConfig) (b : Built)
    → IsIndexed b
    → All
        (λ (c : EdgeConfig).
          IsPresent (build_from configs b).edges c.source c.target (usable_handle c.source_handle))
        configs
unfolding build_from
all-IsPresent [] b h = tt
all-IsPresent (c ∷ rest) b h = (
  build_from-IsPresent rest c.source c.target c.source_handle b h,
  all-IsPresent rest _ (with_ends-IsIndexed c.source c.target c.source_handle b h),
)

-- The graph over the edges that `_build_edges` makes of any configuration is well formed: each list
-- of `in_edges` and `out_edges` names edges that end or begin at its node, under their own ids.
-- Every edge is in the list of its target and in that of its source. Every edge of the
-- configuration with a source, a target and a handle that is a text or missing is among them, with
-- these ends and this handle, which is "source" if it is missing.
pub build_edges-IsWellFormed :
    {V : Type 0} (nodes : Dict (Node V)) (root : Node V) (configs : List EdgeConfig)
    → let b = build_edges configs in
      IsWellFormed (record {
        nodes = nodes;
        edges = b.edges;
        in_edges = b.in_edges;
        out_edges = b.out_edges;
        root_node = root;
      })
      × ((x : String) (e : Edge)
          → Dict.get b.edges x ≡ some e
          → IsListed b.in_edges b.out_edges x e)
      × All
          (λ (c : EdgeConfig). IsPresent b.edges c.source c.target (usable_handle c.source_handle))
          configs
unfolding build_edges get_incoming_edges get_outgoing_edges
build_edges-IsWellFormed nodes root configs =
    let h = build_from-IsIndexed configs nothing_built nothing-IsIndexed in
    (
      record {
        incoming = λ n. edges_of-All _ (λ e. e.head ≡ n) _ (h.into n);
        outgoing = λ n. edges_of-All _ (λ e. e.tail ≡ n) _ (h.out_of n);
      },
      h.listed,
      all-IsPresent configs nothing_built nothing-IsIndexed,
    )
