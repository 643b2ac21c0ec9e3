-- ===== src/Execution/Restored.antt =====
-- graph_engine/domain/graph_execution.py: what loading makes of a saved execution.
use graphon.Prelude.{
  String, ◌≡◌, refl, sym, ap, ◌∙◌, subst, inl, inr, Bool, true, false, Option, none, some, [], ◌∷◌,
  Bool-cases, arith, ◌==◌, eq_iff, if◌then◌else◌,
}
use graphon.Exec.{Exception, ok}
use graphon.Dict
use graphon.Dict.{Dict, get-put}
use graphon.Sorting.{insert, sort}
use graphon.Sorting.TextOrder.{text_lt, text_asym}
use graphon.Execution.{NodeExecution, GraphExecution, has_error}
use graphon.Execution.Snapshot.{
  SnapshotOps, entry_before, node_state_of, node_states, node_of, node_dict, serialize_error,
  deserialize_error, state_of, dump_execution, load_execution,
}

-- Every key stands once.
abbrev pub HasUniqueKeys : Dict NodeExecution → Type 0
HasUniqueKeys [] = Unit
HasUniqueKeys ((k, n) ∷ d) = (Dict.get d k ≡ none) × HasUniqueKeys d

-- A key that stands before another is another.
text_lt-ne : (i j : String) → text_lt j i ≡ true → (i == j) ≡ false
text_lt-ne i j h = elim (Bool-cases (i == j)) [
  | inr e ↦ e
  | inl e ↦
      let same : text_lt j j ≡ true = subst (λ x. text_lt j x ≡ true) ((eq_iff i j).0 e) h in
      absurd (let clash : true ≡ false = sym same ∙ text_asym j j same in cc)
]

get-insert :
    (i : String) (n : NodeExecution) (d : Dict NodeExecution) (k : String)
    → Dict.get (insert entry_before (i, n) d) k ≡ (if i == k then some n else Dict.get d k)
unfolding insert Dict.get
get-insert i n [] k = refl
get-insert i n ((j, m) ∷ d) k = elim (Bool-cases (text_lt j i)) [
  | inr here ↦ rw here refl
  | inl later ↦ rw later (
      ap (λ o. if j == k then some m else o) (get-insert i n d k)
      ∙ ground (arith, text_lt-ne i j later, eq_iff i k, eq_iff j k, eq_iff i j))
]

get-sort : (d : Dict NodeExecution) (k : String) → Dict.get (sort entry_before d) k ≡ Dict.get d k
unfolding sort Dict.get
get-sort [] k = refl
get-sort ((i, n) ∷ d) k =
    get-insert i n (sort entry_before d) k ∙ ap (λ o. if i == k then some n else o) (get-sort d k)

insert-HasUniqueKeys :
    (i : String) (n : NodeExecution) (d : Dict NodeExecution)
    → Dict.get d i ≡ none
    → HasUniqueKeys d
    → HasUniqueKeys (insert entry_before (i, n) d)
unfolding insert Dict.get
insert-HasUniqueKeys i n [] new u = (refl, tt)
insert-HasUniqueKeys i n ((j, m) ∷ d) new u = elim (Bool-cases (text_lt j i)) [
  | inr here ↦ rw here (new, u)
  | inl later ↦ rw later (
    get-insert i n d j ∙ rw (text_lt-ne i j later) u.0,
    insert-HasUniqueKeys i n d (ground (arith, new, text_lt-ne i j later, eq_iff i j, eq_iff j i))
        u.1,
  )
]

sort-HasUniqueKeys :
    (d : Dict NodeExecution) → HasUniqueKeys d → HasUniqueKeys (sort entry_before d)
unfolding sort
sort-HasUniqueKeys [] u = tt
sort-HasUniqueKeys ((i, n) ∷ d) u =
    insert-HasUniqueKeys i n (sort entry_before d) (get-sort d i ∙ u.0) (sort-HasUniqueKeys d u.1)

-- The node under a key, which its own id is from then on, or else what was there.
abbrev pub named : String → Option NodeExecution → Option NodeExecution → Option NodeExecution
named k none other = other
named k (some n) other = some (record n { node_id = k })

get-node_dict :
    (d entries : Dict NodeExecution) (k : String)
    → HasUniqueKeys d
    → Dict.get (node_dict (node_states d) entries) k ≡ named k (Dict.get d k) (Dict.get entries k)
unfolding node_dict Dict.get
get-node_dict [] entries k u = refl
get-node_dict ((i, n) ∷ d) entries k u =
    get-node_dict d (Dict.put entries i (node_of (node_state_of (i, n)))) k u.1
    ∙ rw (get-put entries i k (node_of (node_state_of (i, n)))) (elim (Bool-cases (i == k)) [
      | inr other ↦ rw other refl
      | inl same ↦ rw same (
          rw (subst (λ x. Dict.get d x ≡ none) ((eq_iff i k).0 same) u.0)
            (ap (λ x. some (record n { node_id = x })) ((eq_iff i k).0 same)))
    ])

abbrev is_some : Option Exception → Bool
is_some e = elim e [ none ↦ false | some _ ↦ true ]

module _ (ops : SnapshotOps) where
  pub some_error :
      (e : Option Exception) → is_some (deserialize_error ops (serialize_error ops e)) ≡ is_some e
  unfolding deserialize_error serialize_error
  some_error none = refl
  some_error (some e) = refl

  -- If the JSON conversion restores the state of an execution, then loading its saved text into an
  -- execution of the same workflow returns and restores the flags, the reasons of the pause and the
  -- count of exceptions; there is an error exactly if there was one; and under every key there is
  -- the same node as before, whose id is the key, or none as before.
  pub load_execution-dump_execution :
      (x y : GraphExecution)
      → (y.workflow_id == x.workflow_id) ≡ true
      → HasUniqueKeys x.node_executions
      → ops.model_validate_json (ops.model_dump_json (state_of ops x)) ≡ ok (state_of ops x)
      → let t = (load_execution ops (dump_execution ops x) y).1 in
        ((load_execution ops (dump_execution ops x) y).0 ≡ ok tt)
        × (t.started ≡ x.started)
        × (t.completed ≡ x.completed)
        × (t.aborted ≡ x.aborted)
        × (t.paused ≡ x.paused)
        × (t.pause_reasons ≡ x.pause_reasons)
        × (t.exceptions_count ≡ x.exceptions_count)
        × (has_error t ≡ has_error x)
        × ((k : String)
            → Dict.get t.node_executions k ≡ named k (Dict.get x.node_executions k) none)
  unfolding load_execution dump_execution state_of has_error Dict.get
  load_execution-dump_execution x y same u restores = rw restores (
      rw same (
        refl,
        refl,
        refl,
        refl,
        refl,
        refl,
        refl,
        some_error x.error,
        λ k.
            get-node_dict (sort entry_before x.node_executions) [] k
              (sort-HasUniqueKeys x.node_executions u)
            ∙ ap (λ o. named k o none) (get-sort x.node_executions k),
      ))
