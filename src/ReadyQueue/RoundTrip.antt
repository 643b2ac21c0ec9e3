-- ===== src/ReadyQueue/RoundTrip.antt =====
-- graph_engine/ready_queue: a saved queue, and what loading makes of it.
use graphon.Prelude.{◌+◌, String, ◌≡◌, refl, ◌∙◌, ap, List, [], ◌∷◌, ◌++◌, length, arith}
use mathlib.Core.List.{append_assoc, append-nil}
use graphon.Exec.{ok, for_each, ◌>>=◌}
use graphon.ReadyQueue.{ReadyQueueState, StateCodec, InMemoryReadyQueue, put, drain, dumps, loads}

put_all-items :
    (xs : List String) (q : InMemoryReadyQueue)
    → for_each put xs q
      ≡ (ok tt, record { items = q.items ++ xs; unfinished_tasks = q.unfinished_tasks + length xs })
unfolding put for_each ◌>>=◌
put_all-items [] q =
    simp append-nil
      (ap (λ n. (ok tt, record { items = q.items; unfinished_tasks = n })) (omega arith))
put_all-items (x ∷ xs) q =
    put_all-items xs _
    ∙ simp append_assoc (
        ap (λ n. (ok tt, record { items = q.items ++ x ∷ xs; unfinished_tasks = n })) (omega arith))

abbrev pub saved_state : List String → ReadyQueueState
saved_state items = record { type_name = "InMemoryReadyQueue"; version = "1.0"; items = items }

loads-items :
    (codec : StateCodec) (items : List String) (r : InMemoryReadyQueue)
    → codec.model_validate_json (codec.model_dump_json (saved_state items)) ≡ ok (saved_state items)
    → let saved = codec.model_dump_json (saved_state items) in
      ((loads codec saved r).0 ≡ ok tt) × ((loads codec saved r).1.items ≡ items)
unfolding loads drain ◌>>=◌
loads-items codec items r restores = simp (restores, put_all-items) (refl, refl)

-- Saving a queue returns, and leaves its items in their order. If the JSON conversion restores
-- the state of these items, then loading the saved text into any queue returns and gives it these
-- items.
pub loads-dumps :
    (codec : StateCodec) (q r : InMemoryReadyQueue)
    → codec.model_validate_json (codec.model_dump_json (saved_state q.items))
      ≡ ok (saved_state q.items)
    → ((dumps codec q).1.items ≡ q.items)
      × ((saved : String) × ((dumps codec q).0 ≡ ok saved)
          × ((loads codec saved r).0 ≡ ok tt)
          × ((loads codec saved r).1.items ≡ q.items))
unfolding dumps drain ◌>>=◌
loads-dumps codec q r restores = simp put_all-items (
  refl,
  (_, refl, (loads-items codec q.items r restores).0, (loads-items codec q.items r restores).1),
)
