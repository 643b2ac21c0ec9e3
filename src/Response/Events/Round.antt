-- ===== src/Response/Events/Round.antt =====
-- response_coordinator/coordinator.py: one round of on_edge_taken.
use graphon.Prelude.{
  ◌⊎◌, inl, inr, ℕ, suc, ◌+◌, ◌<◌, String, ◌≡◌, refl, sym, ap, subst, ◌∙◌, Bool, true, false,
  Option, none, some, List, [], ◌∷◌, ◌++◌, length, length-append, All, All-append, arith,
  if◌then◌else◌,
}
use graphon.Exec.{pure, ◌>>=◌}
use graphon.Exec.Returns.{Returns}
use graphon.Dict
use graphon.Dict.{Dict}
use graphon.Graph.{Graph, States}
use graphon.Pool.{VariablePool}
use graphon.Response.{ResponseSession, ResponseOps}
use graphon.Response.Flush.{Coordinator}
use graphon.Response.Flush.Sessions.{IsKnown, IsReadable}
use graphon.Response.Flush.Settled.{IsReady, IsSettled, try_flush-Returns}
use graphon.Response.Flush.Kept.{
  ids_of, queue_of, stays-IsEndOf, queue_of-queued, queue_of-begun, Registered, try_flush-Kept,
}
use graphon.Response.Events.Removal.{remove-shorter, remove-All, remove-absent}
use graphon.Response.Events.Settling.{IsUntouched, flushed_trans}
use graphon.Response.Events.{
  take_edge, active_or_queue_session, start_or_queue, take_session, reach,
}

-- The sessions that have not begun are of the graph's nodes, and with the waiting ones fewer than
-- the depth of recursion.
pub record IsAble {V : Type 0} (graph : Graph V) (depth : ℕ) (c : Coordinator) : Type 0 where
  pub ready : IsReady graph c
  pub pending_known : All (IsKnown graph) (Dict.values c.response_sessions)
  pub room : length c.waiting_sessions + length c.response_sessions < depth

-- The sessions that have not begun once the node's is taken, if the node is reachable.
abbrev pub sessions_left : Bool → Dict ResponseSession → String → Dict ResponseSession
sessions_left true sessions node_id = Dict.remove sessions node_id
sessions_left false sessions node_id = sessions

-- Whether the edge makes the node reachable, and the paths that are left.
abbrev pub is_reached : String → Option (List (List String)) → Bool
is_reached edge_id none = false
is_reached edge_id (some paths) = (take_edge edge_id paths).1

-- The session that joins the queue, if the node is reachable.
abbrev pub joining : Bool → Option ResponseSession → List String
joining true session = ids_of session
joining false session = []

abbrev pub taken_from : String → Option (List (List String)) → Option (List (List String))
taken_from edge_id none = none
taken_from edge_id (some paths) = some (take_edge edge_id paths).0

abbrev pub paths_left :
    String
    → String
    → Option (List (List String))
    → Dict (List (List String))
    → Dict (List (List String))
paths_left edge_id node_id none d = d
paths_left edge_id node_id (some paths) d = Dict.put d node_id (take_edge edge_id paths).0

module _ {V : Type 0} (ops : ResponseOps V) (graph : Graph V) (states : States)
    (pool : VariablePool V) (depth : ℕ) where
  abbrev pub After :
      List String
      → Dict (List (List String))
      → Dict ResponseSession
      → List String
      → Coordinator
      → Coordinator
      → Type 0
  After nodes paths sessions queue before c =
      IsAble graph depth c
      × Registered nodes paths sessions queue c
      × (IsUntouched before c ⊎ IsSettled ops graph states pool c)

  start-After :
      (session : ResponseSession) (sessions : Dict ResponseSession) (c : Coordinator)
      (active : Option ResponseSession)
      → IsReadable ops pool
      → c.active_session ≡ active
      → IsKnown graph session
      → IsReady graph c
      → All (IsKnown graph) (Dict.values c.response_sessions)
      → length c.waiting_sessions + suc (length c.response_sessions) < depth
      → c.response_sessions ≡ sessions
      → Returns
          (start_or_queue ops graph states pool depth session active)
          c
          (λ _. After c.response_nodes c.paths_maps sessions (queue_of c ++ session.node_id ∷ []) c)
  unfolding ◌>>=◌
  start-After session sessions c none readable is_active known ready pending room same =
      let c' : Coordinator = record c { active_session = some session } in
      let begun : IsReady graph c' = record {
        active_known = λ t e. subst (IsKnown graph) (ap (λ o. Dict.or_else o session) e) known;
        waiting_known = ready.waiting_known;
        none_waits = λ e. absurd (let clash : some session ≡ none = e in cc);
      } in
      let done =
        try_flush-Returns ops graph states pool depth readable c' begun (omega (arith, room)) in
      let kept =
        (try_flush-Kept c.response_nodes c.paths_maps c.response_sessions
            (queue_of c ++ session.node_id ∷ []) ops graph states pool depth).at
          c'
          record {
            the_nodes = refl;
            the_paths = refl;
            the_sessions = refl;
            the_queue = ([], queue_of-begun session c is_active (ready.none_waits is_active));
          } in
      let (settled, ready', few) = done.after in
      record {
        value = done.value;
        is_ok = done.is_ok;
        after = (
          record {
            ready = ready';
            pending_known =
                subst (λ d. All (IsKnown graph) (Dict.values d)) (sym kept.the_sessions) pending;
            room = let size = ap length kept.the_sessions in omega (arith, size, few, room);
          },
          record {
            the_nodes = kept.the_nodes;
            the_paths = kept.the_paths;
            the_sessions = kept.the_sessions ∙ same;
            the_queue = kept.the_queue;
          },
          inr settled,
        );
      }
  start-After session sessions c (some s) readable is_active known ready pending room same =
      record {
        value = [];
        is_ok = refl;
        after = (
          record {
            ready = record {
              active_known = ready.active_known;
              waiting_known =
                  All-append _ c.waiting_sessions (session ∷ []) ready.waiting_known (known, tt);
              none_waits = λ e. absurd (let clash : some s ≡ none = sym is_active ∙ e in cc);
            };
            pending_known = pending;
            room = omega (arith, length-append c.waiting_sessions (session ∷ []), room);
          },
          record {
            the_nodes = refl;
            the_paths = refl;
            the_sessions = same;
            the_queue = ([], queue_of-queued session c);
          },
          inl record {
            active = refl;
            streams = refl;
            waiting = λ e. absurd (let clash : some s ≡ none = sym is_active ∙ e in cc);
          },
        );
      }

  take-After :
      (node_id : String) (c : Coordinator) (session : Option ResponseSession)
      → IsReadable ops pool
      → Dict.get c.response_sessions node_id ≡ session
      → IsAble graph depth c
      → Returns (take_session ops graph states pool depth node_id session) c (λ _.
        After c.response_nodes c.paths_maps
          (sessions_left true c.response_sessions node_id)
          (queue_of c ++ ids_of session)
          c)
  unfolding ◌>>=◌
  take-After node_id c none readable missing able = record {
    value = [];
    is_ok = refl;
    after = (
      able,
      record {
        the_nodes = refl;
        the_paths = refl;
        the_sessions = sym (remove-absent c.response_sessions node_id missing);
        the_queue = stays-IsEndOf (queue_of c);
      },
      inl record { active = refl; streams = refl; waiting = λ _. refl },
    );
  }
  take-After node_id c (some session) readable found able =
      let c' : Coordinator = record c {
        response_sessions = Dict.remove c.response_sessions node_id;
      } in
      let started =
        start-After session (Dict.remove c.response_sessions node_id) c' c.active_session readable
          refl
          (Dict.get-All (IsKnown graph) c.response_sessions node_id session able.pending_known
            found)
          record {
            active_known = able.ready.active_known;
            waiting_known = able.ready.waiting_known;
            none_waits = able.ready.none_waits;
          }
          (remove-All (IsKnown graph) c.response_sessions node_id able.pending_known)
          (omega (arith, able.room, remove-shorter c.response_sessions node_id session found))
          refl in
      let (able', registered, flushed) = started.after in
      record {
        value = started.value;
        is_ok = started.is_ok;
        after = (
          able',
          registered,
          flushed_trans ops graph states pool c c' _
              (inl record { active = refl; streams = refl; waiting = λ _. refl }) flushed,
        );
      }

  activate-After :
      (node_id : String) (c : Coordinator)
      → IsReadable ops pool
      → IsAble graph depth c
      → Returns (active_or_queue_session ops graph states pool depth node_id) c (λ _.
        After c.response_nodes c.paths_maps
          (sessions_left true c.response_sessions node_id)
          (queue_of c ++ ids_of (Dict.get c.response_sessions node_id))
          c)
  unfolding active_or_queue_session
  activate-After node_id c readable able =
      let done = take-After node_id c (Dict.get c.response_sessions node_id) readable refl able in
      record { value = done.value; is_ok = done.is_ok; after = done.after }

  pub reach-After :
      (edge_id node_id : String) (paths : Option (List (List String))) (c : Coordinator)
      → IsReadable ops pool
      → IsAble graph depth c
      → Returns (reach ops graph states pool depth edge_id node_id paths) c (λ _.
        After c.response_nodes
          (paths_left edge_id node_id paths c.paths_maps)
          (sessions_left (is_reached edge_id paths) c.response_sessions node_id)
          (queue_of c ++ joining (is_reached edge_id paths) (Dict.get c.response_sessions node_id))
          c)
  unfolding ◌>>=◌
  reach-After edge_id node_id none c readable able = record {
    value = [];
    is_ok = refl;
    after = (
      able,
      record {
        the_nodes = refl;
        the_paths = refl;
        the_sessions = refl;
        the_queue = stays-IsEndOf (queue_of c);
      },
      inl record { active = refl; streams = refl; waiting = λ _. refl },
    );
  }
  reach-After edge_id node_id (some paths) c readable able = go (take_edge edge_id paths).1
    where
      c' : Coordinator
      c' = record c { paths_maps = Dict.put c.paths_maps node_id (take_edge edge_id paths).0 }

      still_able : IsAble graph depth c'
      still_able = record {
        ready = record {
          active_known = able.ready.active_known;
          waiting_known = able.ready.waiting_known;
          none_waits = able.ready.none_waits;
        };
        pending_known = able.pending_known;
        room = able.room;
      }

      go :
          (b : Bool)
          → Returns
              (λ c.
                (if b then active_or_queue_session ops graph states pool depth node_id else pure [])
                  (record c {
                    paths_maps = Dict.put c.paths_maps node_id (take_edge edge_id paths).0;
                  }))
              c
              (λ _.
                After c.response_nodes
                  (Dict.put c.paths_maps node_id (take_edge edge_id paths).0)
                  (sessions_left b c.response_sessions node_id)
                  (queue_of c ++ joining b (Dict.get c.response_sessions node_id))
                  c)
      go true =
          let done = activate-After node_id c' readable still_able in
          let (able', registered, flushed) = done.after in
          record {
            value = done.value;
            is_ok = done.is_ok;
            after = (
              able',
              registered,
              flushed_trans ops graph states pool c c' _
                  (inl record { active = refl; streams = refl; waiting = λ _. refl }) flushed,
            );
          }
      go false = record {
        value = [];
        is_ok = refl;
        after = (
          still_able,
          record {
            the_nodes = refl;
            the_paths = refl;
            the_sessions = refl;
            the_queue = stays-IsEndOf (queue_of c);
          },
          inl record { active = refl; streams = refl; waiting = λ _. refl },
        );
      }
