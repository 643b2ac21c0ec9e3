-- ===== src/Response/Flush/Settled.antt =====
-- response_coordinator/coordinator.py: try_flush over all sessions, and what it leaves behind.
use graphon.Prelude.{
  ℕ, zero, suc, ◌≤◌, ◌<◌, ◌≡◌, refl, inl, inr, true, false, Option, none, some, List, [], ◌∷◌,
  length, leb, All, ap, arith, ◌==◌, eq_refl, if◌then◌else◌, ◌∙◌, sym, subst,
}
use graphon.Exec.{ok, pure}
use graphon.Exec.Returns.{
  Returns, Returns-pure, Returns-same, Returns-map, Returns-bind, Returns-after_known,
}
use graphon.Dict
use graphon.Graph.{Graph, States}
use graphon.Pool.{VariablePool}
use graphon.Response.{StreamChunk, ResponseSession, is_complete, drop, ResponseOps}
use graphon.Response.Flush.{
  Coordinator, Method, remaining, is_active_complete, end_session, ends, begin_next, flush_active,
  try_flush,
}
use graphon.Response.Flush.Sessions.{Stands, IsKnown, IsReadable, Stuck}
use graphon.Response.Flush.Rounds.{flush_segments-Returns}

-- Before a segment the template is not complete.
drop-more :
    {A : Type 0} (n : ℕ) (xs : List A) (x : A) (rest : List A)
    → drop n xs ≡ x ∷ rest
    → leb (length xs) n ≡ false
drop-more zero [] x rest h = cc
drop-more zero (y ∷ xs) x rest h = ground arith
drop-more (suc n) [] x rest h = cc
drop-more (suc n) (y ∷ xs) x rest h = ground (arith, drop-more n xs x rest h)

module _ {V : Type 0} (graph : Graph V) where
  pub record IsReady (c : Coordinator) : Type 0 where
    pub active_known : (s : ResponseSession) → c.active_session ≡ some s → IsKnown graph s
    pub waiting_known : All (IsKnown graph) c.waiting_sessions
    pub none_waits : c.active_session ≡ none → c.waiting_sessions ≡ []

module _ {V : Type 0} (ops : ResponseOps V) (graph : Graph V) (states : States)
    (pool : VariablePool V) where
  pub data IsSettled (c : Coordinator) : Type 0 where
    idle : c.active_session ≡ none → c.waiting_sessions ≡ [] → IsSettled c
    stuck :
        (s : ResponseSession)
        → c.active_session ≡ some s
        → Stuck ops graph states pool s c
        → IsSettled c

  -- What a flush leaves behind; at most `n` sessions wait.
  abbrev pub Done : ℕ → Coordinator → Type 0
  Done n c = IsSettled c × IsReady graph c × (length c.waiting_sessions ≤ n)

  same_node-IsKnown :
      (s session : ResponseSession)
      → session.node_id ≡ s.node_id
      → IsKnown graph s
      → IsKnown graph session
  same_node-IsKnown s session same (node, found, id) =
      (node, ap (Dict.get graph.nodes) same ∙ found, id ∙ sym same)

  Stuck-Done :
      (s : ResponseSession) (ws : List ResponseSession) (c : Coordinator)
      → IsKnown graph s
      → All (IsKnown graph) ws
      → Stands (some s) ws c
      → Stuck ops graph states pool s c
      → Done (length ws) c
  Stuck-Done s ws c known waiting h is_stuck = (
    stuck s h.is_active is_stuck,
    record {
      active_known = λ t e.
          rw (let same : s ≡ t = ap (λ o. Dict.or_else o s) (sym h.is_active ∙ e) in sym same)
            known;
      waiting_known = rw h.is_waiting waiting;
      none_waits = λ e. absurd (let clash : some s ≡ none = sym h.is_active ∙ e in cc);
    },
    rw h.is_waiting (omega arith),
  )

  idle-Done :
      (n : ℕ) (c : Coordinator) → c.active_session ≡ none → c.waiting_sessions ≡ [] → Done n c
  idle-Done n c e nothing = (
    idle e nothing,
    record {
      active_known = λ s h. absurd (let clash : none ≡ some s = sym e ∙ h in cc);
      waiting_known = rw nothing tt;
      none_waits = λ _. nothing;
    },
    rw nothing (omega arith),
  )

  -- The end of a session, where `flush` starts the next.
  begin-Returns :
      (flush : Method (List StreamChunk)) (n : ℕ) (ws : List ResponseSession) (c : Coordinator)
      → ((next : ResponseSession) (later : List ResponseSession) (c' : Coordinator)
          → ws ≡ next ∷ later
          → Stands (some next) later c'
          → Returns flush c' (λ _. Done n))
      → c.waiting_sessions ≡ ws
      → Returns (begin_next flush ws) c (λ _. Done n)
  begin-Returns flush n [] c go h = record {
    value = [];
    is_ok = refl;
    after = idle-Done n (record c { active_session = none }) refl h;
  }
  begin-Returns flush n (next ∷ later) c go h =
      let c' : Coordinator = record c { active_session = some next; waiting_sessions = later } in
      let done = go next later c' refl record { is_active = refl; is_waiting = refl } in
      record { value = done.value; is_ok = done.is_ok; after = done.after }

  abbrev pub Recurs : ℕ → Type 0
  Recurs depth =
      (c : Coordinator)
      → IsReady graph c
      → length c.waiting_sessions < depth
      → Returns (try_flush ops graph states pool depth) c (λ _. Done (length c.waiting_sessions))

  -- The flush goes on in the session that is started next.
  end_session-Returns :
      (depth : ℕ) (s session : ResponseSession) (ws : List ResponseSession) (c : Coordinator)
      → Recurs depth
      → All (IsKnown graph) ws
      → session.node_id ≡ s.node_id
      → Stands (some session) ws c
      → length ws < suc depth
      → Returns
          (end_session (try_flush ops graph states pool depth) s.node_id)
          c
          (λ _. Done (length ws))
  unfolding end_session
  end_session-Returns depth s session ws c flush waiting same h enough =
      let ends_here : ends c.active_session s.node_id ≡ true =
        ap (λ o. ends o s.node_id) h.is_active
        ∙ (ap (λ n. n == s.node_id) same ∙ eq_refl s.node_id) in
      let done =
        begin-Returns (try_flush ops graph states pool depth) (length ws) ws c
          (λ next later c' is_next now.
            let known : All (IsKnown graph) (next ∷ later) =
              subst (All (IsKnown graph)) is_next waiting in
            let shorter : length ws ≡ suc (length later) = ap length is_next in
            Returns-map _ c'
              (flush c'
                (record {
                  active_known = λ t e.
                      subst (IsKnown graph) (ap (λ o. Dict.or_else o next) (sym now.is_active ∙ e))
                        known.0;
                  waiting_known = rw now.is_waiting known.1;
                  none_waits =
                      λ e. absurd (let clash : some next ≡ none = sym now.is_active ∙ e in cc);
                })
                (rw now.is_waiting (omega arith)))
              λ _ c'' (settled, ready, few). (
                settled,
                ready,
                (let fewer : length c''.waiting_sessions ≤ length later =
                      rw now.is_waiting at few in
                    omega arith),
              ))
          h.is_waiting in
      Returns-same _ _ c
        (ap
            (λ b.
              if b
              then begin_next (try_flush ops graph states pool depth) c.waiting_sessions c
              else pure [] c)
            ends_here
          ∙ ap (λ later. begin_next (try_flush ops graph states pool depth) later c) h.is_waiting)
        done

  -- The flush of an active session.
  active-Returns :
      (depth : ℕ) (s : ResponseSession) (ws : List ResponseSession) (c : Coordinator)
      → Recurs depth
      → IsReadable ops pool
      → IsKnown graph s
      → All (IsKnown graph) ws
      → Stands (some s) ws c
      → length ws < suc depth
      → Returns
          (flush_active ops graph states pool (try_flush ops graph states pool depth) (some s))
          c
          (λ _. Done (length ws))
  unfolding is_complete
  active-Returns depth s ws c flush readable known waiting h enough =
      Returns-bind _ _ c
        (flush_segments-Returns ops graph states pool (remaining s) s ws c readable known refl h)
        λ events c' f. elim f.at_end [
          | inl complete ↦
              Returns-after_known _ c' _ true (ap is_active_complete f.stands.is_active ∙ complete)
                (Returns-bind _ _ c'
                  (end_session-Returns depth s f.session ws c' flush waiting f.same_node f.stands
                    enough)
                  λ more c'' done. Returns-pure _ c'' done)
          | inr is_stuck ↦
              Returns-after_known _ c' _ false
                (ap is_active_complete f.stands.is_active
                  ∙ drop-more f.session.index f.session.template _ _ is_stuck.at_variable)
                (Returns-pure _ c' (
                  Stuck-Done f.session ws c' (same_node-IsKnown s f.session f.same_node known)
                    waiting f.stands is_stuck))
        ]

  pub try_flush-Returns : (depth : ℕ) → IsReadable ops pool → Recurs depth
  unfolding try_flush
  try_flush-Returns zero readable c ready h = absurd (omega arith)
  try_flush-Returns (suc depth) readable c ready h =
      let done = go (try_flush-Returns depth readable) c.active_session refl in
      record { value = done.value; is_ok = done.is_ok; after = done.after }
    where
      go :
          Recurs depth
          → (active : Option ResponseSession) → c.active_session ≡ active
          → Returns
              (flush_active ops graph states pool (try_flush ops graph states pool depth) active)
              c
              (λ _. Done (length c.waiting_sessions))
      go flush none e = Returns-pure [] c (idle-Done _ c e (ready.none_waits e))
      go flush (some s) e =
          active-Returns depth s c.waiting_sessions c flush readable (ready.active_known s e)
            ready.waiting_known record { is_active = e; is_waiting = refl } h

  -- Whenever the sessions are of the graph's nodes, none waits without an active one, no lookup in
  -- the pool raises, and the recursion depth exceeds the number of waiting sessions, try_flush
  -- returns. Then either no session is active or waiting, or the active session stands at a
  -- variable whose source node is not skipped, whose stream is open and read to its end, and that
  -- has no value in the pool.
  pub try_flush-IsSettled :
      (depth : ℕ) (c : Coordinator)
      → IsReadable ops pool
      → IsReady graph c
      → length c.waiting_sessions < depth
      → (events : List StreamChunk) × ((try_flush ops graph states pool depth c).0 ≡ ok events)
        × IsSettled (try_flush ops graph states pool depth c).1
  try_flush-IsSettled depth c readable ready enough =
      let done = try_flush-Returns depth readable c ready enough in
      (done.value, done.is_ok, done.after.0)
