-- ===== src/Limits/Once.antt =====
-- layers/execution_limits.py: what the layer sends in the course of an execution.
use graphon.Prelude.{
  ℕ, suc, ◌+◌, ◌<◌, String, ◌≡◌, refl, ap, ◌∙◌, ◌⊎◌, inl, inr, Bool, true, false, some, List, [],
  ◌∷◌, lt→ltb, arith, if◌then◌else◌,
}
use graphon.Commands.{abort_command}
use graphon.Events.{EventKind, started, node_succeeded, node_failed}
use graphon.Limits.{
  LimitType, ExecutionLimitsLayer, on_graph_start, on_event, send_abort_command, check_limits,
  reached_step_limitation, match_event,
}

abbrev pub is_started : {V : Type 0} → EventKind V → Bool
is_started started = true
is_started _ = false

-- How many nodes have started.
abbrev pub started_count : {V : Type 0} → List (EventKind V × ℕ) → ℕ
started_count [] = 0
started_count ((event, now) ∷ rest) =
    let n = started_count rest in if is_started event then suc n else n

module _ {V : Type 0} (format_time : ℕ → String) where
  unfoldable pub on_events :
      List (EventKind V × ℕ) → ExecutionLimitsLayer V → ExecutionLimitsLayer V
  unfolding on_event
  on_events [] l = l
  on_events ((event, now) ∷ rest) l = on_events rest (on_event format_time event now l)

  -- One command has been sent, an abort.
  abbrev pub HasAbort : ExecutionLimitsLayer V → Type 0
  HasAbort l = (reason : String) × (l.command_channel ≡ some (abort_command (some reason) ∷ []))

  abbrev HasSent : ExecutionLimitsLayer V → Type 0
  HasSent l = (l.abort_sent ≡ true) × HasAbort l

  -- The layer watches a running execution: nothing sent yet and all started nodes counted, or
  -- one command sent.
  record IsWatching (max_steps steps : ℕ) (l : ExecutionLimitsLayer V) : Type 0 where
    limit : l.max_steps ≡ max_steps
    runs : (l.execution_started ≡ true) × (l.execution_ended ≡ false)
    sends :
        ((l.abort_sent ≡ false) × (l.command_channel ≡ some []) × (l.step_count ≡ steps))
        ⊎ ((l.abort_sent ≡ true) × HasAbort l)

  -- A command that is sent is the only one.
  send-IsWatching :
      (t : LimitType) (now max_steps steps : ℕ) (l : ExecutionLimitsLayer V)
      → IsWatching max_steps steps l
      → IsWatching max_steps steps (send_abort_command format_time t now l)
  unfolding send_abort_command
  send-IsWatching t now max_steps steps l h = elim h.sends [
    | inl (unsent, channel, counted) ↦
        simp (h.runs.0, h.runs.1, unsent, channel)
          (record { limit = h.limit; runs = (refl, refl); sends = inr (refl, (_, refl)) })
    | inr (sent, _) ↦ simp (h.runs.0, h.runs.1, sent) h
  ]

  if_holds :
      (P : ExecutionLimitsLayer V → Type 0) (b : Bool) (l l' : ExecutionLimitsLayer V)
      → P l
      → P l'
      → P (if b then l else l')
  if_holds P true l l' h h' = h
  if_holds P false l l' h h' = h'

  check_limits-IsWatching :
      (now max_steps steps : ℕ) (l : ExecutionLimitsLayer V)
      → IsWatching max_steps steps l
      → IsWatching max_steps steps (check_limits format_time now l)
  unfolding check_limits
  check_limits-IsWatching now max_steps steps l h =
      let h' =
        if_holds (IsWatching max_steps steps) (reached_step_limitation l) _ l
          (send-IsWatching LimitType.step_limit now max_steps steps l h) h in
      if_holds (IsWatching max_steps steps) _ _ _
        (send-IsWatching LimitType.time_limit now max_steps steps _ h') h'

  match_event-IsWatching :
      (event : EventKind V) (now max_steps steps : ℕ) (l : ExecutionLimitsLayer V)
      → l.abort_sent ≡ false
      → l.command_channel ≡ some []
      → l.step_count ≡ steps
      → IsWatching max_steps steps l
      → IsWatching max_steps
          (if is_started event then suc steps else steps)
          (match_event format_time event now l)
  match_event-IsWatching started now max_steps steps l unsent channel counted h = record {
    limit = h.limit;
    runs = h.runs;
    sends = inl (unsent, channel, omega (arith, counted));
  }
  match_event-IsWatching node_succeeded now max_steps steps l unsent channel counted h =
      check_limits-IsWatching now max_steps steps l h
  match_event-IsWatching (node_failed error) now max_steps steps l unsent channel counted h =
      check_limits-IsWatching now max_steps steps l h
  match_event-IsWatching _ now max_steps steps l unsent channel counted h = h

  on_event-IsWatching :
      (event : EventKind V) (now max_steps steps : ℕ) (l : ExecutionLimitsLayer V)
      → IsWatching max_steps steps l
      → IsWatching max_steps
          (if is_started event then suc steps else steps)
          (on_event format_time event now l)
  unfolding on_event
  on_event-IsWatching event now max_steps steps l h = elim h.sends [
    | inl (unsent, channel, counted) ↦
        simp (h.runs.0, h.runs.1, unsent)
          (match_event-IsWatching event now max_steps steps l unsent channel counted h)
    | inr (sent, one) ↦
        simp (h.runs.0, h.runs.1, sent)
          (record { limit = h.limit; runs = h.runs; sends = inr (sent, one) })
  ]

  steps-IsWatching :
      {max_steps steps steps' : ℕ} {l : ExecutionLimitsLayer V}
      → steps ≡ steps'
      → IsWatching max_steps steps l
      → IsWatching max_steps steps' l
  steps-IsWatching same h = rw same at h

  on_events-IsWatching :
      (events : List (EventKind V × ℕ)) (max_steps steps : ℕ) (l : ExecutionLimitsLayer V)
      → IsWatching max_steps steps l
      → IsWatching max_steps (steps + started_count events) (on_events events l)
  unfolding on_events
  on_events-IsWatching [] max_steps steps l h = steps-IsWatching (omega arith) h
  on_events-IsWatching ((event, now) ∷ rest) max_steps steps l h =
      steps-IsWatching (ground arith) (
        on_events-IsWatching rest max_steps _ _ (on_event-IsWatching event now max_steps steps l h))

  send-HasSent :
      (t : LimitType) (now max_steps steps : ℕ) (l : ExecutionLimitsLayer V)
      → IsWatching max_steps steps l
      → HasSent (send_abort_command format_time t now l)
  unfolding send_abort_command
  send-HasSent t now max_steps steps l h = elim h.sends [
    | inl (unsent, channel, _) ↦ simp (h.runs.0, h.runs.1, unsent, channel) (refl, (_, refl))
    | inr (sent, one) ↦ simp (h.runs.0, h.runs.1, sent) (refl, one)
  ]

  check_limits-HasSent :
      (now max_steps steps : ℕ) (l : ExecutionLimitsLayer V)
      → IsWatching max_steps steps l
      → reached_step_limitation l ≡ true
      → HasSent (check_limits format_time now l)
  unfolding check_limits
  check_limits-HasSent now max_steps steps l h reached =
      let h' = send-IsWatching LimitType.step_limit now max_steps steps l h in
      let sent = send-HasSent LimitType.step_limit now max_steps steps l h in
      rw reached
        (if_holds HasSent _ _ _ (send-HasSent LimitType.time_limit now max_steps steps _ h') sent)

  running_matches :
      (event : EventKind V) (now : ℕ) (l : ExecutionLimitsLayer V)
      → l.execution_started ≡ true
      → l.execution_ended ≡ false
      → l.abort_sent ≡ false
      → on_event format_time event now l ≡ match_event format_time event now l
  unfolding on_event
  running_matches event now l runs ongoing unsent = simp (runs, ongoing, unsent) refl

  sent_ignores :
      (event : EventKind V) (now : ℕ) (l : ExecutionLimitsLayer V)
      → l.abort_sent ≡ true
      → on_event format_time event now l ≡ l
  unfolding on_event
  sent_ignores event now l sent = ground (arith, sent)

  -- Once the steps exceed the limit, the next completion of a node has the abort sent.
  exceeded-HasSent :
      (max_steps steps now : ℕ) (l : ExecutionLimitsLayer V)
      → IsWatching max_steps steps l
      → max_steps < steps
      → HasSent (on_event format_time node_succeeded now l)
  unfolding reached_step_limitation
  exceeded-HasSent max_steps steps now l h over = elim h.sends [
    | inl (unsent, channel, counted) ↦
        rw (running_matches node_succeeded now l h.runs.0 h.runs.1 unsent) (
          check_limits-HasSent now max_steps steps l h
            (lt→ltb _ _ (let m = h.limit in omega (arith, counted))))
    | inr (sent, one) ↦ rw (sent_ignores node_succeeded now l sent) (sent, one)
  ]

  sent_stays :
      (events : List (EventKind V × ℕ)) (l : ExecutionLimitsLayer V)
      → l.abort_sent ≡ true
      → on_events events l ≡ l
  unfolding on_events
  sent_stays [] l sent = refl
  sent_stays ((event, now) ∷ rest) l sent =
      ap (on_events rest) (sent_ignores event now l sent) ∙ sent_stays rest l sent

  -- A layer on an empty channel, started at any time, has sent exactly one command, an abort, as
  -- soon as a node has succeeded after more nodes were started than the limit allows, whatever
  -- other events come before and after.
  pub sends_once :
      (l : ExecutionLimitsLayer V) (begin later : ℕ) (events more : List (EventKind V × ℕ))
      → l.command_channel ≡ some []
      → l.max_steps < started_count events
      → HasAbort (
          on_events more
            (on_event format_time node_succeeded later (on_events events (on_graph_start begin l))))
  unfolding on_graph_start
  sends_once l begin later events more channel over =
      let h =
        on_events-IsWatching events l.max_steps 0 (on_graph_start begin l)
          (record { limit = refl; runs = (refl, refl); sends = inl (refl, channel, refl) }) in
      let (sent, one) = exceeded-HasSent l.max_steps _ later _ h (omega arith) in
      rw
        (sent_stays more
          (on_event format_time node_succeeded later (on_events events (on_graph_start begin l)))
          sent)
        one
