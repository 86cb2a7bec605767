-- ===== src/Runtime/Advance/Outcome.antt =====
-- `applyEvent` makes a step exactly where the machine has a transition, and never writes to the store.
use fsm_go.Prelude.{
  ℕ, suc, String, ◌≡◌, refl, ap, subst, inl, inr, none, some, [], ◌∷◌, Bool-cases, Option-cases,
}
use fsm_go.Dict.{lookup}
use fsm_go.Errors.{ok, err, invalid_transition}
use fsm_go.Types.{
  Any, AnyMap, Time, clone_map, HistoryType, Transition, WorkflowInstance, ExecutionHistory,
}
use fsm_go.World.{Env, World, id_at, entry_of, input_of, next_reading}
use fsm_go.Compiler.{Machine, transition_key}
use fsm_go.Runtime.Base.{Runtime, find_machine}
use fsm_go.Runtime.Advance.{
  Advance, advanced, is_completed, schedule_state_tasks, follow, apply_event,
}
use fsm_go.Runtime.Advance.Steps.{
  IsStep, after_two, advanced-IsMoved, AreScheduled, state_at, types_of, repeat,
  schedule_all-AreScheduled,
}

module _ ⦃env : Env⦄ {S : Type 0} (r : Runtime S) (m : Machine) (i : WorkflowInstance)
    (e : String) where
  abbrev changed_in : Transition → Time → World S → ExecutionHistory
  changed_in t now w =
      entry_of
        (record (input_of (advanced m i t now).id HistoryType.state_changed "流程状态已推进"
          (advanced m i t now).state now) {
            event = e;
            payload = some (("from", Any.text i.state) ∷ ("to", Any.text t.to) ∷ []);
          })
        (id_at "hist" w.readings)

  abbrev completed_in : Transition → Time → World S → ExecutionHistory
  completed_in t now w =
      entry_of
        (input_of (advanced m i t now).id HistoryType.workflow_completed "流程已完成"
          (advanced m i t now).state now)
        (id_at "hist" (suc w.readings))

  abbrev received_in : AnyMap → World S → ExecutionHistory
  received_in payload w =
      entry_of
        (record (input_of i.id HistoryType.signal_received "收到流程事件" i.state
          (env.clock w.readings)) { event = e; payload = clone_map payload })
        (id_at "hist" (suc w.readings))

  follow-IsStep :
      (t : Transition) (now : Time) (received : ExecutionHistory) (w : World S)
      → find_machine r i.workflow i.version ≡ ok m
      → lookup (transition_key i.state e) m.transitions ≡ some t
      → received.type ≡ HistoryType.signal_received
      → (step : Advance) × (n : ℕ) × (follow r m i e t now received w
          ≡ (ok step, record w { readings = n }))
        × IsStep m i e now step
  unfolding follow schedule_state_tasks
  follow-IsStep t now received w known found is_received =
      let next = advanced m i t now in
      let moved = advanced-IsMoved m i t now in
      elim (Bool-cases (is_completed next.status)) [
        | inl done ↦ (
          record {
            instance = next;
            histories = received ∷ changed_in t now w ∷ completed_in t now w ∷ [];
            tasks = [];
          },
          suc (suc w.readings),
          rw done,
          record {
            transition = t;
            found = found;
            moved = moved;
            completed = λ _. (
              refl,
              ap (λ type. type ∷ HistoryType.state_changed ∷ HistoryType.workflow_completed ∷ [])
                  is_received,
            );
            entered = λ no_end. cc;
          },
        )
        | inr more ↦
            let known' : find_machine r next.workflow next.version ≡ ok m =
              rw (moved.same_workflow, moved.same_version) known in
            let (ts, hs, n, done, are, types) =
              schedule_all-AreScheduled r m next now known' (state_at m next.state).on_enter
                (next_reading w) in
            (
              record {
                instance = next;
                histories = received ∷ changed_in t now w ∷ hs;
                tasks = ts;
              },
              n,
              rw (more, done),
              record {
                transition = t;
                found = found;
                moved = moved;
                completed = λ end. cc;
                entered = λ _.
                    let (are', types') =
                      subst
                        (λ name.
                          AreScheduled m next now (state_at m name).on_enter ts
                          × (types_of hs
                              ≡ repeat HistoryType.task_scheduled (state_at m name).on_enter))
                        moved.state (are, types) in
                    (are', cc (is_received, types'));
              },
            )
      ]

  -- With a registered machine that has a transition for the state and the event, `applyEvent` succeeds
  -- with a step of the relation, dated by the clock's reading, and the store is as it was.
  pub apply_event-IsStep :
      (payload : AnyMap) (t : Transition) (w : World S)
      → find_machine r i.workflow i.version ≡ ok m
      → lookup (transition_key i.state e) m.transitions ≡ some t
      → (step : Advance) × (n : ℕ) × (apply_event r m i e payload w
          ≡ (ok step, record w { readings = n }))
        × IsStep m i e (env.clock w.readings) step
  unfolding apply_event
  apply_event-IsStep payload t w known found =
      rw (found, apply_event)
        (follow-IsStep t (env.clock w.readings) (received_in payload w) (after_two w) known found
          refl)

  -- Without one it fails with the error that names the state and the event, and the store is as it was.
  pub apply_event_refused :
      (payload : AnyMap) (w : World S)
      → lookup (transition_key i.state e) m.transitions ≡ none
      → apply_event r m i e payload w ≡ (err (invalid_transition i.state e), after_two w)
  unfolding apply_event
  apply_event_refused payload w missing = rw (missing, apply_event)

  pub store-apply_event :
      (payload : AnyMap) (w : World S)
      → find_machine r i.workflow i.version ≡ ok m
      → (apply_event r m i e payload w).1.store ≡ w.store
  store-apply_event payload w known =
      elim (Option-cases (lookup (transition_key i.state e) m.transitions)) [
        | inl missing ↦ rw (apply_event_refused payload w missing)
        | inr (t, found) ↦
            let (step, n, done, _) = apply_event-IsStep payload t w known found in rw done
      ]
