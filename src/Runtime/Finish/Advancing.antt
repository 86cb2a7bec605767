-- ===== src/Runtime/Finish/Advancing.antt =====
-- The tasks that the events and compensations of `finishTask` in workflow/runtime.go add are within their limits.
use fsm_go.Prelude.{
  String, ◌≡◌, subst, true, false, List, [], ◌∷◌, ◌++◌, ◌==◌, is_some, All, All-append, Bool-cases,
  Option-cases, inl, inr, if◌then◌else◌,
}
use fsm_go.Dict.{Dict, lookup}
use fsm_go.Errors.{Result-cases, ok}
use fsm_go.Types.{
  AnyMap, Time, TaskStatus, TaskDefinition, WorkflowInstance, TaskExecution, ExecutionHistory,
  OutboxMessage, UpdateInstanceRequest,
}
use fsm_go.World.{Env, World}
use fsm_go.Compiler.{Machine, transition_key}
use fsm_go.Compiler.WellFormed.{IsWellFormed}
use fsm_go.Memory.{MemoryStore, ScanOrder, complete_task, update_instance}
use fsm_go.Runtime.Base.{TaskHandler, find_machine}
use fsm_go.Runtime.Advance.Outcome.{apply_event-IsStep, apply_event_refused}
use fsm_go.Runtime.Advance.Closed.{IsRunnable, All-IsRunnable, step-IsRunnable}
use fsm_go.Runtime.Commands.Memory.{runtime_on}
use fsm_go.Runtime.Finish.{advance_and_complete}
use fsm_go.Runtime.Finish.Endings.{compensations}
use fsm_go.Runtime.Advance.Steps.{AreScheduled}
use fsm_go.Memory.Attempts.{IsWithin, AreWithin, update_within, complete_within}

runnable-IsWithin :
    (m : Machine) (ts : List TaskExecution) → All (IsRunnable m) ts → All IsWithin ts
runnable-IsWithin m [] h = tt
runnable-IsWithin m (t ∷ ts) (h, hs) = (h.1, runnable-IsWithin m ts hs)

module _ ⦃env : Env⦄ (order : ScanOrder) (ms : Dict Machine) (hs : Dict (TaskHandler MemoryStore))
    (i : WorkflowInstance) (def : TaskDefinition) (now : Time) (m : Machine)
    (known : find_machine (runtime_on order ms hs) i.workflow i.version ≡ ok m)
    (well : IsWellFormed m) where
  pub advance_within :
      (status : TaskStatus) (task : TaskExecution) (event : String) (payload : AnyMap)
      (es : List ExecutionHistory) (next : List TaskExecution) (out : List OutboxMessage)
      (w : World MemoryStore)
      → IsWithin task
      → All IsWithin next
      → AreWithin w.store
      → AreWithin
          (advance_and_complete
            (runtime_on order ms hs)
            i
            def
            now
            status
            task
            event
            payload
            es
            next
            out
            w).1.store
  unfolding advance_and_complete complete_task
  advance_within status task event payload es next out w here rest all =
      elim (Option-cases (lookup (transition_key i.state event) m.transitions)) [
        | inl missing ↦
            rw
              (
                advance_and_complete,
                known,
                apply_event_refused (runtime_on order ms hs) m i event payload w missing,
              )
              all
        | inr (t, found) ↦
            let (step, n, run, is_step) =
              apply_event-IsStep (runtime_on order ms hs) m i event payload t w known found in
            let tasks : All IsWithin (next ++ step.tasks) =
              All-append IsWithin next step.tasks rest (
                runnable-IsWithin m step.tasks
                  (step-IsRunnable m well i event (env.clock w.readings) step is_step)) in
            let req : UpdateInstanceRequest = record {
              instance = step.instance;
              expected_revision = i.revision;
              history = es ++ step.histories;
              tasks = next ++ step.tasks;
              outbox = out;
            } in
            let updated = update_within req w.store tasks all in
            elim (Result-cases (update_instance req w.store).0) [
              | inl (u, done) ↦
                  rw (advance_and_complete, known, run, done)
                    (complete_within task [] [] [] (update_instance req w.store).1 here tt updated)
              | inr (e, failed) ↦ rw (advance_and_complete, known, run, failed) updated
            ]
      ]

  -- the tasks of a compensation
  pub compensations-IsWithin :
      (cs : List TaskExecution)
      → ((def.compensation == "") ≡ false → is_some (lookup def.compensation m.tasks) ≡ true)
      → AreScheduled m i now (compensations def) cs
      → All IsWithin cs
  compensations-IsWithin cs declared scheduled = elim (Bool-cases (def.compensation == "")) [
    | inl unset ↦ runnable-IsWithin m cs (
        All-IsRunnable m well i now [] cs tt (
          subst (λ b. AreScheduled m i now (if b then [] else def.compensation ∷ []) cs) unset
            scheduled))
    | inr set ↦ runnable-IsWithin m cs (
        All-IsRunnable m well i now (def.compensation ∷ []) cs (declared set, tt)
          (subst (λ b. AreScheduled m i now (if b then [] else def.compensation ∷ []) cs) set
            scheduled))
  ]
