-- ===== src/Runtime/Finish/Success.antt =====
-- What `finishTask` writes over the memory store when a task succeeds with an event.
use fsm_go.Prelude.{ℕ, suc, ◌≡◌, refl, false, none, some, List, [], ◌∷◌, ◌++◌, ◌==◌, eq_ℤ}
use fsm_go.Dict.{Dict, lookup}
use fsm_go.Errors.{ok, err, concurrent_update}
use fsm_go.Types.{
  Time, clone_map, TaskStatus, HistoryType, TaskDefinition, Transition, WorkflowInstance,
  TaskExecution, ExecutionHistory, TaskResult, UpdateInstanceRequest,
}
use fsm_go.World.{Env, World, entry_of, input_of, id_at}
use fsm_go.Compiler.{Machine, transition_key}
use fsm_go.Memory.{MemoryStore, ScanOrder, clone_task, complete_task, update_instance}
use fsm_go.Runtime.Base.{TaskHandler, find_machine}
use fsm_go.Runtime.Advance.{Advance, apply_event}
use fsm_go.Runtime.Advance.Steps.{IsStep}
use fsm_go.Runtime.Advance.Outcome.{apply_event-IsStep}
use fsm_go.Runtime.Commands.Memory.{runtime_on, updated, update_found}
use fsm_go.Runtime.Finish.{
  task_entry, advance_and_complete, finish_succeeded, finish_task, success_event,
}
use fsm_go.Runtime.Finish.Endings.{ended_with, IsEnded}

-- the update that a success asks for
abbrev pub success_request :
    WorkflowInstance → List ExecutionHistory → TaskResult → Advance → UpdateInstanceRequest
success_request i histories result step = record {
  instance = step.instance;
  expected_revision = i.revision;
  history = histories ++ step.histories;
  tasks = step.tasks;
  outbox = result.outbox;
}

module _ ⦃env : Env⦄ (order : ScanOrder) (ms : Dict Machine) (hs : Dict (TaskHandler MemoryStore))
    (i : WorkflowInstance) (def : TaskDefinition) (now : Time) (task : TaskExecution)
    (start : List ExecutionHistory) (w : World MemoryStore) (result : TaskResult) (m : Machine)
    (t : Transition) (current : WorkflowInstance)
    (known : find_machine (runtime_on order ms hs) i.workflow i.version ≡ ok m)
    (fires : (success_event def (some result) == "") ≡ false)
    (found : lookup (transition_key i.state (success_event def (some result))) m.transitions
      ≡ some t)
    (stored : lookup i.id w.store.instances ≡ some current) where
  abbrev done : TaskExecution
  done = record task {
    updated_at = now;
    output = clone_map result.output;
    status = TaskStatus.succeeded;
  }

  abbrev entry : ExecutionHistory
  entry =
      entry_of
        (record (input_of i.id HistoryType.task_succeeded "任务执行成功" i.state now) {
          task_id = task.id;
          task = task.task;
          payload = done.output;
        })
        (id_at "hist" w.readings)

  -- the step that the event makes after the entry is drawn
  stepped :
      (step : Advance) × (n : ℕ) × (apply_event
          (runtime_on order ms hs)
          m
          i
          (success_event def (some result))
          result.output
          (record w { readings = suc w.readings })
        ≡ (ok step, record w { readings = n }))
      × IsStep m i (success_event def (some result)) (env.clock (suc w.readings)) step
  stepped =
      apply_event-IsStep (runtime_on order ms hs) m i (success_event def (some result))
        result.output t (record w { readings = suc w.readings }) known found

  -- Over the memory store, a task that succeeds with an event for which the registered machine has a
  -- transition, while the instance is stored at the revision that was read, writes the step of the
  -- instance along that transition, with the entries, the new tasks and the result's messages, and the
  -- task as succeeded.
  pub success_advances :
      current.revision ≡ i.revision
      → (step : Advance) × (ended : TaskExecution) × (h : ExecutionHistory) × (n : ℕ) × (finish_task
            (runtime_on order ms hs)
            i
            def
            now
            task
            TaskStatus.succeeded
            (some result)
            none
            start
            w
          ≡ (
            ok TaskStatus.succeeded,
            record {
              store =
                  ended_with ended [] [] []
                    (updated (success_request i (start ++ h ∷ []) result step) w.store);
              readings = n;
            },
          ))
        × IsEnded task TaskStatus.succeeded now ended
        × (h.type ≡ HistoryType.task_succeeded)
        × IsStep m i (success_event def (some result)) (env.clock (suc w.readings)) step
  unfolding finish_task finish_succeeded task_entry advance_and_complete complete_task
  success_advances same =
      let (step, n, run, is_step) = stepped in
      let there : lookup step.instance.id w.store.instances ≡ some current =
        rw is_step.moved.same_id stored in
      (
        step,
        clone_task done,
        entry,
        n,
        rw (
          fires,
          known,
          run,
          update_found (success_request i (start ++ entry ∷ []) result step) w.store current there
              same,
        ),
        (refl, refl, refl, refl, refl),
        refl,
        is_step,
      )

  -- Over the memory store, if a task succeeds with an event for which the registered machine has a
  -- transition, but the stored instance has another revision than the one that was read, the success is
  -- lost: the call fails with ErrConcurrentUpdate and writes nothing, so that the task stays as it was.
  pub stale_success_fails :
      eq_ℤ current.revision i.revision ≡ false
      → (n : ℕ) × (finish_task
            (runtime_on order ms hs)
            i
            def
            now
            task
            TaskStatus.succeeded
            (some result)
            none
            start
            w
          ≡ (err (concurrent_update i.id), record w { readings = n }))
  unfolding finish_task finish_succeeded task_entry advance_and_complete update_instance
  stale_success_fails stale =
      let (step, n, run, is_step) = stepped in
      let there : lookup step.instance.id w.store.instances ≡ some current =
        rw is_step.moved.same_id stored in
      (n, rw (fires, known, run, there, update_instance, stale, is_step.moved.same_id))
