-- ===== src/Runtime/Finish/Attempts.antt =====
-- `finishTask` never writes a task past its last attempt.
use fsm_go.Prelude.{
  suc, ℤ, pos, ltb_ℤ, inc-within, max_int64, ◌≤ℤ◌, ◌<ℤ◌, ◌≡◌, true, false, Option, none, some, List,
  [], arith, ◌==◌, is_some, Bool-cases, inl, inr, if◌then◌else◌,
}
use fsm_go.Dict.{Dict, lookup}
use fsm_go.Errors.{Error, ok}
use fsm_go.Types.{
  Time, TaskStatus, TaskDefinition, WorkflowInstance, TaskExecution, ExecutionHistory,
  OutboxMessage, TaskResult,
}
use fsm_go.World.{Env, World}
use fsm_go.Compiler.{Machine}
use fsm_go.Compiler.WellFormed.{IsWellFormed}
use fsm_go.Memory.{MemoryStore, ScanOrder, complete_task}
use fsm_go.Runtime.Base.{TaskHandler, find_machine}
use fsm_go.Runtime.Commands.Memory.{runtime_on}
use fsm_go.Runtime.Finish.{
  success_event, outbox_of, payload_of, output_of, with_error, task_entry, finish_succeeded,
  finish_failed, finish_retrying, finish_timed_out, retried, finish_task,
}
use fsm_go.Runtime.Finish.Endings.{compensate_lem}
use fsm_go.Memory.Attempts.{IsWithin, AreWithin, complete_within}
use fsm_go.Runtime.Finish.Advancing.{advance_within, compensations-IsWithin}

below : (a b : ℤ) → ltb_ℤ a b ≡ true → a <ℤ b
below a b h = ground arith

module _ ⦃env : Env⦄ (order : ScanOrder) (ms : Dict Machine) (hs : Dict (TaskHandler MemoryStore))
    (i : WorkflowInstance) (def : TaskDefinition) (now : Time) (m : Machine)
    (known : find_machine (runtime_on order ms hs) i.workflow i.version ≡ ok m)
    (well : IsWellFormed m) where
  succeeded_within :
      (task : TaskExecution) (result : Option TaskResult) (es : List ExecutionHistory)
      (w : World MemoryStore)
      → IsWithin task
      → AreWithin w.store
      → AreWithin (finish_succeeded (runtime_on order ms hs) i def now task result es w).1.store
  unfolding finish_succeeded task_entry complete_task
  succeeded_within task result es w here all = elim (Bool-cases (success_event def result == "")) [
    | inl silent ↦
        rw (finish_succeeded, silent)
          (complete_within (record task { status = TaskStatus.succeeded }) [] [] (outbox_of result)
            w.store here tt all)
    | inr fires ↦
        rw (finish_succeeded, fires)
          (advance_within order ms hs i def now m known well TaskStatus.succeeded
            (record task { status = TaskStatus.succeeded }) (success_event def result)
            (payload_of result) _ [] (outbox_of result) (record w { readings = suc w.readings })
            here tt all)
  ]

  failed_within :
      (task : TaskExecution) (out : List OutboxMessage) (es : List ExecutionHistory)
      (w : World MemoryStore)
      → ((def.compensation == "") ≡ false → is_some (lookup def.compensation m.tasks) ≡ true)
      → IsWithin task
      → AreWithin w.store
      → AreWithin (finish_failed (runtime_on order ms hs) i def now task out es w).1.store
  unfolding finish_failed task_entry complete_task
  failed_within task out es w declared here all =
      let (cs, hs', n, run, scheduled, _) =
        compensate_lem order ms hs i def now m (record w { readings = suc w.readings }) known in
      let within =
        compensations-IsWithin order ms hs i def now m known well cs declared scheduled in
      elim (Bool-cases (def.on_failure == "")) [
        | inl silent ↦
            rw (finish_failed, run, silent)
              (complete_within (record task { status = TaskStatus.failed }) [] cs out w.store here
                within all)
        | inr fires ↦
            rw (finish_failed, run, fires)
              (advance_within order ms hs i def now m known well TaskStatus.failed
                (record task { status = TaskStatus.failed }) def.on_failure _ _ cs out
                (record w { readings = n }) here within all)
      ]

  retried_within :
      (task : TaskExecution) (es : List ExecutionHistory) (w : World MemoryStore)
      → task.attempt <ℤ task.max_attempts
      → task.max_attempts ≤ℤ pos max_int64
      → AreWithin w.store
      → AreWithin (finish_retrying (runtime_on order ms hs) i def now task es w).1.store
  unfolding finish_retrying task_entry complete_task retried
  retried_within task es w more fits all =
      complete_within (retried def now task) [] [] [] w.store
        (inc-within task.attempt task.max_attempts more fits).1 tt all

  failing_within :
      (task : TaskExecution) (out : List OutboxMessage) (es : List ExecutionHistory)
      (w : World MemoryStore)
      → ((def.compensation == "") ≡ false → is_some (lookup def.compensation m.tasks) ≡ true)
      → task.max_attempts ≤ℤ pos max_int64
      → IsWithin task
      → AreWithin w.store
      → AreWithin
          ((if ltb_ℤ task.attempt task.max_attempts
              then finish_retrying (runtime_on order ms hs) i def now task es
              else finish_failed (runtime_on order ms hs) i def now task out es)
            w).1.store
  failing_within task out es w declared fits here all =
      elim (Bool-cases (ltb_ℤ task.attempt task.max_attempts)) [
        | inl more ↦
            rw more (retried_within task es w (below task.attempt task.max_attempts more) fits all)
        | inr spent ↦ rw spent (failed_within task out es w declared here all)
      ]

  erring_within :
      (e : Option Error) (task : TaskExecution) (out : List OutboxMessage)
      (es : List ExecutionHistory) (w : World MemoryStore)
      → ((def.compensation == "") ≡ false → is_some (lookup def.compensation m.tasks) ≡ true)
      → task.max_attempts ≤ℤ pos max_int64
      → IsWithin task
      → AreWithin w.store
      → AreWithin
          ((if ltb_ℤ (with_error e task).attempt (with_error e task).max_attempts
              then finish_retrying (runtime_on order ms hs) i def now (with_error e task) es
              else finish_failed (runtime_on order ms hs) i def now (with_error e task) out es)
            w).1.store
  erring_within none task out es w declared fits here all =
      failing_within task out es w declared fits here all
  erring_within (some e) task out es w declared fits here all =
      failing_within (with_error (some e) task) out es w declared fits here all

  -- Over the memory store, and whatever its result: when `finishTask` ends a task of a well-formed machine
  -- that is registered, at an attempt within the task's limit, which an int64 holds, and all tasks that are
  -- stored are within theirs, then so are all tasks that are stored afterwards, new ones included, whether
  -- the call fails or not.
  pub attempts_within :
      (task : TaskExecution) (status : TaskStatus) (result : Option TaskResult) (e : Option Error)
      (es : List ExecutionHistory) (w : World MemoryStore)
      → ((def.compensation == "") ≡ false → is_some (lookup def.compensation m.tasks) ≡ true)
      → task.max_attempts ≤ℤ pos max_int64
      → IsWithin task
      → AreWithin w.store
      → AreWithin (finish_task (runtime_on order ms hs) i def now task status result e es w).1.store
  unfolding finish_task finish_timed_out task_entry complete_task
  attempts_within task TaskStatus.succeeded result e es w declared fits here all =
      succeeded_within (record task { updated_at = now; output = output_of result }) result es w
        here all
  attempts_within task TaskStatus.timed_out result e es w declared fits here all =
      complete_within
        (record task {
          updated_at = now;
          output = output_of result;
          status = TaskStatus.timed_out;
          last_error = "task timed out";
        })
        [] [] [] w.store here tt all
  attempts_within task TaskStatus.pending result e es w declared fits here all =
      erring_within e (record task { updated_at = now; output = output_of result })
        (outbox_of result) es w declared fits here all
  attempts_within task TaskStatus.running result e es w declared fits here all =
      erring_within e (record task { updated_at = now; output = output_of result })
        (outbox_of result) es w declared fits here all
  attempts_within task TaskStatus.retrying result e es w declared fits here all =
      erring_within e (record task { updated_at = now; output = output_of result })
        (outbox_of result) es w declared fits here all
  attempts_within task TaskStatus.failed result e es w declared fits here all =
      erring_within e (record task { updated_at = now; output = output_of result })
        (outbox_of result) es w declared fits here all
