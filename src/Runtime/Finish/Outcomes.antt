-- ===== src/Runtime/Finish/Outcomes.antt =====
-- What `finishTask` writes over the memory store, for each way in which a task ends without an event.
use fsm_go.Prelude.{
  ℕ, pos, suc, inc-within, max_int64, ◌<ℤ◌, ◌≤ℤ◌, String, ◌≡◌, refl, ap, true, none, some, List, [],
  ◌∷◌, ◌++◌, ◌==◌,
}
use mathlib.Core.List.{append_assoc}
use fsm_go.Dict.{Dict}
use fsm_go.Errors.{Error, ok, error_text}
use fsm_go.Types.{
  AnyMap, Time, clone_map, nil_map, TaskStatus, HistoryType, TaskDefinition, WorkflowInstance,
  TaskExecution, ExecutionHistory, TaskResult,
}
use fsm_go.World.{Env, World, entry_of, input_of, id_at}
use fsm_go.Compiler.{Machine}
use fsm_go.Memory.{MemoryStore, ScanOrder, clone_task, complete_task}
use fsm_go.Runtime.Base.{TaskHandler, find_machine}
use fsm_go.Runtime.Advance.{text_fields}
use fsm_go.Runtime.Advance.Steps.{AreScheduled, types_of}
use fsm_go.Runtime.Commands.Memory.{runtime_on}
use fsm_go.Runtime.Finish.{
  retried, task_entry, finish_retrying, finish_timed_out, finish_failed, finish_task,
}
use fsm_go.Runtime.Finish.Endings.{
  ended_with, IsEnded, IsRetry, is_below, is_spent, compensations, compensation_types,
  compensate_lem,
}

module _ ⦃env : Env⦄ (order : ScanOrder) (ms : Dict Machine) (hs : Dict (TaskHandler MemoryStore))
    (instance : WorkflowInstance) (def : TaskDefinition) (now : Time) (task : TaskExecution)
    (start : List ExecutionHistory) (w : World MemoryStore) where
  -- an entry about the task, in this world
  abbrev entry : HistoryType → String → AnyMap → ExecutionHistory
  entry type message payload =
      entry_of
        (record (input_of instance.id type message instance.state now) {
          task_id = task.id;
          task = task.task;
          payload = payload;
        })
        (id_at "hist" w.readings)

  -- Over the memory store, a task whose handler fails before its last attempt is written back as retrying,
  -- with the next attempt's number, which is within the limit, the backoff added to the time, and the error's
  -- text; one entry is appended, and the result's messages are dropped. It holds for limits that an int64
  -- holds.
  pub failed_task_retried :
      (result : TaskResult) (e : Error)
      → task.attempt <ℤ task.max_attempts
      → task.max_attempts ≤ℤ pos max_int64
      → (t : TaskExecution) × (h : ExecutionHistory) × (n : ℕ) × (finish_task
            (runtime_on order ms hs)
            instance
            def
            now
            task
            TaskStatus.failed
            (some result)
            (some e)
            start
            w
          ≡ (
            ok TaskStatus.retrying,
            record { store = ended_with t (start ++ h ∷ []) [] [] w.store; readings = n },
          ))
        × IsRetry def task now e t
        × (h.type ≡ HistoryType.task_retrying)
  unfolding finish_task finish_retrying retried task_entry complete_task
  failed_task_retried result e more fits =
      let t = retried def now (record task {
        updated_at = now;
        output = clone_map result.output;
        last_error = error_text e;
      }) in
      let (one, within) = inc-within task.attempt task.max_attempts more fits in
      (
        clone_task t,
        entry HistoryType.task_retrying "任务失败，等待重试" (text_fields "error" t.last_error),
        suc w.readings,
        rw (is_below task.attempt task.max_attempts more),
        record {
          same_id = refl;
          status = refl;
          attempt = one;
          within = within;
          same_limit = refl;
          next_run = refl;
          last_error = refl;
        },
        refl,
      )

  -- Over the memory store, a task of a registered machine whose handler fails on its last attempt, and
  -- which declares no event for it, is written as failed at the same attempt; its compensation, if it
  -- declares one, is scheduled as a new pending task beside it, with the entries for both; and the
  -- result's messages are kept.
  pub exhausted_task_fails :
      (m : Machine) (result : TaskResult) (e : Error)
      → find_machine (runtime_on order ms hs) instance.workflow instance.version ≡ ok m
      → task.max_attempts ≤ℤ task.attempt
      → (def.on_failure == "") ≡ true
      → (t : TaskExecution) × (es : List ExecutionHistory) × (cs : List TaskExecution) × (n : ℕ)
        × (finish_task
              (runtime_on order ms hs)
              instance
              def
              now
              task
              TaskStatus.failed
              (some result)
              (some e)
              start
              w
            ≡ (
              ok TaskStatus.failed,
              record { store = ended_with t (start ++ es) cs result.outbox w.store; readings = n },
            ))
        × IsEnded task TaskStatus.failed now t
        × AreScheduled m instance now (compensations def) cs
        × (types_of es ≡ HistoryType.task_failed ∷ compensation_types def)
  unfolding finish_task finish_failed task_entry complete_task
  exhausted_task_fails m result e known spent silent =
      let t = record task {
        updated_at = now;
        output = clone_map result.output;
        last_error = error_text e;
        status = TaskStatus.failed;
      } in
      let h = entry HistoryType.task_failed "任务最终失败" (text_fields "error" t.last_error) in
      let (cs, es, n, run, scheduled, types) =
        compensate_lem order ms hs instance def now m (record w { readings = suc w.readings })
          known in
      (
        clone_task t,
        h ∷ es,
        cs,
        n,
        rw (is_spent task.attempt task.max_attempts spent, run, silent, append_assoc),
        (refl, refl, refl, refl, refl),
        scheduled,
        ap (λ l. HistoryType.task_failed ∷ l) types,
      )

  -- Over the memory store, a task that has run out of time is written as timed out, whatever attempts it has
  -- left, and nothing else is written but one entry: no retry, no compensation and no event.
  pub timed_out_task_ends :
      (n : ℕ) × (t : TaskExecution) × (h : ExecutionHistory) × (finish_task
          (runtime_on order ms hs)
          instance
          def
          now
          task
          TaskStatus.timed_out
          none
          (some (Error.other "task timed out"))
          start
          w
        ≡ (
          ok TaskStatus.timed_out,
          record { store = ended_with t (start ++ h ∷ []) [] [] w.store; readings = n },
        ))
      × IsEnded task TaskStatus.timed_out now t
      × (h.type ≡ HistoryType.task_timed_out)
  unfolding finish_task finish_timed_out task_entry complete_task
  timed_out_task_ends = (
    suc w.readings,
    clone_task (record task {
      updated_at = now;
      output = nil_map;
      status = TaskStatus.timed_out;
      last_error = "task timed out";
    }),
    entry HistoryType.task_timed_out "任务执行超时" nil_map,
    refl,
    (refl, refl, refl, refl, refl),
    refl,
  )
