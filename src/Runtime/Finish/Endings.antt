-- ===== src/Runtime/Finish/Endings.antt =====
-- How `finishTask` of workflow/runtime.go may leave a task, and the compensation that it schedules.
use fsm_go.Prelude.{
  ℕ, ℤ, pos, suc, ◌<ℤ◌, ◌≤ℤ◌, ltb_ℤ, ◌+ℤ◌, String, ◌≡◌, true, false, List, [], ◌∷◌, arith, ◌==◌,
  Bool-cases, inl, inr, if◌then◌else◌,
}
use fsm_go.Dict.{Dict, insert}
use fsm_go.Errors.{Error, ok, error_text}
use fsm_go.Types.{
  Time, TaskStatus, HistoryType, TaskDefinition, WorkflowInstance, TaskExecution, ExecutionHistory,
  OutboxMessage,
}
use fsm_go.World.{Env, World, entry_of, input_of, id_at}
use fsm_go.Compiler.{Machine}
use fsm_go.Memory.{MemoryStore, ScanOrder, append_locked, put_tasks, put_outbox}
use fsm_go.Runtime.Base.{TaskHandler, find_machine}
use fsm_go.Runtime.Advance.Steps.{
  AreScheduled, types_of, task_in, entry_in, schedule_task_lem, task_in-IsScheduled,
}
use fsm_go.Runtime.Commands.Memory.{runtime_on}
use fsm_go.Runtime.Finish.{task_entry, compensate}

-- the store after CompleteTask
abbrev pub ended_with :
    TaskExecution
    → List ExecutionHistory
    → List TaskExecution
    → List OutboxMessage
    → MemoryStore
    → MemoryStore
ended_with t hs next ms s = record s {
  history = append_locked hs s.history;
  tasks = put_tasks next (insert t.id t s.tasks);
  outbox = put_outbox ms s.outbox;
}

-- `t` is `task` after an attempt that ended with the status
abbrev pub IsEnded : TaskExecution → TaskStatus → Time → TaskExecution → Type 0
IsEnded task status now t =
    (t.id ≡ task.id)
    × (t.status ≡ status)
    × (t.attempt ≡ task.attempt)
    × (t.max_attempts ≡ task.max_attempts)
    × (t.updated_at ≡ now)

-- `t` is `task`, to be run again
pub record IsRetry (def : TaskDefinition) (task : TaskExecution) (now : Time) (e : Error)
    (t : TaskExecution) : Type 0 where
  pub same_id : t.id ≡ task.id
  pub status : t.status ≡ TaskStatus.retrying
  pub attempt : t.attempt ≡ task.attempt +ℤ pos 1
  pub within : t.attempt ≤ℤ task.max_attempts
  pub same_limit : t.max_attempts ≡ task.max_attempts
  pub next_run : t.next_run_at ≡ now +ℤ def.retry.backoff
  pub last_error : t.last_error ≡ error_text e

pub is_below : (a b : ℤ) → a <ℤ b → ltb_ℤ a b ≡ true
is_below a b h = ground arith

pub is_spent : (a b : ℤ) → b ≤ℤ a → ltb_ℤ a b ≡ false
is_spent a b h = ground arith

-- the tasks that compensate a task, and the entries that scheduling them makes
abbrev pub compensations : TaskDefinition → List String
compensations def = if def.compensation == "" then [] else def.compensation ∷ []

abbrev pub compensation_types : TaskDefinition → List HistoryType
compensation_types def =
    if def.compensation == ""
    then []
    else HistoryType.compensation_scheduled ∷ HistoryType.task_scheduled ∷ []

module _ ⦃env : Env⦄ (order : ScanOrder) (ms : Dict Machine) (hs : Dict (TaskHandler MemoryStore))
    (instance : WorkflowInstance) (def : TaskDefinition) (now : Time) where
  pub compensate_lem :
      (m : Machine) (w : World MemoryStore)
      → find_machine (runtime_on order ms hs) instance.workflow instance.version ≡ ok m
      → (cs : List TaskExecution) × (es : List ExecutionHistory) × (n : ℕ) × (compensate
            (runtime_on order ms hs)
            instance
            def
            now
            w
          ≡ (ok (cs, es), record w { readings = n }))
        × AreScheduled m instance now (compensations def) cs
        × (types_of es ≡ compensation_types def)
  unfolding compensate task_entry
  compensate_lem m w known = elim (Bool-cases (def.compensation == "")) [
    | inl none_set ↦ ([], [], w.readings, rw none_set, rw none_set tt, rw none_set)
    | inr set ↦
        let c = task_in m instance now def.compensation w in
        let e : ExecutionHistory =
          entry_of
            (record (input_of instance.id HistoryType.compensation_scheduled "已调度补偿任务"
              instance.state now) { task_id = c.id; task = c.task })
            (id_at "hist" (suc (suc w.readings))) in
        (
          c ∷ [],
          e ∷ entry_in instance now c w ∷ [],
          suc (suc (suc w.readings)),
          rw (
            set,
            schedule_task_lem (runtime_on order ms hs) m instance now known def.compensation w,
          ),
          rw set (
            task_in-IsScheduled (runtime_on order ms hs) m instance now known def.compensation w,
            tt,
          ),
          rw set,
        )
  ]
