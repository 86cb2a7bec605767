-- ===== src/Runtime/Run.antt =====
-- workflow/runtime.go: `runTask` and `RunDueTasks`.
mod Examples
pub mod Counting
pub mod Accounting
pub mod Overdue
use fsm_go.Prelude.{
  ℕ, ◌+◌, ℤ, pos, leb_ℤ, ◌-ℤ◌, saturate, String, Bool, true, false, Option, none, some, List, [],
  ◌∷◌, length, not, if◌then◌else◌,
}
use fsm_go.Dict.{Dict, lookup}
use fsm_go.Errors.{Error, Result, ok, err, not_found, other, is_concurrent_update}
use fsm_go.Types.{
  Time, Duration, nil_map, clone_map, is_zero, TaskStatus, HistoryType, TaskDefinition,
  WorkflowInstance, TaskExecution, ExecutionHistory, TaskContext, TaskResult, RunOptions, RunReport,
}
use fsm_go.World.{Env, World, Act, pure, lift, try, ◌>>=◌, ◌>>◌, clock_now, wall_now, history}
use fsm_go.Store.{Store}
use fsm_go.Runtime.Base.{Runtime, TaskHandler, find_machine, find_handler}
use fsm_go.Runtime.Finish.{task_entry, finish_task}

-- time.Until(t), read at `wall`
abbrev pub until : Time → Time → Duration
until wall t = saturate (t -ℤ wall)

unfoldable pub find_task : Dict TaskDefinition → String → Result TaskDefinition
find_task tasks name = elim (lookup name tasks) [
  | none ↦ err (not_found "task" name)
  | some def ↦ ok def
]

-- the status of a run by the handler's error
abbrev pub status_of : Option Error → TaskStatus
status_of none = TaskStatus.succeeded
status_of (some _) = TaskStatus.failed

-- the handler's call, which may change the store
unfoldable pub handle :
    {S : Type 0} → TaskHandler S → Option Duration → TaskContext → Act S (TaskResult × Option Error)
handle handler left context w =
    let (outcome, s) = handler left context w.store in (ok outcome, record w { store = s })

abbrev pub counted : TaskStatus → RunReport → RunReport
counted TaskStatus.succeeded report = record report { succeeded = report.succeeded + 1 }
counted TaskStatus.retrying report = record report { retried = report.retried + 1 }
counted TaskStatus.failed report = record report { failed = report.failed + 1 }
counted TaskStatus.timed_out report = record report { timed_out = report.timed_out + 1 }
counted _ report = report

abbrev pub report_of : ℕ → RunReport
report_of scanned = record {
  scanned = scanned;
  succeeded = 0;
  retried = 0;
  failed = 0;
  timed_out = 0;
}

module _ ⦃env : Env⦄ {S : Type 0} (r : Runtime S) where
  -- the handler's call and the end of the task
  unfoldable pub call_and_finish :
      TaskHandler S
      → Option Duration
      → TaskExecution
      → WorkflowInstance
      → TaskDefinition
      → ExecutionHistory
      → Time
      → Act S TaskStatus
  call_and_finish handler left task instance def start now = do
    (result, task_err) ←
        handle handler left
          (record { instance = instance; task = task; fields = clone_map instance.fields })
    finish_task r instance def now task (status_of task_err) (some result) task_err (start ∷ [])

  unfoldable pub run_task : TaskExecution → Time → Act S TaskStatus
  run_task task now = do
    instance ← r.store.get_instance task.instance_id
    machine ← lift (find_machine r instance.workflow instance.version)
    def ← lift (find_task machine.tasks task.task)
    handler ← lift (find_handler r def.handler)
    start ← task_entry r instance def now HistoryType.task_started "任务开始执行" task nil_map
    if is_zero task.timeout_at
        then call_and_finish handler none task instance def start now
        else (do
          wall ← wall_now
          let left = until wall task.timeout_at
          if leb_ℤ left (pos 0)
              then finish_task r instance def now task TaskStatus.timed_out none
                  (some (other "task timed out")) (start ∷ [])
              else call_and_finish handler (some left) task instance def start now)

  -- what the loop does after a try to claim a task: `continue`, `return`, or the run
  unfoldable pub run_claimed :
      Time → Result TaskExecution → RunReport → Act S (RunReport × Option Error × Bool)
  run_claimed now (err e) report =
      if is_concurrent_update e then pure (report, none, true) else pure (report, some e, false)
  run_claimed now (ok locked) report = do
    kind ← try (run_task locked now)
    pure (elim kind [
      | err e ↦ (report, some e, false)
      | ok status ↦ (counted status report, none, true)
    ])

  -- the loop over the due tasks; an error ends it, with the report so far
  unfoldable pub run_each : Time → List TaskExecution → RunReport → Act S (RunReport × Option Error)
  run_each now [] report = pure (report, none)
  run_each now (task ∷ tasks) report = do
    claim ← try (r.store.mark_task_running task.id task.attempt)
    (report', e, more) ← run_claimed now claim report
    if more then run_each now tasks report' else pure (report', e)

  unfoldable pub run_due_tasks : RunOptions → Act S (RunReport × Option Error)
  run_due_tasks opts = do
    let limit = if leb_ℤ opts.limit (pos 0) then pos 100 else opts.limit
    now ← if is_zero opts.now then clock_now else pure opts.now
    listed ← try (r.store.list_due_tasks limit now)
    elim listed [
      | err e ↦ pure (report_of 0, some e)
      | ok due ↦ run_each now due (report_of (length due))
    ]
