-- ===== src/Runtime/Finish.antt =====
-- workflow/runtime.go: `finishTask`, a function for each way in which a task ends.
mod Examples
pub mod Endings
pub mod Outcomes
pub mod Advancing
pub mod Success
pub mod Attempts
use fsm_go.Prelude.{
  ℤ, ltb_ℤ, inc, ◌+ℤ◌, String, Bool, Option, none, some, List, [], ◌∷◌, ◌++◌, not, ◌==◌,
  if◌then◌else◌,
}
use fsm_go.Errors.{Error, error_text}
use fsm_go.Types.{
  AnyMap, Time, nil_map, clone_map, TaskStatus, HistoryType, TaskDefinition, WorkflowInstance,
  TaskExecution, ExecutionHistory, OutboxMessage, TaskResult, UpdateInstanceRequest,
  CompleteTaskRequest,
}
use fsm_go.World.{Env, Act, pure, lift, ◌>>=◌, ◌>>◌, history, input_of}
use fsm_go.Runtime.Base.{Runtime, find_machine}
use fsm_go.Runtime.Advance.{text_fields, schedule_task, apply_event}

-- the output that is kept of a result, and its messages; a timed-out task has no result
abbrev pub output_of : Option TaskResult → AnyMap
output_of none = nil_map
output_of (some result) = clone_map result.output

abbrev pub outbox_of : Option TaskResult → List OutboxMessage
outbox_of none = []
outbox_of (some result) = result.outbox

abbrev pub payload_of : Option TaskResult → AnyMap
payload_of none = some []
payload_of (some result) = result.output

-- the event of the result, or else the one that the task declares
abbrev pub success_event : TaskDefinition → Option TaskResult → String
success_event def none = def.on_success
success_event def (some result) = if result.event == "" then def.on_success else result.event

abbrev pub with_error : Option Error → TaskExecution → TaskExecution
with_error none task = task
with_error (some e) task = record task { last_error = error_text e }

-- the attempt after a failed one
unfoldable pub retried : TaskDefinition → Time → TaskExecution → TaskExecution
retried def now task = record task {
  status = TaskStatus.retrying;
  attempt = inc task.attempt;
  next_run_at = now +ℤ def.retry.backoff;
}

-- a request that writes the task alone
abbrev pub only_task : TaskExecution → CompleteTaskRequest
only_task task = record { task = task; history = []; tasks = []; outbox = [] }

module _ ⦃env : Env⦄ {S : Type 0} (r : Runtime S) (instance : WorkflowInstance)
    (def : TaskDefinition) (now : Time) where
  -- an entry of the timeline about a task of the instance
  unfoldable pub task_entry : HistoryType → String → TaskExecution → AnyMap → Act S ExecutionHistory
  task_entry type message task payload =
      history (record (input_of instance.id type message instance.state now) {
        task_id = task.id;
        task = task.task;
        payload = payload;
      })

  -- the event's step is written first, with the history and the messages, and then the task
  unfoldable pub advance_and_complete :
      TaskStatus
      → TaskExecution
      → String
      → AnyMap
      → List ExecutionHistory
      → List TaskExecution
      → List OutboxMessage
      → Act S TaskStatus
  advance_and_complete status task event payload histories next_tasks outbox = do
    machine ← lift (find_machine r instance.workflow instance.version)
    step ← apply_event r machine instance event payload
    r.store.update_instance (record {
      instance = step.instance;
      expected_revision = instance.revision;
      history = histories ++ step.histories;
      tasks = next_tasks ++ step.tasks;
      outbox = outbox;
    })
    r.store.complete_task (only_task task)
    pure status

  unfoldable pub finish_succeeded :
      TaskExecution → Option TaskResult → List ExecutionHistory → Act S TaskStatus
  finish_succeeded task result histories = do
    let ended = record task { status = TaskStatus.succeeded }
    h ← task_entry HistoryType.task_succeeded "任务执行成功" ended ended.output
    let event = success_event def result
    if event == ""
        then (do
          r.store.complete_task (record {
            task = ended;
            history = histories ++ h ∷ [];
            tasks = [];
            outbox = outbox_of result;
          })
          pure TaskStatus.succeeded)
        else advance_and_complete TaskStatus.succeeded ended event (payload_of result)
            (histories ++ h ∷ []) [] (outbox_of result)

  unfoldable pub finish_timed_out : TaskExecution → List ExecutionHistory → Act S TaskStatus
  finish_timed_out task histories = do
    let ended = record task { status = TaskStatus.timed_out; last_error = "task timed out" }
    h ← task_entry HistoryType.task_timed_out "任务执行超时" ended nil_map
    r.store.complete_task
        (record { task = ended; history = histories ++ h ∷ []; tasks = []; outbox = [] })
    pure TaskStatus.timed_out

  unfoldable pub finish_retrying : TaskExecution → List ExecutionHistory → Act S TaskStatus
  finish_retrying task histories = do
    let again = retried def now task
    h ←
        task_entry HistoryType.task_retrying "任务失败，等待重试" again
          (text_fields "error" again.last_error)
    r.store.complete_task
        (record { task = again; history = histories ++ h ∷ []; tasks = []; outbox = [] })
    pure TaskStatus.retrying

  -- the compensation of a task that has failed for good, with its entries
  unfoldable pub compensate : Act S (List TaskExecution × List ExecutionHistory)
  compensate = if def.compensation == "" then pure ([], []) else (do
    (comp, scheduled_history) ← schedule_task r instance def.compensation now
    h ← task_entry HistoryType.compensation_scheduled "已调度补偿任务" comp nil_map
    pure (comp ∷ [], h ∷ scheduled_history ∷ []))

  unfoldable pub finish_failed :
      TaskExecution → List OutboxMessage → List ExecutionHistory → Act S TaskStatus
  finish_failed task outbox histories = do
    let ended = record task { status = TaskStatus.failed }
    h ← task_entry HistoryType.task_failed "任务最终失败" ended (text_fields "error" ended.last_error)
    (next_tasks, hs) ← compensate
    let entries = (histories ++ h ∷ []) ++ hs
    if def.on_failure == ""
        then (do
          r.store.complete_task
              (record { task = ended; history = entries; tasks = next_tasks; outbox = outbox })
          pure TaskStatus.failed)
        else advance_and_complete TaskStatus.failed ended def.on_failure
            (text_fields "error" ended.last_error) entries next_tasks outbox

  unfoldable pub finish_task :
      TaskExecution
      → TaskStatus
      → Option TaskResult
      → Option Error
      → List ExecutionHistory
      → Act S TaskStatus
  finish_task task status result task_err histories =
      let task' = record task { updated_at = now; output = output_of result } in
      elim status [
        | TaskStatus.succeeded ↦ finish_succeeded task' result histories
        | TaskStatus.timed_out ↦ finish_timed_out task' histories
        | _ ↦
            let failed = with_error task_err task' in
            if ltb_ℤ failed.attempt failed.max_attempts
            then finish_retrying failed histories
            else finish_failed failed (outbox_of result) histories
      ]
