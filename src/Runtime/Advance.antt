-- ===== src/Runtime/Advance.antt =====
-- workflow/runtime.go: scheduling tasks, and the step of an instance by an event.
mod Examples
pub mod Steps
pub mod Outcome
pub mod Closed
use fsm_go.Prelude.{
  ℤ, pos, ltb_ℤ, inc, ◌+ℤ◌, String, Bool, true, Option, none, some, List, [], ◌∷◌, ◌++◌,
  if◌then◌else◌,
}
use fsm_go.Dict.{lookup, lookup_or}
use fsm_go.Errors.{Error, Result, ok, err, invalid_transition, other}
use fsm_go.Types.{
  Any, AnyMap, Time, Duration, nil_map, clone_map, zero_state, zero_task, InstanceStatus,
  TaskStatus, HistoryType, TaskDefinition, Transition, WorkflowInstance, TaskExecution,
  ExecutionHistory,
}
use fsm_go.World.{
  Env, Act, World, pure, raise, lift, ◌>>=◌, ◌>>◌, clock_now, new_id, history, input_of,
}
use fsm_go.Compiler.{Machine, transition_key}
use fsm_go.Runtime.Base.{Runtime, find_machine}

-- now.Add(timeout) where a timeout is set, and else the zero time
abbrev pub deadline : Time → Duration → Time
deadline now timeout = if ltb_ℤ (pos 0) timeout then now +ℤ timeout else pos 0

-- the task execution that `scheduleTask` makes
unfoldable pub scheduled : String → TaskDefinition → WorkflowInstance → Time → TaskExecution
scheduled id def instance now = record {
  id = id;
  instance_id = instance.id;
  task = def.name;
  handler = def.handler;
  status = TaskStatus.pending;
  attempt = pos 1;
  max_attempts = def.retry.max_attempts;
  next_run_at = now;
  timeout_at = deadline now def.timeout;
  last_error = "";
  input = nil_map;
  output = nil_map;
  created_at = now;
  updated_at = now;
}

-- the step that an event makes: the instance with its new state
unfoldable pub advanced : Machine → WorkflowInstance → Transition → Time → WorkflowInstance
advanced machine instance t now =
    let moved = record instance {
      state = t.to;
      revision = inc instance.revision;
      updated_at = now;
    } in
    if (lookup_or zero_state t.to machine.states).terminal
    then record moved { status = InstanceStatus.completed; finished_at = now }
    else moved

-- instance.Status == InstanceCompleted
abbrev pub is_completed : InstanceStatus → Bool
is_completed InstanceStatus.completed = true
is_completed _ = Bool.false

pub record Advance : Type 0 where
  pub instance : WorkflowInstance
  pub histories : List ExecutionHistory
  pub tasks : List TaskExecution

abbrev pub text_fields : String → String → AnyMap
text_fields key value = some ((key, Any.text value) ∷ [])

module _ ⦃env : Env⦄ {S : Type 0} (r : Runtime S) where
  -- The machine's error is dropped, and a missing machine is a nil pointer: a panic.
  unfoldable pub schedule_task :
      WorkflowInstance → String → Time → Act S (TaskExecution × ExecutionHistory)
  schedule_task instance task_name now = elim (find_machine r instance.workflow instance.version) [
    | err e ↦ raise (other "panic: nil pointer dereference")
    | ok machine ↦ do
      id ← new_id "task"
      let task = scheduled id (lookup_or zero_task task_name machine.tasks) instance now
      h ←
          history
            (record (input_of instance.id HistoryType.task_scheduled "任务已调度" instance.state now) {
              task_id = task.id;
              task = task.task;
            })
      pure (task, h)
  ]

  unfoldable pub schedule_all :
      WorkflowInstance → Time → List String → Act S (List TaskExecution × List ExecutionHistory)
  schedule_all instance now [] = pure ([], [])
  schedule_all instance now (name ∷ names) = do
    (task, h) ← schedule_task instance name now
    (tasks, hs) ← schedule_all instance now names
    pure (task ∷ tasks, h ∷ hs)

  unfoldable pub schedule_state_tasks :
      Machine → WorkflowInstance → Time → Act S (List TaskExecution × List ExecutionHistory)
  schedule_state_tasks machine instance now =
      schedule_all instance now (lookup_or zero_state instance.state machine.states).on_enter

  -- the part of `applyEvent` that follows a found transition
  unfoldable pub follow :
      Machine → WorkflowInstance → String → Transition → Time → ExecutionHistory → Act S Advance
  follow machine instance event t now received = do
    let next = advanced machine instance t now
    changed ←
        history (record (input_of next.id HistoryType.state_changed "流程状态已推进" next.state now) {
          event = event;
          payload = some (("from", Any.text instance.state) ∷ ("to", Any.text t.to) ∷ []);
        })
    if is_completed next.status
        then (do
          done ← history (input_of next.id HistoryType.workflow_completed "流程已完成" next.state now)
          pure (record { instance = next; histories = received ∷ changed ∷ done ∷ []; tasks = [] }))
        else (do
          (tasks, hs) ← schedule_state_tasks machine next now
          pure (record { instance = next; histories = received ∷ changed ∷ hs; tasks = tasks }))

  unfoldable pub apply_event : Machine → WorkflowInstance → String → AnyMap → Act S Advance
  apply_event machine instance event payload = do
    now ← clock_now
    received ←
        history
          (record (input_of instance.id HistoryType.signal_received "收到流程事件" instance.state now) {
            event = event;
            payload = clone_map payload;
          })
    elim (lookup (transition_key instance.state event) machine.transitions) [
      | none ↦ raise (invalid_transition instance.state event)
      | some t ↦ follow machine instance event t now received
    ]
