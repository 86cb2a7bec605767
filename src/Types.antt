-- ===== src/Types.antt =====
-- The data of the workflow package: workflow/types.go, and the message types of
-- workflow/interfaces.go. Instants are nanoseconds since the zero `time.Time`, and durations are
-- `int64` nanoseconds. A field `Data` is spelled `fields`, since `data` is a reserved word.
mod Values
pub use Values.{Any, AnyItems, AnyFields, AnyMap, Time, Duration, is_zero, nil_map, clone_map}
use fsm_go.Prelude.{ℕ, ℤ, pos, String, Bool, false, List, []}

pub data InstanceStatus : Type 0 where
  running completed failed : InstanceStatus

pub data TaskStatus : Type 0 where
  pending running succeeded retrying failed timed_out : TaskStatus

pub data HistoryType : Type 0 where
  workflow_started workflow_completed workflow_failed signal_received state_changed : HistoryType
  task_scheduled task_started task_succeeded task_retrying task_failed : HistoryType
  task_timed_out compensation_scheduled outbox_appended : HistoryType

pub record StateDefinition : Type 0 where
  pub name : String
  pub terminal : Bool
  pub on_enter : List String

-- what Go reads from `map[string]StateDefinition` under a missing key
abbrev pub zero_state : StateDefinition
zero_state = record { name = ""; terminal = false; on_enter = [] }

pub record EventDefinition : Type 0 where
  pub name : String

pub record RetryPolicy : Type 0 where
  pub max_attempts : ℤ
  pub backoff : Duration

pub record TaskDefinition : Type 0 where
  pub name : String
  pub handler : String
  pub retry : RetryPolicy
  pub timeout : Duration
  pub compensation : String
  pub on_success : String
  pub on_failure : String

-- what Go reads from `map[string]TaskDefinition` under a missing key
abbrev pub zero_task : TaskDefinition
zero_task = record {
  name = "";
  handler = "";
  retry = record { max_attempts = pos 0; backoff = pos 0 };
  timeout = pos 0;
  compensation = "";
  on_success = "";
  on_failure = "";
}

pub record Transition : Type 0 where
  pub name : String
  pub from : String
  pub event : String
  pub to : String

pub record WorkflowDefinition : Type 0 where
  pub name : String
  pub version : String
  pub initial : String
  pub states : List StateDefinition
  pub events : List EventDefinition
  pub tasks : List TaskDefinition
  pub transitions : List Transition

pub record WorkflowInstance : Type 0 where
  pub id : String
  pub workflow : String
  pub version : String
  pub state : String
  pub status : InstanceStatus
  pub revision : ℤ
  pub fields : AnyMap
  pub started_at : Time
  pub updated_at : Time
  pub finished_at : Time

pub record TaskExecution : Type 0 where
  pub id : String
  pub instance_id : String
  pub task : String
  pub handler : String
  pub status : TaskStatus
  pub attempt : ℤ
  pub max_attempts : ℤ
  pub next_run_at : Time
  pub timeout_at : Time
  pub last_error : String
  pub input : AnyMap
  pub output : AnyMap
  pub created_at : Time
  pub updated_at : Time

pub record ExecutionHistory : Type 0 where
  pub id : String
  pub instance_id : String
  pub type : HistoryType
  pub message : String
  pub state : String
  pub task_id : String
  pub task : String
  pub event : String
  pub payload : AnyMap
  pub created_at : Time

pub record OutboxMessage : Type 0 where
  pub id : String
  pub topic : String
  pub key : String
  pub payload : AnyMap
  pub status : String
  pub attempt : ℤ
  pub next_run_at : Time
  pub created_at : Time
  pub updated_at : Time

pub record CreateInstanceRequest : Type 0 where
  pub instance : WorkflowInstance
  pub history : List ExecutionHistory
  pub tasks : List TaskExecution
  pub outbox : List OutboxMessage

pub record UpdateInstanceRequest : Type 0 where
  pub instance : WorkflowInstance
  pub expected_revision : ℤ
  pub history : List ExecutionHistory
  pub tasks : List TaskExecution
  pub outbox : List OutboxMessage

pub record CompleteTaskRequest : Type 0 where
  pub task : TaskExecution
  pub history : List ExecutionHistory
  pub tasks : List TaskExecution
  pub outbox : List OutboxMessage

pub record HistoryInput : Type 0 where
  pub instance_id : String
  pub type : HistoryType
  pub message : String
  pub state : String
  pub task_id : String
  pub task : String
  pub event : String
  pub payload : AnyMap
  pub created_at : Time

pub record StartOptions : Type 0 where
  pub instance_id : String
  pub workflow : String
  pub version : String
  pub idempotency_key : String
  pub fields : AnyMap

pub record SignalOptions : Type 0 where
  pub instance_id : String
  pub event : String
  pub idempotency_key : String
  pub payload : AnyMap

pub record RunOptions : Type 0 where
  pub limit : ℤ
  pub now : Time

-- counts of at most the tasks scanned, which a Go `int` holds
pub record RunReport : Type 0 where
  pub scanned : ℕ
  pub succeeded : ℕ
  pub retried : ℕ
  pub failed : ℕ
  pub timed_out : ℕ

-- `TaskContext`, and the result that a handler returns beside its error
pub record TaskContext : Type 0 where
  pub instance : WorkflowInstance
  pub task : TaskExecution
  pub fields : AnyMap

pub record TaskResult : Type 0 where
  pub event : String
  pub output : AnyMap
  pub outbox : List OutboxMessage
