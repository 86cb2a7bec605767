-- ===== src/Sql/Rows/Columns.antt =====
-- The tables of persistence/mysql/schema.go and persistence/postgres/schema.go. A column that may be NULL is an
-- option.
use fsm_go.Prelude.{ℤ, String, Option, List}
use fsm_go.Types.{Time, InstanceStatus, TaskStatus, HistoryType}

pub record InstanceRow : Type 0 where
  pub id : String
  pub workflow : String
  pub version : String
  pub state : String
  pub status : InstanceStatus
  pub revision : ℤ
  pub fields : Option String
  pub started_at : Time
  pub updated_at : Time
  pub finished_at : Option Time

pub record TaskRow : Type 0 where
  pub id : String
  pub instance_id : String
  pub task : String
  pub handler : String
  pub status : TaskStatus
  pub attempt : ℤ
  pub max_attempts : ℤ
  pub next_run_at : Time
  pub timeout_at : Option Time
  pub last_error : Option String
  pub input : Option String
  pub output : Option String
  pub created_at : Time
  pub updated_at : Time

pub record HistoryRow : Type 0 where
  pub id : String
  pub instance_id : String
  pub type : HistoryType
  pub message : String
  pub state : String
  pub task_id : Option String
  pub task : Option String
  pub event : Option String
  pub payload : Option String
  pub created_at : Time

pub record KeyRow : Type 0 where
  pub scope : String
  pub idem_key : String
  pub result_id : String
  pub created_at : Time

pub record OutboxRow : Type 0 where
  pub id : String
  pub topic : String
  pub msg_key : String
  pub payload : String
  pub status : String
  pub attempt : ℤ
  pub next_run_at : Time
  pub created_at : Time
  pub updated_at : Time

pub record Tables : Type 0 where
  pub instances : List InstanceRow
  pub tasks : List TaskRow
  pub history : List HistoryRow
  pub idempotency : List KeyRow
  pub outbox : List OutboxRow
