-- ===== src/Sql/Rows/Writing.antt =====
-- How persistence/internal/sqlstore/store.go writes a record to a row: `marshal`, `nullString`, `nullTime`, and the
-- arguments of its insertions.
use fsm_go.Prelude.{String, Option, none, some, [], ◌==◌, if◌then◌else◌}
use fsm_go.Errors.{Result}
use fsm_go.Types.{
  AnyMap, Time, is_zero, WorkflowInstance, TaskExecution, ExecutionHistory, OutboxMessage,
}
use fsm_go.Sql.Database.{Database}
use fsm_go.Sql.Rows.Columns.{InstanceRow, TaskRow, HistoryRow, OutboxRow}

abbrev pub null_string : String → Option String
null_string value = if value == "" then none else some value

module _ ⦃db : Database⦄ where
  unfoldable pub marshal : AnyMap → Result String
  marshal none = db.encode []
  marshal (some m) = db.encode m

  -- `nullTime`, and what the column keeps
  abbrev pub null_time : Time → Option Time
  null_time value = if is_zero value then none else some (db.kept_time value)

  abbrev pub instance_row : WorkflowInstance → String → InstanceRow
  instance_row i fields = record {
    id = i.id;
    workflow = i.workflow;
    version = i.version;
    state = i.state;
    status = i.status;
    revision = i.revision;
    fields = some fields;
    started_at = db.kept_time i.started_at;
    updated_at = db.kept_time i.updated_at;
    finished_at = null_time i.finished_at;
  }

  abbrev pub task_row : TaskExecution → String → String → TaskRow
  task_row t input output = record {
    id = t.id;
    instance_id = t.instance_id;
    task = t.task;
    handler = t.handler;
    status = t.status;
    attempt = t.attempt;
    max_attempts = t.max_attempts;
    next_run_at = db.kept_time t.next_run_at;
    timeout_at = null_time t.timeout_at;
    last_error = null_string t.last_error;
    input = some input;
    output = some output;
    created_at = db.kept_time t.created_at;
    updated_at = db.kept_time t.updated_at;
  }

  abbrev pub history_row : ExecutionHistory → String → HistoryRow
  history_row h payload = record {
    id = h.id;
    instance_id = h.instance_id;
    type = h.type;
    message = h.message;
    state = h.state;
    task_id = null_string h.task_id;
    task = null_string h.task;
    event = null_string h.event;
    payload = some payload;
    created_at = db.kept_time h.created_at;
  }

  abbrev pub outbox_row : OutboxMessage → String → OutboxRow
  outbox_row m payload = record {
    id = m.id;
    topic = m.topic;
    msg_key = m.key;
    payload = payload;
    status = m.status;
    attempt = m.attempt;
    next_run_at = db.kept_time m.next_run_at;
    created_at = db.kept_time m.created_at;
    updated_at = db.kept_time m.updated_at;
  }
