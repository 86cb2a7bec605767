-- ===== src/Sql/Rows/Reading.antt =====
-- How persistence/internal/sqlstore/store.go reads a record from a row: `unmarshal` and the four `scan` functions.
use fsm_go.Prelude.{pos, String, Option, none, some, List, [], ◌∷◌, ◌==◌, if◌then◌else◌}
use fsm_go.Errors.{Error, Result, ok, err, ◌>>=◌}
use fsm_go.Types.{AnyMap, Time, WorkflowInstance, TaskExecution, ExecutionHistory, OutboxMessage}
use fsm_go.Sql.Database.{Database}
use fsm_go.Sql.Rows.Columns.{InstanceRow, TaskRow, HistoryRow, OutboxRow}

-- sql.NullString's String
abbrev pub string_of : Option String → String
string_of none = ""
string_of (some value) = value

-- sql.NullTime's Time
abbrev pub time_of : Option Time → Time
time_of none = pos 0
time_of (some value) = value

module _ ⦃db : Database⦄ where
  -- NULL is read as no bytes
  unfoldable pub unmarshal : Option String → Result AnyMap
  unmarshal none = ok (some [])
  unmarshal (some raw) = if raw == "" then ok (some []) else db.decode raw

  unfoldable pub scan_instance : InstanceRow → Result WorkflowInstance
  scan_instance row = do
    fields ← unmarshal row.fields
    ok (record {
      id = row.id;
      workflow = row.workflow;
      version = row.version;
      state = row.state;
      status = row.status;
      revision = row.revision;
      fields = fields;
      started_at = row.started_at;
      updated_at = row.updated_at;
      finished_at = time_of row.finished_at;
    })

  unfoldable pub scan_task : TaskRow → Result TaskExecution
  scan_task row = do
    input ← unmarshal row.input
    output ← unmarshal row.output
    ok (record {
      id = row.id;
      instance_id = row.instance_id;
      task = row.task;
      handler = row.handler;
      status = row.status;
      attempt = row.attempt;
      max_attempts = row.max_attempts;
      next_run_at = row.next_run_at;
      timeout_at = time_of row.timeout_at;
      last_error = string_of row.last_error;
      input = input;
      output = output;
      created_at = row.created_at;
      updated_at = row.updated_at;
    })

  unfoldable pub scan_history : HistoryRow → Result ExecutionHistory
  scan_history row = do
    payload ← unmarshal row.payload
    ok (record {
      id = row.id;
      instance_id = row.instance_id;
      type = row.type;
      message = row.message;
      state = row.state;
      task_id = string_of row.task_id;
      task = string_of row.task;
      event = string_of row.event;
      payload = payload;
      created_at = row.created_at;
    })

  unfoldable pub scan_outbox : OutboxRow → Result OutboxMessage
  scan_outbox row = do
    payload ← unmarshal (some row.payload)
    ok (record {
      id = row.id;
      topic = row.topic;
      key = row.msg_key;
      payload = payload;
      status = row.status;
      attempt = row.attempt;
      next_run_at = row.next_run_at;
      created_at = row.created_at;
      updated_at = row.updated_at;
    })

-- `for rows.Next()`: the first row that cannot be read ends the loop
unfoldable pub scan_rows : {R A : Type 0} → (R → Result A) → List R → Result (List A)
scan_rows scan [] = ok []
scan_rows scan (row ∷ rows) = do item ← scan row; items ← scan_rows scan rows; ok (item ∷ items)

-- `row.Scan` after a query of one row, with the error for no row
abbrev pub scan_one : {R A : Type 0} → (R → Result A) → Error → Option R → Result A
scan_one scan missing none = err missing
scan_one scan missing (some row) = scan row
