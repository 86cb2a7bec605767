-- ===== src/Sql/Writes/Statements.antt =====
-- The statements of persistence/internal/sqlstore/store.go that write, from their text.
use fsm_go.Prelude.{
  ℕ, ℤ, eq_ℤ, String, Bool, true, false, ◌&&◌, Option, none, some, length, keep, first, ◌==◌,
}
use fsm_go.Errors.{Result, ok}
use fsm_go.Types.{Time, InstanceStatus, TaskStatus, WorkflowInstance, TaskExecution}
use fsm_go.Memory.{is_waiting}
use fsm_go.Sql.Database.{Database, is_counted, insert_row, update_rows, placed}
use fsm_go.Sql.Rows.{
  InstanceRow, TaskRow, HistoryRow, KeyRow, OutboxRow, Tables, null_string, null_time,
}

-- scope = ? AND idem_key = ?
abbrev pub has_key : String → String → KeyRow → Bool
has_key scope key r = r.scope == scope && r.idem_key == key

-- id = ? AND revision = ?
abbrev pub at_revision : String → ℤ → InstanceRow → Bool
at_revision id revision r = r.id == id && eq_ℤ r.revision revision

-- id = ? AND attempt = ? AND status IN ('pending','retrying')
abbrev pub is_claimable : String → ℤ → TaskRow → Bool
is_claimable id attempt r = r.id == id && (eq_ℤ r.attempt attempt && is_waiting r.status)

abbrev pub task_with : String → Tables → Option TaskRow
task_with id t = first (λ r. r.id == id) t.tasks

abbrev pub same_status : InstanceStatus → InstanceStatus → Bool
same_status InstanceStatus.running InstanceStatus.running = true
same_status InstanceStatus.completed InstanceStatus.completed = true
same_status InstanceStatus.failed InstanceStatus.failed = true
same_status _ _ = false

abbrev pub is_running : TaskStatus → Bool
is_running TaskStatus.running = true
is_running _ = false

-- NULL is NULL only
abbrev pub same_option : {A : Type 0} → (A → A → Bool) → Option A → Option A → Bool
same_option same none none = true
same_option same (some a) (some b) = same a b
same_option same _ _ = false

module _ ⦃db : Database⦄ where
  -- INSERT INTO workflow_history
  abbrev pub add_history_row : HistoryRow → Tables → Result (Unit {0}) × Tables
  add_history_row row t =
      placed (insert_row "workflow_history" (λ r. r.id == row.id) row t.history)
        (λ rows. record t { history = rows }) t

  abbrev pub add_task_row : TaskRow → Tables → Result (Unit {0}) × Tables
  add_task_row row t =
      placed (insert_row "workflow_task" (λ r. r.id == row.id) row t.tasks)
        (λ rows. record t { tasks = rows }) t

  abbrev pub add_outbox_row : OutboxRow → Tables → Result (Unit {0}) × Tables
  add_outbox_row row t =
      placed (insert_row "workflow_outbox" (λ r. r.id == row.id) row t.outbox)
        (λ rows. record t { outbox = rows }) t

  abbrev pub add_instance_row : InstanceRow → Tables → Result (Unit {0}) × Tables
  add_instance_row row t =
      placed (insert_row "workflow_instance" (λ r. r.id == row.id) row t.instances)
        (λ rows. record t { instances = rows }) t

  abbrev pub add_key_row : KeyRow → Tables → Result (Unit {0}) × Tables
  add_key_row row t =
      placed (insert_row "workflow_idempotency" (has_key row.scope row.idem_key) row t.idempotency)
        (λ rows. record t { idempotency = rows }) t

  abbrev pub set_instance : WorkflowInstance → String → InstanceRow → InstanceRow
  set_instance i fields r = record r {
    state = i.state;
    status = i.status;
    revision = i.revision;
    fields = some fields;
    updated_at = db.kept_time i.updated_at;
    finished_at = null_time i.finished_at;
  }

  -- the columns that UPDATE workflow_instance writes
  abbrev pub same_instance : InstanceRow → InstanceRow → Bool
  same_instance a b =
      a.state == b.state
      && (same_status a.status b.status
          && (eq_ℤ a.revision b.revision
              && (same_option db.same_json a.fields b.fields
                  && (eq_ℤ a.updated_at b.updated_at
                      && same_option eq_ℤ a.finished_at b.finished_at))))

  abbrev pub is_counted_instance : WorkflowInstance → String → ℤ → InstanceRow → Bool
  is_counted_instance i fields expected =
      is_counted (at_revision i.id expected) (λ r. same_instance r (set_instance i fields r))

  -- UPDATE workflow_instance, with the number of rows that the database reports
  abbrev pub update_instance_row : WorkflowInstance → String → ℤ → Tables → Result ℕ × Tables
  update_instance_row i fields expected t = (
    ok (length (keep (is_counted_instance i fields expected) t.instances)),
    record t {
      instances = update_rows (at_revision i.id expected) (set_instance i fields) t.instances;
    },
  )

  abbrev pub set_running : Time → TaskRow → TaskRow
  set_running now r = record r { status = TaskStatus.running; updated_at = db.kept_time now }

  -- the columns that the claim writes
  abbrev pub is_as_claimed : Time → TaskRow → Bool
  is_as_claimed now r = is_running r.status && eq_ℤ r.updated_at (db.kept_time now)

  abbrev pub claim_row : String → ℤ → Time → Tables → Result ℕ × Tables
  claim_row id attempt now t = (
    ok (length (keep (is_counted (is_claimable id attempt) (is_as_claimed now)) t.tasks)),
    record t { tasks = update_rows (is_claimable id attempt) (set_running now) t.tasks },
  )

  abbrev pub set_task : TaskExecution → String → String → TaskRow → TaskRow
  set_task task input output r = record r {
    status = task.status;
    attempt = task.attempt;
    next_run_at = db.kept_time task.next_run_at;
    timeout_at = null_time task.timeout_at;
    last_error = null_string task.last_error;
    input = some input;
    output = some output;
    updated_at = db.kept_time task.updated_at;
  }

  abbrev pub complete_row : TaskExecution → String → String → Tables → Result (Unit {0}) × Tables
  complete_row task input output t = (
    ok tt,
    record t { tasks = update_rows (λ r. r.id == task.id) (set_task task input output) t.tasks },
  )

  abbrev pub publish_row : String → Time → Tables → Result (Unit {0}) × Tables
  publish_row id now t = (
    ok tt,
    record t {
      outbox =
          update_rows (λ r. r.id == id)
            (λ r. record r { status = "published"; updated_at = db.kept_time now }) t.outbox;
    },
  )
