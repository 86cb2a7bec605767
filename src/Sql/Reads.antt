-- ===== src/Sql/Reads.antt =====
-- The methods of persistence/internal/sqlstore/store.go that read: `GetInstance`, `ListHistory`,
-- `ListDueTasks` and `ListOutbox`; and the store as an implementation of the interface.
use fsm_go.Prelude.{ℤ, ltb_ℤ, leb_ℤ, eq_ℤ, String, Bool, ◌&&◌, ◌||◌, List, keep, first, ◌==◌}
use fsm_go.Errors.{not_found, ◌>>=◌}
use fsm_go.Types.{Time, WorkflowInstance, TaskExecution, ExecutionHistory, OutboxMessage}
use fsm_go.World.{Env, Act, wall_now}
use fsm_go.World
use fsm_go.Store.{Store}
use fsm_go.Memory.{is_waiting}
use fsm_go.Memory.Sorting.{sort_stable}
use fsm_go.Sql.Database.{Database, query, limit_rows}
use fsm_go.Sql.Rows.{
  TaskRow, HistoryRow, OutboxRow, Tables, scan_instance, scan_task, scan_history, scan_outbox,
  scan_rows, scan_one,
}
use fsm_go.Sql.Writes.{
  create_instance, update_instance, append_history, mark_task_running, complete_task,
  record_idempotency, get_idempotency, append_outbox, mark_outbox_published,
}

module _ ⦃db : Database⦄ where
  -- ORDER BY instant, id
  abbrev pub earlier : Time → String → Time → String → Bool
  earlier at id at' id' = ltb_ℤ at at' || (eq_ℤ at at' && db.text_before id id')

  abbrev pub history_before : HistoryRow → HistoryRow → Bool
  history_before a b = earlier a.created_at a.id b.created_at b.id

  abbrev pub task_before : TaskRow → TaskRow → Bool
  task_before a b = earlier a.next_run_at a.id b.next_run_at b.id

  abbrev pub outbox_before : OutboxRow → OutboxRow → Bool
  outbox_before a b = earlier a.next_run_at a.id b.next_run_at b.id

  unfoldable pub get_instance : String → Act Tables WorkflowInstance
  get_instance id = query (λ t.
      scan_one scan_instance (not_found "workflow_instance" "")
        (first (λ r. r.id == id) t.instances))

  unfoldable pub list_history : String → Act Tables (List ExecutionHistory)
  list_history instance_id = query (λ t.
      scan_rows scan_history
        (sort_stable history_before (keep (λ r. r.instance_id == instance_id) t.history)))

  -- status IN ('pending','retrying') AND next_run_at <= ?
  abbrev pub is_due_row : Time → TaskRow → Bool
  is_due_row now r = is_waiting r.status && leb_ℤ r.next_run_at now

  unfoldable pub list_due_tasks : ℤ → Time → Act Tables (List TaskExecution)
  list_due_tasks limit now = query (λ t.
      limit_rows limit (sort_stable task_before (keep (is_due_row now) t.tasks))
      >>= scan_rows scan_task)

  -- status = 'pending' AND next_run_at <= ?
  abbrev pub is_sendable : Time → OutboxRow → Bool
  is_sendable now r = r.status == "pending" && leb_ℤ r.next_run_at now

  unfoldable pub list_outbox : ⦃env : Env⦄ → ℤ → Act Tables (List OutboxMessage)
  list_outbox limit = World.◌>>=◌ wall_now λ now. query (λ t.
      limit_rows limit (sort_stable outbox_before (keep (is_sendable now) t.outbox))
      >>= scan_rows scan_outbox)

abbrev pub sql_store : ⦃env : Env⦄ → ⦃db : Database⦄ → Store Tables
sql_store = record {
  create_instance = create_instance;
  get_instance = get_instance;
  update_instance = update_instance;
  append_history = append_history;
  list_history = list_history;
  list_due_tasks = list_due_tasks;
  mark_task_running = mark_task_running;
  complete_task = complete_task;
  record_idempotency = record_idempotency;
  get_idempotency = get_idempotency;
  append_outbox = append_outbox;
  list_outbox = list_outbox;
  mark_outbox_published = mark_outbox_published;
}
