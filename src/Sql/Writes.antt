-- ===== src/Sql/Writes.antt =====
-- The methods of persistence/internal/sqlstore/store.go that write. Each runs in a transaction, but for those of one
-- or two statements of their own.
pub mod Statements
use fsm_go.Prelude.{
  ℕ, eqb, ℤ, eq_ℤ, String, Bool, true, false, ◌&&◌, Option, none, some, List, [], ◌∷◌, length, keep,
  first, ◌==◌, if◌then◌else◌,
}
use fsm_go.Errors.{Error, Result, ok, err, concurrent_update, not_found}
use fsm_go.Types.{
  Time, is_zero, TaskStatus, WorkflowInstance, TaskExecution, ExecutionHistory, OutboxMessage,
  CreateInstanceRequest, UpdateInstanceRequest, CompleteTaskRequest,
}
use fsm_go.World.{Env, Act, pure, raise, lift, try, ◌>>=◌, ◌>>◌, wall_now, new_id}
use fsm_go.Memory.{is_waiting}
use fsm_go.Sql.Database.{Database, wrapped, call, query, with_tx, insert_row, update_rows, placed}
use fsm_go.Sql.Rows.{
  InstanceRow, TaskRow, HistoryRow, KeyRow, OutboxRow, Tables, null_string, marshal, null_time,
  instance_row, task_row, history_row, outbox_row, scan_task, scan_one,
}
pub use Statements.{
  has_key, at_revision, is_claimable, task_with, add_history_row, add_task_row, add_outbox_row,
  add_instance_row, add_key_row, set_instance, same_instance, is_counted_instance, is_as_claimed,
  update_instance_row, set_running, claim_row, set_task, complete_row, publish_row,
}

module _ ⦃db : Database⦄ where
  unfoldable pub insert_history : List ExecutionHistory → Act Tables (Unit {0})
  insert_history [] = pure tt
  insert_history (item ∷ items) = do
    payload ← lift (marshal item.payload)
    wrapped "insert history: " (call (add_history_row (history_row item payload)))
    insert_history items

  unfoldable pub insert_tasks : List TaskExecution → Act Tables (Unit {0})
  insert_tasks [] = pure tt
  insert_tasks (task ∷ tasks) = do
    input ← lift (marshal task.input)
    output ← lift (marshal task.output)
    wrapped "insert task: " (call (add_task_row (task_row task input output)))
    insert_tasks tasks

abbrev pub or_time : Time → Time → Time
or_time value default = if is_zero value then default else value

-- the message with a value for each field that it leaves out, from an id and an instant
abbrev pub filled : OutboxMessage → String → Time → OutboxMessage
filled msg id now =
    let created = or_time msg.created_at now in
    record msg {
      id = id;
      status = if msg.status == "" then "pending" else msg.status;
      created_at = created;
      updated_at = or_time msg.updated_at created;
      next_run_at = or_time msg.next_run_at created;
    }

module _ ⦃env : Env⦄ where
  -- the system clock is read for every message
  unfoldable pub with_defaults : {S : Type 0} → OutboxMessage → Act S OutboxMessage
  with_defaults msg = do
    id ← if msg.id == "" then new_id "msg" else pure msg.id
    now ← wall_now
    pure (filled msg id now)

-- the column `result_id` of the row that was found
abbrev pub result_of : Option KeyRow → Option String
result_of none = none
result_of (some row) = some row.result_id

-- ok && existing == resultID
abbrev pub is_answer : String → Option String → Bool
is_answer id none = false
is_answer id (some existing) = existing == id

module _ ⦃env : Env⦄ ⦃db : Database⦄ where
  unfoldable pub insert_outbox : List OutboxMessage → Act Tables (Unit {0})
  insert_outbox [] = pure tt
  insert_outbox (msg ∷ msgs) = do
    full ← with_defaults msg
    payload ← lift (marshal full.payload)
    wrapped "insert outbox: " (call (add_outbox_row (outbox_row full payload)))
    insert_outbox msgs

  unfoldable pub append_all :
      List ExecutionHistory → List TaskExecution → List OutboxMessage → Act Tables (Unit {0})
  append_all history tasks outbox = do
    insert_history history
    insert_tasks tasks
    insert_outbox outbox

  -- what `CreateInstance` does inside its transaction
  unfoldable pub create_body : CreateInstanceRequest → Act Tables (Unit {0})
  create_body req = do
    fields ← lift (marshal req.instance.fields)
    wrapped "insert workflow instance: "
        (call (add_instance_row (instance_row req.instance fields)))
    append_all req.history req.tasks req.outbox

  unfoldable pub create_instance : CreateInstanceRequest → Act Tables (Unit {0})
  create_instance req = with_tx (create_body req)

  unfoldable pub update_body : UpdateInstanceRequest → Act Tables (Unit {0})
  update_body req = do
    fields ← lift (marshal req.instance.fields)
    affected ←
        wrapped "update workflow instance: "
          (call (update_instance_row req.instance fields req.expected_revision))
    if eqb affected 1
        then append_all req.history req.tasks req.outbox
        else raise (concurrent_update req.instance.id)

  unfoldable pub update_instance : UpdateInstanceRequest → Act Tables (Unit {0})
  update_instance req = with_tx (update_body req)

  unfoldable pub complete_body : CompleteTaskRequest → Act Tables (Unit {0})
  complete_body req = do
    input ← lift (marshal req.task.input)
    output ← lift (marshal req.task.output)
    wrapped "complete task: " (call (complete_row req.task input output))
    append_all req.history req.tasks req.outbox

  unfoldable pub complete_task : CompleteTaskRequest → Act Tables (Unit {0})
  complete_task req = with_tx (complete_body req)

  unfoldable pub append_history : List ExecutionHistory → Act Tables (Unit {0})
  append_history items = with_tx (insert_history items)

  unfoldable pub append_outbox : List OutboxMessage → Act Tables (Unit {0})
  append_outbox msgs = with_tx (insert_outbox msgs)

  abbrev pub read_task : String → Act Tables TaskExecution
  read_task id = query (λ t. scan_one scan_task (not_found "task_execution" "") (task_with id t))

  -- two statements without a transaction
  unfoldable pub mark_task_running : String → ℤ → Act Tables TaskExecution
  mark_task_running id attempt = do
    now ← wall_now
    affected ← call (claim_row id attempt now)
    if eqb affected 1 then read_task id else raise (concurrent_update id)

  unfoldable pub get_idempotency : String → String → Act Tables (Option String)
  get_idempotency scope key = query (λ t. ok (result_of (first (has_key scope key) t.idempotency)))

  abbrev pub key_row : String → String → String → Time → KeyRow
  key_row scope key result_id now = record {
    scope = scope;
    idem_key = key;
    result_id = result_id;
    created_at = db.kept_time now;
  }

  -- the answer to what `GetIdempotency` returned after the insertion's error
  abbrev pub compare_known : String → Error → Result (Option String) → Act Tables Bool
  compare_known result_id refusal (err _) = raise refusal
  compare_known result_id refusal (ok existing) = pure (is_answer result_id existing)

  -- whatever the error of the insertion is, the key is read back
  abbrev pub after_insert : String → String → String → Result (Unit {0}) → Act Tables Bool
  after_insert scope key result_id (ok _) = pure true
  after_insert scope key result_id (err refusal) =
      try (get_idempotency scope key) >>= λ known. compare_known result_id refusal known

  unfoldable pub record_idempotency : String → String → String → Act Tables Bool
  record_idempotency scope key result_id = do
    now ← wall_now
    inserted ← try (call (add_key_row (key_row scope key result_id now)))
    after_insert scope key result_id inserted

  unfoldable pub mark_outbox_published : String → Act Tables (Unit {0})
  mark_outbox_published id = wall_now >>= λ now. call (publish_row id now)
