-- ===== src/Memory.antt =====
-- workflowtest/memory_store.go: the store in memory. Its mutex makes each operation one step. The
-- loops over the maps of tasks and of messages run in an order that Go leaves open (`ScanOrder`).
mod Examples
pub mod Sorting
pub mod Ops
pub mod Claims
pub mod Updates
pub mod Keys
pub mod Keyed
pub mod Attempts
pub mod Timeline
pub mod Due
use fsm_go.Prelude.{
  ℤ, pos, ltb_ℤ, leb_ℤ, eq_ℤ, String, append, Bool, true, false, not, ◌&&◌, ◌||◌, Option, none,
  some, List, [], ◌∷◌, ◌++◌, map, Permᴰ, ◌==◌, length, keep, if◌then◌else◌,
}
use fsm_go.Dict.{Dict, lookup, insert, insert_all, values}
use fsm_go.Errors.{Result, ok, err, not_found, concurrent_update}
use fsm_go.Types.{
  Time, clone_map, TaskStatus, WorkflowInstance, TaskExecution, ExecutionHistory, OutboxMessage,
  CreateInstanceRequest, UpdateInstanceRequest, CompleteTaskRequest,
}
use fsm_go.World.{Env, World, Act, pure, on_store, ◌>>=◌, wall_now}
use fsm_go.Store.{Store}
use Sorting.{sort_stable}

pub record MemoryStore : Type 0 where
  pub instances : Dict WorkflowInstance
  pub tasks : Dict TaskExecution
  pub history : List ExecutionHistory
  pub idempotency : Dict String
  pub outbox : Dict OutboxMessage

pub record ScanOrder : Type 0 where
  pub tasks : List TaskExecution → List TaskExecution
  pub outbox : List OutboxMessage → List OutboxMessage
  pub tasks_perm : (xs : List TaskExecution) → Permᴰ (tasks xs) xs
  pub outbox_perm : (xs : List OutboxMessage) → Permᴰ (outbox xs) xs

abbrev pub new_memory_store : MemoryStore
new_memory_store = record {
  instances = [];
  tasks = [];
  history = [];
  idempotency = [];
  outbox = [];
}

abbrev pub clone_instance : WorkflowInstance → WorkflowInstance
clone_instance i = record i { fields = clone_map i.fields }

abbrev pub clone_task : TaskExecution → TaskExecution
clone_task t = record t { input = clone_map t.input; output = clone_map t.output }

abbrev pub clone_history : ExecutionHistory → ExecutionHistory
clone_history h = record h { payload = clone_map h.payload }

abbrev pub clone_outbox : OutboxMessage → OutboxMessage
clone_outbox m = record m { payload = clone_map m.payload }

-- `for _, task := range tasks { s.tasks[task.ID] = cloneTask(task) }`
abbrev pub put_tasks : List TaskExecution → Dict TaskExecution → Dict TaskExecution
put_tasks ts = insert_all (λ t. t.id) (map clone_task ts)

abbrev pub put_outbox : List OutboxMessage → Dict OutboxMessage → Dict OutboxMessage
put_outbox ms = insert_all (λ m. m.id) (map clone_outbox ms)

-- appendHistoryLocked
abbrev pub append_locked : List ExecutionHistory → List ExecutionHistory → List ExecutionHistory
append_locked items history = history ++ map clone_history items

unfoldable pub create_instance :
    CreateInstanceRequest → MemoryStore → Result (Unit {0}) × MemoryStore
create_instance req s = (
  ok tt,
  record s {
    instances = insert req.instance.id (clone_instance req.instance) s.instances;
    history = append_locked req.history s.history;
    tasks = put_tasks req.tasks s.tasks;
    outbox = put_outbox req.outbox s.outbox;
  },
)

unfoldable pub get_instance : String → MemoryStore → Result WorkflowInstance × MemoryStore
get_instance id s = elim (lookup id s.instances) [
  | none ↦ (err (not_found "workflow_instance" id), s)
  | some i ↦ (ok (clone_instance i), s)
]

unfoldable pub update_instance :
    UpdateInstanceRequest → MemoryStore → Result (Unit {0}) × MemoryStore
update_instance req s = elim (lookup req.instance.id s.instances) [
  | none ↦ (err (not_found "workflow_instance" req.instance.id), s)
  | some current ↦
      if not (eq_ℤ current.revision req.expected_revision)
      then (err (concurrent_update req.instance.id), s)
      else (
        ok tt,
        record s {
          instances = insert req.instance.id (clone_instance req.instance) s.instances;
          history = append_locked req.history s.history;
          tasks = put_tasks req.tasks s.tasks;
          outbox = put_outbox req.outbox s.outbox;
        },
      )
]

unfoldable pub append_history :
    List ExecutionHistory → MemoryStore → Result (Unit {0}) × MemoryStore
append_history items s = (ok tt, record s { history = append_locked items s.history })

-- the less function of the sort: out[i].CreatedAt.Before(out[j].CreatedAt)
abbrev pub created_before : ExecutionHistory → ExecutionHistory → Bool
created_before a b = ltb_ℤ a.created_at b.created_at

unfoldable pub list_history : String → MemoryStore → Result (List ExecutionHistory) × MemoryStore
list_history instance_id s = (
  ok (
      sort_stable created_before
        (map clone_history (keep (λ h. h.instance_id == instance_id) s.history))),
  s,
)

-- task.Status == TaskPending || task.Status == TaskRetrying
abbrev pub is_waiting : TaskStatus → Bool
is_waiting TaskStatus.pending = true
is_waiting TaskStatus.retrying = true
is_waiting _ = false

-- waiting, and !task.NextRunAt.After(now)
abbrev pub is_due : Time → TaskExecution → Bool
is_due now t = is_waiting t.status && not (ltb_ℤ now t.next_run_at)

-- the scan of ListDueTasks, which ends once `out` has `limit` tasks
unfoldable pub scan_due : ℤ → Time → List TaskExecution → List TaskExecution → List TaskExecution
scan_due limit now [] out = out
scan_due limit now (t ∷ ts) out =
    let rest = scan_due limit now ts (if is_due now t then out ++ clone_task t ∷ [] else out) in
    if leb_ℤ limit (pos (length out)) then out else rest

abbrev pub runs_before : TaskExecution → TaskExecution → Bool
runs_before a b = ltb_ℤ a.next_run_at b.next_run_at

unfoldable pub list_due_tasks :
    ScanOrder → ℤ → Time → MemoryStore → Result (List TaskExecution) × MemoryStore
list_due_tasks order limit now s =
    (ok (sort_stable runs_before (scan_due limit now (order.tasks (values s.tasks)) [])), s)

-- `now` is the reading of the system clock that marks the update
unfoldable pub mark_task_running :
    String → ℤ → Time → MemoryStore → Result TaskExecution × MemoryStore
mark_task_running id attempt now s = elim (lookup id s.tasks) [
  | none ↦ (err (not_found "task_execution" id), s)
  | some t ↦
      if not (eq_ℤ t.attempt attempt) || not (is_waiting t.status)
      then (err (concurrent_update t.instance_id), s)
      else let marked = clone_task (record t { status = TaskStatus.running; updated_at = now }) in
        (ok (clone_task marked), record s { tasks = insert id marked s.tasks })
]

unfoldable pub complete_task : CompleteTaskRequest → MemoryStore → Result (Unit {0}) × MemoryStore
complete_task req s = (
  ok tt,
  record s {
    history = append_locked req.history s.history;
    tasks = put_tasks req.tasks (insert req.task.id (clone_task req.task) s.tasks);
    outbox = put_outbox req.outbox s.outbox;
  },
)

abbrev pub scoped : String → String → String
scoped scope key = append scope (append ":" key)

unfoldable pub record_idempotency :
    String → String → String → MemoryStore → Result Bool × MemoryStore
record_idempotency scope key result_id s = elim (lookup (scoped scope key) s.idempotency) [
  | some existing ↦ (ok (existing == result_id), s)
  | none ↦ (ok true, record s { idempotency = insert (scoped scope key) result_id s.idempotency })
]

unfoldable pub get_idempotency :
    String → String → MemoryStore → Result (Option String) × MemoryStore
get_idempotency scope key s = (ok (lookup (scoped scope key) s.idempotency), s)

unfoldable pub append_outbox : List OutboxMessage → MemoryStore → Result (Unit {0}) × MemoryStore
append_outbox ms s = (ok tt, record s { outbox = put_outbox ms s.outbox })

abbrev pub is_unpublished : OutboxMessage → Bool
is_unpublished m = m.status == "" || m.status == "pending"

-- the scan of ListOutbox; a limit of zero or less is none
unfoldable pub scan_outbox : ℤ → List OutboxMessage → List OutboxMessage → List OutboxMessage
scan_outbox limit [] out = out
scan_outbox limit (m ∷ ms) out =
    let rest =
      scan_outbox limit ms (if is_unpublished m then out ++ clone_outbox m ∷ [] else out) in
    if ltb_ℤ (pos 0) limit && leb_ℤ limit (pos (length out)) then out else rest

unfoldable pub list_outbox : ScanOrder → ℤ → MemoryStore → Result (List OutboxMessage) × MemoryStore
list_outbox order limit s = (ok (scan_outbox limit (order.outbox (values s.outbox)) []), s)

unfoldable pub mark_outbox_published : String → Time → MemoryStore → Result (Unit {0}) × MemoryStore
mark_outbox_published id now s = elim (lookup id s.outbox) [
  | none ↦ (err (not_found "outbox" id), s)
  | some m ↦ (
    ok tt,
    record s { outbox = insert id (record m { status = "published"; updated_at = now }) s.outbox },
  )
]

-- The store as an implementation of the interface. `MarkTaskRunning` and `MarkOutboxPublished`
-- read the system clock, here at once: a reading that an error leaves unused moves the counter only.
abbrev pub memory_store : ⦃env : Env⦄ → ScanOrder → Store MemoryStore
memory_store order = record {
  create_instance = λ req. on_store (create_instance req);
  get_instance = λ id. on_store (get_instance id);
  update_instance = λ req. on_store (update_instance req);
  append_history = λ items. on_store (append_history items);
  list_history = λ id. on_store (list_history id);
  list_due_tasks = λ limit now. on_store (list_due_tasks order limit now);
  mark_task_running = λ id attempt. wall_now >>= λ now. on_store (mark_task_running id attempt now);
  complete_task = λ req. on_store (complete_task req);
  record_idempotency = λ scope key id. on_store (record_idempotency scope key id);
  get_idempotency = λ scope key. on_store (get_idempotency scope key);
  append_outbox = λ ms. on_store (append_outbox ms);
  list_outbox = λ limit. on_store (list_outbox order limit);
  mark_outbox_published = λ id. wall_now >>= λ now. on_store (mark_outbox_published id now);
}
