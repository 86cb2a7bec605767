-- ===== src/Memory/Ops.antt =====
-- The writing operations of the memory store as data, so that the calls of any number of workers are a
-- list: the mutex makes each call one step, and the list is their order.
use fsm_go.Prelude.{ℤ, String, List, [], ◌∷◌, All}
use fsm_go.Types.{
  Time, ExecutionHistory, OutboxMessage, CreateInstanceRequest, UpdateInstanceRequest,
  CompleteTaskRequest,
}
use fsm_go.Memory.{
  MemoryStore, create_instance, update_instance, append_history, mark_task_running, complete_task,
  record_idempotency, append_outbox, mark_outbox_published,
}

pub data Op : Type 0 where
  create : CreateInstanceRequest → Op
  update : UpdateInstanceRequest → Op
  add_history : List ExecutionHistory → Op
  mark_running : String → ℤ → Time → Op
  complete : CompleteTaskRequest → Op
  record_key : String → String → String → Op
  add_outbox : List OutboxMessage → Op
  mark_published : String → Time → Op

-- the store after an operation, whether it succeeded or not
unfoldable pub apply_op : Op → MemoryStore → MemoryStore
apply_op (create req) s = (create_instance req s).1
apply_op (update req) s = (update_instance req s).1
apply_op (add_history items) s = (append_history items s).1
apply_op (mark_running id attempt now) s = (mark_task_running id attempt now s).1
apply_op (complete req) s = (complete_task req s).1
apply_op (record_key scope key id) s = (record_idempotency scope key id s).1
apply_op (add_outbox ms) s = (append_outbox ms s).1
apply_op (mark_published id now) s = (mark_outbox_published id now s).1

unfoldable pub run_ops : List Op → MemoryStore → MemoryStore
run_ops [] s = s
run_ops (op ∷ ops) s = run_ops ops (apply_op op s)

-- What each operation keeps, under a condition on it, a run keeps.
module _ {κ μ} (P : MemoryStore → Type κ) (Q : Op → Type μ)
    (keeps : (op : Op) (s : MemoryStore) → Q op → P s → P (apply_op op s)) where
  pub run_ops_induction : (ops : List Op) (s : MemoryStore) → All Q ops → P s → P (run_ops ops s)
  unfolding run_ops
  run_ops_induction [] s q h = h
  run_ops_induction (op ∷ ops) s q h = run_ops_induction ops (apply_op op s) q.1 (keeps op s q.0 h)

-- what every operation keeps, every run keeps
pub run_ops_keeps {κ} :
    (P : MemoryStore → Type κ)
    → ((op : Op) (s : MemoryStore) → P s → P (apply_op op s))
    → (ops : List Op) (s : MemoryStore) → P s
    → P (run_ops ops s)
unfolding run_ops
run_ops_keeps P keeps [] s h = h
run_ops_keeps P keeps (op ∷ ops) s h = run_ops_keeps P keeps ops (apply_op op s) (keeps op s h)
