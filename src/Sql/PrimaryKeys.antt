-- ===== src/Sql/PrimaryKeys.antt =====
-- The primary keys of the five tables as an invariant of the store of
-- persistence/internal/sqlstore/store.go.
pub mod Kept
use fsm_go.Prelude.{
  String, ℤ, ◌≡◌, refl, ◌&&◌, none, some, List, [], ◌∷◌, ◌==◌, Option-cases, inl, inr, first,
  if◌then◌else◌, Bool, eqb,
}
use fsm_go.Errors.{Error, Result, ok, err, concurrent_update}
use fsm_go.Types.{
  Time, TaskExecution, ExecutionHistory, OutboxMessage, CreateInstanceRequest,
  UpdateInstanceRequest, CompleteTaskRequest, WorkflowInstance,
}
use fsm_go.World.{Env, Act}
use fsm_go.Sql.Database.{Database, call, insert_row, placed}
use fsm_go.Sql.Calls.{insert_row-ok, placed-keeps}
use fsm_go.Sql.Rows.{InstanceRow, TaskRow, HistoryRow, KeyRow, OutboxRow, Tables}
use fsm_go.Sql.Writes
use fsm_go.Sql.Writes.{
  has_key, add_history_row, add_task_row, add_outbox_row, add_instance_row, add_key_row,
  update_instance_row, at_revision, set_instance, claim_row, is_claimable, set_running,
  complete_row, set_task, publish_row, insert_history, insert_tasks, insert_outbox, with_defaults,
  append_all, create_instance, create_body, update_instance, update_body, complete_task,
  complete_body, append_history, append_outbox, mark_task_running, get_idempotency,
  record_idempotency, mark_outbox_published,
}
use fsm_go.Sql.Unique.{AreUnique, AreUnique-insert, AreUnique-update, same_key}
use fsm_go.Sql.Keeps.{
  Keeps, Keeps-pure, Keeps-raise, Keeps-lift, Keeps-try, Keeps-wrapped, Keeps-if, Keeps-call,
  Keeps-query, Keeps-wall_now, Keeps-new_id, Keeps-bind, Keeps-with_tx,
}

-- the rows have one scope and one key
abbrev pub same_pair : KeyRow → KeyRow → Bool
same_pair a b = has_key b.scope b.idem_key a

pub record HasPrimaryKeys (t : Tables) : Type 0 where
  pub instances : AreUnique (same_key (λ r. r.id)) t.instances
  pub tasks : AreUnique (same_key (λ r. r.id)) t.tasks
  pub history : AreUnique (same_key (λ r. r.id)) t.history
  pub idempotency : AreUnique same_pair t.idempotency
  pub outbox : AreUnique (same_key (λ r. r.id)) t.outbox

abbrev pub KeepsKeys : {A : Type 0} → Act Tables A → Type 0
KeepsKeys m = Keeps HasPrimaryKeys m

module _ ⦃db : Database⦄ where
  -- an insertion, into the table that `put` writes
  Keeps-insert :
      {R : Type 0} (table : String) (same : R → R → Bool) (row : R) (rows : Tables → List R)
      (put : List R → Tables → Tables)
      → ((t : Tables) → HasPrimaryKeys t → AreUnique same (rows t))
      → ((t : Tables) (new : List R)
          → HasPrimaryKeys t
          → AreUnique same new
          → HasPrimaryKeys (put new t))
      → KeepsKeys (
          call (λ t. placed (insert_row table (λ r. same r row) row (rows t)) (λ new. put new t) t))
  Keeps-insert table same row rows put get set = Keeps-call _ λ t h.
      placed-keeps HasPrimaryKeys _ _ t h λ new inserted.
        let (fresh, new_eq) = insert_row-ok table (λ r. same r row) row (rows t) new inserted in
        set t new h (rw new_eq (AreUnique-insert same row (rows t) (get t h) fresh))

  pub add_instance_row-keys : (row : InstanceRow) → KeepsKeys (call (add_instance_row row))
  add_instance_row-keys row =
      Keeps-insert "workflow_instance" (same_key (λ r. r.id)) row (λ t. t.instances)
        (λ new t. record t { instances = new }) (λ t h. h.instances)
        (λ t new h k. record {
          instances = k;
          tasks = h.tasks;
          history = h.history;
          idempotency = h.idempotency;
          outbox = h.outbox;
        })

  pub add_task_row-keys : (row : TaskRow) → KeepsKeys (call (add_task_row row))
  add_task_row-keys row =
      Keeps-insert "workflow_task" (same_key (λ r. r.id)) row (λ t. t.tasks)
        (λ new t. record t { tasks = new }) (λ t h. h.tasks)
        (λ t new h k. record {
          instances = h.instances;
          tasks = k;
          history = h.history;
          idempotency = h.idempotency;
          outbox = h.outbox;
        })

  pub add_history_row-keys : (row : HistoryRow) → KeepsKeys (call (add_history_row row))
  add_history_row-keys row =
      Keeps-insert "workflow_history" (same_key (λ r. r.id)) row (λ t. t.history)
        (λ new t. record t { history = new }) (λ t h. h.history)
        (λ t new h k. record {
          instances = h.instances;
          tasks = h.tasks;
          history = k;
          idempotency = h.idempotency;
          outbox = h.outbox;
        })

  pub add_key_row-keys : (row : KeyRow) → KeepsKeys (call (add_key_row row))
  add_key_row-keys row =
      Keeps-insert "workflow_idempotency" same_pair row (λ t. t.idempotency)
        (λ new t. record t { idempotency = new }) (λ t h. h.idempotency)
        (λ t new h k. record {
          instances = h.instances;
          tasks = h.tasks;
          history = h.history;
          idempotency = k;
          outbox = h.outbox;
        })

  pub add_outbox_row-keys : (row : OutboxRow) → KeepsKeys (call (add_outbox_row row))
  add_outbox_row-keys row =
      Keeps-insert "workflow_outbox" (same_key (λ r. r.id)) row (λ t. t.outbox)
        (λ new t. record t { outbox = new }) (λ t h. h.outbox)
        (λ t new h k. record {
          instances = h.instances;
          tasks = h.tasks;
          history = h.history;
          idempotency = h.idempotency;
          outbox = k;
        })

  pub update_instance_row-keys :
      (i : WorkflowInstance) (fields : String) (expected : ℤ)
      → KeepsKeys (call (update_instance_row i fields expected))
  update_instance_row-keys i fields expected = Keeps-call _ λ t h. record {
    instances =
        AreUnique-update (same_key (λ r. r.id)) _ _ (λ r later. refl) (λ r later. refl) t.instances
          h.instances;
    tasks = h.tasks;
    history = h.history;
    idempotency = h.idempotency;
    outbox = h.outbox;
  }

  pub claim_row-keys :
      (id : String) (attempt : ℤ) (now : Time) → KeepsKeys (call (claim_row id attempt now))
  claim_row-keys id attempt now = Keeps-call _ λ t h. record {
    instances = h.instances;
    tasks =
        AreUnique-update (same_key (λ r. r.id)) _ _ (λ r later. refl) (λ r later. refl) t.tasks
          h.tasks;
    history = h.history;
    idempotency = h.idempotency;
    outbox = h.outbox;
  }

  pub complete_row-keys :
      (task : TaskExecution) (input output : String)
      → KeepsKeys (call (complete_row task input output))
  complete_row-keys task input output = Keeps-call _ λ t h. record {
    instances = h.instances;
    tasks =
        AreUnique-update (same_key (λ r. r.id)) _ _ (λ r later. refl) (λ r later. refl) t.tasks
          h.tasks;
    history = h.history;
    idempotency = h.idempotency;
    outbox = h.outbox;
  }

  pub publish_row-keys : (id : String) (now : Time) → KeepsKeys (call (publish_row id now))
  publish_row-keys id now = Keeps-call _ λ t h. record {
    instances = h.instances;
    tasks = h.tasks;
    history = h.history;
    idempotency = h.idempotency;
    outbox =
        AreUnique-update (same_key (λ r. r.id)) _ _ (λ r later. refl) (λ r later. refl) t.outbox
          h.outbox;
  }
