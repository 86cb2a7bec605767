-- ===== src/Store.antt =====
-- The `Store` interface of workflow/interfaces.go: the operations that the runtime takes as a
-- parameter. A store may read the clock or draw an identifier, so each operation is an action.
use fsm_go.Prelude.{ℤ, String, Bool, Option, List}
use fsm_go.Types.{
  Time, WorkflowInstance, TaskExecution, ExecutionHistory, OutboxMessage, CreateInstanceRequest,
  UpdateInstanceRequest, CompleteTaskRequest,
}
use fsm_go.World.{Act}

pub record Store (S : Type 0) : Type 0 where
  pub create_instance : CreateInstanceRequest → Act S (Unit {0})
  pub get_instance : String → Act S WorkflowInstance
  pub update_instance : UpdateInstanceRequest → Act S (Unit {0})
  pub append_history : List ExecutionHistory → Act S (Unit {0})
  pub list_history : String → Act S (List ExecutionHistory)
  pub list_due_tasks : ℤ → Time → Act S (List TaskExecution)
  pub mark_task_running : String → ℤ → Act S TaskExecution
  pub complete_task : CompleteTaskRequest → Act S (Unit {0})
  pub record_idempotency : String → String → String → Act S Bool
  pub get_idempotency : String → String → Act S (Option String)
  pub append_outbox : List OutboxMessage → Act S (Unit {0})
  pub list_outbox : ℤ → Act S (List OutboxMessage)
  pub mark_outbox_published : String → Act S (Unit {0})
