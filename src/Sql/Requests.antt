-- ===== src/Sql/Requests.antt =====
-- The writing methods of persistence/internal/sqlstore/store.go as data, so that what the clients of a database
-- ask for is a list, in the order in which the database carries the calls out.
use fsm_go.Prelude.{ℤ, String, List, [], ◌∷◌}
use fsm_go.Types.{
  ExecutionHistory, OutboxMessage, CreateInstanceRequest, UpdateInstanceRequest,
  CompleteTaskRequest,
}
use fsm_go.World.{Env, World}
use fsm_go.Sql.Database.{Database}
use fsm_go.Sql.Rows.{Tables}
use fsm_go.Sql.Writes.{
  create_instance, update_instance, complete_task, append_history, append_outbox, mark_task_running,
  record_idempotency, mark_outbox_published,
}

pub data Request : Type 0 where
  create : CreateInstanceRequest → Request
  update : UpdateInstanceRequest → Request
  complete : CompleteTaskRequest → Request
  add_history : List ExecutionHistory → Request
  add_outbox : List OutboxMessage → Request
  mark_running : String → ℤ → Request
  record_key : String → String → String → Request
  mark_published : String → Request

module _ ⦃env : Env⦄ ⦃db : Database⦄ where
  -- the world after a request, whether it succeeded or not
  unfoldable pub serve : Request → World Tables → World Tables
  serve (create req) w = (create_instance req w).1
  serve (update req) w = (update_instance req w).1
  serve (complete req) w = (complete_task req w).1
  serve (add_history items) w = (append_history items w).1
  serve (add_outbox msgs) w = (append_outbox msgs w).1
  serve (mark_running id attempt) w = (mark_task_running id attempt w).1
  serve (record_key scope key id) w = (record_idempotency scope key id w).1
  serve (mark_published id) w = (mark_outbox_published id w).1

  unfoldable pub serve_all : List Request → World Tables → World Tables
  serve_all [] w = w
  serve_all (request ∷ requests) w = serve_all requests (serve request w)
