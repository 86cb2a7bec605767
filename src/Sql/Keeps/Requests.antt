-- ===== src/Sql/Keeps/Requests.antt =====
-- What every statement of persistence/internal/sqlstore/store.go keeps, any sequence of requests keeps.
use fsm_go.Prelude.{All, String, ℤ, true, Option, first, List, [], ◌∷◌, eqb}
use fsm_go.Errors.{Error, Result, ok, err, not_found, concurrent_update}
use fsm_go.Types.{Time, CreateInstanceRequest, UpdateInstanceRequest, CompleteTaskRequest}
use fsm_go.World.{Env, World}
use fsm_go.Sql.Database.{Database, call}
use fsm_go.Sql.Rows.{
  TaskRow, HistoryRow, KeyRow, OutboxRow, Tables, instance_row, marshal, scan_one, scan_task,
}
use fsm_go.Sql.Writes.{
  add_instance_row, add_task_row, add_history_row, add_key_row, add_outbox_row, update_instance_row,
  claim_row, complete_row, publish_row, create_instance, create_body, update_instance, update_body,
  complete_task, complete_body, append_history, append_outbox, mark_task_running, has_key,
  result_of, is_answer, key_row, compare_known, after_insert, task_with, get_idempotency,
  record_idempotency, mark_outbox_published,
}
use fsm_go.Sql.Requests.{
  Request, create, update, complete, add_history, add_outbox, mark_running, record_key,
  mark_published, serve, serve_all,
}
use fsm_go.Sql.Keeps.{
  Keeps, Keeps-pure, Keeps-raise, Keeps-lift, Keeps-try, Keeps-wrapped, Keeps-if, Keeps-query,
  Keeps-wall_now, Keeps-bind, Keeps-with_tx,
}
use fsm_go.Sql.Keeps.Inserts.{insert_history-Keeps, insert_outbox-Keeps, append_all-Keeps}

module _ ⦃db : Database⦄ (P : Tables → Type 0) where
  -- the statements that write no given record over a row
  pub record StatementsKeep : Type 0 where
    pub add_history : (row : HistoryRow) → Keeps P (call (add_history_row row))
    pub add_task : (row : TaskRow) → Keeps P (call (add_task_row row))
    pub add_outbox : (row : OutboxRow) → Keeps P (call (add_outbox_row row))
    pub add_key : (row : KeyRow) → Keeps P (call (add_key_row row))
    pub claim : (id : String) (attempt : ℤ) (now : Time) → Keeps P (call (claim_row id attempt now))
    pub publish : (id : String) (now : Time) → Keeps P (call (publish_row id now))

  -- what the request writes to an instance, or over a task, keeps `P`
  abbrev pub Allows : Request → Type 0
  Allows (create req) =
      (fields : String) → Keeps P (call (add_instance_row (instance_row req.instance fields)))
  Allows (update req) =
      (fields : String)
      → Keeps P (call (update_instance_row req.instance fields req.expected_revision))
  Allows (complete req) =
      (input output : String) → Keeps P (call (complete_row req.task input output))
  Allows _ = Unit {0}

module _ ⦃env : Env⦄ ⦃db : Database⦄ {P : Tables → Type 0} (k : StatementsKeep P) where
  create_body-Keeps :
      (req : CreateInstanceRequest) → Allows P (create req) → Keeps P (create_body req)
  unfolding create_body
  create_body-Keeps req allowed = Keeps-bind (Keeps-lift (marshal req.instance.fields)) λ fields.
      Keeps-bind (Keeps-wrapped _ (allowed fields))
        λ _. append_all-Keeps k.add_history k.add_task k.add_outbox req.history req.tasks req.outbox

  update_body-Keeps :
      (req : UpdateInstanceRequest) → Allows P (update req) → Keeps P (update_body req)
  unfolding update_body
  update_body-Keeps req allowed = Keeps-bind (Keeps-lift (marshal req.instance.fields)) λ fields.
      Keeps-bind (Keeps-wrapped _ (allowed fields)) λ affected.
        Keeps-if (eqb affected 1)
          (append_all-Keeps k.add_history k.add_task k.add_outbox req.history req.tasks req.outbox)
          (Keeps-raise _)

  complete_body-Keeps :
      (req : CompleteTaskRequest) → Allows P (complete req) → Keeps P (complete_body req)
  unfolding complete_body
  complete_body-Keeps req allowed = Keeps-bind (Keeps-lift (marshal req.task.input)) λ input.
      Keeps-bind (Keeps-lift (marshal req.task.output)) λ output.
        Keeps-bind (Keeps-wrapped _ (allowed input output)) λ _.
          append_all-Keeps k.add_history k.add_task k.add_outbox req.history req.tasks req.outbox

  mark_task_running-Keeps : (id : String) (attempt : ℤ) → Keeps P (mark_task_running id attempt)
  unfolding mark_task_running
  mark_task_running-Keeps id attempt = Keeps-bind Keeps-wall_now λ now.
      Keeps-bind (k.claim id attempt now) λ affected.
        Keeps-if (eqb affected 1)
          (Keeps-query (λ t. scan_one scan_task (not_found "task_execution" "") (task_with id t)))
          (Keeps-raise (concurrent_update id))

  compare_known-Keeps :
      (id : String) (refusal : Error) (known : Result (Option String))
      → Keeps P (compare_known id refusal known)
  compare_known-Keeps id refusal (ok existing) = Keeps-pure (is_answer id existing)
  compare_known-Keeps id refusal (err _) = Keeps-raise refusal

  get_idempotency-Keeps : (scope key : String) → Keeps P (get_idempotency scope key)
  unfolding get_idempotency
  get_idempotency-Keeps scope key =
      Keeps-query (λ t. ok (result_of (first (has_key scope key) t.idempotency)))

  after_insert-Keeps :
      (scope key id : String) (inserted : Result (Unit {0}))
      → Keeps P (after_insert scope key id inserted)
  after_insert-Keeps scope key id (ok _) = Keeps-pure true
  after_insert-Keeps scope key id (err refusal) =
      Keeps-bind (Keeps-try (get_idempotency-Keeps scope key)) (compare_known-Keeps id refusal)

  record_idempotency-Keeps : (scope key id : String) → Keeps P (record_idempotency scope key id)
  unfolding record_idempotency
  record_idempotency-Keeps scope key id = Keeps-bind Keeps-wall_now λ now.
      Keeps-bind (Keeps-try (k.add_key (key_row scope key id now)))
        (after_insert-Keeps scope key id)

  serve-Keeps :
      (request : Request) (w : World Tables)
      → Allows P request
      → P w.store
      → P (serve request w).store
  unfolding serve create_instance update_instance complete_task append_history append_outbox
      mark_outbox_published
  serve-Keeps (create req) w allowed = (Keeps-with_tx (create_body-Keeps req allowed)).at w
  serve-Keeps (update req) w allowed = (Keeps-with_tx (update_body-Keeps req allowed)).at w
  serve-Keeps (complete req) w allowed = (Keeps-with_tx (complete_body-Keeps req allowed)).at w
  serve-Keeps (add_history items) w allowed =
      (Keeps-with_tx (insert_history-Keeps k.add_history k.add_task k.add_outbox items)).at w
  serve-Keeps (add_outbox msgs) w allowed =
      (Keeps-with_tx (insert_outbox-Keeps k.add_history k.add_task k.add_outbox msgs)).at w
  serve-Keeps (mark_running id attempt) w allowed = (mark_task_running-Keeps id attempt).at w
  serve-Keeps (record_key scope key id) w allowed = (record_idempotency-Keeps scope key id).at w
  serve-Keeps (mark_published id) w allowed =
      (Keeps-bind Keeps-wall_now (λ now. k.publish id now)).at w

  pub serve_all-Keeps :
      (requests : List Request) (w : World Tables)
      → All (Allows P) requests
      → P w.store
      → P (serve_all requests w).store
  unfolding serve_all
  serve_all-Keeps [] w allowed h = h
  serve_all-Keeps (request ∷ requests) w allowed h =
      serve_all-Keeps requests (serve request w) allowed.1 (serve-Keeps request w allowed.0 h)
