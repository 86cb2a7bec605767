-- ===== src/Sql/Keeps/Inserts.antt =====
-- The loops of persistence/internal/sqlstore/store.go that insert rows keep what each insertion keeps.
use fsm_go.Prelude.{List, [], ◌∷◌, ◌==◌}
use fsm_go.Types.{TaskExecution, ExecutionHistory, OutboxMessage}
use fsm_go.World.{Env}
use fsm_go.Sql.Database.{Database, call}
use fsm_go.Sql.Rows.{
  TaskRow, HistoryRow, OutboxRow, Tables, marshal, history_row, task_row, outbox_row,
}
use fsm_go.Sql.Writes.{
  add_history_row, add_task_row, add_outbox_row, insert_history, insert_tasks, insert_outbox,
  with_defaults, append_all,
}
use fsm_go.Sql.Keeps.{
  Keeps, Keeps-pure, Keeps-lift, Keeps-wrapped, Keeps-if, Keeps-new_id, Keeps-bind,
}

module _ ⦃env : Env⦄ ⦃db : Database⦄ {P : Tables → Type 0}
    (history_kept : (row : HistoryRow) → Keeps P (call (add_history_row row)))
    (task_kept : (row : TaskRow) → Keeps P (call (add_task_row row)))
    (outbox_kept : (row : OutboxRow) → Keeps P (call (add_outbox_row row))) where
  pub insert_history-Keeps : (items : List ExecutionHistory) → Keeps P (insert_history items)
  unfolding insert_history
  insert_history-Keeps [] = Keeps-pure tt
  insert_history-Keeps (item ∷ items) = Keeps-bind (Keeps-lift (marshal item.payload)) λ payload.
      Keeps-bind (Keeps-wrapped _ (history_kept (history_row item payload)))
        λ _. insert_history-Keeps items

  insert_tasks-Keeps : (tasks : List TaskExecution) → Keeps P (insert_tasks tasks)
  unfolding insert_tasks
  insert_tasks-Keeps [] = Keeps-pure tt
  insert_tasks-Keeps (task ∷ tasks) = Keeps-bind (Keeps-lift (marshal task.input)) λ input.
      Keeps-bind (Keeps-lift (marshal task.output)) λ output.
        Keeps-bind (Keeps-wrapped _ (task_kept (task_row task input output)))
          λ _. insert_tasks-Keeps tasks

  with_defaults-Keeps : (msg : OutboxMessage) → Keeps P (with_defaults msg)
  unfolding with_defaults
  with_defaults-Keeps msg =
      Keeps-bind (Keeps-if (msg.id == "") (Keeps-new_id "msg") (Keeps-pure msg.id))
        λ id. record { at = λ w h. h }

  pub insert_outbox-Keeps : (msgs : List OutboxMessage) → Keeps P (insert_outbox msgs)
  unfolding insert_outbox
  insert_outbox-Keeps [] = Keeps-pure tt
  insert_outbox-Keeps (msg ∷ msgs) = Keeps-bind (with_defaults-Keeps msg) λ full.
      Keeps-bind (Keeps-lift (marshal full.payload)) λ payload.
        Keeps-bind (Keeps-wrapped _ (outbox_kept (outbox_row full payload)))
          λ _. insert_outbox-Keeps msgs

  pub append_all-Keeps :
      (history : List ExecutionHistory) (tasks : List TaskExecution) (outbox : List OutboxMessage)
      → Keeps P (append_all history tasks outbox)
  unfolding append_all
  append_all-Keeps history tasks outbox =
      Keeps-bind (insert_history-Keeps history)
        λ _. Keeps-bind (insert_tasks-Keeps tasks) λ _. insert_outbox-Keeps outbox
