-- ===== src/Sql/Shown/Statements.antt =====
-- The statements of persistence/internal/sqlstore/store.go as writes of a store in memory.
use fsm_go.Prelude.{◌≡◌, ap, List, [], ◌∷◌, ◌++◌, ◌==◌}
use fsm_go.Dict.{insert}
use fsm_go.Errors.{Result, ok, >>=-eq-ok, ok-injective}
use fsm_go.Types.{WorkflowInstance, TaskExecution, ExecutionHistory, OutboxMessage}
use fsm_go.Memory.{MemoryStore}
use fsm_go.Sql.Database.{Database}
use fsm_go.Sql.Rows.{
  InstanceRow, TaskRow, HistoryRow, OutboxRow, Tables, scan_instance, scan_task, scan_history,
  scan_outbox, scan_rows,
}
use fsm_go.Sql.Writes.{add_instance_row, add_task_row, add_history_row, add_outbox_row}
use fsm_go.Sql.Calls.{insert_row-ok, placed-ok}
use fsm_go.Sql.Shown.{Shows, Holds-insert}

scan_rows-append :
    {R A : Type 0} (scan : R → Result A) (rows : List R) (row : R) (items : List A) (a : A)
    → scan_rows scan rows ≡ ok items
    → scan row ≡ ok a
    → scan_rows scan (rows ++ row ∷ []) ≡ ok (items ++ a ∷ [])
unfolding scan_rows
scan_rows-append scan [] row items a h k = rw k (ap (λ xs. ok (xs ++ a ∷ [])) (ok-injective h))
scan_rows-append scan (r ∷ rows) row items a h k =
    let (x, x_eq, h1) = >>=-eq-ok (scan r) _ h in
    let (xs, xs_eq, h2) = >>=-eq-ok (scan_rows scan rows) _ h1 in
    rw (x_eq, scan_rows-append scan rows row xs a xs_eq k)
      (ap (λ xs. ok (xs ++ a ∷ [])) (ok-injective h2))

module _ ⦃db : Database⦄ (t t' : Tables) (s : MemoryStore) (h : Shows t s) where
  pub Shows-add_history_row :
      (row : HistoryRow) (a : ExecutionHistory)
      → add_history_row row t ≡ (ok tt, t')
      → scan_history row ≡ ok a
      → Shows t' (record s { history = s.history ++ a ∷ [] })
  Shows-add_history_row row a done scanned =
      let (rows, inserted, t_eq) = placed-ok _ (λ rows. record t { history = rows }) t t' done in
      let (fresh, rows_eq) = insert_row-ok _ (λ r. r.id == row.id) row t.history rows inserted in
      rw (t_eq, rows_eq)
        (record {
          instances = h.instances;
          tasks = h.tasks;
          outbox = h.outbox;
          history = scan_rows-append scan_history t.history row s.history a h.history scanned;
          idempotency = h.idempotency;
        })

  pub Shows-add_instance_row :
      (row : InstanceRow) (a : WorkflowInstance)
      → add_instance_row row t ≡ (ok tt, t')
      → scan_instance row ≡ ok a
      → Shows t' (record s { instances = insert row.id a s.instances })
  Shows-add_instance_row row a done scanned =
      let (rows, inserted, t_eq) = placed-ok _ (λ rows. record t { instances = rows }) t t' done in
      let (fresh, rows_eq) = insert_row-ok _ (λ r. r.id == row.id) row t.instances rows inserted in
      rw (t_eq, rows_eq)
        (record {
          instances =
              Holds-insert scan_instance (λ r. r.id) t.instances s.instances row a h.instances
                scanned fresh;
          tasks = h.tasks;
          outbox = h.outbox;
          history = h.history;
          idempotency = h.idempotency;
        })

  pub Shows-add_task_row :
      (row : TaskRow) (a : TaskExecution)
      → add_task_row row t ≡ (ok tt, t')
      → scan_task row ≡ ok a
      → Shows t' (record s { tasks = insert row.id a s.tasks })
  Shows-add_task_row row a done scanned =
      let (rows, inserted, t_eq) = placed-ok _ (λ rows. record t { tasks = rows }) t t' done in
      let (fresh, rows_eq) = insert_row-ok _ (λ r. r.id == row.id) row t.tasks rows inserted in
      rw (t_eq, rows_eq)
        (record {
          instances = h.instances;
          tasks = Holds-insert scan_task (λ r. r.id) t.tasks s.tasks row a h.tasks scanned fresh;
          outbox = h.outbox;
          history = h.history;
          idempotency = h.idempotency;
        })

  pub Shows-add_outbox_row :
      (row : OutboxRow) (a : OutboxMessage)
      → add_outbox_row row t ≡ (ok tt, t')
      → scan_outbox row ≡ ok a
      → Shows t' (record s { outbox = insert row.id a s.outbox })
  Shows-add_outbox_row row a done scanned =
      let (rows, inserted, t_eq) = placed-ok _ (λ rows. record t { outbox = rows }) t t' done in
      let (fresh, rows_eq) = insert_row-ok _ (λ r. r.id == row.id) row t.outbox rows inserted in
      rw (t_eq, rows_eq)
        (record {
          instances = h.instances;
          tasks = h.tasks;
          outbox =
              Holds-insert scan_outbox (λ r. r.id) t.outbox s.outbox row a h.outbox scanned fresh;
          history = h.history;
          idempotency = h.idempotency;
        })
