-- ===== src/Sql/Shown/Completions.antt =====
-- UPDATE workflow_task of `CompleteTask` (persistence/internal/sqlstore/store.go) as a write of a store in memory.
use fsm_go.Prelude.{String, ◌≡◌, refl, ap, ◌∙◌, subst, some, arith, ◌==◌, eq_iff, first}
use fsm_go.Dict.{lookup, insert}
use fsm_go.Errors.{ok, >>=-eq-ok, ok-injective}
use fsm_go.Types.{TaskExecution}
use fsm_go.Memory.{MemoryStore, clone_task}
use fsm_go.Sql.Database.{Database, update_rows}
use fsm_go.Sql.Rows.{TaskRow, Tables, marshal, unmarshal, scan_task}
use fsm_go.Sql.Writes.{set_task}
use fsm_go.Sql.Records.{
  IsCodec, kept_task, unmarshal-marshal, clone_map-kept_map, string_of-null_string,
}
use fsm_go.Sql.Shown.{Shows, Seen, Holds, Holds-update_rows}
use fsm_go.Sql.Shown.Updates.{first-some, Seen-row}

module _ ⦃db : Database⦄ where
  -- the request keeps the columns that UPDATE does not write
  abbrev pub ContinuesTask : TaskExecution → TaskExecution → Type 0
  ContinuesTask task u =
      (u.instance_id ≡ task.instance_id)
      × (u.task ≡ task.task)
      × (u.handler ≡ task.handler)
      × (u.max_attempts ≡ task.max_attempts)
      × (u.created_at ≡ db.kept_time task.created_at)

  scan_task-columns :
      (row : TaskRow) (u : TaskExecution)
      → scan_task row ≡ ok u
      → (row.instance_id ≡ u.instance_id)
        × (row.task ≡ u.task)
        × (row.handler ≡ u.handler)
        × (row.max_attempts ≡ u.max_attempts)
        × (row.created_at ≡ u.created_at)
  unfolding scan_task
  scan_task-columns row u h =
      let (input, read, rest) = >>=-eq-ok (unmarshal row.input) _ h in
      let (output, read_more, done) = >>=-eq-ok (unmarshal row.output) _ rest in
      let same = ok-injective done in
      (
        ap (λ i. i.instance_id) same,
        ap (λ i. i.task) same,
        ap (λ i. i.handler) same,
        ap (λ i. i.max_attempts) same,
        ap (λ i. i.created_at) same,
      )

  module _ (codec : IsCodec db) where
    scan_task-set_task :
        (t : TaskExecution) (input output : String) (row : TaskRow)
        → marshal t.input ≡ ok input
        → marshal t.output ≡ ok output
        → row.id ≡ t.id
        → (row.instance_id ≡ t.instance_id)
          × (row.task ≡ t.task)
          × (row.handler ≡ t.handler)
          × (row.max_attempts ≡ t.max_attempts)
          × (row.created_at ≡ db.kept_time t.created_at)
        → scan_task (set_task t input output row) ≡ ok (clone_task (kept_task t))
    unfolding scan_task
    scan_task-set_task t input output row h k id_eq (e1, e2, e3, e4, e5) =
        rw
          (
            unmarshal-marshal codec t.input input h,
            unmarshal-marshal codec t.output output k,
            string_of-null_string,
            id_eq,
            e1,
            e2,
            e3,
            e4,
            e5,
            clone_map-kept_map t.input,
            clone_map-kept_map t.output,
          )
          refl

    -- UPDATE workflow_task, for a task that stands in the store
    pub Shows-complete :
        (t : Tables) (s : MemoryStore) (task u : TaskExecution) (input output : String)
        → Shows t s
        → lookup task.id s.tasks ≡ some u
        → ContinuesTask task u
        → marshal task.input ≡ ok input
        → marshal task.output ≡ ok output
        → Shows
            (record t {
              tasks = update_rows (λ r. r.id == task.id) (set_task task input output) t.tasks;
            })
            (record s { tasks = insert task.id (clone_task (kept_task task)) s.tasks })
    Shows-complete t s task u input output h stands (k1, k2, k3, k4, k5) written more_written =
        let (row, found, scanned) =
          Seen-row scan_task (λ r. r.id) (first (λ r. r.id == task.id) t.tasks) u
            (subst (Seen scan_task (λ r. r.id) (first (λ r. r.id == task.id) t.tasks)) stands
              (h.tasks task.id)) in
        let id_eq =
          (eq_iff row.id task.id).0 (first-some (λ r. r.id == task.id) t.tasks row found) in
        let (e1, e2, e3, e4, e5) = scan_task-columns row u scanned in
        record {
          tasks =
              subst
                (λ id.
                  Holds scan_task (λ r. r.id)
                    (update_rows (λ r. r.id == task.id) (set_task task input output) t.tasks)
                    (insert id (clone_task (kept_task task)) s.tasks))
                id_eq
                (Holds-update_rows scan_task (λ r. r.id) (λ r. r.id == task.id)
                  (set_task task input output) (λ r. refl) t.tasks s.tasks row
                  (clone_task (kept_task task)) h.tasks (rw id_eq found)
                  (ground (arith, eq_iff row.id task.id))
                  (λ r not_it. ground (arith, eq_iff row.id r.id, eq_iff r.id task.id))
                  (scan_task-set_task task input output row written more_written id_eq
                    (e1 ∙ k1, e2 ∙ k2, e3 ∙ k3, e4 ∙ k4, e5 ∙ k5)));
          instances = h.instances;
          outbox = h.outbox;
          history = h.history;
          idempotency = h.idempotency;
        }
