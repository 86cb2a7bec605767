-- ===== src/Sql/Examples/Conflicts.antt =====
-- Transactions, conflicts, keys and the listing, at the leave request.
use fsm_go.Prelude.{
  ℕ, zero, suc, pos, ◌≡◌, refl, ◌≤◌, ◌<◌, true, false, List, [], ◌∷◌, ◌++◌, keep, length, Permᴰ,
  ◌==◌,
}
use fsm_go.Errors.{ok, is_ok}
use fsm_go.Types.{TaskStatus, TaskExecution}
use fsm_go.World.{World}
use fsm_go.Memory.Sorting.{IsSorted, IsWeakOrder, sort_stable}
use fsm_go.Sql.Database.{Database, Answer, works, lost, call, with_tx}
use fsm_go.Sql.Rows.{TaskRow, Tables, marshal, unmarshal, scan_task, scan_rows}
use fsm_go.Sql.Writes.{
  insert_history, insert_tasks, insert_outbox, with_defaults, append_all, update_body,
  update_instance, mark_task_running, record_idempotency, get_idempotency,
}
use fsm_go.Sql.Reads.{task_before, is_due_row, list_due_tasks}
use fsm_go.Sql.Requests.{
  Request, complete, add_history, add_outbox, mark_running, record_key, mark_published, serve_all,
}
use fsm_go.Sql.Atomic.{Transacts, with_tx-Transacts}
use fsm_go.Sql.Conflicts.{second_update_refused}
use fsm_go.Sql.Conflicts.Claims.{second_claim_refused}
use fsm_go.Sql.Due.{list_due_tasks_earliest}
use fsm_go.Sql.Idempotency.{first_record_wins}
use fsm_go.Fixtures.{mail_attempt}
use fsm_go.Sql.Fixtures.{
  sound, system, database, tables, world_of, note, mail, moved_on, completion,
  tables-HasPrimaryKeys,
}

with_tx-Transacts_example :
    Transacts (update_body moved_on) (world_of tables) (update_instance moved_on (world_of tables))
unfolding update_instance
with_tx-Transacts_example = with_tx-Transacts (update_body moved_on) (world_of tables)

-- what other clients ask for meanwhile
abbrev meanwhile : List Request
meanwhile =
    record_key "leave" "key" "wf-2"
    ∷ mark_running "task-1" (pos 1)
    ∷ complete completion
    ∷ add_history (note ∷ [])
    ∷ add_outbox (mail ∷ [])
    ∷ mark_published "msg-1"
    ∷ []

abbrev updated : World Tables
updated = (update_instance moved_on (world_of tables)).1

updates : update_instance moved_on (world_of tables) ≡ (ok tt, updated)
unfolding update_instance update_body append_all insert_history insert_tasks insert_outbox
    with_defaults with_tx call marshal
updates = refl

second_update_refused_example :
    (is_ok (update_instance moved_on (serve_all meanwhile updated)).0 ≡ false)
    × ((update_instance moved_on (serve_all meanwhile updated)).1.store
        ≡ (serve_all meanwhile updated).store)
second_update_refused_example =
    second_update_refused moved_on moved_on meanwhile (world_of tables) updated updates refl
      (tt, (tt, (tt, (tt, (tt, (tt, tt)))))) refl refl

abbrev claimed : World Tables
claimed = (mark_task_running "task-1" (pos 1) (world_of tables)).1

abbrev running : TaskExecution
running = record (mail_attempt 1 TaskStatus.running) { updated_at = pos 200 }

claims : mark_task_running "task-1" (pos 1) (world_of tables) ≡ (ok running, claimed)
unfolding mark_task_running call scan_task unmarshal
claims = refl

second_claim_refused_example :
    (is_ok (mark_task_running "task-1" (pos 2) (serve_all meanwhile claimed)).0 ≡ false)
    × ((mark_task_running "task-1" (pos 2) (serve_all meanwhile claimed)).1.store
        ≡ (serve_all meanwhile claimed).store)
second_claim_refused_example =
    second_claim_refused "task-1" (pos 1) (pos 2) meanwhile (world_of tables) claimed running
      tables-HasPrimaryKeys claims (tt, (tt, (refl, (tt, (tt, (tt, tt))))))

abbrev lose_second : ℕ → Answer
lose_second (suc zero) = lost "connection reset"
lose_second _ = works

-- the answer to the insertion is lost, and the key is read back
abbrev lossy : Database
lossy = database lose_second

abbrev keyed : World Tables
keyed = (record_idempotency ⦃db = lossy⦄ "leave" "key" "wf-1" (world_of tables)).1

records : record_idempotency ⦃db = lossy⦄ "leave" "key" "wf-1" (world_of tables) ≡ (ok true, keyed)
unfolding record_idempotency get_idempotency call
records = refl

records_again :
    record_idempotency ⦃db = lossy⦄ "leave" "key" "wf-2" keyed
    ≡ (ok false, (record_idempotency ⦃db = lossy⦄ "leave" "key" "wf-2" keyed).1)
unfolding record_idempotency get_idempotency call
records_again = refl

first_record_wins_example : false ≡ ("wf-1" == "wf-2")
unfolding serve_all
first_record_wins_example =
    first_record_wins ⦃db = lossy⦄ "leave" "key" "wf-1" "wf-2" [] (world_of tables) keyed
      (record_idempotency ⦃db = lossy⦄ "leave" "key" "wf-2" keyed).1 false records records_again

abbrev pending : TaskExecution
pending = mail_attempt 1 TaskStatus.pending

lists :
    list_due_tasks (pos 5) (pos 60) (world_of tables)
    ≡ (ok (pending ∷ []), (list_due_tasks (pos 5) (pos 60) (world_of tables)).1)
unfolding list_due_tasks call scan_rows scan_task unmarshal sort_stable
lists = refl

texts : IsWeakOrder sound.text_before
texts = record { asym = λ x y h. refl; trans = λ x y z h k. refl }

list_due_tasks_earliest_example :
    (rows rest : List TaskRow) × (scan_rows scan_task rows ≡ ok (pending ∷ []))
    × Permᴰ (rows ++ rest) (keep (is_due_row (pos 60)) tables.tasks)
    × IsSorted task_before (rows ++ rest)
    × (length rows ≤ 5)
    × (length rows < 5 → rest ≡ [])
    × ((list_due_tasks (pos 5) (pos 60) (world_of tables)).1.store ≡ tables)
list_due_tasks_earliest_example =
    list_due_tasks_earliest texts 5 (pos 60) (world_of tables)
      (list_due_tasks (pos 5) (pos 60) (world_of tables)).1 (pending ∷ []) lists
