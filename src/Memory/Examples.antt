-- ===== src/Memory/Examples.antt =====
-- The theorems about the memory store at one instance with one task.
use fsm_go.Prelude.{
  pos, inc, ◌+ℤ◌, inr, String, ◌≡◌, refl, true, some, List, [], ◌∷◌, All, ◌≤◌, length, keep, map,
  Permᴰ,
}
use fsm_go.Dict.{lookup, values}
use fsm_go.Errors.{ok, err, concurrent_update}
use fsm_go.Types.{
  TaskStatus, HistoryType, TaskExecution, ExecutionHistory, UpdateInstanceRequest, Time,
}
use fsm_go.World.{entry_of, input_of}
use fsm_go.Memory.{
  MemoryStore, clone_task, mark_task_running, update_instance, list_due_tasks, is_due, runs_before,
}
use fsm_go.Memory.Sorting.{IsSorted}
use fsm_go.Memory.Ops.{Op, update, add_history, mark_running, record_key, run_ops}
use fsm_go.Memory.Claims.{claimed_once}
use fsm_go.Memory.Updates.{update_one_winner}
use fsm_go.Memory.Due.{list_due_tasks_lem}
use fsm_go.Fixtures.{scan_listed, instance_in, mail_attempt, store_with}

abbrev waiting : MemoryStore
waiting = store_with "review" (mail_attempt 1 TaskStatus.pending)

abbrev note : String → Time → ExecutionHistory
note id now = entry_of (input_of "wf-1" HistoryType.state_changed "" "review" now) id

abbrev moved_on : UpdateInstanceRequest
moved_on = record {
  instance = record (instance_in "done") { revision = pos 5 };
  expected_revision = pos 4;
  history = note "hist-2" (pos 80) ∷ [];
  tasks = [];
  outbox = [];
}

-- what other workers do meanwhile
abbrev meanwhile : List Op
meanwhile =
    mark_running "task-1" (pos 1) (pos 91)
    ∷ add_history (note "hist-1" (pos 70) ∷ [])
    ∷ record_key "leave" "key" "wf-2"
    ∷ update moved_on
    ∷ []

claimed_once_example :
    let s' = run_ops meanwhile (mark_task_running "task-1" (pos 1) (pos 90) waiting).1 in
    mark_task_running "task-1" (pos 1) (pos 95) s' ≡ (err (concurrent_update "wf-1"), s')
unfolding mark_task_running lookup
claimed_once_example =
    claimed_once "task-1" (pos 1) (pos 1) (pos 90) (pos 95) waiting
      (record (mail_attempt 1 TaskStatus.running) { updated_at = pos 90 }) meanwhile refl
      (tt, (tt, (tt, (tt, tt))))

update_one_winner_example :
    lookup "wf-1" (run_ops meanwhile (update_instance moved_on waiting).1).instances
    ≡ some (record (instance_in "done") { revision = pos 5 })
unfolding update_instance lookup inc ◌+ℤ◌
update_one_winner_example =
    update_one_winner moved_on waiting meanwhile refl refl (tt, (tt, (tt, (inr refl, tt))))

list_due_tasks_lem_example :
    (out : List TaskExecution) × ((list_due_tasks scan_listed (pos 5) (pos 60) waiting).0 ≡ ok out)
    × (length out ≤ 5)
    × All (λ t. is_due (pos 60) t ≡ true) out
    × IsSorted runs_before out
    × (length (keep (is_due (pos 60)) (values waiting.tasks)) ≤ 5
        → Permᴰ out (map clone_task (keep (is_due (pos 60)) (values waiting.tasks))))
list_due_tasks_lem_example = list_due_tasks_lem scan_listed 5 (pos 60) waiting
