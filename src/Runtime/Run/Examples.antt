-- ===== src/Runtime/Run/Examples.antt =====
-- `RunDueTasks` at the leave request.
use fsm_go.Prelude.{
  ℕ, arith, some, pos, inc, ◌+ℤ◌, ◌-ℤ◌, saturate, ◌≡◌, refl, none, map, String, [], ◌∷◌,
}
use fsm_go.Dict.{lookup, insert}
use fsm_go.Errors.{ok}
use fsm_go.Types.{
  TaskExecution, ExecutionHistory, InstanceStatus, TaskStatus, HistoryType, WorkflowInstance,
}
use fsm_go.Memory.{
  list_due_tasks, scan_due, mark_task_running, get_instance, complete_task, update_instance,
}
use fsm_go.Runtime.Base.{find_machine, find_handler}
use fsm_go.Runtime.Advance.{
  apply_event, follow, advanced, schedule_state_tasks, schedule_all, schedule_task,
}
use fsm_go.Memory.Sorting.{sort_stable}
use fsm_go.Compiler.{with_defaults}
use fsm_go.Runtime.Finish.{finish_task, finish_succeeded, task_entry, advance_and_complete}
use fsm_go.Runtime.Run.{
  run_due_tasks, run_each, run_claimed, run_task, call_and_finish, handle, find_task,
}
use fsm_go.Runtime.Finish.Endings.{ended_with, IsEnded}
use fsm_go.Runtime.Run.Overdue.{overdue_task_times_out}
use fsm_go.Runtime.Run.Accounting.{Accounted, run_due_tasks-Accounted}
use fsm_go.Fixtures.{
  scan_listed, machines, handlers, mailer, mail_task, leave_machine, instance_in, test_env,
  mail_attempt, store_with, world_of,
}
use fsm_go.Runtime.Fixtures.{test_runtime, draft_world, review_world, in_review, leave_known}

run_due_tasks-Accounted_example :
    Accounted ⦃env = test_env⦄ test_runtime
      (pos 90)
      (test_runtime.store.list_due_tasks (pos 10) (pos 90) draft_world)
      (run_due_tasks ⦃env = test_env⦄ test_runtime
        (record { limit = pos 10; now = pos 90 })
        draft_world)
run_due_tasks-Accounted_example =
    run_due_tasks-Accounted ⦃env = test_env⦄ test_runtime (record { limit = pos 10; now = pos 90 })
      draft_world

-- its deadline has passed on a clock that stands at 200
abbrev overdue : TaskExecution
overdue = record (mail_attempt 1 TaskStatus.running) { timeout_at = pos 150 }

mailer_known : find_handler test_runtime "mailer" ≡ ok mailer
unfolding find_handler lookup
mailer_known = refl

mail_declared : lookup "mail" leave_machine.tasks ≡ some mail_task
unfolding lookup with_defaults
mail_declared = refl

overdue_task_times_out_example :
    (t : TaskExecution) × (start end : ExecutionHistory) × (n : ℕ) × (run_task ⦃env = test_env⦄
        test_runtime overdue
        (pos 90)
        review_world
      ≡ (
        ok TaskStatus.timed_out,
        record { store = ended_with t (start ∷ end ∷ []) [] [] review_world.store; readings = n },
      ))
    × IsEnded overdue TaskStatus.timed_out (pos 90) t
    × (start.type ≡ HistoryType.task_started)
    × (end.type ≡ HistoryType.task_timed_out)
overdue_task_times_out_example =
    overdue_task_times_out ⦃env = test_env⦄ scan_listed machines handlers overdue (pos 90)
      review_world (instance_in "review") leave_machine mail_task mailer in_review leave_known
      mail_declared mailer_known refl (omega arith)

-- the mail is sent, and its event completes the request
leave_completes :
    let (report, w') =
      run_due_tasks ⦃env = test_env⦄ test_runtime
        (record { limit = pos 10; now = pos 90 })
        (world_of (store_with "review" (mail_attempt 1 TaskStatus.pending))) in
    (report
      ≡ ok (record { scanned = 1; succeeded = 1; retried = 0; failed = 0; timed_out = 0 }, none))
    × (map {B = String × InstanceStatus}
          (λ (i : String × WorkflowInstance). (i.1.state, i.1.status))
          w'.store.instances
        ≡ ("done", InstanceStatus.completed) ∷ [])
    × (map (λ h. h.type) w'.store.history
        ≡ HistoryType.task_started ∷ HistoryType.task_succeeded ∷ HistoryType.signal_received
          ∷ HistoryType.state_changed ∷ HistoryType.workflow_completed ∷ [])
unfolding run_due_tasks run_each run_claimed run_task call_and_finish handle find_task find_machine
    find_handler finish_task finish_succeeded task_entry advance_and_complete apply_event follow
    advanced schedule_state_tasks schedule_all schedule_task with_defaults list_due_tasks
    sort_stable scan_due mark_task_running get_instance complete_task update_instance lookup insert
    inc ◌+ℤ◌ ◌-ℤ◌ saturate
leave_completes = (refl, refl, refl)
