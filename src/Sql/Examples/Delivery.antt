-- ===== src/Sql/Examples/Delivery.antt =====
-- A start and a signal that are delivered twice, at the leave request.
use fsm_go.Prelude.{pos, inc, ◌+ℤ◌, ◌≡◌, refl, List, [], ◌∷◌}
use fsm_go.Dict.{lookup}
use fsm_go.Errors.{ok}
use fsm_go.Types.{WorkflowInstance}
use fsm_go.World.{World, id_at}
use fsm_go.Runtime.Base.{find_machine}
use fsm_go.Runtime.Advance.{
  scheduled, advanced, schedule_task, schedule_all, schedule_state_tasks, follow, apply_event,
}
use fsm_go.Runtime.Commands.{
  started, create_started, start_workflow, claim_key, recorded, apply_signal, signal_workflow,
}
use fsm_go.Sql.Database.{Database, call, with_tx}
use fsm_go.Sql.Rows.{Tables, marshal, unmarshal, instance_row, scan_instance}
use fsm_go.Sql.Writes.{
  insert_history, insert_tasks, insert_outbox, append_all, create_body, create_instance,
  update_body, update_instance, record_idempotency, get_idempotency,
}
use fsm_go.Sql.Reads.{get_instance}
use fsm_go.Sql.Requests.{
  Request, create, update, complete, add_history, mark_running, record_key, serve_all,
}
use fsm_go.Sql.Delivery.Keyed.{runtime_over}
use fsm_go.Sql.Delivery.Starts.{HasId, start_applied_once}
use fsm_go.Sql.Delivery.Signals.{signal_applied_once}
use fsm_go.Sql.Fixtures.{
  sound, system, tables, empty, creation, world_of, note, moved_on, completion,
}
use fsm_go.Fixtures.{leave_machine, machines, instance_in, signal_options, start_options}

-- it writes every map as the empty one
abbrev writing : Database
writing = record sound { encode = λ m. ok "{}" }

abbrev drafted : World Tables
drafted =
    world_of
      (record tables { instances = instance_row ⦃db = writing⦄ (instance_in "draft") "{}" ∷ [] })

abbrev submitted : WorkflowInstance
submitted = record (instance_in "review") { revision = pos 5; updated_at = pos 100 }

abbrev served : World Tables
served =
    (signal_workflow (runtime_over ⦃db = writing⦄ machines []) (signal_options "submit") drafted).1

submits :
    signal_workflow (runtime_over ⦃db = writing⦄ machines []) (signal_options "submit") drafted
    ≡ (ok submitted, served)
unfolding signal_workflow recorded apply_signal claim_key find_machine lookup apply_event follow
    scheduled advanced schedule_task schedule_all schedule_state_tasks get_instance get_idempotency
    record_idempotency update_instance update_body append_all insert_history insert_tasks
    insert_outbox with_tx call marshal unmarshal scan_instance id_at inc ◌+ℤ◌
submits = refl

-- what other clients ask for meanwhile
abbrev meanwhile : List Request
meanwhile =
    update moved_on
    ∷ record_key "leave" "key" "wf-2"
    ∷ mark_running "task-1" (pos 1)
    ∷ complete completion
    ∷ add_history (note ∷ [])
    ∷ []

signal_applied_once_example :
    (signal_workflow
      (runtime_over ⦃db = writing⦄ machines [])
      (signal_options "approve")
      (serve_all ⦃db = writing⦄ meanwhile served)).1.store
    ≡ (serve_all ⦃db = writing⦄ meanwhile served).store
signal_applied_once_example =
    signal_applied_once ⦃db = writing⦄ machines [] (signal_options "submit")
      (signal_options "approve") submitted meanwhile drafted served refl submits refl refl

abbrev began : World Tables
began = (start_workflow (runtime_over ⦃db = writing⦄ machines []) start_options (world_of empty)).1

abbrev first_instance : WorkflowInstance
first_instance = started leave_machine start_options (id_at "wf" 0) (pos 100)

starts :
    start_workflow (runtime_over ⦃db = writing⦄ machines []) start_options (world_of empty)
    ≡ (ok first_instance, began)
unfolding start_workflow create_started started recorded claim_key find_machine lookup scheduled
    schedule_task schedule_all schedule_state_tasks get_idempotency record_idempotency
    create_instance create_body append_all insert_history insert_tasks insert_outbox with_tx call
    marshal id_at
starts = refl

start_applied_once_example :
    let again =
      start_workflow
        (runtime_over ⦃db = writing⦄ machines [])
        start_options
        (serve_all ⦃db = writing⦄ (create creation ∷ meanwhile) began) in
    (again.1.store ≡ (serve_all ⦃db = writing⦄ (create creation ∷ meanwhile) began).store)
    × HasId first_instance.id again.0
start_applied_once_example =
    start_applied_once ⦃db = writing⦄ machines [] start_options start_options first_instance
      (create creation ∷ meanwhile) (world_of empty) began refl starts refl refl
