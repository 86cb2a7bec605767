-- ===== src/Sql/Examples/Refinement.antt =====
-- The comparison of the two stores, at the leave request.
use fsm_go.Prelude.{◌≡◌, refl, sym, ap, some, List}
use fsm_go.Dict.{lookup}
use fsm_go.Errors.{ok}
use fsm_go.Types.{TaskStatus, OutboxMessage}
use fsm_go.Memory
use fsm_go.Memory.{MemoryStore, new_memory_store, clone_instance}
use fsm_go.Sql.Database.{call, with_tx}
use fsm_go.Sql.Rows.{marshal}
use fsm_go.Sql.Writes.{
  insert_history, insert_tasks, insert_outbox, with_defaults, append_all, create_body,
  create_instance, update_body, update_instance, complete_body, complete_task,
}
use fsm_go.Sql.Carries.Outbox.{FillAll}
use fsm_go.Sql.Shown.{Shows}
use fsm_go.Sql.Shown.Updates.{Continues}
use fsm_go.Sql.Refinement.{kept_create, kept_update, kept_complete}
use fsm_go.Sql.Refinement.Create.{create_instance-refines}
use fsm_go.Sql.Refinement.Update.{update_instance-refines}
use fsm_go.Sql.Refinement.Complete.{complete_task-refines}
use fsm_go.Sql.Fixtures.{
  sound, system, tables, empty, world_of, waiting, moved_on, creation, completion, sound-IsCodec,
  tables-show, empty-show, tables-HasPrimaryKeys,
}
use fsm_go.Fixtures.{instance_in, mail_attempt}

creates :
    create_instance creation (world_of empty)
    ≡ (ok tt, (create_instance creation (world_of empty)).1)
unfolding create_instance create_body append_all insert_history insert_tasks insert_outbox
    with_defaults with_tx call marshal
creates = refl

create_instance-refines_example :
    (fulls : List OutboxMessage) × FillAll creation.outbox fulls
    × Shows
        (create_instance creation (world_of empty)).1.store
        (Memory.create_instance (kept_create creation fulls) new_memory_store).1
create_instance-refines_example =
    create_instance-refines sound-IsCodec creation (world_of empty)
      (create_instance creation (world_of empty)).1 new_memory_store empty-show creates

updates :
    update_instance moved_on (world_of tables)
    ≡ (ok tt, (update_instance moved_on (world_of tables)).1)
unfolding update_instance update_body append_all insert_history insert_tasks insert_outbox
    with_defaults with_tx call marshal
updates = refl

continues : Continues moved_on.instance waiting
unfolding lookup
continues j stands =
    let stored : some (instance_in "review") ≡ some j = stands in
    let same : instance_in "review" ≡ j = cc in
    (
      sym (ap (λ i. i.workflow) same),
      sym (ap (λ i. i.version) same),
      sym (ap (λ i. i.started_at) same),
    )

update_instance-refines_example :
    (fulls : List OutboxMessage) × (s' : MemoryStore) × FillAll moved_on.outbox fulls
    × (Memory.update_instance (kept_update moved_on fulls) waiting ≡ (ok tt, s'))
    × Shows (update_instance moved_on (world_of tables)).1.store s'
update_instance-refines_example =
    update_instance-refines sound-IsCodec moved_on (world_of tables)
      (update_instance moved_on (world_of tables)).1 waiting tables-show tables-HasPrimaryKeys
      continues updates

completes :
    complete_task completion (world_of tables)
    ≡ (ok tt, (complete_task completion (world_of tables)).1)
unfolding complete_task complete_body append_all insert_history insert_tasks insert_outbox
    with_defaults with_tx call marshal
completes = refl

complete_task-refines_example :
    (fulls : List OutboxMessage) × FillAll completion.outbox fulls
    × Shows
        (complete_task completion (world_of tables)).1.store
        (Memory.complete_task (kept_complete completion fulls) waiting).1
unfolding lookup
complete_task-refines_example =
    complete_task-refines sound-IsCodec completion (world_of tables)
      (complete_task completion (world_of tables)).1 waiting (mail_attempt 1 TaskStatus.pending)
      tables-show refl (refl, refl, refl, refl, refl) completes
