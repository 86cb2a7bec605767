-- ===== src/Sql/Refinement/Complete.antt =====
-- `CompleteTask` of persistence/internal/sqlstore/store.go against the same method of
-- workflowtest/memory_store.go.
use fsm_go.Prelude.{◌≡◌, sym, ap, ◌∙◌, subst, some, List}
use fsm_go.Dict.{lookup}
use fsm_go.Errors.{ok}
use fsm_go.Types.{TaskExecution, OutboxMessage, CompleteTaskRequest}
use fsm_go.World.{Env, World, lift, next_reading}
use fsm_go.Memory
use fsm_go.Memory.{MemoryStore, clone_instance, clone_task, append_locked, put_tasks, put_outbox}
use fsm_go.Sql.Database.{Database, wrapped, call}
use fsm_go.Sql.Rows.{Tables, marshal}
use fsm_go.Sql.Writes.{complete_row, append_all, complete_body, complete_task}
use fsm_go.Sql.Calls.{>>=-ok, call-ok, wrapped-ok}
use fsm_go.Sql.Records.{IsCodec}
use fsm_go.Sql.Carries.{lift-ok}
use fsm_go.Sql.Carries.Outbox.{FillAll}
use fsm_go.Sql.Shown.{Shows}
use fsm_go.Sql.Shown.Completions.{ContinuesTask, Shows-complete}
use fsm_go.Sql.Refinement.{kept_complete, with_task, with_tx-ok, append_all-shown}

module _ ⦃env : Env⦄ ⦃db : Database⦄ (codec : IsCodec db) where
  complete_body-shown :
      (req : CompleteTaskRequest) (w w' : World Tables) (s : MemoryStore) (u : TaskExecution)
      → Shows w.store s
      → lookup req.task.id s.tasks ≡ some u
      → ContinuesTask req.task u
      → complete_body req w ≡ (ok tt, w')
      → (fulls : List OutboxMessage) × FillAll req.outbox fulls
        × Shows w'.store (Memory.complete_task (kept_complete req fulls) s).1
  unfolding complete_body Memory.complete_task
  complete_body-shown req w w' s u h stands continues done =
      let (input, v, lifted, rest) = >>=-ok (lift (marshal req.task.input)) _ w w' tt done in
      let (input_eq, world_eq) = lift-ok (marshal req.task.input) w v input lifted in
      let (output, v', lifted', rest') = >>=-ok (lift (marshal req.task.output)) _ v w' tt rest in
      let (output_eq, world_eq') = lift-ok (marshal req.task.output) v v' output lifted' in
      let statement = complete_row req.task input output in
      let (x, x_world, updated, last) =
        >>=-ok (wrapped "complete task: " (call statement))
          (λ _. append_all req.history req.tasks req.outbox) v' w' tt rest' in
      let ran =
        call-ok statement v' x_world x (wrapped-ok _ (call statement) v' x_world x updated) in
      let v_eq : v'.store ≡ w.store = sym (ap (λ x. x.store) (world_eq ∙ world_eq')) in
      append_all-shown codec req.history req.tasks req.outbox x_world w' _
        (subst (λ t. Shows t (with_task req.task s)) (ap (λ p. p.1) ran)
          (Shows-complete codec v'.store s req.task u input output (rw v_eq h) stands continues
            input_eq output_eq))
        last

  -- Where `CompleteTask` succeeds for a task of the store, whose other columns the request keeps, the tables show
  -- what the store in memory makes of the request, with each instant and each map as its column keeps it and
  -- each message filled in, if what is written to a JSON column is not empty and can be read.
  pub complete_task-refines :
      (req : CompleteTaskRequest) (w w' : World Tables) (s : MemoryStore) (u : TaskExecution)
      → Shows w.store s
      → lookup req.task.id s.tasks ≡ some u
      → ContinuesTask req.task u
      → complete_task req w ≡ (ok tt, w')
      → (fulls : List OutboxMessage) × FillAll req.outbox fulls
        × Shows w'.store (Memory.complete_task (kept_complete req fulls) s).1
  unfolding complete_task
  complete_task-refines req w w' s u h stands continues done =
      let (v, ran, store_eq) = with_tx-ok (complete_body req) w w' done in
      rw store_eq (complete_body-shown req (next_reading w) v s u h stands continues ran)
