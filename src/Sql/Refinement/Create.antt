-- ===== src/Sql/Refinement/Create.antt =====
-- `CreateInstance` of persistence/internal/sqlstore/store.go against the same method of
-- workflowtest/memory_store.go.
use fsm_go.Prelude.{◌≡◌, subst, List}
use fsm_go.Errors.{ok}
use fsm_go.Types.{OutboxMessage, CreateInstanceRequest}
use fsm_go.World.{Env, World, lift, next_reading}
use fsm_go.Memory
use fsm_go.Memory.{MemoryStore, clone_instance, clone_task, append_locked, put_tasks, put_outbox}
use fsm_go.Sql.Database.{Database, wrapped, call}
use fsm_go.Sql.Rows.{Tables, marshal, instance_row}
use fsm_go.Sql.Writes.{add_instance_row, append_all, create_body, create_instance}
use fsm_go.Sql.Calls.{>>=-ok}
use fsm_go.Sql.Records.{IsCodec, kept_instance, scan_instance-instance_row}
use fsm_go.Sql.Carries.{lift-ok, Carries-statement}
use fsm_go.Sql.Carries.Outbox.{FillAll}
use fsm_go.Sql.Shown.{Shows}
use fsm_go.Sql.Shown.Statements.{Shows-add_instance_row}
use fsm_go.Sql.Refinement.{kept_create, with_instance, with_tx-ok, append_all-shown}

module _ ⦃env : Env⦄ ⦃db : Database⦄ (codec : IsCodec db) where
  create_body-shown :
      (req : CreateInstanceRequest) (w w' : World Tables) (s : MemoryStore)
      → Shows w.store s
      → create_body req w ≡ (ok tt, w')
      → (fulls : List OutboxMessage) × FillAll req.outbox fulls
        × Shows w'.store (Memory.create_instance (kept_create req fulls) s).1
  unfolding create_body Memory.create_instance
  create_body-shown req w w' s h done =
      let (raw, v, lifted, rest) = >>=-ok (lift (marshal req.instance.fields)) _ w w' tt done in
      let (raw_eq, world_eq) = lift-ok (marshal req.instance.fields) w v raw lifted in
      let statement = add_instance_row (instance_row req.instance raw) in
      let (x, u, inserted, last) =
        >>=-ok (wrapped "insert workflow instance: " (call statement))
          (λ _. append_all req.history req.tasks req.outbox) v w' tt rest in
      append_all-shown codec req.history req.tasks req.outbox u w' _
        (Carries-statement "insert workflow instance: " statement (with_instance req.instance)
          (λ t t' s h done.
            Shows-add_instance_row t t' s h (instance_row req.instance raw)
              (clone_instance (kept_instance req.instance)) done
              (scan_instance-instance_row codec req.instance raw raw_eq))
          v u s (subst (λ x. Shows x.store s) world_eq h) inserted)
        last

  -- Where `CreateInstance` succeeds, the tables show what the store in memory makes of the request, with each
  -- instant and each map as its column keeps it and each message filled in, if what is written to a JSON
  -- column is not empty and can be read.
  pub create_instance-refines :
      (req : CreateInstanceRequest) (w w' : World Tables) (s : MemoryStore)
      → Shows w.store s
      → create_instance req w ≡ (ok tt, w')
      → (fulls : List OutboxMessage) × FillAll req.outbox fulls
        × Shows w'.store (Memory.create_instance (kept_create req fulls) s).1
  unfolding create_instance
  create_instance-refines req w w' s h done =
      let (v, ran, store_eq) = with_tx-ok (create_body req) w w' done in
      rw store_eq (create_body-shown req (next_reading w) v s h ran)
