-- ===== src/Sql/Refinement/Update.antt =====
-- `UpdateInstance` of persistence/internal/sqlstore/store.go against the same method of
-- workflowtest/memory_store.go.
use fsm_go.Prelude.{eq_ℤ, ◌≡◌, refl, sym, subst, true, some, List}
use fsm_go.Dict.{lookup}
use fsm_go.Errors.{ok}
use fsm_go.Types.{WorkflowInstance, OutboxMessage, UpdateInstanceRequest}
use fsm_go.World.{Env, World, next_reading}
use fsm_go.Memory
use fsm_go.Memory.{MemoryStore, clone_instance, clone_task, append_locked, put_tasks, put_outbox}
use fsm_go.Sql.Database.{Database}
use fsm_go.Sql.Rows.{Tables}
use fsm_go.Sql.Writes.{update_body, update_instance}
use fsm_go.Sql.Records.{IsCodec}
use fsm_go.Sql.Carries.Outbox.{FillAll}
use fsm_go.Sql.PrimaryKeys.{HasPrimaryKeys}
use fsm_go.Sql.Shown.{Shows}
use fsm_go.Sql.Shown.Updates.{Continues, Shows-update}
use fsm_go.Sql.Bodies.{update_body-ok}
use fsm_go.Sql.Refinement.{kept_update, appended, with_instance, with_tx-ok, append_all-shown}

module _ ⦃env : Env⦄ ⦃db : Database⦄ (codec : IsCodec db) where
  updated_in_memory :
      (req : UpdateInstanceRequest) (fulls : List OutboxMessage) (s : MemoryStore)
      (j : WorkflowInstance)
      → lookup req.instance.id s.instances ≡ some j
      → eq_ℤ j.revision req.expected_revision ≡ true
      → Memory.update_instance (kept_update req fulls) s
        ≡ (ok tt, appended req.history req.tasks fulls (with_instance req.instance s))
  unfolding Memory.update_instance
  updated_in_memory req fulls s j stands same = rw (stands, Memory.update_instance, same) refl

  update_body-shown :
      (req : UpdateInstanceRequest) (w w' : World Tables) (s : MemoryStore)
      → Shows w.store s
      → HasPrimaryKeys w.store
      → Continues req.instance s
      → update_body req w ≡ (ok tt, w')
      → (fulls : List OutboxMessage) × (s' : MemoryStore) × FillAll req.outbox fulls
        × (Memory.update_instance (kept_update req fulls) s ≡ (ok tt, s'))
        × Shows w'.store s'
  update_body-shown req w w' s h keys continues done =
      let (raw, u, raw_eq, one, u_eq, appending) = update_body-ok req w w' done in
      let (j, stands, same, shown) =
        Shows-update codec w.store s req.instance raw req.expected_revision h keys continues raw_eq
          one in
      let (fulls, fill_all, shown_all) =
        append_all-shown codec req.history req.tasks req.outbox u w' _
          (subst (λ t. Shows t (with_instance req.instance s)) (sym u_eq) shown) appending in
      (fulls, _, fill_all, updated_in_memory req fulls s j stands same, shown_all)

  -- Where `UpdateInstance` succeeds, the store in memory accepts the request too, with each instant and each map
  -- as its column keeps it and each message filled in, and the tables show what it makes of it, if what is written
  -- to a JSON column is not empty and can be read, no two rows have one key and the request keeps the workflow,
  -- the version and the start of the instance, which the statement does not write.
  pub update_instance-refines :
      (req : UpdateInstanceRequest) (w w' : World Tables) (s : MemoryStore)
      → Shows w.store s
      → HasPrimaryKeys w.store
      → Continues req.instance s
      → update_instance req w ≡ (ok tt, w')
      → (fulls : List OutboxMessage) × (s' : MemoryStore) × FillAll req.outbox fulls
        × (Memory.update_instance (kept_update req fulls) s ≡ (ok tt, s'))
        × Shows w'.store s'
  unfolding update_instance
  update_instance-refines req w w' s h keys continues done =
      let (v, ran, store_eq) = with_tx-ok (update_body req) w w' done in
      rw store_eq (update_body-shown req (next_reading w) v s h keys continues ran)
