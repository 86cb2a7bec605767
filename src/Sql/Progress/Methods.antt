-- ===== src/Sql/Progress/Methods.antt =====
-- `CreateInstance` and `UpdateInstance` of persistence/internal/sqlstore/store.go succeed on a sound database, where the
-- store of workflowtest/memory_store.go accepts them.
use fsm_go.Prelude.{
  ap, Bool, false, not, ◌&&◌, arith, Bool-cases, inl, inr, eq_ℤ-eq, String, ℤ, eq_ℤ, ◌≡◌, refl, sym,
  ◌∙◌, subst, true, none, some, [], ◌∷◌, ◌++◌, length, keep, first, ◌==◌,
}
use fsm_go.Dict.{lookup}
use fsm_go.Errors.{ok}
use fsm_go.Types.{WorkflowInstance, CreateInstanceRequest, UpdateInstanceRequest}
use fsm_go.World.{Env, World, Act, next_reading}
use fsm_go.Memory.{MemoryStore}
use fsm_go.Sql.Database.{Database, wrapped, call, with_tx}
use fsm_go.Sql.Rows.{InstanceRow, Tables, marshal, instance_row, scan_instance}
use fsm_go.Sql.Writes.{
  add_instance_row, is_counted_instance, same_instance, set_instance, update_instance_row,
  create_body, create_instance, update_body, update_instance,
}
use fsm_go.Sql.Calls.{>>=-run, lift-run}
use fsm_go.Sql.PrimaryKeys.{HasPrimaryKeys}
use fsm_go.Sql.Unique.{keep-counted}
use fsm_go.Sql.Shown.{Shows, Seen}
use fsm_go.Sql.Shown.Updates.{Seen-row, scan_instance-columns}
use fsm_go.Sql.Progress.{CanWrite, CanAppend, IsSound, statement_sound, append_all-succeeds}

module _ ⦃env : Env⦄ ⦃db : Database⦄ (sound : IsSound db) where
  with_tx-succeeds :
      (fn : Act Tables (Unit {0})) (w v : World Tables)
      → fn (next_reading w) ≡ (ok tt, v)
      → (u : World Tables) × (with_tx fn w ≡ (ok tt, u))
  unfolding with_tx call
  with_tx-succeeds fn w v ran = (
    record (next_reading v) { store = v.store },
    rw (sound w.readings, ran, sound v.readings) refl,
  )

  -- the statement changes the row that the store in memory has
  one_row :
      (t : Tables) (s : MemoryStore) (i : WorkflowInstance) (raw : String) (expected : ℤ)
      (j : WorkflowInstance)
      → Shows t s
      → HasPrimaryKeys t
      → lookup i.id s.instances ≡ some j
      → eq_ℤ j.revision expected ≡ true
      → eq_ℤ i.revision expected ≡ false
      → length (keep (is_counted_instance i raw expected) t.instances) ≡ 1
  one_row t s i raw expected j h keys stands same moved =
      let id = i.id in
      let (row, found, scanned) =
        Seen-row scan_instance (λ r. r.id) (first (λ r. r.id == id) t.instances) j
          (subst (Seen scan_instance (λ r. r.id) (first (λ r. r.id == id) t.instances)) stands
            (h.instances id)) in
      let (workflow_eq, version_eq, started_eq, revision_eq) =
        scan_instance-columns row j scanned in
      let at_row : eq_ℤ row.revision expected ≡ true =
        subst (λ n. eq_ℤ n expected ≡ true) (sym revision_eq) same in
      let counted : InstanceRow → Bool =
        λ r. not (db.reports_changed && same_instance r (set_instance i raw r)) in
      let other : eq_ℤ row.revision i.revision ≡ false =
        elim (Bool-cases (eq_ℤ row.revision i.revision)) [
          | inl e ↦ absurd (
              let no : true ≡ false =
                sym at_row
                ∙ ap (λ n. eq_ℤ n expected) (eq_ℤ-eq row.revision i.revision e)
                ∙ moved in
              cc)
          | inr e ↦ e
        ] in
      let changed : counted row ≡ true = ground (arith, other) in
      rw
        (
          keep-counted (λ r. r.id) id (λ r. eq_ℤ r.revision expected) counted t.instances
              keys.instances,
          found,
          at_row,
          changed,
        )
        refl

  -- On a database whose calls work, UpdateInstance succeeds where the store in memory has the instance at the
  -- expected revision, if the request writes another revision, the ids of what it adds are new and its maps can be written; so
  -- it does whether the database reports the rows that a statement matches or those that it changes.
  pub update_instance-succeeds :
      (req : UpdateInstanceRequest) (w : World Tables) (s : MemoryStore) (j : WorkflowInstance)
      → Shows w.store s
      → HasPrimaryKeys w.store
      → lookup req.instance.id s.instances ≡ some j
      → eq_ℤ j.revision req.expected_revision ≡ true
      → eq_ℤ req.instance.revision req.expected_revision ≡ false
      → CanWrite req.instance.fields
      → CanAppend req.history req.tasks req.outbox w.store
      → (v : World Tables) × (update_instance req w ≡ (ok tt, v))
  unfolding update_instance update_body
  update_instance-succeeds req w s j h keys stands same moved (raw, written) can =
      let statement = update_instance_row req.instance raw req.expected_revision in
      let t = (statement w.store).1 in
      let begun = next_reading w in
      let changed : World Tables = record (next_reading begun) { store = t } in
      let (v, appended) = append_all-succeeds sound req.history req.tasks req.outbox changed can in
      let one =
        one_row w.store s req.instance raw req.expected_revision j h keys stands same moved in
      with_tx-succeeds (update_body req) w v (
        lift-run (marshal req.instance.fields) _ begun raw written
        ∙ >>=-run (wrapped "update workflow instance: " (call statement)) _ begun changed 1
            (statement_sound sound _ statement begun 1 t (rw one refl))
        ∙ appended)

  -- On a database whose calls work, CreateInstance succeeds for an id that is new.
  pub create_instance-succeeds :
      (req : CreateInstanceRequest) (w : World Tables)
      → first (λ r. r.id == req.instance.id) w.store.instances ≡ none
      → CanWrite req.instance.fields
      → CanAppend req.history req.tasks req.outbox w.store
      → (v : World Tables) × (create_instance req w ≡ (ok tt, v))
  unfolding create_instance create_body
  create_instance-succeeds req w free (raw, written) can =
      let row = instance_row req.instance raw in
      let t = record w.store { instances = w.store.instances ++ row ∷ [] } in
      let begun = next_reading w in
      let changed : World Tables = record (next_reading begun) { store = t } in
      let (v, appended) = append_all-succeeds sound req.history req.tasks req.outbox changed can in
      with_tx-succeeds (create_body req) w v (
        lift-run (marshal req.instance.fields) _ begun raw written
        ∙ >>=-run (wrapped "insert workflow instance: " (call (add_instance_row row))) _ begun
            changed tt (statement_sound sound _ (add_instance_row row) begun tt t (rw free refl))
        ∙ appended)
