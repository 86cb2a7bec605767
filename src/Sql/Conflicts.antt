-- ===== src/Sql/Conflicts.antt =====
-- Conflicts in persistence/internal/sqlstore/store.go: an update from a revision that has passed, and a second
-- claim of a task, find no row to change.
pub mod Claims
use fsm_go.Prelude.{
  String, ℤ, ℕ, eqb, eq_ℤ, eq_ℤ-eq, ◌≡◌, refl, sym, ap, ◌∙◌, subst, Bool, true, false, ◌&&◌, none,
  some, List, [], ◌∷◌, arith, ◌==◌, eq_iff, eq_refl, if◌then◌else◌, Bool-cases, Option-cases, inl,
  inr, keep, length, first, All, keep-append,
}
use fsm_go.Errors.{Result, ok, err, is_ok, concurrent_update, Result-cases, ok-injective}
use fsm_go.Types.{Time, TaskStatus, TaskExecution, UpdateInstanceRequest, WorkflowInstance}
use fsm_go.World.{Env, World, Act, raise, next_reading, wall_now, ◌>>=◌}
use fsm_go.Memory.{is_waiting}
use fsm_go.Sql.Database.{Database, with_tx, call, update_rows, insert_row, placed}
use fsm_go.Sql.Rows.{InstanceRow, TaskRow, HistoryRow, OutboxRow, Tables, instance_row}
use fsm_go.Sql.Writes.{
  add_history_row, add_task_row, add_outbox_row, append_all, at_revision, is_counted_instance,
  set_instance, update_body, update_instance, is_claimable, set_running, claim_row,
  mark_task_running, read_task,
}
use fsm_go.Sql.Calls.{insert_row-ok, placed-keeps, >>=-ok, call-ok, guarded-ok}
use fsm_go.Sql.Atomic.{Commits, with_tx-AllOrNothing}
use fsm_go.Sql.Refinement.{with_tx-ok}
use fsm_go.Sql.Updating.{keep-update_rows, keep-update_nothing, keep-imp}
use fsm_go.Sql.Bodies.{update_body-ok}
use fsm_go.Sql.Requests.{
  Request, create, update, complete, add_history, add_outbox, mark_running, record_key,
  mark_published, serve_all,
}
use fsm_go.Sql.Keeps.{Keeps, Keeps-call, Keeps-query}
use fsm_go.Sql.Keeps.Requests.{StatementsKeep, Allows, serve_all-Keeps}
use fsm_go.Sql.Keeps.Inserts.{append_all-Keeps}

-- no row of the instance has the revision
abbrev pub HasPassed : String → ℤ → Tables → Type 0
HasPassed id revision t = keep (at_revision id revision) t.instances ≡ []

-- the request does not write the revision to the instance
abbrev pub Avoids : String → ℤ → Request → Type 0
Avoids id revision (create req) =
    (req.instance.id == id && eq_ℤ req.instance.revision revision) ≡ false
Avoids id revision (update req) =
    (req.instance.id == id && eq_ℤ req.instance.revision revision) ≡ false
Avoids id revision _ = Unit {0}

module _ ⦃db : Database⦄ (id : String) (revision : ℤ) where
  statements-passed : StatementsKeep (HasPassed id revision)
  statements-passed = record {
    add_history =
        λ row. Keeps-call _ λ t h. placed-keeps (HasPassed id revision) _ _ t h (λ _ _. h);
    add_task = λ row. Keeps-call _ λ t h. placed-keeps (HasPassed id revision) _ _ t h (λ _ _. h);
    add_outbox = λ row. Keeps-call _ λ t h. placed-keeps (HasPassed id revision) _ _ t h (λ _ _. h);
    add_key = λ row. Keeps-call _ λ t h. placed-keeps (HasPassed id revision) _ _ t h (λ _ _. h);
    claim = λ id attempt now. Keeps-call _ (λ t h. h);
    publish = λ id now. Keeps-call _ (λ t h. h);
  }

  Avoids→Allows :
      (request : Request) → Avoids id revision request → Allows (HasPassed id revision) request
  Avoids→Allows (create req) avoids = λ fields. Keeps-call _ λ t h.
      placed-keeps (HasPassed id revision) _ _ t h λ rows inserted.
        let row = instance_row req.instance fields in
        let (fresh, rows_eq) =
          insert_row-ok _ (λ r. r.id == row.id) row t.instances rows inserted in
        rw (rows_eq, keep-append (at_revision id revision) t.instances (row ∷ []), h, avoids) refl
  Avoids→Allows (update req) avoids = λ fields. Keeps-call _ λ t h.
      keep-update_nothing (at_revision req.instance.id req.expected_revision)
        (at_revision id revision) (set_instance req.instance fields) t.instances
        (λ r matched.
          ground
            (arith, avoids, eq_iff r.id req.instance.id, eq_iff r.id id, eq_iff req.instance.id id))
        h
  Avoids→Allows (complete req) avoids = λ input output. Keeps-call _ (λ t h. h)
  Avoids→Allows (add_history items) avoids = tt
  Avoids→Allows (add_outbox msgs) avoids = tt
  Avoids→Allows (mark_running task attempt) avoids = tt
  Avoids→Allows (record_key scope key result) avoids = tt
  Avoids→Allows (mark_published msg) avoids = tt

  All-Allows :
      (requests : List Request)
      → All (Avoids id revision) requests
      → All (Allows (HasPassed id revision)) requests
  All-Allows [] h = tt
  All-Allows (request ∷ requests) h = (Avoids→Allows request h.0, All-Allows requests h.1)

module _ ⦃env : Env⦄ ⦃db : Database⦄ where
  -- an update that finds no row fails and changes nothing
  update_refused :
      (req : UpdateInstanceRequest) (w : World Tables)
      → keep (at_revision req.instance.id req.expected_revision) w.store.instances ≡ []
      → (is_ok (update_instance req w).0 ≡ false) × ((update_instance req w).1.store ≡ w.store)
  unfolding update_instance
  update_refused req w none_match =
      let never : (x : World Tables) → update_body req (next_reading w) ≡ (ok tt, x) → ⊥ = λ x done.
        let (raw, u, raw_eq, one, u_eq, rest) = update_body-ok req (next_reading w) x done in
        let statement = is_counted_instance req.instance raw req.expected_revision in
        let none_counted =
          keep-imp (at_revision req.instance.id req.expected_revision) statement w.store.instances
            (λ r counted. ground arith) none_match in
        let no : false ≡ true = rw none_counted at one in cc in
      elim (with_tx-AllOrNothing (update_body req) w) [
        | inl (done, (x, ran, store_eq)) ↦ absurd (never x ran)
        | inr (failed, inl unchanged) ↦ (failed, unchanged)
        | inr (failed, inr (x, ran, store_eq)) ↦ absurd (never x ran)
      ]

  -- the update leaves no row at the revision from which it started
  update-HasPassed :
      (req : UpdateInstanceRequest) (w v : World Tables)
      → update_instance req w ≡ (ok tt, v)
      → eq_ℤ req.instance.revision req.expected_revision ≡ false
      → HasPassed req.instance.id req.expected_revision v.store
  unfolding update_instance
  update-HasPassed req w v done other_revision =
      let (x, ran, v_eq) = with_tx-ok (update_body req) w v done in
      let (raw, u, raw_eq, matched, u_eq, appended) = update_body-ok req (next_reading w) x ran in
      let passed = HasPassed req.instance.id req.expected_revision in
      let k = statements-passed req.instance.id req.expected_revision in
      rw v_eq (
        subst (λ p. passed p.1.store) appended
          ((append_all-Keeps k.add_history k.add_task k.add_outbox req.history req.tasks
              req.outbox).at
            u
            (rw u_eq (
              keep-update_rows (at_revision req.instance.id req.expected_revision)
                (at_revision req.instance.id req.expected_revision) (set_instance req.instance raw)
                w.store.instances (λ r e. ground (arith, other_revision)) (λ r e. e)))))

  -- Of two updates from one revision the second fails and changes nothing, whatever is done between them and
  -- whatever the database answers, if the first wrote another revision and nothing between them wrote the old
  -- one to the instance again.
  pub second_update_refused :
      (one two : UpdateInstanceRequest) (between : List Request) (w v : World Tables)
      → update_instance one w ≡ (ok tt, v)
      → eq_ℤ one.instance.revision one.expected_revision ≡ false
      → All (Avoids one.instance.id one.expected_revision) between
      → two.instance.id ≡ one.instance.id
      → two.expected_revision ≡ one.expected_revision
      → (is_ok (update_instance two (serve_all between v)).0 ≡ false)
        × ((update_instance two (serve_all between v)).1.store ≡ (serve_all between v).store)
  second_update_refused one two between w v done other_revision avoids id_eq revision_eq =
      update_refused two (serve_all between v) (
        rw (id_eq, revision_eq)
          (serve_all-Keeps (statements-passed one.instance.id one.expected_revision) between v
            (All-Allows one.instance.id one.expected_revision between avoids)
            (update-HasPassed one w v done other_revision)))
