-- ===== src/Sql/Conflicts/Claims.antt =====
-- `MarkTaskRunning` of persistence/internal/sqlstore/store.go: a task that one worker has claimed is not claimed
-- again until an operation writes it as waiting.
use fsm_go.Prelude.{
  String, ℤ, eqb, eq_ℤ, ◌≡◌, refl, sym, ap, ◌∙◌, subst, Bool, true, false, ◌&&◌, not, some, List,
  [], ◌∷◌, arith, ◌==◌, eq_iff, Bool-cases, inl, inr, keep, first, All, keep-append, is_some,
}
use fsm_go.Errors.{ok, is_ok, concurrent_update, ok-injective}
use fsm_go.Types.{Time, TaskExecution}
use fsm_go.World.{Env, World, next_reading}
use fsm_go.Memory.{is_waiting}
use fsm_go.Sql.Database.{Database, is_counted, call, update_rows}
use fsm_go.Sql.Rows.{TaskRow, Tables, scan_task}
use fsm_go.Sql.Writes.{
  add_task_row, is_claimable, is_as_claimed, set_running, set_task, claim_row, complete_row,
  mark_task_running, read_task,
}
use fsm_go.Sql.Calls.{insert_row-ok, placed-keeps, >>=-ok, call-ok, guarded-ok}
use fsm_go.Sql.Requests.{
  Request, create, update, complete, add_history, add_outbox, mark_running, record_key,
  mark_published, serve_all,
}
use fsm_go.Sql.Atomic.{answer-cases}
use fsm_go.Sql.PrimaryKeys.{HasPrimaryKeys}
use fsm_go.Sql.Unique.{same_key, AreUnique-update, counted-one, keep-with_key}
use fsm_go.Sql.Shown.{first-update_rows}
use fsm_go.Sql.Shown.Updates.{first-some}
use fsm_go.Sql.Keeps.{Keeps, Keeps-call}
use fsm_go.Sql.Keeps.Requests.{StatementsKeep, Allows, serve_all-Keeps}
use fsm_go.Sql.Updating.{
  keep-update_nothing, is_some-update_rows, is_some-append, keep-imp, update_rows-none,
}

-- the row waits under the id
abbrev waits : String → TaskRow → Bool
waits id r = r.id == id && is_waiting r.status

-- a row has the id, and no row with it waits
abbrev IsTaken : String → Tables → Type 0
IsTaken id t = (is_some (first (λ r. r.id == id) t.tasks) ≡ true) × (keep (waits id) t.tasks ≡ [])

-- the request does not complete the task with a status that waits
abbrev pub Spares : String → Request → Type 0
Spares id (complete req) = (req.task.id == id && is_waiting req.task.status) ≡ false
Spares id _ = Unit {0}

module _ ⦃db : Database⦄ (id : String) where
  -- a second row under the id is refused, and the other rows do not count
  add_task_row-IsTaken : (row : TaskRow) → Keeps (IsTaken id) (call (add_task_row row))
  add_task_row-IsTaken row = Keeps-call _ λ t (stands, nothing).
      placed-keeps (IsTaken id) _ _ t (stands, nothing)
        λ rows inserted.
          let (fresh, rows_eq) = insert_row-ok _ (λ r. r.id == row.id) row t.tasks rows inserted in
          rw rows_eq (
            is_some-append id t.tasks (row ∷ []) stands,
            rw (keep-append (waits id) t.tasks (row ∷ []), nothing)
                (elim (Bool-cases (row.id == id)) [
                  | inl e ↦ absurd (
                      let here : is_some (first (λ r. r.id == row.id) t.tasks) ≡ true =
                        subst (λ i. is_some (first (λ r. r.id == i) t.tasks) ≡ true)
                          (sym ((eq_iff row.id id).0 e)) stands in
                      let no : false ≡ true = rw fresh at here in cc)
                  | inr e ↦ rw e refl
                ]),
          )

  claim_row-IsTaken :
      (other : String) (attempt : ℤ) (now : Time)
      → Keeps (IsTaken id) (call (claim_row other attempt now))
  claim_row-IsTaken other attempt now = Keeps-call _ λ t (stands, nothing). (
    is_some-update_rows id (is_claimable other attempt) (set_running now) (λ r. refl) t.tasks
        stands,
    keep-update_nothing (is_claimable other attempt) (waits id) (set_running now) t.tasks
        (λ r m. ground arith) nothing,
  )

  complete_row-IsTaken :
      (task : TaskExecution) (input output : String)
      → (task.id == id && is_waiting task.status) ≡ false
      → Keeps (IsTaken id) (call (complete_row task input output))
  complete_row-IsTaken task input output spared = Keeps-call _ λ t (stands, nothing). (
    is_some-update_rows id (λ r. r.id == task.id) (set_task task input output) (λ r. refl) t.tasks
        stands,
    keep-update_nothing (λ r. r.id == task.id) (waits id) (set_task task input output) t.tasks
        (λ r m. rw ((eq_iff r.id task.id).0 m) spared) nothing,
  )

  statements-IsTaken : StatementsKeep (IsTaken id)
  statements-IsTaken = record {
    add_history = λ row. Keeps-call _ λ t h. placed-keeps (IsTaken id) _ _ t h (λ _ _. h);
    add_task = add_task_row-IsTaken;
    add_outbox = λ row. Keeps-call _ λ t h. placed-keeps (IsTaken id) _ _ t h (λ _ _. h);
    add_key = λ row. Keeps-call _ λ t h. placed-keeps (IsTaken id) _ _ t h (λ _ _. h);
    claim = claim_row-IsTaken;
    publish = λ id now. Keeps-call _ (λ t h. h);
  }

  All-Allows :
      (requests : List Request) → All (Spares id) requests → All (Allows (IsTaken id)) requests
  All-Allows [] h = tt
  All-Allows (create req ∷ rest) h = (
    λ fields. Keeps-call _ λ t k. placed-keeps (IsTaken id) _ _ t k (λ _ _. k),
    All-Allows rest h.1,
  )
  All-Allows (update req ∷ rest) h = (λ fields. Keeps-call _ (λ t k. k), All-Allows rest h.1)
  All-Allows (complete req ∷ rest) h =
      (λ input output. complete_row-IsTaken req.task input output h.0, All-Allows rest h.1)
  All-Allows (add_history _ ∷ rest) h = (tt, All-Allows rest h.1)
  All-Allows (add_outbox _ ∷ rest) h = (tt, All-Allows rest h.1)
  All-Allows (mark_running _ _ ∷ rest) h = (tt, All-Allows rest h.1)
  All-Allows (record_key _ _ _ ∷ rest) h = (tt, All-Allows rest h.1)
  All-Allows (mark_published _ ∷ rest) h = (tt, All-Allows rest h.1)

module _ ⦃env : Env⦄ ⦃db : Database⦄ (id : String) where
  mark_task_running-IsTaken :
      (attempt : ℤ) (w v : World Tables) (task : TaskExecution)
      → HasPrimaryKeys w.store
      → mark_task_running id attempt w ≡ (ok task, v)
      → IsTaken id v.store
  unfolding mark_task_running
  mark_task_running-IsTaken attempt w v task keys done =
      let now = env.wall w.readings in
      let (affected, u, claimed, rest) =
        >>=-ok (call (claim_row id attempt now)) _ (next_reading w) v task done in
      let ran = call-ok (claim_row id attempt now) (next_reading w) u affected claimed in
      let (one, read) =
        guarded-ok (eqb affected 1) (read_task id) (concurrent_update id) u v task rest in
      let read_eq = call-ok _ u v task read in
      let (row, found, hit) =
        counted-one (λ r. r.id) id (λ r. eq_ℤ r.attempt attempt && is_waiting r.status)
          (λ r. not (db.reports_changed && is_as_claimed now r)) w.store.tasks keys.tasks
          (subst (λ n. eqb n 1 ≡ true) (sym (ok-injective (ap (λ p. p.0) ran))) one) in
      let store_eq = sym (ap (λ p. p.1) read_eq) ∙ sym (ap (λ p. p.1) ran) in
      let marked = update_rows (is_claimable id attempt) (set_running now) w.store.tasks in
      let row_found =
        first-update_rows scan_task (λ r. r.id) (is_claimable id attempt) (set_running now)
          (λ r. refl) id w.store.tasks in
      let matched : is_claimable id attempt row ≡ true =
        ground (arith, hit, first-some (λ r. r.id == id) w.store.tasks row found) in
      let running : first (λ r. r.id == id) marked ≡ some (set_running now row) =
        row_found ∙ (rw (found, matched) refl) in
      rw store_eq (
        rw running refl,
        rw
            (
              keep-with_key (λ r. r.id) id (λ r. is_waiting r.status) marked
                  (AreUnique-update (same_key (λ r. r.id)) (is_claimable id attempt)
                    (set_running now) (λ r later. refl) (λ r later. refl) w.store.tasks keys.tasks),
              running,
            )
            refl,
      )

  refused_if_taken :
      (attempt : ℤ) (w : World Tables)
      → IsTaken id w.store
      → (is_ok (mark_task_running id attempt w).0 ≡ false)
        × ((mark_task_running id attempt w).1.store ≡ w.store)
  unfolding mark_task_running call
  refused_if_taken attempt w (stands, nothing) =
      let none_match =
        keep-imp (waits id) (is_claimable id attempt) w.store.tasks (λ r m. ground arith) nothing in
      let none_counted =
        keep-imp (is_claimable id attempt)
          (is_counted (is_claimable id attempt) (is_as_claimed (env.wall w.readings))) w.store.tasks
          (λ r m. ground arith) none_match in
      let same =
        update_rows-none (is_claimable id attempt) (set_running (env.wall w.readings)) w.store.tasks
          none_match in
      elim (answer-cases (db.answer (next_reading w).readings)) [
        | inl e ↦ rw (e, none_counted) (refl, ap (λ rows. record w.store { tasks = rows }) same)
        | inr (inl (text, e)) ↦ rw e (refl, refl)
        | inr (inr (text, e)) ↦ rw e (refl, ap (λ rows. record w.store { tasks = rows }) same)
      ]

  -- Once `MarkTaskRunning` has claimed a task, a second claim, for whatever attempt, fails and changes nothing,
  -- whatever is done in between and whatever the database answers, if no `CompleteTask` has written the task as
  -- pending or retrying and no two rows had one key.
  pub second_claim_refused :
      (attempt attempt' : ℤ) (between : List Request) (w v : World Tables) (task : TaskExecution)
      → HasPrimaryKeys w.store
      → mark_task_running id attempt w ≡ (ok task, v)
      → All (Spares id) between
      → (is_ok (mark_task_running id attempt' (serve_all between v)).0 ≡ false)
        × ((mark_task_running id attempt' (serve_all between v)).1.store
            ≡ (serve_all between v).store)
  second_claim_refused attempt attempt' between w v task keys done spared =
      refused_if_taken attempt' (serve_all between v) (
        serve_all-Keeps (statements-IsTaken id) between v (All-Allows id between spared)
          (mark_task_running-IsTaken attempt w v task keys done))
