-- ===== src/Sql/Progress.antt =====
-- Progress of persistence/internal/sqlstore/store.go: on a database whose calls work, a write succeeds, if its ids are
-- new and its maps can be written.
pub mod Methods
use fsm_go.Prelude.{
  ℕ, String, ◌≡◌, refl, sym, ap, ◌∙◌, subst, ◌≢◌, Bool, true, false, Option, none, some, List, [],
  ◌∷◌, ◌++◌, map, arith, ◌==◌, eq_iff, if◌then◌else◌, Bool-cases, inl, inr, first, All, All-imp,
}
use fsm_go.Dict.Laws.{AreDistinct, IsNew}
use fsm_go.Errors.{Result, ok}
use fsm_go.Types.{AnyMap, TaskExecution, ExecutionHistory, OutboxMessage, CreateInstanceRequest}
use fsm_go.World.{Env, World, Act, lift, pure, run_store, next_reading, ◌>>=◌, ◌>>◌}
use fsm_go.Sql.Database.{Database, works, wrapped, call, with_tx}
use fsm_go.Sql.Rows.{
  InstanceRow, TaskRow, HistoryRow, OutboxRow, Tables, marshal, instance_row, task_row, history_row,
  outbox_row,
}
use fsm_go.Sql.Calls.{>>=-run, lift-run}
use fsm_go.Sql.Writes.{
  add_history_row, add_task_row, add_outbox_row, add_instance_row, insert_history, insert_tasks,
  insert_outbox, filled, with_defaults, append_all, create_body, create_instance,
}

-- the map can be written to a JSON column
abbrev pub CanWrite : ⦃db : Database⦄ → AnyMap → Type 0
CanWrite m = (raw : String) × (marshal m ≡ ok raw)

-- the items have ids of their own, which none of the rows has
abbrev pub AreNew : {A R : Type 0} → (A → String) → (R → String) → List A → List R → Type 0
AreNew id key [] rows = Unit {0}
AreNew id key (x ∷ xs) rows =
    (first (λ r. key r == id x) rows ≡ none) × IsNew (id x) (map id xs) × AreNew id key xs rows

-- The entries, tasks and messages can be written, under ids that are new. A message has its id.
abbrev pub CanAppend :
    ⦃db : Database⦄
    → List ExecutionHistory
    → List TaskExecution
    → List OutboxMessage
    → Tables
    → Type 0
CanAppend history tasks outbox t =
    All (λ h. CanWrite h.payload) history
    × AreNew (λ h. h.id) (λ r. r.id) history t.history
    × All (λ t. CanWrite t.input × CanWrite t.output) tasks
    × AreNew (λ t. t.id) (λ r. r.id) tasks t.tasks
    × All (λ m. CanWrite m.payload × ((m.id == "") ≡ false)) outbox
    × AreNew (λ m. m.id) (λ r. r.id) outbox t.outbox

-- every call works
abbrev pub IsSound : Database → Type 0
IsSound db = (n : ℕ) → db.answer n ≡ works

module _ {A R : Type 0} (id : A → String) (key : R → String) where
  first-append_none :
      (k : String) (rows : List R) (row : R)
      → first (λ r. key r == k) rows ≡ none
      → (key row == k) ≡ false
      → first (λ r. key r == k) (rows ++ row ∷ []) ≡ none
  first-append_none k [] row h other = rw other refl
  first-append_none k (r ∷ rows) row h other = elim (Bool-cases (key r == k)) [
    | inl e ↦ absurd (let no : some r ≡ none = rw e at h in cc)
    | inr e ↦ rw e (first-append_none k rows row (rw e at h) other)
  ]

  -- a row with another id takes no id from the others
  AreNew-append :
      (xs : List A) (rows : List R) (row : R)
      → AreNew id key xs rows
      → IsNew (key row) (map id xs)
      → AreNew id key xs (rows ++ row ∷ [])
  AreNew-append [] rows row h new = tt
  AreNew-append (x ∷ xs) rows row (free, apart, rest) new = (
    first-append_none (id x) rows row free (ground (arith, new.0, eq_iff (key row) (id x))),
    apart,
    AreNew-append xs rows row rest new.1,
  )

module _ ⦃db : Database⦄ (sound : IsSound db) where
  call_sound :
      {S A : Type 0} (f : S → Result A × S) (w : World S)
      → call f w ≡ run_store (f w.store) (next_reading w)
  unfolding call
  call_sound f w = rw (sound w.readings) refl

  -- a statement that the tables accept
  pub statement_sound :
      {S A : Type 0} (context : String) (f : S → Result A × S) (w : World S) (x : A) (s : S)
      → f w.store ≡ (ok x, s)
      → wrapped context (call f) w ≡ (ok x, record (next_reading w) { store = s })
  statement_sound context f w x s h = rw (call_sound f w, h) refl

  insert_history-succeeds :
      (items : List ExecutionHistory) (w : World Tables)
      → All (λ h. CanWrite h.payload) items
      → AreNew (λ h. h.id) (λ r. r.id) items w.store.history
      → (v : World Tables) × (insert_history items w ≡ (ok tt, v))
        × (v.store.tasks ≡ w.store.tasks)
        × (v.store.outbox ≡ w.store.outbox)
  unfolding insert_history
  insert_history-succeeds [] w can new = (w, refl, refl, refl)
  insert_history-succeeds (item ∷ items) w ((raw, written), can) (free, apart, new) =
      let row = history_row item raw in
      let t = record w.store { history = w.store.history ++ row ∷ [] } in
      let next : World Tables = record (next_reading w) { store = t } in
      let (v, done, tasks_eq, outbox_eq) =
        insert_history-succeeds items next can
          (AreNew-append (λ h. h.id) (λ r. r.id) items w.store.history row new apart) in
      (
        v,
        lift-run (marshal item.payload) _ w raw written
            ∙ >>=-run (wrapped "insert history: " (call (add_history_row row)))
                (λ _. insert_history items) w next tt
                (statement_sound _ (add_history_row row) w tt t (rw free refl))
            ∙ done,
        tasks_eq,
        outbox_eq,
      )

  insert_tasks-succeeds :
      (tasks : List TaskExecution) (w : World Tables)
      → All (λ t. CanWrite t.input × CanWrite t.output) tasks
      → AreNew (λ t. t.id) (λ r. r.id) tasks w.store.tasks
      → (v : World Tables) × (insert_tasks tasks w ≡ (ok tt, v)) × (v.store.outbox ≡ w.store.outbox)
  unfolding insert_tasks
  insert_tasks-succeeds [] w can new = (w, refl, refl)
  insert_tasks-succeeds (task ∷ tasks) w (((input, h), (output, k)), can) (free, apart, new) =
      let row = task_row task input output in
      let t = record w.store { tasks = w.store.tasks ++ row ∷ [] } in
      let next : World Tables = record (next_reading w) { store = t } in
      let (v, done, outbox_eq) =
        insert_tasks-succeeds tasks next can
          (AreNew-append (λ t. t.id) (λ r. r.id) tasks w.store.tasks row new apart) in
      (
        v,
        lift-run (marshal task.input) _ w input h
            ∙ lift-run (marshal task.output) _ w output k
            ∙ >>=-run (wrapped "insert task: " (call (add_task_row row))) (λ _. insert_tasks tasks)
                w next tt (statement_sound _ (add_task_row row) w tt t (rw free refl))
            ∙ done,
        outbox_eq,
      )

module _ ⦃env : Env⦄ ⦃db : Database⦄ (sound : IsSound db) where
  with_defaults-given :
      (m : OutboxMessage) (w : World Tables)
      → (m.id == "") ≡ false
      → with_defaults m w ≡ (ok (filled m m.id (env.wall w.readings)), next_reading w)
  unfolding with_defaults
  with_defaults-given m w given = rw given refl

  insert_outbox-succeeds :
      (msgs : List OutboxMessage) (w : World Tables)
      → All (λ m. CanWrite m.payload × ((m.id == "") ≡ false)) msgs
      → AreNew (λ m. m.id) (λ r. r.id) msgs w.store.outbox
      → (v : World Tables) × (insert_outbox msgs w ≡ (ok tt, v))
  unfolding insert_outbox
  insert_outbox-succeeds [] w can new = (w, refl)
  insert_outbox-succeeds (m ∷ msgs) w (((raw, written), given), can) (free, apart, new) =
      let full = filled m m.id (env.wall w.readings) in
      let row = outbox_row full raw in
      let t = record w.store { outbox = w.store.outbox ++ row ∷ [] } in
      let next : World Tables = record (next_reading (next_reading w)) { store = t } in
      let (v, done) =
        insert_outbox-succeeds msgs next can
          (AreNew-append (λ m. m.id) (λ r. r.id) msgs w.store.outbox row new apart) in
      (
        v,
        >>=-run (with_defaults m) _ w (next_reading w) full (with_defaults-given m w given)
            ∙ lift-run (marshal m.payload) _ (next_reading w) raw written
            ∙ >>=-run (wrapped "insert outbox: " (call (add_outbox_row row)))
                (λ _. insert_outbox msgs) (next_reading w) next tt
                (statement_sound sound _ (add_outbox_row row) (next_reading w) tt t (rw free refl))
            ∙ done,
      )

  pub append_all-succeeds :
      (history : List ExecutionHistory) (tasks : List TaskExecution) (outbox : List OutboxMessage)
      (w : World Tables)
      → CanAppend history tasks outbox w.store
      → (v : World Tables) × (append_all history tasks outbox w ≡ (ok tt, v))
  unfolding append_all
  append_all-succeeds history tasks outbox w can =
      let (v, wrote_history, tasks_eq, outbox_eq) =
        insert_history-succeeds sound history w can.0 can.1 in
      let (u, wrote_tasks, outbox_eq') =
        insert_tasks-succeeds sound tasks v can.2 (rw tasks_eq can.3) in
      let (x, wrote_outbox) =
        insert_outbox-succeeds outbox u can.4 (rw (outbox_eq', outbox_eq) can.5) in
      (
        x,
        >>=-run (insert_history history) _ w v tt wrote_history
            ∙ >>=-run (insert_tasks tasks) _ v u tt wrote_tasks
            ∙ wrote_outbox,
      )
