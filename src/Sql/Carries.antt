-- ===== src/Sql/Carries.antt =====
-- Actions on the tables that write what an operation of the store in memory writes: the loops of
-- persistence/internal/sqlstore/store.go that insert the history, the tasks and the messages.
pub mod Outbox
use fsm_go.Prelude.{
  String, ◌≡◌, refl, sym, ap, subst, Bool, true, false, List, [], ◌∷◌, ◌++◌, map, ◌==◌,
  if◌then◌else◌, Bool-cases, inl, inr, append,
}
use mathlib.Core.List.{append_assoc, append-nil}
use fsm_go.Dict.{insert}
use fsm_go.Errors.{Result, ok, err, ok-injective}
use fsm_go.Types.{TaskExecution, ExecutionHistory, OutboxMessage}
use fsm_go.World.{Env, World, Act, lift, pure, ◌>>=◌, ◌>>◌}
use fsm_go.Memory.{
  MemoryStore, append_locked, put_tasks, put_outbox, clone_task, clone_history, clone_outbox,
}
use fsm_go.Sql.Database.{Database, wrapped, call}
use fsm_go.Sql.Rows.{Tables, marshal, history_row, task_row, outbox_row}
use fsm_go.Sql.Writes.{
  add_history_row, add_task_row, add_outbox_row, insert_history, insert_tasks, insert_outbox,
}
use fsm_go.Sql.Calls.{call-ok, wrapped-ok, >>=-ok}
use fsm_go.Sql.Records.{
  IsCodec, kept_history, kept_task, kept_outbox, scan_history-history_row, scan_task-task_row,
  scan_outbox-outbox_row,
}
use fsm_go.Sql.Shown.{Shows}
use fsm_go.Sql.Shown.Statements.{Shows-add_history_row, Shows-add_task_row, Shows-add_outbox_row}

-- Where `m` succeeds, from tables that show a store, the tables show what `f` makes of it.
abbrev pub Carries : ⦃db : Database⦄ → Act Tables (Unit {0}) → (MemoryStore → MemoryStore) → Type 0
Carries m f =
    (w w' : World Tables) (s : MemoryStore)
    → Shows w.store s
    → m w ≡ (ok tt, w')
    → Shows w'.store (f s)

module _ ⦃db : Database⦄ where
  pub lift-ok :
      {A : Type 0} (r : Result A) (w v : World Tables) (a : A)
      → lift r w ≡ (ok a, v)
      → (r ≡ ok a) × (w ≡ v)
  lift-ok r w v a h = (ap (λ p. p.0) h, ap (λ p. p.1) h)

  -- a map is written before the statement
  pub Carries-lift :
      {A : Type 0} (r : Result A) (m : A → Act Tables (Unit {0})) (f : MemoryStore → MemoryStore)
      → ((a : A) → r ≡ ok a → Carries (m a) f)
      → Carries (lift r >>= m) f
  Carries-lift r m f carries w w' s h done =
      let (a, v, lifted, rest) = >>=-ok (lift r) m w w' tt done in
      let (r_eq, w_eq) = lift-ok r w v a lifted in
      carries a r_eq v w' s (subst (λ x. Shows x.store s) w_eq h) rest

  pub Carries-then :
      (m n : Act Tables (Unit {0})) (f g : MemoryStore → MemoryStore)
      → Carries m f
      → Carries n g
      → Carries (m >> n) (λ s. g (f s))
  Carries-then m n f g first_part rest_part w w' s h done =
      let (x, v, here, rest) = >>=-ok m (λ _. n) w w' tt done in
      rest_part v w' (f s) (first_part w v s h here) rest

  pub Carries-statement :
      (context : String) (statement : Tables → Result (Unit {0}) × Tables)
      (f : MemoryStore → MemoryStore)
      → ((t t' : Tables) (s : MemoryStore) → Shows t s → statement t ≡ (ok tt, t') → Shows t' (f s))
      → Carries (wrapped context (call statement)) f
  Carries-statement context statement f does w w' s h done =
      does w.store w'.store s h
        (call-ok statement w w' tt (wrapped-ok context (call statement) w w' tt done))

  module _ (codec : IsCodec db) where
    pub insert_history-Carries :
        (items : List ExecutionHistory)
        → Carries
            (insert_history items)
            (λ s. record s { history = append_locked (map kept_history items) s.history })
    unfolding insert_history
    insert_history-Carries [] w w' s h done =
        rw append-nil (subst (λ v. Shows v.store s) (ap (λ p. p.1) done) h)
    insert_history-Carries (item ∷ items) w w' s h done =
        subst (λ hs. Shows w'.store (record s { history = hs }))
          (append_assoc s.history (clone_history (kept_history item) ∷ [])
            (map clone_history (map kept_history items)))
          (Carries-lift (marshal item.payload) _ _
            (λ raw written.
              Carries-then _ (insert_history items) _ _
                (Carries-statement _ (add_history_row (history_row item raw)) _ λ t t' s h done.
                  Shows-add_history_row t t' s h (history_row item raw)
                    (clone_history (kept_history item)) done
                    (scan_history-history_row codec item raw written))
                (insert_history-Carries items))
            w w' s h done)

    pub insert_tasks-Carries :
        (tasks : List TaskExecution)
        → Carries
            (insert_tasks tasks)
            (λ s. record s { tasks = put_tasks (map kept_task tasks) s.tasks })
    unfolding insert_tasks
    insert_tasks-Carries [] w w' s h done = subst (λ v. Shows v.store s) (ap (λ p. p.1) done) h
    insert_tasks-Carries (task ∷ tasks) w w' s h done =
        Carries-lift (marshal task.input) _ _
          (λ input input_written. Carries-lift (marshal task.output) _ _ λ output output_written.
            Carries-then _ (insert_tasks tasks) _ _
              (Carries-statement _ (add_task_row (task_row task input output)) _ λ t t' s h done.
                Shows-add_task_row t t' s h (task_row task input output)
                  (clone_task (kept_task task)) done
                  (scan_task-task_row codec task input output input_written output_written))
              (insert_tasks-Carries tasks))
          w w' s h done
