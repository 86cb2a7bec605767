-- ===== src/Sql/Due.antt =====
-- `ListDueTasks` of persistence/internal/sqlstore/store.go: the database orders the due tasks before it limits
-- them.
use fsm_go.Prelude.{
  ℕ, pos, String, ◌≡◌, sym, ap, true, false, List, [], ◌++◌, Permᴰ, arith, ◌≤◌, ◌<◌, length, keep,
  take, drop, take-drop, length-take,
}
use fsm_go.Errors.{ok}
use fsm_go.Types.{Time, TaskExecution}
use fsm_go.World.{World}
use fsm_go.Memory.Sorting.{
  sort_stable, sort_stable-perm, sort_stable-IsSorted, IsSorted, IsWeakOrder,
}
use fsm_go.Sql.Database.{Database}
use fsm_go.Sql.Rows.{TaskRow, Tables, scan_task, scan_rows}
use fsm_go.Sql.Reads.{earlier, task_before, is_due_row, list_due_tasks}
use fsm_go.Sql.Calls.{call-ok}

module _ ⦃db : Database⦄ (texts : IsWeakOrder db.text_before) where
  task_before-IsWeakOrder : IsWeakOrder task_before
  task_before-IsWeakOrder = record {
    asym = λ x y h. earlier-asym x.next_run_at y.next_run_at x.id y.id h;
    trans = λ x y z h k. earlier-trans x.next_run_at y.next_run_at z.next_run_at x.id y.id z.id h k;
  }
    where
      earlier-asym : (a b : Time) (i j : String) → earlier a i b j ≡ true → earlier b j a i ≡ false
      earlier-asym (pos a) (pos b) i j h = ground (arith, texts.asym i j)
      earlier-asym _ _ i j h = ground (arith, texts.asym i j)

      earlier-trans :
          (a b c : Time) (i j k : String)
          → earlier b j a i ≡ false
          → earlier c k b j ≡ false
          → earlier c k a i ≡ false
      earlier-trans (pos a) (pos b) (pos c) i j k g h = ground (arith, texts.trans i j k)
      earlier-trans _ _ _ i j k g h = ground (arith, texts.trans i j k)

  pub list_due_tasks_earliest :
      (n : ℕ) (now : Time) (w v : World Tables) (out : List TaskExecution)
      → list_due_tasks (pos n) now w ≡ (ok out, v)
      → (rows rest : List TaskRow) × (scan_rows scan_task rows ≡ ok out)
        × Permᴰ (rows ++ rest) (keep (is_due_row now) w.store.tasks)
        × IsSorted task_before (rows ++ rest)
        × (length rows ≤ n)
        × (length rows < n → rest ≡ [])
        × (v.store ≡ w.store)
  unfolding list_due_tasks
  list_due_tasks_earliest n now w v out done =
      let due = keep (is_due_row now) w.store.tasks in
      let sorted = sort_stable task_before due in
      let ran = call-ok _ w v out done in
      let (fits, room) = length-take n sorted in
      (
        take n sorted,
        drop n sorted,
        ap (λ p. p.0) ran,
        rw (take-drop n sorted) (sort_stable-perm task_before due),
        rw (take-drop n sorted) (sort_stable-IsSorted task_before task_before-IsWeakOrder due),
        fits,
        room,
        sym (ap (λ p. p.1) ran),
      )
