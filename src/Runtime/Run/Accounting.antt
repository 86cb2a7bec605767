-- ===== src/Runtime/Run/Accounting.antt =====
-- What the report of `RunDueTasks` in workflow/runtime.go counts.
use fsm_go.Prelude.{
  ℤ, ap, pos, leb_ℤ, ◌≡◌, refl, inl, inr, true, false, Option, none, some, List, [], ◌∷◌, length,
  Bool-cases, if◌then◌else◌, ◌⊎◌,
}
use fsm_go.Errors.{Error, Result, ok, err, Result-cases, is_concurrent_update}
use fsm_go.Types.{Time, is_zero, TaskStatus, TaskExecution, RunOptions, RunReport}
use fsm_go.World.{Env, World, Act, pure, try, ◌>>=◌, next_reading}
use fsm_go.Runtime.Base.{Runtime}
use fsm_go.Runtime.Run.{counted, report_of, run_task, run_claimed, run_each, run_due_tasks}
use fsm_go.Runtime.Run.Counting.{Counts, Counts-none, Counts-more}

-- A run of tasks in turn: the statuses of those that ran, and the error that ended the run, if one did. A task that
-- another worker has claimed is passed over.
pub data Runs ⦃env : Env⦄ {S : Type 0} (r : Runtime S) (now : Time)
    : List TaskExecution → World S → List TaskStatus → Option Error → World S → Type 0 where
  finished : {w : World S} → Runs r now [] w [] none w
  passed_over :
      {task : TaskExecution} {tasks : List TaskExecution} {w u v : World S}
      {statuses : List TaskStatus} {end : Option Error} (e : Error)
      → r.store.mark_task_running task.id task.attempt w ≡ (err e, u)
      → is_concurrent_update e ≡ true
      → Runs r now tasks u statuses end v
      → Runs r now (task ∷ tasks) w statuses end v
  claim_failed :
      {task : TaskExecution} {tasks : List TaskExecution} {w u : World S} (e : Error)
      → r.store.mark_task_running task.id task.attempt w ≡ (err e, u)
      → is_concurrent_update e ≡ false
      → Runs r now (task ∷ tasks) w [] (some e) u
  ran :
      {task : TaskExecution} {tasks : List TaskExecution} {w u x v : World S}
      {statuses : List TaskStatus} {end : Option Error} (locked : TaskExecution)
      (status : TaskStatus)
      → r.store.mark_task_running task.id task.attempt w ≡ (ok locked, u)
      → run_task r locked now u ≡ (ok status, x)
      → Runs r now tasks x statuses end v
      → Runs r now (task ∷ tasks) w (status ∷ statuses) end v
  run_failed :
      {task : TaskExecution} {tasks : List TaskExecution} {w u x : World S} (locked : TaskExecution)
      (e : Error)
      → r.store.mark_task_running task.id task.attempt w ≡ (ok locked, u)
      → run_task r locked now u ≡ (err e, x)
      → Runs r now (task ∷ tasks) w [] (some e) x

module _ ⦃env : Env⦄ {S : Type 0} (r : Runtime S) where
  run_each-Runs :
      (now : Time) (tasks : List TaskExecution) (report : RunReport) (w : World S)
      → (report' : RunReport) × (statuses : List TaskStatus) × (e : Option Error) × (w' : World S)
        × (run_each r now tasks report w ≡ (ok (report', e), w'))
        × Runs r now tasks w statuses e w'
        × Counts report statuses report'
  unfolding run_each run_claimed
  run_each-Runs now [] report w = (report, [], none, w, refl, Runs.finished, Counts-none report)
  run_each-Runs now (task ∷ tasks) report w =
      let claim = r.store.mark_task_running task.id task.attempt w in
      elim (Result-cases claim.0) [
        | inl (locked, claimed) ↦
            let done = run_task r locked now claim.1 in
            elim (Result-cases done.0) [
              | inl (status, e) ↦
                  let (report', statuses, end, w', run, runs, counts) =
                    run_each-Runs now tasks (counted status report) done.1 in
                  (
                    report',
                    status ∷ statuses,
                    end,
                    w',
                    rw (run_each, run_claimed, claimed, e) run,
                    Runs.ran locked status (ap (λ x. (x, claim.1)) claimed)
                        (ap (λ x. (x, done.1)) e) runs,
                    Counts-more report report' status statuses counts,
                  )
              | inr (e, h) ↦ (
                report,
                [],
                some e,
                done.1,
                rw (run_each, run_claimed, claimed, h) refl,
                Runs.run_failed locked e (ap (λ x. (x, claim.1)) claimed) (ap (λ x. (x, done.1)) h),
                Counts-none report,
              )
            ]
        | inr (e, h) ↦ elim (Bool-cases (is_concurrent_update e)) [
          | inl lost ↦
              let (report', statuses, end, w', run, runs, counts) =
                run_each-Runs now tasks report claim.1 in
              (
                report',
                statuses,
                end,
                w',
                rw (run_each, run_claimed, h, lost) run,
                Runs.passed_over e (ap (λ x. (x, claim.1)) h) lost runs,
                counts,
              )
          | inr other ↦ (
            report,
            [],
            some e,
            claim.1,
            rw (run_each, run_claimed, h, other) refl,
            Runs.claim_failed e (ap (λ x. (x, claim.1)) h) other,
            Counts-none report,
          )
        ]
      ]

  -- the instant up to which tasks are due, with the world after it was read
  abbrev pub instant_of : RunOptions → World S → Time × World S
  instant_of opts w =
      if is_zero opts.now then (env.clock w.readings, next_reading w) else (opts.now, w)

  abbrev pub limit_of : RunOptions → ℤ
  limit_of opts = if leb_ℤ opts.limit (pos 0) then pos 100 else opts.limit

  -- how a scan with its run of tasks ends: by the scan's error, with an empty report, or by the run of the tasks
  -- that were found, with a report that counts it
  abbrev pub Accounted :
      Time
      → Result (List TaskExecution) × World S
      → Result (RunReport × Option Error) × World S
      → Type 0
  Accounted now scanned done =
      ((e : Error) × (scanned.0 ≡ err e) × (done ≡ (ok (report_of 0, some e), scanned.1)))
      ⊎ ((due : List TaskExecution) × (report : RunReport) × (statuses : List TaskStatus)
          × (end : Option Error) × (w' : World S) × (scanned.0 ≡ ok due)
          × (done ≡ (ok (report, end), w'))
          × Runs r now due scanned.1 statuses end w'
          × Counts (report_of (length due)) statuses report)

  -- the tasks that the scan finds, run in turn
  abbrev run_listed : ℤ → Time → Act S (RunReport × Option Error)
  run_listed limit now = do
    listed ← try (r.store.list_due_tasks limit now)
    elim listed [
      | err e ↦ pure (report_of 0, some e)
      | ok due ↦ run_each r now due (report_of (length due))
    ]

  run_listed-Accounted :
      (limit : ℤ) (now : Time) (w : World S)
      → Accounted now (r.store.list_due_tasks limit now w) (run_listed limit now w)
  run_listed-Accounted limit now w =
      let listed = r.store.list_due_tasks limit now w in
      elim (Result-cases listed.0) [
        | inl (due, found) ↦
            let (report, statuses, end, w', run, runs, counts) =
              run_each-Runs now due (report_of (length due)) listed.1 in
            inr (due, report, statuses, end, w', found, rw found run, runs, counts)
        | inr (e, h) ↦ inl (e, h, rw h refl)
      ]

  -- RunDueTasks fails with the error of its scan and an empty report, or runs the tasks that the scan found in turn.
  -- Its report then has their number, and counts every task that ran under the status with which it ended, and
  -- no other; its error is the one that ended the run, if one did. The scan is for the given limit, or 100 where
  -- that is not positive, and for the given time, or the clock's where that is zero.
  pub run_due_tasks-Accounted :
      (opts : RunOptions) (w : World S)
      → let (now, v) = instant_of opts w in
        Accounted now (r.store.list_due_tasks (limit_of opts) now v) (run_due_tasks r opts w)
  unfolding run_due_tasks
  run_due_tasks-Accounted opts w = elim (Bool-cases (is_zero opts.now)) [
    | inl unset ↦
        rw unset (run_listed-Accounted (limit_of opts) (env.clock w.readings) (next_reading w))
    | inr set ↦ rw set (run_listed-Accounted (limit_of opts) opts.now w)
  ]
