-- ===== src/Runtime/Run/Overdue.antt =====
-- `runTask` of workflow/runtime.go for a task whose time is up before its handler is called.
use fsm_go.Prelude.{
  ℕ, suc, pos, negsuc, leb_ℤ, ◌-ℤ◌, ◌≤ℤ◌, saturate, String, ◌≡◌, refl, true, false, some, [], ◌∷◌,
  arith,
}
use fsm_go.Dict.{Dict, lookup}
use fsm_go.Errors.{ok}
use fsm_go.Types.{
  Time, is_zero, TaskStatus, HistoryType, TaskDefinition, WorkflowInstance, TaskExecution,
  ExecutionHistory,
}
use fsm_go.World.{Env, World, entry_of, input_of, id_at}
use fsm_go.Compiler.{Machine}
use fsm_go.Memory.{MemoryStore, ScanOrder, clone_instance}
use fsm_go.Runtime.Base.{TaskHandler, find_machine, find_handler}
use fsm_go.Runtime.Commands.Memory.{runtime_on, get_found}
use fsm_go.Runtime.Finish.{task_entry}
use fsm_go.Runtime.Finish.Endings.{ended_with, IsEnded}
use fsm_go.Runtime.Finish.Outcomes.{timed_out_task_ends}
use fsm_go.Runtime.Run.{until, find_task, run_task}

-- no time is left at the deadline and after it
until_past : (wall t : Time) → t ≤ℤ wall → leb_ℤ (until wall t) (pos 0) ≡ true
unfolding saturate ◌-ℤ◌
until_past (pos a) (pos b) h = ground arith
until_past (pos a) (negsuc b) h = ground arith
until_past (negsuc a) (pos b) h = ground arith
until_past (negsuc a) (negsuc b) h = ground arith

find_task_declared :
    (tasks : Dict TaskDefinition) (name : String) (def : TaskDefinition)
    → lookup name tasks ≡ some def
    → find_task tasks name ≡ ok def
unfolding find_task
find_task_declared tasks name def h = rw (find_task, h) refl

module _ ⦃env : Env⦄ (order : ScanOrder) (ms : Dict Machine) (hs : Dict (TaskHandler MemoryStore))
    (task : TaskExecution) (now : Time) (w : World MemoryStore) where
  -- Over the memory store, a task of a stored instance whose machine, definition and handler are registered, and
  -- whose deadline is set and has passed on the system clock before the handler is called, ends as timed out,
  -- whatever attempts it has left: the handler is not called, and all that is written is the task and the entries
  -- for its start and its end.
  pub overdue_task_times_out :
      (i : WorkflowInstance) (m : Machine) (def : TaskDefinition)
      (handler : TaskHandler MemoryStore)
      → lookup task.instance_id w.store.instances ≡ some i
      → find_machine (runtime_on order ms hs) i.workflow i.version ≡ ok m
      → lookup task.task m.tasks ≡ some def
      → find_handler (runtime_on order ms hs) def.handler ≡ ok handler
      → is_zero task.timeout_at ≡ false
      → task.timeout_at ≤ℤ env.wall (suc w.readings)
      → (t : TaskExecution) × (start end : ExecutionHistory) × (n : ℕ) × (run_task
            (runtime_on order ms hs)
            task
            now
            w
          ≡ (
            ok TaskStatus.timed_out,
            record { store = ended_with t (start ∷ end ∷ []) [] [] w.store; readings = n },
          ))
        × IsEnded task TaskStatus.timed_out now t
        × (start.type ≡ HistoryType.task_started)
        × (end.type ≡ HistoryType.task_timed_out)
  unfolding run_task task_entry
  overdue_task_times_out i m def handler stored known declared found set past =
      let start : ExecutionHistory =
        entry_of
          (record (input_of i.id HistoryType.task_started "任务开始执行" i.state now) {
            task_id = task.id;
            task = task.task;
          })
          (id_at "hist" w.readings) in
      let w' : World MemoryStore = record w { readings = suc (suc w.readings) } in
      let (n, t, end, done, ended, type) =
        timed_out_task_ends order ms hs (clone_instance i) def now task (start ∷ []) w' in
      (
        t,
        start,
        end,
        n,
        rw
            (
              get_found task.instance_id w.store i stored,
              known,
              find_task_declared m.tasks task.task def declared,
              found,
              set,
              until_past (env.wall (suc w.readings)) task.timeout_at past,
            )
            done,
        ended,
        refl,
        type,
      )
