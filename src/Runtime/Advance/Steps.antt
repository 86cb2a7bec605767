-- ===== src/Runtime/Advance/Steps.antt =====
-- What an event does to an instance: the step as a relation, and that `applyEvent` makes such steps only.
use fsm_go.Prelude.{
  ℕ, suc, pos, inc, String, ◌≡◌, refl, true, false, some, List, [], ◌∷◌, map, arith, ap,
}
use fsm_go.Dict.{lookup, lookup_or}
use fsm_go.Errors.{ok}
use fsm_go.Types.{
  Time, zero_state, zero_task, InstanceStatus, TaskStatus, HistoryType, StateDefinition, Transition,
  WorkflowInstance, TaskExecution, ExecutionHistory,
}
use fsm_go.World.{Env, World, id_at, entry_of, input_of}
use fsm_go.Compiler.{Machine, transition_key}
use fsm_go.Runtime.Base.{Runtime, find_machine}
use fsm_go.Runtime.Advance.{Advance, scheduled, advanced, is_completed, schedule_task, schedule_all}

abbrev pub types_of : List ExecutionHistory → List HistoryType
types_of = map (λ h. h.type)

-- the state that a machine has under a name
abbrev pub state_at : Machine → String → StateDefinition
state_at m name = lookup_or zero_state name m.states

-- a task execution that waits for its first attempt, made from the definition of its name
abbrev pub IsScheduled : Machine → WorkflowInstance → Time → String → TaskExecution → Type 0
IsScheduled m i now name t =
    (t.task ≡ (lookup_or zero_task name m.tasks).name)
    × (t.handler ≡ (lookup_or zero_task name m.tasks).handler)
    × (t.max_attempts ≡ (lookup_or zero_task name m.tasks).retry.max_attempts)
    × (t.instance_id ≡ i.id)
    × (t.status ≡ TaskStatus.pending)
    × (t.attempt ≡ pos 1)
    × (t.next_run_at ≡ now)

-- one scheduled task for each name, in order
abbrev pub AreScheduled :
    Machine → WorkflowInstance → Time → List String → List TaskExecution → Type 0
AreScheduled m i now [] [] = Unit {0}
AreScheduled m i now [] (t ∷ ts) = ⊥
AreScheduled m i now (n ∷ ns) [] = ⊥
AreScheduled m i now (n ∷ ns) (t ∷ ts) = IsScheduled m i now n t × AreScheduled m i now ns ts

-- one entry of a type for each item
abbrev pub repeat {ℓ} : {A : Type ℓ} → HistoryType → List A → List HistoryType
repeat type [] = []
repeat type (_ ∷ xs) = type ∷ repeat type xs

-- what `scheduleTask` makes in a world: the task, and its entry
abbrev pub task_in :
    ⦃env : Env⦄ {S : Type 0} → Machine → WorkflowInstance → Time → String → World S → TaskExecution
task_in m i now name w =
    scheduled (id_at "task" w.readings) (lookup_or zero_task name m.tasks) i now

abbrev pub entry_in :
    ⦃env : Env⦄ {S : Type 0} → WorkflowInstance → Time → TaskExecution → World S → ExecutionHistory
entry_in i now t w =
    entry_of
      (record (input_of i.id HistoryType.task_scheduled "任务已调度" i.state now) {
        task_id = t.id;
        task = t.task;
      })
      (id_at "hist" (suc w.readings))

abbrev pub after_two : {S : Type 0} → World S → World S
after_two w = record w { readings = suc (suc w.readings) }

module _ ⦃env : Env⦄ {S : Type 0} (r : Runtime S) (m : Machine) (i : WorkflowInstance) (now : Time)
    (known : find_machine r i.workflow i.version ≡ ok m) where
  pub schedule_task_lem :
      (name : String) (w : World S)
      → schedule_task r i name now w
        ≡ (ok (task_in m i now name w, entry_in i now (task_in m i now name w) w), after_two w)
  unfolding schedule_task
  schedule_task_lem name w = rw (known, schedule_task)

  pub task_in-IsScheduled :
      (name : String) (w : World S) → IsScheduled m i now name (task_in m i now name w)
  unfolding scheduled
  task_in-IsScheduled name w = (refl, refl, refl, refl, refl, refl, refl)

  -- scheduling succeeds and leaves the store alone
  pub schedule_all-AreScheduled :
      (names : List String) (w : World S)
      → (ts : List TaskExecution) × (hs : List ExecutionHistory) × (n : ℕ) × (schedule_all r i now
            names w
          ≡ (ok (ts, hs), record w { readings = n }))
        × AreScheduled m i now names ts
        × (types_of hs ≡ repeat HistoryType.task_scheduled names)
  unfolding schedule_all
  schedule_all-AreScheduled [] w = ([], [], w.readings, refl, tt, refl)
  schedule_all-AreScheduled (name ∷ names) w =
      let t = task_in m i now name w in
      let (ts, hs, n, e, a, p) = schedule_all-AreScheduled names (after_two w) in
      (
        t ∷ ts,
        entry_in i now t w ∷ hs,
        n,
        rw (schedule_task_lem name w, e),
        (task_in-IsScheduled name w, a),
        ap (λ l. HistoryType.task_scheduled ∷ l) p,
      )

-- `next` is `i` after transition `t` at `now`: in the target state, one revision on, completed if the
-- target is terminal, and otherwise as it was.
pub record IsMoved (m : Machine) (i : WorkflowInstance) (t : Transition) (now : Time)
    (next : WorkflowInstance) : Type 0 where
  pub state : next.state ≡ t.to
  pub revision : next.revision ≡ inc i.revision
  pub same_id : next.id ≡ i.id
  pub same_workflow : next.workflow ≡ i.workflow
  pub same_version : next.version ≡ i.version
  pub same_fields : next.fields ≡ i.fields
  pub same_start : next.started_at ≡ i.started_at
  pub updated : next.updated_at ≡ now
  pub ends :
      (state_at m t.to).terminal ≡ true
      → (next.status ≡ InstanceStatus.completed) × (next.finished_at ≡ now)
  pub goes_on :
      (state_at m t.to).terminal ≡ false
      → (next.status ≡ i.status) × (next.finished_at ≡ i.finished_at)

pub advanced-IsMoved :
    (m : Machine) (i : WorkflowInstance) (t : Transition) (now : Time)
    → IsMoved m i t now (advanced m i t now)
unfolding advanced
advanced-IsMoved m i t now = ground arith

-- The step of `i` by event `e` in machine `m` at `now`: along a transition of the table, with the
-- entries of the timeline in order, and a task for each entry task of the new state unless the
-- instance is completed.
pub record IsStep (m : Machine) (i : WorkflowInstance) (e : String) (now : Time) (step : Advance)
    : Type 0 where
  pub transition : Transition
  pub found : lookup (transition_key i.state e) m.transitions ≡ some transition
  pub moved : IsMoved m i transition now step.instance
  pub completed :
      is_completed step.instance.status ≡ true
      → (step.tasks ≡ [])
        × (types_of step.histories
            ≡ HistoryType.signal_received ∷ HistoryType.state_changed
              ∷ HistoryType.workflow_completed ∷ [])
  pub entered :
      is_completed step.instance.status ≡ false
      → AreScheduled m step.instance now (state_at m transition.to).on_enter step.tasks
        × (types_of step.histories
            ≡ HistoryType.signal_received
              ∷ HistoryType.state_changed
              ∷ repeat HistoryType.task_scheduled (state_at m transition.to).on_enter)
