-- ===== src/Runtime/Advance/Closed.antt =====
-- A compiled machine keeps its instances within its states, and schedules only tasks that it has.
use fsm_go.Prelude.{
  String, pos, ◌≤ℤ◌, ◌≡◌, sym, subst, ap, ◌∙◌, ◌⊎◌, inl, inr, true, Option, none, some, List, [],
  ◌∷◌, All, is_some, Bool-cases, Option-cases,
}
use fsm_go.Dict.{lookup}
use fsm_go.Errors.{ok}
use fsm_go.Types.{
  InstanceStatus, Time, StateDefinition, zero_state, TaskDefinition, zero_task, WorkflowDefinition,
  WorkflowInstance, TaskExecution,
}
use fsm_go.Compiler.{Machine, RangeOrder, compile}
use fsm_go.Compiler.Keys.{HasNoColon}
use fsm_go.Compiler.Valid.{state_names}
use fsm_go.Compiler.WellFormed.{IsWellFormed, compile-IsWellFormed, compiled_transition}
use fsm_go.Memory.{clone_instance}
use fsm_go.Runtime.Advance.{Advance, is_completed}
use fsm_go.Runtime.Advance.Steps.{IsStep, IsScheduled, AreScheduled, state_at}

-- a task execution of a task that the machine has, with an attempt left
abbrev pub IsRunnable : Machine → TaskExecution → Type 0
IsRunnable m t = (is_some (lookup t.task m.tasks) ≡ true) × (t.attempt ≤ℤ t.max_attempts)

abbrev or_zero_task : Option TaskDefinition → TaskDefinition
or_zero_task none = zero_task
or_zero_task (some d) = d

abbrev or_zero_state : Option StateDefinition → StateDefinition
or_zero_state none = zero_state
or_zero_state (some s) = s

module _ (m : Machine) (well : IsWellFormed m) where
  scheduled-IsRunnable :
      (i : WorkflowInstance) (now : Time) (name : String) (t : TaskExecution)
      → is_some (lookup name m.tasks) ≡ true
      → IsScheduled m i now name t
      → IsRunnable m t
  scheduled-IsRunnable i now name t known (task, handler, limit, same, status, attempt, next) =
      elim (Option-cases (lookup name m.tasks)) [
        | inl missing ↦ absurd cc
        | inr (d, found) ↦
            let named : t.task ≡ name =
              task ∙ ap (λ o. (or_zero_task o).name) found ∙ well.task_named name d found in
            let limited : t.max_attempts ≡ d.retry.max_attempts =
              limit ∙ ap (λ o. (or_zero_task o).retry.max_attempts) found in
            (
              rw (named, found),
              subst (λ a. a ≤ℤ t.max_attempts) (sym attempt)
                  (subst (λ b. pos 1 ≤ℤ b) (sym limited) (well.attempts name d found)),
            )
      ]

  pub All-IsRunnable :
      (i : WorkflowInstance) (now : Time) (names : List String) (ts : List TaskExecution)
      → All (λ n. is_some (lookup n m.tasks) ≡ true) names
      → AreScheduled m i now names ts
      → All (IsRunnable m) ts
  All-IsRunnable i now [] [] known a = tt
  All-IsRunnable i now [] (t ∷ ts) known a = elim a [ ]
  All-IsRunnable i now (n ∷ ns) [] known a = elim a [ ]
  All-IsRunnable i now (n ∷ ns) (t ∷ ts) (k, ks) (a, rest) =
      (scheduled-IsRunnable i now n t k a, All-IsRunnable i now ns ts ks rest)

  pub step-IsRunnable :
      (i : WorkflowInstance) (e : String) (now : Time) (step : Advance)
      → IsStep m i e now step
      → All (IsRunnable m) step.tasks
  step-IsRunnable i e now step is_step = elim (Bool-cases (is_completed step.instance.status)) [
    | inl done ↦ subst (All (IsRunnable m)) (sym (is_step.completed done).0) tt
    | inr on ↦
        let target = well.target_known _ is_step.transition is_step.found in
        elim (Option-cases (lookup is_step.transition.to m.states)) [
          | inl missing ↦ absurd cc
          | inr (s, found) ↦
              All-IsRunnable step.instance now s.on_enter step.tasks
                (well.on_enter_known is_step.transition.to s found)
                (subst (λ o. AreScheduled m step.instance now (or_zero_state o).on_enter step.tasks)
                  found (is_step.entered on).0)
        ]
  ]

-- Every step of an instance in a compiled machine leaves the state that the instance is in, by the
-- event, for a state that the machine has, and schedules only tasks that the machine has, each with an
-- attempt left, if no state's name and not the instance's has a colon.
pub compiled_step :
    (order : RangeOrder) (def : WorkflowDefinition) (m : Machine) (i : WorkflowInstance)
    (e : String) (now : Time) (step : Advance)
    → compile order (some def) ≡ ok m
    → All HasNoColon (state_names def.states)
    → HasNoColon i.state
    → (is_step : IsStep m i e now step)
    → (is_step.transition.from ≡ i.state)
      × (is_step.transition.event ≡ e)
      × (step.instance.state ≡ is_step.transition.to)
      × (is_some (lookup step.instance.state m.states) ≡ true)
      × All (IsRunnable m) step.tasks
compiled_step order def m i e now step h plain here is_step =
    let well = compile-IsWellFormed order def m h in
    let (from, by) =
      compiled_transition order def m i.state e is_step.transition h plain here is_step.found in
    (
      from,
      by,
      is_step.moved.state,
      rw is_step.moved.state (well.target_known _ is_step.transition is_step.found),
      step-IsRunnable m well i e now step is_step,
    )

-- An instance that was begun in the initial state and moved by steps of the machine, copied or not on
-- its way through the store.
pub data Reaches (m : Machine) : WorkflowInstance → Type 0 where
  begun :
      {i : WorkflowInstance} → i.state ≡ m.initial → i.status ≡ InstanceStatus.running → Reaches m i
  moved :
      {i : WorkflowInstance} {e : String} {now : Time} {step : Advance}
      → Reaches m i
      → IsStep m i e now step
      → Reaches m step.instance
  copied : {i : WorkflowInstance} → Reaches m i → Reaches m (clone_instance i)

abbrev IsLive : Machine → WorkflowInstance → Type 0
IsLive m i =
    (is_some (lookup i.state m.states) ≡ true)
    × ((i.status ≡ InstanceStatus.running) ⊎ (i.status ≡ InstanceStatus.completed))

step-IsLive :
    (m : Machine) (i : WorkflowInstance) (e : String) (now : Time) (step : Advance)
    → IsWellFormed m
    → IsStep m i e now step
    → IsLive m i
    → IsLive m step.instance
step-IsLive m i e now step well is_step (known, status) =
    let moved = is_step.moved in
    (
      rw moved.state (well.target_known _ is_step.transition is_step.found),
      elim (Bool-cases (state_at m is_step.transition.to).terminal) [
        | inl ends ↦ inr (moved.ends ends).0
        | inr on ↦ elim status [
          | inl running ↦ inl ((moved.goes_on on).0 ∙ running)
          | inr completed ↦ inr ((moved.goes_on on).0 ∙ completed)
        ]
      ],
    )

Reaches-IsLive : (m : Machine) {i : WorkflowInstance} → IsWellFormed m → Reaches m i → IsLive m i
Reaches-IsLive m well (begun state status) = (rw state well.initial_known, inl status)
Reaches-IsLive m well (moved {i} {e} {now} {step} before is_step) =
    step-IsLive m i e now step well is_step (Reaches-IsLive m well before)
Reaches-IsLive m well (copied before) = Reaches-IsLive m well before

-- Wherever events take an instance that was begun in the initial state of a compiled machine, its state is
-- one that the machine has, and its status is running or completed.
pub reached_state_known :
    (order : RangeOrder) (def : WorkflowDefinition) (m : Machine) {i : WorkflowInstance}
    → compile order (some def) ≡ ok m
    → Reaches m i
    → (is_some (lookup i.state m.states) ≡ true)
      × ((i.status ≡ InstanceStatus.running) ⊎ (i.status ≡ InstanceStatus.completed))
reached_state_known order def m h r = Reaches-IsLive m (compile-IsWellFormed order def m h) r
