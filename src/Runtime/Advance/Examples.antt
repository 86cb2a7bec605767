-- ===== src/Runtime/Advance/Examples.antt =====
-- The theorems about a step at the leave request.
use fsm_go.Prelude.{ℕ, pos, ◌≡◌, refl, ◌⊎◌, true, All, is_some}
use fsm_go.Dict.{lookup}
use fsm_go.Errors.{ok}
use fsm_go.Types.{InstanceStatus, nil_map}
use fsm_go.Runtime.Advance.{Advance, apply_event}
use fsm_go.Runtime.Advance.Steps.{IsStep}
use fsm_go.Runtime.Advance.Outcome.{apply_event-IsStep}
use fsm_go.Runtime.Advance.Closed.{IsRunnable, Reaches, begun, compiled_step, reached_state_known}
use fsm_go.Fixtures.{
  test_env, listed, submit, leave, leave_machine, leave_compiles, leave-HasNoColon, instance_in,
}
use fsm_go.Runtime.Fixtures.{test_runtime, draft_world, leave_known, submit_found}

apply_event-IsStep_example :
    (step : Advance) × (n : ℕ) × (apply_event ⦃env = test_env⦄ test_runtime leave_machine
        (instance_in "draft")
        "submit"
        nil_map
        draft_world
      ≡ (ok step, record draft_world { readings = n }))
    × IsStep leave_machine (instance_in "draft") "submit" (pos 100) step
apply_event-IsStep_example =
    apply_event-IsStep ⦃env = test_env⦄ test_runtime leave_machine (instance_in "draft") "submit"
      nil_map submit draft_world leave_known submit_found

submitted :
    (step : Advance) × (n : ℕ) × (apply_event ⦃env = test_env⦄ test_runtime leave_machine
        (instance_in "draft")
        "submit"
        nil_map
        draft_world
      ≡ (ok step, record draft_world { readings = n }))
    × IsStep leave_machine (instance_in "draft") "submit" (pos 100) step
submitted =
    apply_event-IsStep ⦃env = test_env⦄ test_runtime leave_machine (instance_in "draft") "submit"
      nil_map submit draft_world leave_known submit_found

compiled_step_example :
    (submitted.3.transition.from ≡ "draft")
    × (submitted.3.transition.event ≡ "submit")
    × (submitted.0.instance.state ≡ submitted.3.transition.to)
    × (is_some (lookup submitted.0.instance.state leave_machine.states) ≡ true)
    × All (IsRunnable leave_machine) submitted.0.tasks
compiled_step_example =
    compiled_step listed leave leave_machine (instance_in "draft") "submit" (pos 100) submitted.0
      leave_compiles leave-HasNoColon leave-HasNoColon.0 submitted.3

reached_state_known_example :
    (is_some (lookup submitted.0.instance.state leave_machine.states) ≡ true)
    × ((submitted.0.instance.status ≡ InstanceStatus.running)
        ⊎ (submitted.0.instance.status ≡ InstanceStatus.completed))
reached_state_known_example =
    reached_state_known listed leave leave_machine leave_compiles
      (Reaches.moved (begun refl refl) submitted.3)
