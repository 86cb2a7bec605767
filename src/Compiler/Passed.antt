-- ===== src/Compiler/Passed.antt =====
-- A successful run of `Compile`, step by step.
use fsm_go.Prelude.{◌≡◌, refl, Bool, some, ◌==◌, subst, not, ◌||◌}
use fsm_go.Dict.{has, values}
use fsm_go.Errors.{ok, >>=-eq-ok}
use fsm_go.Types.{WorkflowDefinition}
use fsm_go.Compiler.{
  Machine, RangeOrder, compile, add_states, add_events, add_tasks, add_transitions, check_state,
  check_task, check_each,
}
use fsm_go.Errors.{ok-injective}
use fsm_go.Compiler.Checks.{refuse-bind}

-- What a successful run has passed, step by step.
pub record Passed (order : RangeOrder) (def : WorkflowDefinition) (m : Machine) : Type 0 where
  pub named : (def.name == "" || def.version == "" || def.initial == "") ≡ Bool.false
  pub states_added : add_states def.states ≡ ok m.states
  pub initial_found : not (has def.initial m.states) ≡ Bool.false
  pub events_added : add_events def.events ≡ ok m.events
  pub tasks_added : add_tasks def.tasks ≡ ok m.tasks
  pub states_checked : check_each (check_state m.tasks) (order.states (values m.states)) ≡ ok tt
  pub tasks_checked :
      check_each (check_task m.tasks m.events) (order.tasks (values m.tasks)) ≡ ok tt
  pub transitions_added : add_transitions m.states m.events def.transitions ≡ ok m.transitions
  pub same_name : m.name ≡ def.name
  pub same_version : m.version ≡ def.version
  pub same_initial : m.initial ≡ def.initial

module _ (order : RangeOrder) (def : WorkflowDefinition) (m : Machine) where
  pub compile-Passed : compile order (some def) ≡ ok m → Passed order def m
  unfolding compile
  compile-Passed h =
      let (p₀, h₀) = refuse-bind _ _ _ h in
      let (states, p₁, h₁) = >>=-eq-ok (add_states def.states) _ h₀ in
      let (p₂, h₂) = refuse-bind _ _ _ h₁ in
      let (events, p₃, h₃) = >>=-eq-ok (add_events def.events) _ h₂ in
      let (tasks, p₄, h₄) = >>=-eq-ok (add_tasks def.tasks) _ h₃ in
      let (u, p₅, h₅) =
        >>=-eq-ok (check_each (check_state tasks) (order.states (values states))) _ h₄ in
      let (v, p₆, h₆) =
        >>=-eq-ok (check_each (check_task tasks events) (order.tasks (values tasks))) _ h₅ in
      let (transitions, p₇, h₇) = >>=-eq-ok (add_transitions states events def.transitions) _ h₆ in
      subst (Passed order def)
        {x = record {
          name = def.name;
          version = def.version;
          initial = def.initial;
          states = states;
          events = events;
          tasks = tasks;
          transitions = transitions;
        }}
        (ok-injective h₇)
        (record {
          named = p₀;
          states_added = p₁;
          initial_found = p₂;
          events_added = p₃;
          tasks_added = p₄;
          states_checked = p₅;
          tasks_checked = p₆;
          transitions_added = p₇;
          same_name = refl;
          same_version = refl;
          same_initial = refl;
        })

  pub Passed-compile : Passed order def m → compile order (some def) ≡ ok m
  unfolding compile
  Passed-compile p =
      rw
        (
          p.named, p.states_added, p.initial_found, p.events_added, p.tasks_added, p.states_checked,
          p.tasks_checked, p.transitions_added,
        )
        (cc (p.same_name, p.same_version, p.same_initial))
