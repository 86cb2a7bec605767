-- ===== src/Compiler.antt =====
-- workflow/compiler.go: `Compile`. The four loops over the definition share `add_all`: check an
-- item (and fill in its defaults), refuse a key that the map has, write. The two loops over maps
-- run in an order that Go leaves open, which is an argument. `LoadYAML` is a call of yaml.v3.
pub mod Keys
pub mod Loops
pub mod Valid
pub mod Steps
pub mod Checks
pub mod Maps
pub mod Passed
pub mod Exact
pub mod WellFormed
mod Examples
use fsm_go.Prelude.{
  ℤ, pos, leb_ℤ, ◌≡◌, String, append, Bool, not, ◌&&◌, ◌||◌, Option, none, some, List, [], ◌∷◌,
  Permᴰ, ◌==◌, if◌then◌else◌,
}
use fsm_go.Dict.{Dict, lookup, insert, has, values}
use fsm_go.Errors.{Error, invalid_definition, Result, ok, err, ◌>>=◌, ◌>>◌, refuse}
use fsm_go.Types.{StateDefinition, EventDefinition, TaskDefinition, Transition, WorkflowDefinition}

pub record Machine : Type 0 where
  pub name : String
  pub version : String
  pub initial : String
  pub states : Dict StateDefinition
  pub events : Dict EventDefinition
  pub tasks : Dict TaskDefinition
  pub transitions : Dict Transition

-- The orders in which `range` goes through the maps of states and of tasks.
pub record RangeOrder : Type 0 where
  pub states : List StateDefinition → List StateDefinition
  pub tasks : List TaskDefinition → List TaskDefinition
  pub states_perm : (xs : List StateDefinition) → Permᴰ (states xs) xs
  pub tasks_perm : (xs : List TaskDefinition) → Permᴰ (tasks xs) xs

abbrev pub transition_key : String → String → String
transition_key state event = append state (append ":" event)

module _ {A : Type 0} (prepare : A → Result A) (key : A → String) (duplicate : String → Error) where
  unfoldable pub add_all : List A → Dict A → Result (Dict A)
  add_all [] m = ok m
  add_all (x ∷ xs) m = do
    y ← prepare x
    refuse (has (key y) m) (duplicate (key y))
    add_all xs (insert (key y) y m)

-- `if err := check(x); err != nil { return err }` for each item
abbrev pub check_each : {A : Type 0} → (A → Result (Unit {0})) → List A → Result (Unit {0})
check_each check [] = ok tt
check_each check (x ∷ xs) = let rest = check_each check xs in check x >> rest

abbrev pub invalid : {A : Type 0} → String → Result A
invalid message = err (invalid_definition message)

unfoldable pub prepare_state : StateDefinition → Result StateDefinition
prepare_state s = if s.name == "" then invalid "state name is required" else ok s

unfoldable pub prepare_event : EventDefinition → Result EventDefinition
prepare_event e = if e.name == "" then invalid "event name is required" else ok e

-- the policy with its defaults: one attempt, a second of backoff
abbrev pub second : ℤ
second = pos 1000000000

unfoldable pub with_defaults : TaskDefinition → TaskDefinition
with_defaults t = record t {
  retry = record {
    max_attempts = if leb_ℤ t.retry.max_attempts (pos 0) then pos 1 else t.retry.max_attempts;
    backoff = if leb_ℤ t.retry.backoff (pos 0) then second else t.retry.backoff;
  };
}

unfoldable pub prepare_task : TaskDefinition → Result TaskDefinition
prepare_task t =
    if t.name == "" || t.handler == ""
    then invalid "task name and handler are required"
    else ok (with_defaults t)

abbrev pub unknown_task : String → String → Error
unknown_task state task =
    invalid_definition (append "state " (append state (append " references unknown task " task)))

-- the body of the loop over `state.OnEnter`, for one state
unfoldable pub check_state : Dict TaskDefinition → StateDefinition → Result (Unit {0})
check_state tasks s =
    check_each (λ task_name. refuse (not (has task_name tasks)) (unknown_task s.name task_name))
      s.on_enter

-- an optional reference: `if ref != "" { if _, ok := m[ref]; !ok { return ... } }`
abbrev pub check_reference : {A : Type 0} → Dict A → String → String → String → Result (Unit {0})
check_reference m task_name what ref =
    refuse (not (ref == "") && not (has ref m))
      (invalid_definition (append "task " (append task_name (append what ref))))

unfoldable pub check_task :
    Dict TaskDefinition → Dict EventDefinition → TaskDefinition → Result (Unit {0})
check_task tasks events t = do
  check_reference tasks t.name " references unknown compensation " t.compensation
  check_reference events t.name " references unknown success event " t.on_success
  check_reference events t.name " references unknown failure event " t.on_failure

unfoldable pub prepare_transition :
    Dict StateDefinition → Dict EventDefinition → Transition → Result Transition
prepare_transition states events t = do
  refuse (t.name == "" || t.from == "" || t.event == "" || t.to == "")
      (invalid_definition "transition name, from, event and to are required")
  refuse (not (has t.from states))
      (invalid_definition (append "transition from state not found: " t.from))
  refuse (not (has t.to states))
      (invalid_definition (append "transition to state not found: " t.to))
  refuse (not (has t.event events))
      (invalid_definition (append "transition event not found: " t.event))
  ok t

duplicate_of : String → String → Error
duplicate_of what name = invalid_definition (append what name)

unfoldable pub add_states : List StateDefinition → Result (Dict StateDefinition)
unfolding duplicate_of
add_states xs = add_all prepare_state (λ s. s.name) (duplicate_of "duplicate state: ") xs []

unfoldable pub add_events : List EventDefinition → Result (Dict EventDefinition)
unfolding duplicate_of
add_events xs = add_all prepare_event (λ e. e.name) (duplicate_of "duplicate event: ") xs []

unfoldable pub add_tasks : List TaskDefinition → Result (Dict TaskDefinition)
unfolding duplicate_of
add_tasks xs = add_all prepare_task (λ t. t.name) (duplicate_of "duplicate task: ") xs []

unfoldable pub add_transitions :
    Dict StateDefinition → Dict EventDefinition → List Transition → Result (Dict Transition)
unfolding duplicate_of
add_transitions states events xs =
    add_all (prepare_transition states events) (λ t. transition_key t.from t.event)
      (duplicate_of "duplicate transition for ") xs []

-- `none` is the nil definition
unfoldable pub compile : RangeOrder → Option WorkflowDefinition → Result Machine
compile order none = invalid "definition is nil"
compile order (some def) = do
  refuse (def.name == "" || def.version == "" || def.initial == "")
      (invalid_definition "name, version and initial are required")
  states ← add_states def.states
  refuse (not (has def.initial states))
      (invalid_definition (append "initial state not found: " def.initial))
  events ← add_events def.events
  tasks ← add_tasks def.tasks
  check_each (check_state tasks) (order.states (values states))
  check_each (check_task tasks events) (order.tasks (values tasks))
  transitions ← add_transitions states events def.transitions
  ok (record {
    name = def.name;
    version = def.version;
    initial = def.initial;
    states = states;
    events = events;
    tasks = tasks;
    transitions = transitions;
  })
