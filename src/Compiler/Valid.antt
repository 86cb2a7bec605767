-- ===== src/Compiler/Valid.antt =====
-- What a definition has to satisfy, said of the declared lists alone, and the machine that is its
-- index. No order of a map and no loop stands in either.
use fsm_go.Prelude.{String, ◌≢◌, List, map, All}
use fsm_go.Dict.Laws.{IsOneOf, AreDistinct}
use fsm_go.Types.{StateDefinition, EventDefinition, TaskDefinition, Transition, WorkflowDefinition}
use fsm_go.Compiler.{Machine, transition_key, with_defaults}
use fsm_go.Compiler.Loops.{entries}

abbrev pub state_names : List StateDefinition → List String
state_names = map (λ s. s.name)

abbrev pub event_names : List EventDefinition → List String
event_names = map (λ e. e.name)

abbrev pub task_names : List TaskDefinition → List String
task_names = map (λ t. t.name)

abbrev pub key_of : Transition → String
key_of t = transition_key t.from t.event

-- an empty reference names nothing, and any other names one of `names`
abbrev pub Refers : String → List String → Type 0
Refers ref names = ref ≢ "" → IsOneOf ref names

abbrev pub IsNamed : TaskDefinition → Type 0
IsNamed t = (t.name ≢ "") × (t.handler ≢ "")

abbrev pub TaskRefers : List String → List String → TaskDefinition → Type 0
TaskRefers tasks events t =
    Refers t.compensation tasks × Refers t.on_success events × Refers t.on_failure events

pub record TransitionRefers (states events : List String) (t : Transition) : Type 0 where
  pub has_name : t.name ≢ ""
  pub has_from : t.from ≢ ""
  pub has_event : t.event ≢ ""
  pub has_to : t.to ≢ ""
  pub from_known : IsOneOf t.from states
  pub to_known : IsOneOf t.to states
  pub event_known : IsOneOf t.event events

pub record IsValid (def : WorkflowDefinition) : Type 0 where
  pub has_name : def.name ≢ ""
  pub has_version : def.version ≢ ""
  pub has_initial : def.initial ≢ ""
  pub states_named : All (λ s. s.name ≢ "") def.states
  pub states_distinct : AreDistinct (state_names def.states)
  pub initial_known : IsOneOf def.initial (state_names def.states)
  pub events_named : All (λ e. e.name ≢ "") def.events
  pub events_distinct : AreDistinct (event_names def.events)
  pub tasks_named : All IsNamed def.tasks
  pub tasks_distinct : AreDistinct (task_names def.tasks)
  pub on_enter_known : All (λ s. All (λ n. IsOneOf n (task_names def.tasks)) s.on_enter) def.states
  pub tasks_refer : All (TaskRefers (task_names def.tasks) (event_names def.events)) def.tasks
  pub transitions_refer :
      All (TransitionRefers (state_names def.states) (event_names def.events)) def.transitions
  pub transitions_distinct : AreDistinct (map key_of def.transitions)

abbrev pub machine_of : WorkflowDefinition → Machine
machine_of def = record {
  name = def.name;
  version = def.version;
  initial = def.initial;
  states = entries (λ s. s.name) def.states;
  events = entries (λ e. e.name) def.events;
  tasks = entries (λ t. t.name) (map with_defaults def.tasks);
  transitions = entries key_of def.transitions;
}
