-- ===== src/Builder.antt =====
-- workflow/builder.go: definitions built by calls. A builder is changed in place and returned, so that a
-- chain of calls is a composition of functions; the typed names are texts.
pub mod RoundTrip
mod Examples
use fsm_go.Prelude.{ℤ, pos, String, true, false, some, List, [], ◌∷◌, ◌++◌}
use fsm_go.Errors.{Result}
use fsm_go.Types.{
  Duration, zero_state, zero_task, StateDefinition, EventDefinition, RetryPolicy, TaskDefinition,
  Transition, WorkflowDefinition,
}
use fsm_go.Compiler.{Machine, RangeOrder, compile}

pub record DefinitionBuilder : Type 0 where
  pub def : WorkflowDefinition

unfoldable pub new_definition : String → String → DefinitionBuilder
new_definition name version = record {
  def = record {
    name = name;
    version = version;
    initial = "";
    states = [];
    events = [];
    tasks = [];
    transitions = [];
  };
}

abbrev pub StateOption : Type 0
StateOption = StateDefinition → StateDefinition

abbrev pub TaskOption : Type 0
TaskOption = TaskDefinition → TaskDefinition

-- the options' loop: each changes the item that the ones before have left
unfoldable pub apply_options : {A : Type 0} → List (A → A) → A → A
apply_options [] item = item
apply_options (opt ∷ opts) item = apply_options opts (opt item)

unfoldable pub initial : String → DefinitionBuilder → DefinitionBuilder
initial state b = record { def = record b.def { initial = state } }

unfoldable pub state : String → List StateOption → DefinitionBuilder → DefinitionBuilder
state name opts b = record {
  def = record b.def {
    states = b.def.states ++ apply_options opts (record zero_state { name = name }) ∷ [];
  };
}

unfoldable pub event : String → DefinitionBuilder → DefinitionBuilder
event name b = record {
  def = record b.def { events = b.def.events ++ record { name = name } ∷ [] };
}

unfoldable pub task : String → String → List TaskOption → DefinitionBuilder → DefinitionBuilder
task name handler opts b = record {
  def = record b.def {
    tasks =
        b.def.tasks
        ++ apply_options opts (record zero_task { name = name; handler = handler }) ∷ [];
  };
}

unfoldable pub transition :
    String → String → String → String → DefinitionBuilder → DefinitionBuilder
transition name from event to b = record {
  def = record b.def {
    transitions =
        b.def.transitions ++ record { name = name; from = from; event = event; to = to } ∷ [];
  };
}

abbrev pub build : DefinitionBuilder → WorkflowDefinition
build b = b.def

-- an error is the panic of `MustCompile`
abbrev pub must_compile : RangeOrder → DefinitionBuilder → Result Machine
must_compile order b = compile order (some (build b))

abbrev pub terminal : StateOption
terminal s = record s { terminal = true }

-- the loop appends the names one by one
abbrev pub on_enter : List String → StateOption
on_enter [] s = s
on_enter (task ∷ tasks) s = on_enter tasks (record s { on_enter = s.on_enter ++ task ∷ [] })

abbrev pub retry : ℤ → Duration → TaskOption
retry max_attempts backoff t = record t {
  retry = record { max_attempts = max_attempts; backoff = backoff };
}

abbrev pub timeout : Duration → TaskOption
timeout limit t = record t { timeout = limit }

abbrev pub compensation : String → TaskOption
compensation name t = record t { compensation = name }

abbrev pub on_success : String → TaskOption
on_success event t = record t { on_success = event }

abbrev pub on_failure : String → TaskOption
on_failure event t = record t { on_failure = event }
