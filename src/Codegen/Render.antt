-- ===== src/Codegen/Render.antt =====
-- The template of cmd/workflowgen/main.go: the file that the generator writes, as the list of the pieces that
-- the template's execution writes one after another.
use fsm_go.Prelude.{
  ℕ, zero, suc, ℤ, pos, negsuc, eq_ℤ, String, append, Bool, true, false, not, ◌||◌, List, [], ◌∷◌,
  ◌++◌, ◌==◌, if◌then◌else◌,
}
use fsm_go.Errors.{Result, ok, err, other, error_text}
use fsm_go.Sql.{decimal}
use fsm_go.Codegen.{
  Unicode, StateSpec, NamedSpec, TaskSpec, TransSpec, Spec, Constant, exported, constants,
  names_from_states, names_from_named, names_from_tasks, handlers_from_tasks,
}

-- the functions of the template
abbrev pub state_name : ⦃unicode : Unicode⦄ → String → String
state_name v = append "State" (exported v)

abbrev pub event_name : ⦃unicode : Unicode⦄ → String → String
event_name v = append "Event" (exported v)

abbrev pub task_name : ⦃unicode : Unicode⦄ → String → String
task_name v = append "Task" (exported v)

abbrev pub handler_name : ⦃unicode : Unicode⦄ → String → String
handler_name v = append "Handler" (exported v)

-- {{ if }} of a text, of a list and of a number
abbrev pub is_given : String → Bool
is_given v = not (v == "")

abbrev pub are_given : List String → Bool
are_given [] = false
are_given (_ ∷ _) = true

abbrev pub is_set : ℤ → Bool
is_set n = not (eq_ℤ n (pos 0))

abbrev pub when : Bool → List String → List String
when true pieces = pieces
when false pieces = []

-- {{ range }}
abbrev pub each : {A : Type 0} → (A → List String) → List A → List String
each pieces [] = []
each pieces (x ∷ xs) = pieces x ++ each pieces xs

-- one part of the template after the other
abbrev pub blocks : List (List String) → List String
blocks [] = []
blocks (block ∷ rest) = block ++ blocks rest

-- an `int` in decimal digits
abbrev pub int_text : ℤ → String
int_text (pos n) = decimal n
int_text (negsuc n) = append "-" (decimal (suc n))

abbrev pub constant_pieces : String → Constant → List String
constant_pieces type c = "\n\t" ∷ c.go_name ∷ type ∷ c.value ∷ "\"" ∷ []

-- {{ range $i, $task := .OnEnter }}, from the index on
abbrev pub on_enter_pieces : ⦃unicode : Unicode⦄ → ℕ → List String → List String
on_enter_pieces i [] = []
on_enter_pieces zero (task ∷ tasks) = task_name task ∷ on_enter_pieces 1 tasks
on_enter_pieces (suc i) (task ∷ tasks) = ", " ∷ task_name task ∷ on_enter_pieces (suc (suc i)) tasks

unfoldable pub state_pieces : ⦃unicode : Unicode⦄ → StateSpec → List String
state_pieces s = blocks (
    ("\n\t\tState(" ∷ state_name s.name ∷ [])
    ∷ when (s.terminal || are_given s.on_enter) (", " ∷ [])
    ∷ when s.terminal ("workflow.Terminal()" ∷ when (are_given s.on_enter) (", " ∷ []))
    ∷ when (are_given s.on_enter)
        (blocks (("workflow.OnEnter(" ∷ []) ∷ on_enter_pieces 0 s.on_enter ∷ (")" ∷ []) ∷ []))
    ∷ (")." ∷ [])
    ∷ [])

abbrev pub event_pieces : ⦃unicode : Unicode⦄ → NamedSpec → List String
event_pieces e = "\n\t\tEvent(" ∷ event_name e.name ∷ ")." ∷ []

abbrev pub retry_pieces : TaskSpec → List String
retry_pieces t = blocks (
    ("workflow.Retry(" ∷ int_text t.max_attempts ∷ ", " ∷ [])
    ∷ (if is_given t.backoff
        then "mustDuration(\"" ∷ t.backoff ∷ "\")" ∷ []
        else "time.Second" ∷ [])
    ∷ (")" ∷ [])
    ∷ [])

abbrev pub timeout_pieces : TaskSpec → List String
timeout_pieces t = "workflow.Timeout(mustDuration(\"" ∷ t.timeout ∷ "\"))" ∷ []

abbrev pub compensation_pieces : ⦃unicode : Unicode⦄ → TaskSpec → List String
compensation_pieces t = "workflow.Compensation(" ∷ task_name t.compensation ∷ ")" ∷ []

abbrev pub success_pieces : ⦃unicode : Unicode⦄ → TaskSpec → List String
success_pieces t = "workflow.OnSuccess(" ∷ event_name t.on_success ∷ ")" ∷ []

abbrev pub failure_pieces : ⦃unicode : Unicode⦄ → TaskSpec → List String
failure_pieces t = "workflow.OnFailure(" ∷ event_name t.on_failure ∷ ")" ∷ []

unfoldable pub task_pieces : ⦃unicode : Unicode⦄ → TaskSpec → List String
task_pieces t =
    let has_retry = is_set t.max_attempts in
    let has_backoff = is_given t.backoff in
    let has_timeout = is_given t.timeout in
    let has_compensation = is_given t.compensation in
    let has_success = is_given t.on_success in
    let has_failure = is_given t.on_failure in
    blocks (
      ("\n\t\tTask(" ∷ task_name t.name ∷ ", " ∷ handler_name t.handler ∷ [])
      ∷ when
          (has_retry || has_backoff || has_timeout || has_compensation || has_success
            || has_failure)
          (", " ∷ [])
      ∷ when has_retry (retry_pieces t)
      ∷ when has_timeout (when has_retry (", " ∷ []) ++ timeout_pieces t)
      ∷ when has_compensation (when (has_retry || has_timeout) (", " ∷ []) ++ compensation_pieces t)
      ∷ when has_success
          (when (has_retry || has_timeout || has_compensation) (", " ∷ []) ++ success_pieces t)
      ∷ when has_failure (
          when (has_retry || has_timeout || has_compensation || has_success) (", " ∷ [])
          ++ failure_pieces t)
      ∷ (")." ∷ [])
      ∷ [])

abbrev pub transition_pieces : ⦃unicode : Unicode⦄ → TransSpec → List String
transition_pieces t =
    "\n\t\tTransition(\""
    ∷ t.name
    ∷ "\", "
    ∷ state_name t.from
    ∷ ", "
    ∷ event_name t.event
    ∷ ", "
    ∷ state_name t.to
    ∷ ")."
    ∷ []

-- the functions that every generated file has
abbrev tail_pieces : List String
tail_pieces =
    "func Machine() *workflow.Machine {\n" ∷ "\tmachine, err := workflow.Compile(Definition())\n"
    ∷ "\tif err != nil {\n" ∷ "\t\tpanic(err)\n" ∷ "\t}\n" ∷ "\treturn machine\n" ∷ "}\n" ∷ "\n"
    ∷ "func Register(runtime *workflow.Runtime) {\n" ∷ "\truntime.RegisterMachine(Machine())\n"
    ∷ "}\n" ∷ "\n"
    ∷ "func RegisterTask(runtime *workflow.Runtime, handler workflow.HandlerName, task workflow.TaskHandler) {\n"
    ∷ "\truntime.RegisterTask(string(handler), task)\n" ∷ "}\n" ∷ "\n"
    ∷ "func StartOptions(instanceID string, data map[string]any) workflow.StartOptions {\n"
    ∷ "\treturn workflow.StartOptions{\n" ∷ "\t\tInstanceID: instanceID,\n"
    ∷ "\t\tWorkflow:   WorkflowName,\n" ∷ "\t\tVersion:    WorkflowVersion,\n"
    ∷ "\t\tData:       data,\n" ∷ "\t}\n" ∷ "}\n" ∷ "\n"
    ∷ "func Start(ctx context.Context, runtime *workflow.Runtime, instanceID string, data map[string]any) (*workflow.WorkflowInstance, error) {\n"
    ∷ "\treturn runtime.StartWorkflow(ctx, StartOptions(instanceID, data))\n" ∷ "}\n" ∷ "\n"
    ∷ "func SignalOptions(instanceID string, event workflow.EventName, payload map[string]any) workflow.SignalOptions {\n"
    ∷ "\treturn workflow.SignalOptions{\n" ∷ "\t\tInstanceID: instanceID,\n"
    ∷ "\t\tEvent:      string(event),\n" ∷ "\t\tPayload:    payload,\n" ∷ "\t}\n" ∷ "}\n" ∷ "\n"
    ∷ "func Signal(ctx context.Context, runtime *workflow.Runtime, instanceID string, event workflow.EventName, payload map[string]any) (*workflow.WorkflowInstance, error) {\n"
    ∷ "\treturn runtime.SignalWorkflow(ctx, SignalOptions(instanceID, event, payload))\n" ∷ "}\n"
    ∷ "\n" ∷ "func mustDuration(value string) time.Duration {\n"
    ∷ "\tduration, err := time.ParseDuration(value)\n" ∷ "\tif err != nil {\n" ∷ "\t\tpanic(err)\n"
    ∷ "\t}\n" ∷ "\treturn duration\n" ∷ "}\n" ∷ []

-- the end of one group of constants, and the start of the next
abbrev next_group : List String
next_group = "\n)\n\nconst (" ∷ []

unfoldable pub file_pieces : ⦃unicode : Unicode⦄ → Spec → List String
file_pieces s = blocks (
    ("// Code generated by workflowgen; DO NOT EDIT.\npackage " ∷ s.package_name
      ∷ "\n\nimport (\n\t\"context\"\n\t\"time\"\n\n"
      ∷ "\t\"github.com/flandersrin/workflow-go/workflow\"\n)\n\nconst WorkflowName = \""
      ∷ s.workflow ∷ "\"\nconst WorkflowVersion = \"" ∷ s.version ∷ "\"\n\nconst (" ∷ [])
    ∷ each (constant_pieces " workflow.StateName = \"")
        (constants "State" (names_from_states s.states))
    ∷ next_group
    ∷ each (constant_pieces " workflow.EventName = \"")
        (constants "Event" (names_from_named s.events))
    ∷ next_group
    ∷ each (constant_pieces " workflow.TaskName = \"") (constants "Task" (names_from_tasks s.tasks))
    ∷ next_group
    ∷ each (constant_pieces " workflow.HandlerName = \"")
        (constants "Handler" (handlers_from_tasks s.tasks))
    ∷ ("\n)\n\nfunc Definition() *workflow.WorkflowDefinition {\n"
        ∷ "\treturn workflow.NewDefinition(WorkflowName, WorkflowVersion).\n\t\tInitial("
        ∷ state_name s.initial
        ∷ ")."
        ∷ [])
    ∷ each state_pieces s.states
    ∷ each event_pieces s.events
    ∷ each task_pieces s.tasks
    ∷ each transition_pieces s.transitions
    ∷ ("\n\t\tBuild()\n}\n\n" ∷ [])
    ∷ tail_pieces
    ∷ [])

-- buf.String()
abbrev pub text_of : List String → String
text_of [] = ""
text_of (piece ∷ pieces) = append piece (text_of pieces)

-- `format` is go/format's Source
unfoldable pub render : ⦃unicode : Unicode⦄ → (String → Result String) → Spec → Result String
render format s =
    let buf = text_of (file_pieces s) in
    elim (format buf) [
      | ok formatted ↦ ok formatted
      | err e ↦ err (other (append (error_text e) (append "\n" buf)))
    ]
