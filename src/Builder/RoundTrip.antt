-- ===== src/Builder/RoundTrip.antt =====
-- Every definition is one that the builder's calls make.
use fsm_go.Prelude.{
  String, ◌≡◌, refl, ap, ◌∙◌, sym, List, [], ◌∷◌, ◌++◌, if◌then◌else◌, Bool-cases, inl, inr,
}
use mathlib.Core.List.{append-nil, append_assoc}
use fsm_go.Types.{
  zero_state, zero_task, StateDefinition, EventDefinition, TaskDefinition, Transition,
  WorkflowDefinition,
}
use fsm_go.Builder.{
  DefinitionBuilder, StateOption, TaskOption, new_definition, apply_options, initial, state, event,
  task, transition, build, terminal, on_enter, retry, timeout, compensation, on_success, on_failure,
}

-- the options that make a state from its name, and a task from its name and handler
abbrev pub state_options : StateDefinition → List StateOption
state_options s = on_enter s.on_enter ∷ (if s.terminal then terminal ∷ [] else [])

abbrev pub task_options : TaskDefinition → List TaskOption
task_options t =
    retry t.retry.max_attempts t.retry.backoff
    ∷ timeout t.timeout
    ∷ compensation t.compensation
    ∷ on_success t.on_success
    ∷ on_failure t.on_failure
    ∷ []

-- one call for each item
abbrev pub each {ℓ} :
    {A : Type ℓ}
    → (A → DefinitionBuilder → DefinitionBuilder)
    → List A
    → DefinitionBuilder
    → DefinitionBuilder
each call [] b = b
each call (x ∷ xs) b = each call xs (call x b)

abbrev pub add_state : StateDefinition → DefinitionBuilder → DefinitionBuilder
add_state s = state s.name (state_options s)

abbrev pub add_event : EventDefinition → DefinitionBuilder → DefinitionBuilder
add_event e = event e.name

abbrev pub add_task : TaskDefinition → DefinitionBuilder → DefinitionBuilder
add_task t = task t.name t.handler (task_options t)

abbrev pub add_transition : Transition → DefinitionBuilder → DefinitionBuilder
add_transition t = transition t.name t.from t.event t.to

-- the calls that make a definition
abbrev pub calls_for : WorkflowDefinition → DefinitionBuilder
calls_for def = each add_transition def.transitions (
    each add_task def.tasks (
      each add_event def.events
        (each add_state def.states (initial def.initial (new_definition def.name def.version)))))

on_enter_lem :
    (tasks : List String) (s : StateDefinition)
    → on_enter tasks s ≡ record s { on_enter = s.on_enter ++ tasks }
on_enter_lem [] s = ap (λ l. record s { on_enter = l }) (sym (append-nil s.on_enter))
on_enter_lem (t ∷ ts) s =
    on_enter_lem ts (record s { on_enter = s.on_enter ++ t ∷ [] })
    ∙ ap (λ l. record s { on_enter = l }) (append_assoc s.on_enter (t ∷ []) ts)

state_made :
    (s : StateDefinition)
    → apply_options (state_options s) (record zero_state { name = s.name }) ≡ s
unfolding apply_options
state_made s = elim (Bool-cases s.terminal) [
  | inl ends ↦ rw (ends, on_enter_lem)
  | inr goes_on ↦ rw (goes_on, on_enter_lem)
]

task_made :
    (t : TaskDefinition)
    → apply_options (task_options t) (record zero_task { name = t.name; handler = t.handler }) ≡ t
unfolding apply_options
task_made t = refl

-- A field of a definition to which a call appends one item: so many calls append them all.
module _ {A : Type 0} (get : WorkflowDefinition → List A)
    (put : List A → WorkflowDefinition → WorkflowDefinition)
    (get-put : (xs : List A) (d : WorkflowDefinition) → get (put xs d) ≡ xs)
    (put-put : (xs ys : List A) (d : WorkflowDefinition) → put xs (put ys d) ≡ put xs d)
    (put-get : (d : WorkflowDefinition) → put (get d) d ≡ d)
    (call : A → DefinitionBuilder → DefinitionBuilder)
    (appends : (x : A) (b : DefinitionBuilder)
      → (call x b).def ≡ put (get b.def ++ x ∷ []) b.def) where
  each_lem :
      (xs : List A) (b : DefinitionBuilder) → (each call xs b).def ≡ put (get b.def ++ xs) b.def
  each_lem [] b = rw append-nil (sym (put-get b.def))
  each_lem (x ∷ xs) b = each_lem xs (call x b) ∙ rw (appends x b, get-put, put-put, append_assoc)

each_state :
    (ss : List StateDefinition) (b : DefinitionBuilder)
    → (each add_state ss b).def ≡ record b.def { states = b.def.states ++ ss }
unfolding state
each_state =
    each_lem (λ d. d.states) (λ xs d. record d { states = xs }) (λ xs d. refl) (λ xs ys d. refl)
      (λ d. refl) add_state (λ s b. rw (state_made s))

each_event :
    (es : List EventDefinition) (b : DefinitionBuilder)
    → (each add_event es b).def ≡ record b.def { events = b.def.events ++ es }
unfolding event
each_event =
    each_lem (λ d. d.events) (λ xs d. record d { events = xs }) (λ xs d. refl) (λ xs ys d. refl)
      (λ d. refl) add_event (λ e b. refl)

each_task :
    (ts : List TaskDefinition) (b : DefinitionBuilder)
    → (each add_task ts b).def ≡ record b.def { tasks = b.def.tasks ++ ts }
unfolding task
each_task =
    each_lem (λ d. d.tasks) (λ xs d. record d { tasks = xs }) (λ xs d. refl) (λ xs ys d. refl)
      (λ d. refl) add_task (λ t b. rw (task_made t))

each_transition :
    (ts : List Transition) (b : DefinitionBuilder)
    → (each add_transition ts b).def ≡ record b.def { transitions = b.def.transitions ++ ts }
unfolding transition
each_transition =
    each_lem (λ d. d.transitions) (λ xs d. record d { transitions = xs }) (λ xs d. refl)
      (λ xs ys d. refl) (λ d. refl) add_transition (λ t b. refl)

-- Every definition is built by one call for each of its parts, in order, with the options for each
-- field of its states and tasks: what `Build` then returns is the definition itself.
pub build-calls_for : (def : WorkflowDefinition) → build (calls_for def) ≡ def
unfolding initial new_definition
build-calls_for def = rw (each_transition, each_task, each_event, each_state)
