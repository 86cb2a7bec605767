-- ===== src/Compiler/WellFormed.antt =====
-- What the runtime may rely on when it reads a compiled machine.
use fsm_go.Prelude.{
  pos, ◌≤ℤ◌, String, ◌≡◌, sym, ap, ◌∙◌, ◌≢◌, true, some, List, [], ◌∷◌, map, arith, ◌==◌, eq_iff,
  is_some, Bool-cases, inl, inr, subst, All, All-imp,
}
use fsm_go.Dict.{lookup}
use fsm_go.Dict.Laws.{IsOneOf, IsOneOf→lookup-some}
use fsm_go.Errors.{ok}
use fsm_go.Types.{StateDefinition, TaskDefinition, Transition, WorkflowDefinition}
use fsm_go.Compiler.{Machine, RangeOrder, compile, transition_key, with_defaults}
use fsm_go.Compiler.Keys.{HasNoColon, transition_key-injective}
use fsm_go.Compiler.Loops.{entries}
use fsm_go.Compiler.Valid.{
  IsValid, TaskRefers, TransitionRefers, state_names, event_names, task_names, key_of, machine_of,
}
use fsm_go.Compiler.Exact.{compile_exact, keys-state, keys-task, map-All, states_of, tasks_of}

pub record IsWellFormed (m : Machine) : Type 0 where
  pub initial_known : is_some (lookup m.initial m.states) ≡ true
  pub on_enter_known :
      (n : String) (s : StateDefinition)
      → lookup n m.states ≡ some s
      → All (λ t. is_some (lookup t m.tasks) ≡ true) s.on_enter
  pub task_named : (n : String) (t : TaskDefinition) → lookup n m.tasks ≡ some t → t.name ≡ n
  pub attempts :
      (n : String) (t : TaskDefinition) → lookup n m.tasks ≡ some t → pos 1 ≤ℤ t.retry.max_attempts
  pub backoff :
      (n : String) (t : TaskDefinition) → lookup n m.tasks ≡ some t → pos 1 ≤ℤ t.retry.backoff
  pub compensation_known :
      (n : String) (t : TaskDefinition)
      → lookup n m.tasks ≡ some t
      → t.compensation ≢ ""
      → is_some (lookup t.compensation m.tasks) ≡ true
  pub target_known :
      (k : String) (t : Transition)
      → lookup k m.transitions ≡ some t
      → is_some (lookup t.to m.states) ≡ true

-- an entry found in an index is one of the items, under its own key
lookup-entries {ℓ κ} :
    {A : Type ℓ} (P : A → Type κ) (key : A → String) (k : String) (xs : List A) {x : A}
    → All P xs
    → lookup k (entries key xs) ≡ some x
    → (key x ≡ k) × P x
unfolding lookup
lookup-entries P key k [] h e = ground arith
lookup-entries P key k (x ∷ xs) h e = elim (Bool-cases (key x == k)) [
  | inl q ↦
      let same : x ≡ _ = ground arith in
      (ap key (sym same) ∙ (eq_iff (key x) k).0 q, subst P same h.0)
  | inr q ↦ lookup-entries P key k xs h.1 (rw q at e)
]

pub All-IsOneOf {κ} :
    (P : String → Type κ) (n : String) (names : List String) → All P names → IsOneOf n names → P n
All-IsOneOf P n [] h o = elim o [ ]
All-IsOneOf P n (m ∷ names) h (inl e) = subst P e h.0
All-IsOneOf P n (m ∷ names) h (inr o) = All-IsOneOf P n names h.1 o

with_defaults_policy :
    (t : TaskDefinition)
    → (pos 1 ≤ℤ (with_defaults t).retry.max_attempts) × (pos 1 ≤ℤ (with_defaults t).retry.backoff)
unfolding with_defaults
with_defaults_policy t = ground arith

module _ (def : WorkflowDefinition) (v : IsValid def) where
  state_known :
      (n : String) → IsOneOf n (state_names def.states) → is_some (lookup n (states_of def)) ≡ true
  state_known n o =
      IsOneOf→lookup-some n (states_of def) (subst (IsOneOf n) (sym (keys-state def.states)) o)

  task_known :
      (n : String) → IsOneOf n (task_names def.tasks) → is_some (lookup n (tasks_of def)) ≡ true
  task_known n o =
      IsOneOf→lookup-some n (tasks_of def) (subst (IsOneOf n) (sym (keys-task def.tasks)) o)

  task_refers :
      (n : String) (t : TaskDefinition)
      → lookup n (tasks_of def) ≡ some t
      → (t.name ≡ n) × TaskRefers (task_names def.tasks) (event_names def.events) t
  unfolding with_defaults
  task_refers n t =
      lookup-entries _ (λ t. t.name) n (map with_defaults def.tasks)
        (map-All (TaskRefers (task_names def.tasks) (event_names def.events)) with_defaults
          def.tasks v.tasks_refer)

  task_policy :
      (n : String) (t : TaskDefinition)
      → lookup n (tasks_of def) ≡ some t
      → (pos 1 ≤ℤ t.retry.max_attempts) × (pos 1 ≤ℤ t.retry.backoff)
  task_policy n t h =
      (lookup-entries (λ t. (pos 1 ≤ℤ t.retry.max_attempts) × (pos 1 ≤ℤ t.retry.backoff))
        (λ t. t.name) n (map with_defaults def.tasks) (policies def.tasks) h).1
    where
      policies :
          (ts : List TaskDefinition)
          → All
              (λ t. (pos 1 ≤ℤ t.retry.max_attempts) × (pos 1 ≤ℤ t.retry.backoff))
              (map with_defaults ts)
      policies [] = tt
      policies (t ∷ ts) = (with_defaults_policy t, policies ts)

  transition_found :
      (k : String) (t : Transition)
      → lookup k (machine_of def).transitions ≡ some t
      → (key_of t ≡ k) × TransitionRefers (state_names def.states) (event_names def.events) t
  transition_found k t = lookup-entries _ key_of k def.transitions v.transitions_refer

  machine_of-IsWellFormed : IsWellFormed (machine_of def)
  machine_of-IsWellFormed = record {
    initial_known = state_known def.initial v.initial_known;
    on_enter_known = λ n s h.
        All-imp _ _ task_known s.on_enter
          (lookup-entries (λ s. All (λ t. IsOneOf t (task_names def.tasks)) s.on_enter)
            (λ s. s.name) n def.states v.on_enter_known h).1;
    task_named = λ n t h. (task_refers n t h).0;
    attempts = λ n t h. (task_policy n t h).0;
    backoff = λ n t h. (task_policy n t h).1;
    compensation_known = λ n t h ne. task_known t.compensation ((task_refers n t h).1.0 ne);
    target_known = λ k t h. state_known t.to (transition_found k t h).1.to_known;
  }

-- Every machine that `Compile` returns is well formed: the initial state, the targets of
-- transitions, the entry tasks of states and the compensations of tasks are all found in its maps;
-- tasks stand under their own names and have at least one attempt and a positive backoff.
pub compile-IsWellFormed :
    (order : RangeOrder) (def : WorkflowDefinition) (m : Machine)
    → compile order (some def) ≡ ok m
    → IsWellFormed m
compile-IsWellFormed order def m h =
    let (v, e) = (compile_exact order def m).0 h in
    subst IsWellFormed (sym e) (machine_of-IsWellFormed def v)

-- In a compiled machine whose states have no colon in their names, the transition that is found
-- for a state and an event leaves that state by that event.
pub compiled_transition :
    (order : RangeOrder) (def : WorkflowDefinition) (m : Machine) (s e : String) (t : Transition)
    → compile order (some def) ≡ ok m
    → All HasNoColon (state_names def.states)
    → HasNoColon s
    → lookup (transition_key s e) m.transitions ≡ some t
    → (t.from ≡ s) × (t.event ≡ e)
compiled_transition order def m s e t h plain here found =
    let (v, same) = (compile_exact order def m).0 h in
    let (key, refers) =
      transition_found def v (transition_key s e) t
        (subst (λ (n : Machine). lookup (transition_key s e) n.transitions ≡ some t) same found) in
    transition_key-injective t.from s t.event e
      (All-IsOneOf HasNoColon t.from (state_names def.states) plain refers.from_known) here key
