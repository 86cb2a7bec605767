-- ===== src/Compiler/Exact.antt =====
-- `Compile` accepts exactly the valid definitions, and returns their index.
use mathlib.Core.List
use fsm_go.Prelude.{
  All-perm, ◌≡◌, refl, sym, ◌∙◌, ◌↔◌, some, List, [], ◌∷◌, map, arith, eq_iff, subst, All, All-imp,
}
use fsm_go.Dict.{Dict, keys, values}
use fsm_go.Dict.Laws.{IsOneOf, lookup-some→IsOneOf, IsOneOf→lookup-some}
use fsm_go.Errors.{ok}
use fsm_go.Types.{StateDefinition, EventDefinition, TaskDefinition, WorkflowDefinition}
use fsm_go.Compiler.{Machine, RangeOrder, compile, with_defaults, check_state, check_task}
use fsm_go.Compiler.Loops.{entries, check_each-ok, ok-check_each, values-entries, keys-entries}
use fsm_go.Compiler.Valid.{
  IsValid, TaskRefers, TransitionRefers, state_names, event_names, task_names, machine_of,
}
use fsm_go.Compiler.Checks.{
  check_state-needs, check_state-passes, check_task-needs, check_task-passes,
}
use fsm_go.Compiler.Maps.{
  task_names-with_defaults, add_states-needs, add_states-passes, add_events-needs,
  add_events-passes, add_tasks-needs, add_tasks-passes, add_transitions-needs,
  add_transitions-passes,
}
use fsm_go.Compiler.Passed.{Passed, compile-Passed, Passed-compile}

pub keys-state : (xs : List StateDefinition) → keys (entries (λ s. s.name) xs) ≡ state_names xs
keys-state = keys-entries (λ s. s.name)

pub keys-event : (xs : List EventDefinition) → keys (entries (λ e. e.name) xs) ≡ event_names xs
keys-event = keys-entries (λ e. e.name)

pub keys-task :
    (xs : List TaskDefinition) → keys (entries (λ t. t.name) (map with_defaults xs)) ≡ task_names xs
keys-task xs = keys-entries (λ t. t.name) (map with_defaults xs) ∙ task_names-with_defaults xs

All-map :
    {A B : Type 0} (P : B → Type 0) (f : A → B) (xs : List A)
    → All P (map f xs)
    → All (λ x. P (f x)) xs
All-map P f [] h = tt
All-map P f (x ∷ xs) h = (h.0, All-map P f xs h.1)

pub map-All :
    {A B : Type 0} (P : B → Type 0) (f : A → B) (xs : List A)
    → All (λ x. P (f x)) xs
    → All P (map f xs)
map-All P f [] h = tt
map-All P f (x ∷ xs) h = (h.0, map-All P f xs h.1)

abbrev pub states_of : WorkflowDefinition → Dict StateDefinition
states_of def = entries (λ s. s.name) def.states

abbrev pub events_of : WorkflowDefinition → Dict EventDefinition
events_of def = entries (λ e. e.name) def.events

abbrev pub tasks_of : WorkflowDefinition → Dict TaskDefinition
tasks_of def = entries (λ t. t.name) (map with_defaults def.tasks)

module _ (order : RangeOrder) (def : WorkflowDefinition) where
  Passed→machine : (m : Machine) → Passed order def m → m ≡ machine_of def
  Passed→machine m p =
      let s = (add_states-needs def.states m.states p.states_added).0 in
      let e = (add_events-needs def.events m.events p.events_added).0 in
      let t = (add_tasks-needs def.tasks m.tasks p.tasks_added).0 in
      let r =
        (add_transitions-needs m.states m.events def.transitions m.transitions
          p.transitions_added).0 in
      cc (s, e, t, r, p.same_name, p.same_version, p.same_initial)

  module _ (p : Passed order def (machine_of def)) where
    on_enter_known : All (λ s. All (λ n. IsOneOf n (task_names def.tasks)) s.on_enter) def.states
    on_enter_known =
        let checked = check_each-ok (check_state (tasks_of def)) _ p.states_checked in
        let listed = All-perm _ (order.states_perm (values (states_of def))) checked in
        let each =
          subst (λ l. All (λ s. check_state (tasks_of def) s ≡ ok tt) l)
            (values-entries (λ s. s.name) def.states) listed in
        subst (λ names. All (λ s. All (λ n. IsOneOf n names) s.on_enter) def.states)
          (keys-task def.tasks) (All-imp _ _ (check_state-needs (tasks_of def)) def.states each)

    tasks_refer : All (TaskRefers (task_names def.tasks) (event_names def.events)) def.tasks
    unfolding with_defaults
    tasks_refer =
        let checked = check_each-ok (check_task (tasks_of def) (events_of def)) _ p.tasks_checked in
        let listed = All-perm _ (order.tasks_perm (values (tasks_of def))) checked in
        let each =
          subst (λ l. All (λ t. check_task (tasks_of def) (events_of def) t ≡ ok tt) l)
            (values-entries (λ t. t.name) (map with_defaults def.tasks)) listed in
        let refer =
          All-map _ with_defaults def.tasks
            (All-imp _ _ (check_task-needs (tasks_of def) (events_of def)) _ each) in
        subst (λ names. All (TaskRefers names (event_names def.events)) def.tasks)
          (keys-task def.tasks)
          (subst (λ names. All (TaskRefers (keys (tasks_of def)) names) def.tasks)
            (keys-event def.events) refer)

    Passed→IsValid : IsValid def
    Passed→IsValid =
        let s = add_states-needs def.states _ p.states_added in
        let e = add_events-needs def.events _ p.events_added in
        let t = add_tasks-needs def.tasks _ p.tasks_added in
        let r =
          add_transitions-needs (states_of def) (events_of def) def.transitions _
            p.transitions_added in
        record {
          has_name = λ q. ground (arith, p.named, eq_iff def.name "");
          has_version = λ q. ground (arith, p.named, eq_iff def.version "");
          has_initial = λ q. ground (arith, p.named, eq_iff def.initial "");
          states_named = s.1;
          states_distinct = s.2;
          initial_known =
              subst (IsOneOf def.initial) (keys-state def.states)
                (lookup-some→IsOneOf def.initial (states_of def) (ground (arith, p.initial_found)));
          events_named = e.1;
          events_distinct = e.2;
          tasks_named = t.1;
          tasks_distinct = t.2;
          on_enter_known = on_enter_known;
          tasks_refer = tasks_refer;
          transitions_refer =
              subst (λ names. All (TransitionRefers names (event_names def.events)) def.transitions)
                (keys-state def.states)
                (subst
                  (λ names. All (TransitionRefers (keys (states_of def)) names) def.transitions)
                  (keys-event def.events) r.1);
          transitions_distinct = r.2;
        }

  module _ (v : IsValid def) where
    valid_states :
        All (λ s. check_state (tasks_of def) s ≡ ok tt) (order.states (values (states_of def)))
    valid_states =
        let known =
          subst (λ names. All (λ s. All (λ n. IsOneOf n names) s.on_enter) def.states)
            (sym (keys-task def.tasks)) v.on_enter_known in
        let each = All-imp _ _ (check_state-passes (tasks_of def)) def.states known in
        All-perm _ (List.Permᴰ.symm (order.states_perm (values (states_of def)))) (
          subst (λ l. All (λ s. check_state (tasks_of def) s ≡ ok tt) l)
            (sym (values-entries (λ s. s.name) def.states)) each)

    valid_tasks :
        All
          (λ t. check_task (tasks_of def) (events_of def) t ≡ ok tt)
          (order.tasks (values (tasks_of def)))
    unfolding with_defaults
    valid_tasks =
        let named =
          subst (λ names. All (TaskRefers names (event_names def.events)) def.tasks)
            (sym (keys-task def.tasks)) v.tasks_refer in
        let known =
          subst (λ names. All (TaskRefers (keys (tasks_of def)) names) def.tasks)
            (sym (keys-event def.events)) named in
        let each =
          All-imp _ _ (check_task-passes (tasks_of def) (events_of def)) _
            (map-All _ with_defaults def.tasks known) in
        All-perm _ (List.Permᴰ.symm (order.tasks_perm (values (tasks_of def)))) (
          subst (λ l. All (λ t. check_task (tasks_of def) (events_of def) t ≡ ok tt) l)
            (sym (values-entries (λ t. t.name) (map with_defaults def.tasks))) each)

    valid_transitions :
        All (TransitionRefers (keys (states_of def)) (keys (events_of def))) def.transitions
    valid_transitions =
        subst (λ names. All (TransitionRefers (keys (states_of def)) names) def.transitions)
          (sym (keys-event def.events))
          (subst (λ names. All (TransitionRefers names (event_names def.events)) def.transitions)
            (sym (keys-state def.states)) v.transitions_refer)

    IsValid→Passed : Passed order def (machine_of def)
    IsValid→Passed = record {
      named = ground (
        arith,
        eq_iff def.name "",
        eq_iff def.version "",
        eq_iff def.initial "",
        v.has_name,
        v.has_version,
        v.has_initial,
      );
      states_added = add_states-passes def.states v.states_named v.states_distinct;
      initial_found = rw (
          IsOneOf→lookup-some def.initial (states_of def)
            (subst (IsOneOf def.initial) (sym (keys-state def.states)) v.initial_known));
      events_added = add_events-passes def.events v.events_named v.events_distinct;
      tasks_added = add_tasks-passes def.tasks v.tasks_named v.tasks_distinct;
      states_checked = ok-check_each _ _ valid_states;
      tasks_checked = ok-check_each _ _ valid_tasks;
      transitions_added =
          add_transitions-passes (states_of def) (events_of def) def.transitions valid_transitions
            v.transitions_distinct;
      same_name = refl;
      same_version = refl;
      same_initial = refl;
    }

-- `Compile` of a definition returns a machine exactly if the definition is valid (names present and
-- distinct, every reference declared, one transition for each key) and the machine is the index of
-- the declared lists, with the retry defaults filled in. It holds for every order in which the
-- maps are gone through.
pub compile_exact :
    (order : RangeOrder) (def : WorkflowDefinition) (m : Machine)
    → (compile order (some def) ≡ ok m) ↔ (IsValid def × (m ≡ machine_of def))
compile_exact order def m = (
  λ h.
      let p = compile-Passed order def m h in
      let e = Passed→machine order def m p in
      (Passed→IsValid order def (subst (Passed order def) e p), e),
  λ h.
      Passed-compile order def m
        (subst (Passed order def) (sym h.1) (IsValid→Passed order def h.0)),
)

-- A definition that compiles under one order of the maps compiles to the same machine under any.
pub compile_any_order :
    (o o' : RangeOrder) (def : WorkflowDefinition) (m : Machine)
    → compile o (some def) ≡ ok m
    → compile o' (some def) ≡ ok m
compile_any_order o o' def m h = (compile_exact o' def m).1 ((compile_exact o def m).0 h)
