-- ===== src/Compiler/Maps.antt =====
-- The four maps that `Compile` fills, against the declared lists.
use mathlib.Core.List.{map-id}
use fsm_go.Prelude.{◌≡◌, refl, sym, ap, ◌≢◌, List, [], ◌∷◌, map, subst, All}
use fsm_go.Dict.{Dict, keys}
use fsm_go.Dict.Laws.{AreDistinct}
use fsm_go.Errors.{ok}
use fsm_go.Types.{StateDefinition, EventDefinition, TaskDefinition, Transition}
use fsm_go.Compiler.{
  add_states, add_events, add_tasks, add_transitions, with_defaults, duplicate_of,
}
use fsm_go.Compiler.Loops.{entries}
use fsm_go.Compiler.Valid.{IsNamed, TransitionRefers, state_names, event_names, task_names, key_of}
use fsm_go.Compiler.Steps.{
  add_all-needs, add_all-passes, Prepares-state, Prepares-event, Prepares-task,
}
use fsm_go.Compiler.Checks.{Prepares-transition}

pub task_names-with_defaults :
    (xs : List TaskDefinition) → task_names (map with_defaults xs) ≡ task_names xs
unfolding with_defaults
task_names-with_defaults [] = refl
task_names-with_defaults (x ∷ xs) = ap (λ ys. x.name ∷ ys) (task_names-with_defaults xs)

pub add_states-needs :
    (xs : List StateDefinition) (m : Dict StateDefinition)
    → add_states xs ≡ ok m
    → (m ≡ entries (λ s. s.name) xs) × All (λ s. s.name ≢ "") xs × AreDistinct (state_names xs)
unfolding add_states
add_states-needs xs m h =
    rw map-id at
      (add_all-needs Prepares-state (λ s. s.name) (duplicate_of "duplicate state: ") xs m h)

pub add_states-passes :
    (xs : List StateDefinition)
    → All (λ s. s.name ≢ "") xs
    → AreDistinct (state_names xs)
    → add_states xs ≡ ok (entries (λ s. s.name) xs)
unfolding add_states
add_states-passes xs h d = rw map-id at (
    add_all-passes Prepares-state (λ s. s.name) (duplicate_of "duplicate state: ") xs h
      (rw map-id d))

pub add_events-needs :
    (xs : List EventDefinition) (m : Dict EventDefinition)
    → add_events xs ≡ ok m
    → (m ≡ entries (λ e. e.name) xs) × All (λ e. e.name ≢ "") xs × AreDistinct (event_names xs)
unfolding add_events
add_events-needs xs m h =
    rw map-id at
      (add_all-needs Prepares-event (λ e. e.name) (duplicate_of "duplicate event: ") xs m h)

pub add_events-passes :
    (xs : List EventDefinition)
    → All (λ e. e.name ≢ "") xs
    → AreDistinct (event_names xs)
    → add_events xs ≡ ok (entries (λ e. e.name) xs)
unfolding add_events
add_events-passes xs h d = rw map-id at (
    add_all-passes Prepares-event (λ e. e.name) (duplicate_of "duplicate event: ") xs h
      (rw map-id d))

pub add_tasks-needs :
    (xs : List TaskDefinition) (m : Dict TaskDefinition)
    → add_tasks xs ≡ ok m
    → (m ≡ entries (λ t. t.name) (map with_defaults xs))
      × All IsNamed xs
      × AreDistinct (task_names xs)
unfolding add_tasks
add_tasks-needs xs m h =
    let (e, p, d) =
      add_all-needs Prepares-task (λ t. t.name) (duplicate_of "duplicate task: ") xs m h in
    (e, p, subst AreDistinct (task_names-with_defaults xs) d)

pub add_tasks-passes :
    (xs : List TaskDefinition)
    → All IsNamed xs
    → AreDistinct (task_names xs)
    → add_tasks xs ≡ ok (entries (λ t. t.name) (map with_defaults xs))
unfolding add_tasks
add_tasks-passes xs h d =
    add_all-passes Prepares-task (λ t. t.name) (duplicate_of "duplicate task: ") xs h
      (subst AreDistinct (sym (task_names-with_defaults xs)) d)

module _ (states : Dict StateDefinition) (events : Dict EventDefinition) where
  pub add_transitions-needs :
      (xs : List Transition) (m : Dict Transition)
      → add_transitions states events xs ≡ ok m
      → (m ≡ entries key_of xs)
        × All (TransitionRefers (keys states) (keys events)) xs
        × AreDistinct (map key_of xs)
  unfolding add_transitions
  add_transitions-needs xs m h = rw map-id at (
      add_all-needs (Prepares-transition states events) key_of
        (duplicate_of "duplicate transition for ") xs m h)

  pub add_transitions-passes :
      (xs : List Transition)
      → All (TransitionRefers (keys states) (keys events)) xs
      → AreDistinct (map key_of xs)
      → add_transitions states events xs ≡ ok (entries key_of xs)
  unfolding add_transitions
  add_transitions-passes xs h d = rw map-id at (
      add_all-passes (Prepares-transition states events) key_of
        (duplicate_of "duplicate transition for ") xs h (rw map-id d))
