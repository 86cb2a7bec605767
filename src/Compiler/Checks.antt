-- ===== src/Compiler/Checks.antt =====
-- The checks of references pass exactly if what they name is declared.
use fsm_go.Prelude.{
  String, ◌≡◌, refl, ap, inl, inr, Bool, true, false, arith, ◌==◌, eq_iff, Bool-cases, All, All-imp,
  not, ◌&&◌,
}
use fsm_go.Dict.{Dict, has, keys}
use fsm_go.Dict.Laws.{IsOneOf, lookup-some→IsOneOf, IsOneOf→lookup-some}
use fsm_go.Errors.{Error, Result, ok, ◌>>◌, refuse}
use fsm_go.Types.{StateDefinition, EventDefinition, TaskDefinition, Transition}
use fsm_go.Compiler.{unknown_task, prepare_transition, check_state, check_task, check_reference}
use fsm_go.Compiler.Loops.{check_each-ok, ok-check_each}
use fsm_go.Compiler.Valid.{Refers, TaskRefers, TransitionRefers}
use fsm_go.Compiler.Steps.{Prepares}

refuse-ok : (b : Bool) (e : Error) → refuse b e ≡ ok tt → b ≡ false
refuse-ok true e h = cc
refuse-ok false e h = refl

-- a chain that goes on after a refusal that was not made
pub refuse-bind :
    {A : Type 0} (b : Bool) (e : Error) (r : Result A) {a : A}
    → (refuse b e >> r) ≡ ok a
    → (b ≡ false) × (r ≡ ok a)
refuse-bind true e r h = cc
refuse-bind false e r h = (refl, h)

module _ {V : Type 0} (m : Dict V) (name : String) where
  known : not (has name m) ≡ false → IsOneOf name (keys m)
  known h = lookup-some→IsOneOf name m (ground arith)

  unknown : IsOneOf name (keys m) → not (has name m) ≡ false
  unknown h = rw (IsOneOf→lookup-some name m h)

  reference_known : (not (name == "") && not (has name m)) ≡ false → Refers name (keys m)
  reference_known h ne = known (ground (arith, eq_iff name "", ne))

  check_reference-passes :
      (t what : String) → Refers name (keys m) → check_reference m t what name ≡ ok tt
  check_reference-passes t what h = elim (Bool-cases (name == "")) [
    | inl e ↦ rw e
    | inr e ↦ rw (e, IsOneOf→lookup-some name m (h (λ p. ground (arith, eq_iff name ""))))
  ]

module _ (tasks : Dict TaskDefinition) where
  pub check_state-needs :
      (s : StateDefinition)
      → check_state tasks s ≡ ok tt
      → All (λ n. IsOneOf n (keys tasks)) s.on_enter
  unfolding check_state
  check_state-needs s h =
      All-imp _ _ (λ n p. known tasks n (refuse-ok _ _ p)) s.on_enter (check_each-ok _ s.on_enter h)

  pub check_state-passes :
      (s : StateDefinition)
      → All (λ n. IsOneOf n (keys tasks)) s.on_enter
      → check_state tasks s ≡ ok tt
  unfolding check_state
  check_state-passes s h = ok-check_each _ s.on_enter (
      All-imp (λ n. IsOneOf n (keys tasks)) _
        (λ n p. ap (λ b. refuse b (unknown_task s.name n)) (unknown tasks n p)) s.on_enter h)

  pub check_task-needs :
      (events : Dict EventDefinition) (t : TaskDefinition)
      → check_task tasks events t ≡ ok tt
      → TaskRefers (keys tasks) (keys events) t
  unfolding check_task
  check_task-needs events t h =
      let (p, h₁) = refuse-bind _ _ _ h in
      let (q, h₂) = refuse-bind _ _ _ h₁ in
      (
        reference_known tasks t.compensation p,
        reference_known events t.on_success q,
        reference_known events t.on_failure (refuse-ok _ _ h₂),
      )

  pub check_task-passes :
      (events : Dict EventDefinition) (t : TaskDefinition)
      → TaskRefers (keys tasks) (keys events) t
      → check_task tasks events t ≡ ok tt
  unfolding check_task
  check_task-passes events t h = rw (
    check_reference-passes tasks t.compensation t.name _ h.0,
    check_reference-passes events t.on_success t.name _ h.1,
    check_reference-passes events t.on_failure t.name _ h.2,
  )

module _ (states : Dict StateDefinition) (events : Dict EventDefinition) (t : Transition) where
  transition-passes :
      TransitionRefers (keys states) (keys events) t → prepare_transition states events t ≡ ok t
  unfolding prepare_transition
  transition-passes h =
      rw
        (
          unknown states t.from h.from_known,
          unknown states t.to h.to_known,
          unknown events t.event h.event_known,
        )
        (ground (
          arith,
          eq_iff t.name "",
          eq_iff t.from "",
          eq_iff t.event "",
          eq_iff t.to "",
          h.has_name,
          h.has_from,
          h.has_event,
          h.has_to,
        ))

  transition-needs :
      (y : Transition)
      → prepare_transition states events t ≡ ok y
      → (y ≡ t) × TransitionRefers (keys states) (keys events) t
  unfolding prepare_transition
  transition-needs y h = (
    ground arith,
    record {
      has_name = λ p. ground (arith, eq_iff t.name "");
      has_from = λ p. ground (arith, eq_iff t.from "");
      has_event = λ p. ground (arith, eq_iff t.event "");
      has_to = λ p. ground (arith, eq_iff t.to "");
      from_known = known states t.from (ground arith);
      to_known = known states t.to (ground arith);
      event_known = known events t.event (ground arith);
    },
  )

pub Prepares-transition :
    (states : Dict StateDefinition) (events : Dict EventDefinition)
    → Prepares
        (prepare_transition states events)
        (λ t. t)
        (TransitionRefers (keys states) (keys events))
Prepares-transition states events = record {
  passes = transition-passes states events;
  needs = transition-needs states events;
}
