-- ===== src/Runtime/Commands/Failures.antt =====
-- What a signal of workflow/runtime.go leaves behind when it fails beside other workers.
use fsm_go.Prelude.{
  String, ◌≡◌, ap, ◌∙◌, ◌⊎◌, false, none, some, List, ◌==◌, eq_ℤ, Bool-cases, Option-cases, inl,
  inr, sym, subst, refl,
}
use fsm_go.Dict.{Dict, lookup}
use fsm_go.Errors.{Error, ok, err, not_found, concurrent_update, Result-cases}
use fsm_go.Types.{WorkflowInstance, SignalOptions, Transition}
use fsm_go.World.{Env, World}
use fsm_go.Compiler.{Machine, transition_key}
use fsm_go.Memory.{MemoryStore, ScanOrder, clone_instance, scoped, update_instance}
use fsm_go.Memory.Ops.{Op, run_ops}
use fsm_go.Runtime.Base.{TaskHandler, find_machine}
use fsm_go.Runtime.Advance.Outcome.{apply_event-IsStep, apply_event_refused}
use fsm_go.Runtime.Commands.{recorded, claim_key, apply_signal, signal_workflow}
use fsm_go.Runtime.Commands.Memory.{
  with_key, IsUnused, get_found, get_missing, recorded_unused, claim_unused, recorded_used,
}
use fsm_go.Runtime.Commands.Races.{overtaken}

-- the instance is not in the store any more, or at another revision than `i` has, and `e` says so
abbrev pub IsOvertaken : String → WorkflowInstance → Error → MemoryStore → Type 0
IsOvertaken id i e s =
    ((lookup id s.instances ≡ none) × (e ≡ not_found "workflow_instance" i.id))
    ⊎ ((current : WorkflowInstance) × (lookup id s.instances ≡ some current)
        × (eq_ℤ current.revision i.revision ≡ false)
        × (e ≡ concurrent_update i.id))

-- a failed signal left `s'` of `s`: nothing was written; or the key, and what others wrote before the update
abbrev pub IsLeft : SignalOptions → List Op → Error → MemoryStore → MemoryStore → Type 0
IsLeft opts ops e s s' =
    (s' ≡ s)
    ⊎ ((i : WorkflowInstance) × (lookup opts.instance_id s.instances ≡ some i)
        × (s' ≡ run_ops ops (with_key i.workflow opts.idempotency_key i.id s))
        × IsOvertaken opts.instance_id i e s')

module _ ⦃env : Env⦄ (order : ScanOrder) (ms : Dict Machine) (hs : Dict (TaskHandler MemoryStore))
    (opts : SignalOptions) (ops : List Op) (w : World MemoryStore) where
  module _ (i : WorkflowInstance) (stored : lookup opts.instance_id w.store.instances ≡ some i)
      (e : Error) (failed : (signal_workflow (overtaken order ops ms hs) opts w).0 ≡ err e) where
    failure-IsLeft :
        (e' : Error) (w' : World MemoryStore)
        → signal_workflow (overtaken order ops ms hs) opts w ≡ (err e', w')
        → IsOvertaken opts.instance_id i e' w'.store
        → w'.store ≡ run_ops ops (with_key i.workflow opts.idempotency_key i.id w.store)
        → IsLeft opts ops e w.store (signal_workflow (overtaken order ops ms hs) opts w).1.store
    failure-IsLeft e' w' done gone same =
        let told : e' ≡ e = let both : err e' ≡ err e = sym (ap (λ x. x.0) done) ∙ failed in cc in
        let store_eq : w'.store ≡ (signal_workflow (overtaken order ops ms hs) opts w).1.store =
          sym (ap (λ x. x.1.store) done) in
        inr (
          i,
          stored,
          sym store_eq ∙ same,
          subst
              (λ x.
                IsOvertaken opts.instance_id i x
                  (signal_workflow (overtaken order ops ms hs) opts w).1.store)
              told (subst (IsOvertaken opts.instance_id i e') store_eq gone),
        )

    fails_late :
        (m : Machine) (t : Transition)
        → i.id ≡ opts.instance_id
        → IsUnused i.workflow opts.idempotency_key w.store
        → find_machine (overtaken order ops ms hs) i.workflow i.version ≡ ok m
        → lookup (transition_key i.state opts.event) m.transitions ≡ some t
        → IsLeft opts ops e w.store (signal_workflow (overtaken order ops ms hs) opts w).1.store
    unfolding signal_workflow apply_signal recorded claim_key update_instance find_machine
    fails_late m t own unused known found =
        let (step, n, run, is_step) =
          apply_event-IsStep (overtaken order ops ms hs) m (clone_instance i) opts.event
            opts.payload t w known found in
        let s = run_ops ops (with_key i.workflow opts.idempotency_key i.id w.store) in
        let same : step.instance.id ≡ opts.instance_id = is_step.moved.same_id ∙ own in
        let claimed =
          claim_unused order ms hs i.workflow opts.idempotency_key (record w { readings = n }) i.id
            unused in
        let asked = recorded_unused order ms hs i.workflow opts.idempotency_key w unused in
        let read = get_found opts.instance_id w.store i stored in
        elim (Option-cases (lookup step.instance.id s.instances)) [
          | inl gone ↦
              let done : signal_workflow (overtaken order ops ms hs) opts w ≡ (
                err (not_found "workflow_instance" step.instance.id),
                record { store = s; readings = n },
              ) =
                rw (read, asked, known, run, claimed, update_instance, gone) in
              failure-IsLeft _ _ done
                (inl (
                  ap (λ id. lookup id s.instances) (sym same) ∙ gone,
                  ap (not_found "workflow_instance") is_step.moved.same_id,
                ))
                refl
          | inr (current, there) ↦ elim (Bool-cases (eq_ℤ current.revision i.revision)) [
            | inl at_revision ↦
                let won : (signal_workflow (overtaken order ops ms hs) opts w).0
                    ≡ ok step.instance =
                  rw (read, asked, known, run, claimed, update_instance, there, at_revision) in
                absurd (cc (won, failed))
            | inr moved ↦
                let done : signal_workflow (overtaken order ops ms hs) opts w ≡ (
                  err (concurrent_update step.instance.id),
                  record { store = s; readings = n },
                ) =
                  rw (read, asked, known, run, claimed, update_instance, there, moved) in
                failure-IsLeft _ _ done
                  (inr (
                    current,
                    ap (λ id. lookup id s.instances) (sym same) ∙ there,
                    moved,
                    ap concurrent_update is_step.moved.same_id,
                  ))
                  refl
          ]
        ]

    unused_fails :
        i.id ≡ opts.instance_id
        → IsUnused i.workflow opts.idempotency_key w.store
        → IsLeft opts ops e w.store (signal_workflow (overtaken order ops ms hs) opts w).1.store
    unfolding signal_workflow apply_signal recorded claim_key
    unused_fails own unused =
        let asked = recorded_unused order ms hs i.workflow opts.idempotency_key w unused in
        let read = get_found opts.instance_id w.store i stored in
        elim (Result-cases (find_machine (overtaken order ops ms hs) i.workflow i.version)) [
          | inr (e', unknown) ↦
              let done : signal_workflow (overtaken order ops ms hs) opts w ≡ (err e', w) =
                rw (read, asked, unknown) in
              inl (ap (λ x. x.1.store) done)
          | inl (m, known) ↦
              elim (Option-cases (lookup (transition_key i.state opts.event) m.transitions)) [
                | inl missing ↦
                    let refused =
                      apply_event_refused (overtaken order ops ms hs) m (clone_instance i)
                        opts.event opts.payload w missing in
                    inl (rw (read, asked, known, refused) refl)
                | inr (t, found) ↦ fails_late m t own unused known found
              ]
        ]

    used_fails :
        (known : String)
        → (opts.idempotency_key == "") ≡ false
        → lookup (scoped i.workflow opts.idempotency_key) w.store.idempotency ≡ some known
        → IsLeft opts ops e w.store (signal_workflow (overtaken order ops ms hs) opts w).1.store
    unfolding signal_workflow recorded
    used_fails known named used =
        let asked = recorded_used order ms hs i.workflow opts.idempotency_key w known named used in
        let read = get_found opts.instance_id w.store i stored in
        elim (Bool-cases (known == opts.instance_id)) [
          | inl same ↦ inl (rw (read, asked, same) refl)
          | inr differs ↦ inl (rw (read, asked, differs) refl)
        ]

  -- Over the memory store, beside workers that do `ops` between the record of the key and the update, a signal that
  -- fails has written nothing, its key included; or the others have removed the instance or moved it to another
  -- revision, it fails with the error that says so, and leaves its key beside what they wrote. It holds if the
  -- instance that is stored under the signal's instance id has that id.
  pub failed_signal_leaves :
      (e : Error)
      → ((i : WorkflowInstance)
          → lookup opts.instance_id w.store.instances ≡ some i
          → i.id ≡ opts.instance_id)
      → (signal_workflow (overtaken order ops ms hs) opts w).0 ≡ err e
      → IsLeft opts ops e w.store (signal_workflow (overtaken order ops ms hs) opts w).1.store
  unfolding signal_workflow
  failed_signal_leaves e own failed =
      elim (Option-cases (lookup opts.instance_id w.store.instances)) [
        | inl missing ↦ inl (rw (get_missing opts.instance_id w.store missing) refl)
        | inr (i, stored) ↦ elim (Bool-cases (opts.idempotency_key == "")) [
          | inl empty ↦ unused_fails i stored e failed (own i stored) (λ named. cc)
          | inr named ↦
              elim (Option-cases
                (lookup (scoped i.workflow opts.idempotency_key) w.store.idempotency)) [
                  | inl new ↦ unused_fails i stored e failed (own i stored) (λ _. new)
                  | inr (known, used) ↦ used_fails i stored e failed known named used
                ]
        ]
      ]
