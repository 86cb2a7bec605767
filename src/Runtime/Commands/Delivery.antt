-- ===== src/Runtime/Commands/Delivery.antt =====
-- What a sender of signals may rely on, over the memory store, with no other worker beside it.
use fsm_go.Prelude.{
  inc, String, ◌≡◌, sym, ap, ◌∙◌, false, none, some, ◌==◌, eq_iff, Bool-cases, Option, Option-cases,
  inl, inr,
}
use fsm_go.Dict.{Dict, lookup}
use fsm_go.Dict.Laws.{lookup-insert_self}
use fsm_go.Errors.{Error, ok, err, Result-cases}
use fsm_go.Types.{WorkflowInstance, SignalOptions, Transition}
use fsm_go.World.{Env, World}
use fsm_go.Compiler.{Machine, transition_key}
use fsm_go.Memory.{MemoryStore, ScanOrder, clone_instance, scoped}
use fsm_go.Runtime.Base.{TaskHandler, find_machine}
use fsm_go.Runtime.Commands.{signal_workflow}
use fsm_go.Runtime.Commands.Memory.{clone_instance-clone_instance, runtime_on, IsUnused, with_key}
use fsm_go.Runtime.Commands.Signal.{
  signal_missing, signal_advances, signal_refused, signal_unregistered, signal_replayed,
  signal_conflict, signalled,
}

module _ ⦃env : Env⦄ (order : ScanOrder) (ms : Dict Machine) (hs : Dict (TaskHandler MemoryStore))
    (opts : SignalOptions) (w : World MemoryStore) where
  unused_atomic :
      (i : WorkflowInstance) {e : Error}
      → lookup opts.instance_id w.store.instances ≡ some i
      → i.id ≡ opts.instance_id
      → IsUnused i.workflow opts.idempotency_key w.store
      → (signal_workflow (runtime_on order ms hs) opts w).0 ≡ err e
      → (signal_workflow (runtime_on order ms hs) opts w).1.store ≡ w.store
  unused_atomic i stored own unused h =
      elim (Result-cases (find_machine (runtime_on order ms hs) i.workflow i.version)) [
        | inr (e, unknown) ↦ rw (signal_unregistered order ms hs opts w i stored e unused unknown)
        | inl (m, known) ↦
            elim (Option-cases (lookup (transition_key i.state opts.event) m.transitions)) [
              | inl missing ↦
                  let (n, done) =
                    signal_refused order ms hs opts w i stored m unused known missing in
                  rw done
              | inr (t, found) ↦
                  let (step, n, done, _) =
                    signal_advances order ms hs opts w i stored m t own unused known found in
                  absurd (cc done)
            ]
      ]

  used_atomic :
      (i : WorkflowInstance) (known : String) {e : Error}
      → lookup opts.instance_id w.store.instances ≡ some i
      → (opts.idempotency_key == "") ≡ false
      → lookup (scoped i.workflow opts.idempotency_key) w.store.idempotency ≡ some known
      → (signal_workflow (runtime_on order ms hs) opts w).0 ≡ err e
      → (signal_workflow (runtime_on order ms hs) opts w).1.store ≡ w.store
  used_atomic i known stored named used h = elim (Bool-cases (known == opts.instance_id)) [
    | inl same ↦
        let k : known ≡ opts.instance_id = (eq_iff known opts.instance_id).0 same in
        rw (signal_replayed order ms hs opts w i stored named (used ∙ ap some k))
    | inr differs ↦ rw (signal_conflict order ms hs opts w i stored known named used differs)
  ]

  -- Over the memory store, a signal that fails with no other worker beside it leaves the store as it was, its
  -- key included, if the instance that is stored under the signal's instance id has that id.
  pub signal_error_unchanged :
      {e : Error}
      → ((i : WorkflowInstance)
          → lookup opts.instance_id w.store.instances ≡ some i
          → i.id ≡ opts.instance_id)
      → (signal_workflow (runtime_on order ms hs) opts w).0 ≡ err e
      → (signal_workflow (runtime_on order ms hs) opts w).1.store ≡ w.store
  signal_error_unchanged own h = elim (Option-cases (lookup opts.instance_id w.store.instances)) [
    | inl missing ↦ rw (signal_missing order ms hs opts w missing)
    | inr (i, stored) ↦ elim (Bool-cases (opts.idempotency_key == "")) [
      | inl empty ↦ unused_atomic i stored (own i stored) (λ named. cc) h
      | inr named ↦
          elim (Option-cases
            (lookup (scoped i.workflow opts.idempotency_key) w.store.idempotency)) [
              | inl new ↦ unused_atomic i stored (own i stored) (λ _. new) h
              | inr (known, used) ↦ used_atomic i known stored named used h
            ]
    ]
  ]

  -- Over the memory store, a signal with a key that is not empty and unused, for an instance stored under
  -- its own id, of a registered machine that has a transition for its state and the event, moves the
  -- instance to the transition's target, one revision on; and the same signal again returns a copy of what
  -- it stored and changes nothing, the event is not applied twice.
  pub signal_twice :
      (i : WorkflowInstance) (m : Machine) (t : Transition)
      → lookup opts.instance_id w.store.instances ≡ some i
      → i.id ≡ opts.instance_id
      → (opts.idempotency_key == "") ≡ false
      → lookup (scoped i.workflow opts.idempotency_key) w.store.idempotency ≡ none
      → find_machine (runtime_on order ms hs) i.workflow i.version ≡ ok m
      → lookup (transition_key i.state opts.event) m.transitions ≡ some t
      → (next : WorkflowInstance) × (w' : World MemoryStore) × (signal_workflow
            (runtime_on order ms hs)
            opts
            w
          ≡ (ok next, w'))
        × (next.revision ≡ inc i.revision)
        × (next.state ≡ t.to)
        × (signal_workflow (runtime_on order ms hs) opts w' ≡ (ok (clone_instance next), w'))
  signal_twice i m t stored own named new known found =
      let (step, n, done, is_step) =
        signal_advances order ms hs opts w i stored m t own (λ _. new) known found in
      let w' : World MemoryStore = record {
        store = signalled i opts.idempotency_key step w.store;
        readings = n;
      } in
      let moved = is_step.moved in
      let is_step_to : step.instance.state ≡ t.to =
        moved.state
        ∙ ap (λ (o : Option Transition). elim o [ none ↦ t.to | some t2 ↦ t2.to ])
            (sym is_step.found ∙ found) in
      let same : step.instance.id ≡ opts.instance_id = moved.same_id ∙ own in
      let there : lookup opts.instance_id w'.store.instances ≡ some (clone_instance step.instance) =
        ap (λ k. lookup k w'.store.instances) (sym same)
        ∙ lookup-insert_self step.instance.id (clone_instance step.instance)
            (with_key i.workflow opts.idempotency_key i.id w.store).instances in
      let used : lookup (scoped step.instance.workflow opts.idempotency_key) w'.store.idempotency
          ≡ some opts.instance_id =
        rw (moved.same_workflow, named, own)
          (lookup-insert_self (scoped i.workflow opts.idempotency_key) opts.instance_id
            w.store.idempotency) in
      (
        step.instance,
        w',
        done,
        moved.revision,
        is_step_to,
        signal_replayed order ms hs opts w' (clone_instance step.instance) there named used
            ∙ ap (λ j. (ok j, w')) (clone_instance-clone_instance step.instance),
      )
