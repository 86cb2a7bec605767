-- ===== src/Runtime/Commands/Races.antt =====
-- A signal beside other workers: their operations between the record of its key and its update.
use fsm_go.Prelude.{ℕ, ◌≡◌, ap, ◌∙◌, false, none, some, List, ◌==◌, eq_ℤ}
use fsm_go.Dict.{Dict, lookup}
use fsm_go.Dict.Laws.{lookup-insert_self}
use fsm_go.Errors.{ok, err, concurrent_update}
use fsm_go.Types.{WorkflowInstance, SignalOptions, Transition}
use fsm_go.World.{Env, World, on_store}
use fsm_go.Compiler.{Machine, transition_key}
use fsm_go.Memory.{MemoryStore, ScanOrder, memory_store, clone_instance, scoped, update_instance}
use fsm_go.Memory.Ops.{Op, run_ops}
use fsm_go.Memory.Keys.{key_kept}
use fsm_go.Runtime.Base.{Runtime, TaskHandler, find_machine}
use fsm_go.Runtime.Advance.Outcome.{apply_event-IsStep}
use fsm_go.Runtime.Commands.{recorded, claim_key, apply_signal, signal_workflow}
use fsm_go.Runtime.Commands.Memory.{runtime_on, with_key, get_found, recorded_unused, claim_unused}
use fsm_go.Runtime.Commands.Signal.{signal_replayed}

-- a runtime whose update is reached after the others' operations
abbrev pub overtaken :
    ⦃env : Env⦄
    → ScanOrder
    → List Op
    → Dict Machine
    → Dict (TaskHandler MemoryStore)
    → Runtime MemoryStore
overtaken order ops machines handlers = record {
  store = record (memory_store order) {
    update_instance = λ req. on_store (λ s. update_instance req (run_ops ops s));
  };
  machines = machines;
  handlers = handlers;
}

module _ ⦃env : Env⦄ (order : ScanOrder) (ms : Dict Machine) (hs : Dict (TaskHandler MemoryStore))
    (opts : SignalOptions) (w : World MemoryStore) where
  -- Over the memory store, take a signal with an unused key that is not empty, for an instance stored
  -- under its own id, of a registered machine that has a transition for its state and the event. If other
  -- workers have moved the instance to another revision, of the same workflow, between the record of the
  -- key and the update, then the signal fails with ErrConcurrentUpdate and leaves its key behind; and the
  -- same signal, sent again, reports success with the instance as the others left it, and makes no step.
  pub overtaken_signal_lost :
      (ops : List Op) (i current : WorkflowInstance) (m : Machine) (t : Transition)
      → lookup opts.instance_id w.store.instances ≡ some i
      → i.id ≡ opts.instance_id
      → (opts.idempotency_key == "") ≡ false
      → lookup (scoped i.workflow opts.idempotency_key) w.store.idempotency ≡ none
      → find_machine (runtime_on order ms hs) i.workflow i.version ≡ ok m
      → lookup (transition_key i.state opts.event) m.transitions ≡ some t
      → lookup opts.instance_id
          (run_ops ops (with_key i.workflow opts.idempotency_key i.id w.store)).instances
        ≡ some current
      → current.workflow ≡ i.workflow
      → eq_ℤ current.revision i.revision ≡ false
      → (n : ℕ) × let w' : World MemoryStore = record {
        store = run_ops ops (with_key i.workflow opts.idempotency_key i.id w.store);
        readings = n;
      } in
          (signal_workflow (overtaken order ops ms hs) opts w ≡ (err (concurrent_update i.id), w'))
          × (signal_workflow (runtime_on order ms hs) opts w' ≡ (ok (clone_instance current), w'))
  unfolding signal_workflow apply_signal recorded claim_key update_instance find_machine
  overtaken_signal_lost ops i current m t stored own named new known found there same moved =
      let (step, n, run, is_step) =
        apply_event-IsStep (overtaken order ops ms hs) m (clone_instance i) opts.event opts.payload
          t w known found in
      let s = run_ops ops (with_key i.workflow opts.idempotency_key i.id w.store) in
      let w' : World MemoryStore = record { store = s; readings = n } in
      let k = with_key i.workflow opts.idempotency_key i.id w.store in
      let noted : lookup (scoped i.workflow opts.idempotency_key) k.idempotency
          ≡ some opts.instance_id =
        rw (named, own)
          (lookup-insert_self (scoped i.workflow opts.idempotency_key) opts.instance_id
            w.store.idempotency) in
      let kept : lookup (scoped current.workflow opts.idempotency_key) s.idempotency
          ≡ some opts.instance_id =
        rw same (key_kept (scoped i.workflow opts.idempotency_key) opts.instance_id ops k noted) in
      let under_step : lookup step.instance.id s.instances ≡ some current =
        ap (λ j. lookup j s.instances) (is_step.moved.same_id ∙ own) ∙ there in
      (
        n,
        (
          rw (
            get_found opts.instance_id w.store i stored,
            recorded_unused order ms hs i.workflow opts.idempotency_key w (λ _. new),
            known,
            run,
            claim_unused order ms hs i.workflow opts.idempotency_key (record w { readings = n })
                i.id (λ _. new),
            under_step,
            update_instance,
            moved,
            is_step.moved.same_id,
          ),
          signal_replayed order ms hs opts w' current there named kept,
        ),
      )
