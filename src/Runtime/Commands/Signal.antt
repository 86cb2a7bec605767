-- ===== src/Runtime/Commands/Signal.antt =====
-- SignalWorkflow over the memory store, branch by branch.
use fsm_go.Prelude.{ℕ, suc, String, ◌≡◌, refl, ◌∙◌, false, none, some, [], ◌==◌, eq_refl}
use fsm_go.Dict.{Dict, lookup}
use fsm_go.Errors.{Error, ok, err, not_found, invalid_transition, idempotent_conflict}
use fsm_go.Types.{WorkflowInstance, SignalOptions, Transition, UpdateInstanceRequest}
use fsm_go.World.{Env, World}
use fsm_go.Compiler.{Machine, transition_key}
use fsm_go.Memory.{MemoryStore, ScanOrder, clone_instance, scoped}
use fsm_go.Runtime.Base.{TaskHandler, find_machine}
use fsm_go.Runtime.Advance.{Advance}
use fsm_go.Runtime.Advance.Steps.{IsStep}
use fsm_go.Runtime.Advance.Outcome.{apply_event-IsStep, apply_event_refused}
use fsm_go.Runtime.Commands.{apply_signal, signal_workflow}
use fsm_go.Runtime.Commands.Memory.{
  runtime_on, with_key, IsUnused, get_found, get_missing, instances-with_key, updated, update_found,
  recorded_unused, claim_unused, recorded_used,
}

-- the update that a signal asks for
abbrev pub signal_request : WorkflowInstance → Advance → UpdateInstanceRequest
signal_request i step = record {
  instance = step.instance;
  expected_revision = i.revision;
  history = step.histories;
  tasks = step.tasks;
  outbox = [];
}

-- the store after a signal: the key recorded, and the step written
abbrev pub signalled : WorkflowInstance → String → Advance → MemoryStore → MemoryStore
signalled i key step s = updated (signal_request i step) (with_key i.workflow key i.id s)

module _ ⦃env : Env⦄ (order : ScanOrder) (ms : Dict Machine) (hs : Dict (TaskHandler MemoryStore))
    (opts : SignalOptions) (w : World MemoryStore) where
  pub signal_missing :
      lookup opts.instance_id w.store.instances ≡ none
      → signal_workflow (runtime_on order ms hs) opts w
        ≡ (err (not_found "workflow_instance" opts.instance_id), w)
  unfolding signal_workflow
  signal_missing missing = rw (get_missing opts.instance_id w.store missing)

module _ ⦃env : Env⦄ (order : ScanOrder) (ms : Dict Machine) (hs : Dict (TaskHandler MemoryStore))
    (opts : SignalOptions) (w : World MemoryStore) (i : WorkflowInstance)
    (stored : lookup opts.instance_id w.store.instances ≡ some i) where
  -- Over the memory store, a signal whose key is unused (or empty), for an instance stored under its own
  -- id, of a registered machine that has a transition for its state and the event, succeeds: the result is
  -- a step of the instance along that transition, and the store is as before but for the key, the stepped
  -- instance, the step's entries and its tasks.
  pub signal_advances :
      (m : Machine) (t : Transition)
      → i.id ≡ opts.instance_id
      → IsUnused i.workflow opts.idempotency_key w.store
      → find_machine (runtime_on order ms hs) i.workflow i.version ≡ ok m
      → lookup (transition_key i.state opts.event) m.transitions ≡ some t
      → (step : Advance) × (n : ℕ) × (signal_workflow (runtime_on order ms hs) opts w ≡ (
        ok step.instance,
        record w { store = signalled i opts.idempotency_key step w.store; readings = n },
      ))
        × IsStep m (clone_instance i) opts.event (env.clock w.readings) step
  unfolding signal_workflow apply_signal
  signal_advances m t own unused known found =
      let (step, n, done, is_step) =
        apply_event-IsStep (runtime_on order ms hs) m (clone_instance i) opts.event opts.payload t w
          known found in
      let w' : World MemoryStore = record w { readings = n } in
      let same : step.instance.id ≡ opts.instance_id = is_step.moved.same_id ∙ own in
      let there : lookup step.instance.id
            (with_key i.workflow opts.idempotency_key i.id w.store).instances
          ≡ some i =
        rw (instances-with_key i.workflow opts.idempotency_key i.id w.store, same) stored in
      (
        step,
        n,
        rw (
          get_found opts.instance_id w.store i stored,
          recorded_unused order ms hs i.workflow opts.idempotency_key w unused,
          known,
          done,
          claim_unused order ms hs i.workflow opts.idempotency_key w' i.id unused,
          update_found (signal_request i step)
              (with_key i.workflow opts.idempotency_key i.id w.store) i there refl,
        ),
        is_step,
      )

  -- an event that the machine does not take in this state
  pub signal_refused :
      (m : Machine)
      → IsUnused i.workflow opts.idempotency_key w.store
      → find_machine (runtime_on order ms hs) i.workflow i.version ≡ ok m
      → lookup (transition_key i.state opts.event) m.transitions ≡ none
      → (n : ℕ) × (signal_workflow (runtime_on order ms hs) opts w
          ≡ (err (invalid_transition i.state opts.event), record w { readings = n }))
  unfolding signal_workflow apply_signal
  signal_refused m unused known missing = (
    suc (suc w.readings),
    rw (
      get_found opts.instance_id w.store i stored,
      recorded_unused order ms hs i.workflow opts.idempotency_key w unused,
      known,
      apply_event_refused (runtime_on order ms hs) m (clone_instance i) opts.event opts.payload w
          missing,
    ),
  )

  pub signal_unregistered :
      (e : Error)
      → IsUnused i.workflow opts.idempotency_key w.store
      → find_machine (runtime_on order ms hs) i.workflow i.version ≡ err e
      → signal_workflow (runtime_on order ms hs) opts w ≡ (err e, w)
  unfolding signal_workflow apply_signal
  signal_unregistered e unused unknown = rw (
    get_found opts.instance_id w.store i stored,
    recorded_unused order ms hs i.workflow opts.idempotency_key w unused,
    unknown,
  )

  -- a key that this instance has used already: the instance as it is, and no step
  pub signal_replayed :
      (opts.idempotency_key == "") ≡ false
      → lookup (scoped i.workflow opts.idempotency_key) w.store.idempotency ≡ some opts.instance_id
      → signal_workflow (runtime_on order ms hs) opts w ≡ (ok (clone_instance i), w)
  unfolding signal_workflow
  signal_replayed e used = rw (
    get_found opts.instance_id w.store i stored,
    recorded_used order ms hs i.workflow opts.idempotency_key w opts.instance_id e used,
    eq_refl opts.instance_id,
  )

  pub signal_conflict :
      (other : String)
      → (opts.idempotency_key == "") ≡ false
      → lookup (scoped i.workflow opts.idempotency_key) w.store.idempotency ≡ some other
      → (other == opts.instance_id) ≡ false
      → signal_workflow (runtime_on order ms hs) opts w
        ≡ (err (idempotent_conflict opts.idempotency_key), w)
  unfolding signal_workflow
  signal_conflict other e used differs = rw (
    get_found opts.instance_id w.store i stored,
    recorded_used order ms hs i.workflow opts.idempotency_key w other e used,
    differs,
  )
