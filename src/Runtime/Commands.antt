-- ===== src/Runtime/Commands.antt =====
-- workflow/runtime.go: `StartWorkflow`, `SignalWorkflow` and the two reads; workflow/typed.go passes
-- its calls on to them.
mod Examples
pub mod Memory
pub mod Signal
pub mod Start
pub mod Races
pub mod Failures
pub mod Delivery
use fsm_go.Prelude.{
  ℤ, pos, String, Bool, Option, none, some, List, [], ◌∷◌, ◌++◌, not, ◌==◌, if◌then◌else◌,
}
use fsm_go.Errors.{Error, idempotent_conflict}
use fsm_go.Types.{
  AnyMap, Time, clone_map, InstanceStatus, HistoryType, WorkflowInstance, TaskExecution,
  ExecutionHistory, StartOptions, SignalOptions,
}
use fsm_go.World.{Env, Act, pure, raise, lift, ◌>>=◌, ◌>>◌, clock_now, new_id, history, input_of}
use fsm_go.Compiler.{Machine}
use fsm_go.Runtime.Base.{Runtime, find_machine}
use fsm_go.Runtime.Advance.{Advance, schedule_state_tasks, apply_event}

-- the instance that `StartWorkflow` makes, in the initial state
unfoldable pub started : Machine → StartOptions → String → Time → WorkflowInstance
started machine opts id now = record {
  id = id;
  workflow = opts.workflow;
  version = opts.version;
  state = machine.initial;
  status = InstanceStatus.running;
  revision = pos 0;
  fields = clone_map opts.fields;
  started_at = now;
  updated_at = now;
  finished_at = pos 0;
}

-- the id of a new instance, unless the caller names one
abbrev pub choose_id : ⦃env : Env⦄ {S : Type 0} → StartOptions → Act S String
choose_id opts = if opts.instance_id == "" then new_id "wf" else pure opts.instance_id

module _ ⦃env : Env⦄ {S : Type 0} (r : Runtime S) where
  -- the instance that an earlier request with this key recorded; an empty key records none
  unfoldable pub recorded : String → String → Act S (Option String)
  recorded workflow key = if key == "" then pure none else r.store.get_idempotency workflow key

  -- a new key is recorded; one that another request has recorded is a conflict
  unfoldable pub claim_key : String → String → String → Act S (Unit {0})
  claim_key workflow key id = if key == "" then pure tt else (do
    fresh ← r.store.record_idempotency workflow key id
    if fresh then pure tt else raise (idempotent_conflict key))

  unfoldable pub create_started : Machine → StartOptions → String → Act S WorkflowInstance
  create_started machine opts id = do
    now ← clock_now
    let instance = started machine opts id now
    h ←
        history
          (record (input_of instance.id HistoryType.workflow_started "流程已启动" machine.initial now) {
            payload = clone_map opts.fields;
          })
    (tasks, hs) ← schedule_state_tasks r machine instance now
    claim_key opts.workflow opts.idempotency_key instance.id
    r.store.create_instance
        (record { instance = instance; history = h ∷ hs; tasks = tasks; outbox = [] })
    pure instance

  unfoldable pub start_workflow : StartOptions → Act S WorkflowInstance
  start_workflow opts = do
    machine ← lift (find_machine r opts.workflow opts.version)
    id ← choose_id opts
    earlier ← recorded opts.workflow opts.idempotency_key
    elim earlier [ some known ↦ r.store.get_instance known | none ↦ create_started machine opts id ]

  unfoldable pub apply_signal : WorkflowInstance → SignalOptions → Act S WorkflowInstance
  apply_signal instance opts = do
    machine ← lift (find_machine r instance.workflow instance.version)
    step ← apply_event r machine instance opts.event opts.payload
    claim_key instance.workflow opts.idempotency_key instance.id
    r.store.update_instance (record {
      instance = step.instance;
      expected_revision = instance.revision;
      history = step.histories;
      tasks = step.tasks;
      outbox = [];
    })
    pure step.instance

  unfoldable pub signal_workflow : SignalOptions → Act S WorkflowInstance
  signal_workflow opts = do
    instance ← r.store.get_instance opts.instance_id
    earlier ← recorded instance.workflow opts.idempotency_key
    elim earlier [
      | some known ↦
          if known == opts.instance_id
          then pure instance
          else raise (idempotent_conflict opts.idempotency_key)
      | none ↦ apply_signal instance opts
    ]

  unfoldable pub get_workflow : String → Act S WorkflowInstance
  get_workflow id = r.store.get_instance id

  unfoldable pub list_history : String → Act S (List ExecutionHistory)
  list_history id = r.store.list_history id
