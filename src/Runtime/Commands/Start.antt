-- ===== src/Runtime/Commands/Start.antt =====
-- StartWorkflow over the memory store.
pub mod Twice
use fsm_go.Prelude.{
  ℕ, suc, ℤ, pos, String, ◌≡◌, refl, ap, ◌∙◌, false, none, some, List, [], ◌∷◌, ◌==◌, Bool-cases,
  inl, inr,
}
use fsm_go.Dict.{Dict, lookup, insert}
use fsm_go.Dict.Laws.{lookup-insert_self}
use fsm_go.Errors.{ok}
use fsm_go.Types.{
  WorkflowInstance, StartOptions, InstanceStatus, HistoryType, TaskExecution, ExecutionHistory,
  CreateInstanceRequest, clone_map,
}
use fsm_go.World.{Env, World, id_at, entry_of, input_of}
use fsm_go.Compiler.{Machine}
use fsm_go.Memory.{
  MemoryStore, ScanOrder, clone_instance, scoped, append_locked, put_tasks, put_outbox,
  create_instance,
}
use fsm_go.Runtime.Base.{TaskHandler, find_machine}
use fsm_go.Runtime.Advance.{schedule_state_tasks}
use fsm_go.Runtime.Advance.Steps.{
  AreScheduled, state_at, types_of, repeat, schedule_all-AreScheduled,
}
use fsm_go.Runtime.Commands.{started, create_started, start_workflow}
use fsm_go.Runtime.Commands.Memory.{
  runtime_on, with_key, IsUnused, get_found, recorded_unused, claim_unused, recorded_used,
  clone_instance-clone_instance,
}

-- the store after CreateInstance
abbrev pub created : CreateInstanceRequest → MemoryStore → MemoryStore
created req s = record s {
  instances = insert req.instance.id (clone_instance req.instance) s.instances;
  history = append_locked req.history s.history;
  tasks = put_tasks req.tasks s.tasks;
  outbox = put_outbox req.outbox s.outbox;
}

-- the request that starts an instance
abbrev pub start_request :
    WorkflowInstance → List ExecutionHistory → List TaskExecution → CreateInstanceRequest
start_request i es ts = record { instance = i; history = es; tasks = ts; outbox = [] }

-- an instance in the initial state, made from the options
pub record IsStarted (m : Machine) (opts : StartOptions) (i : WorkflowInstance) : Type 0 where
  pub workflow : i.workflow ≡ opts.workflow
  pub version : i.version ≡ opts.version
  pub state : i.state ≡ m.initial
  pub status : i.status ≡ InstanceStatus.running
  pub revision : i.revision ≡ pos 0
  pub fields : i.fields ≡ clone_map opts.fields
  pub named : (opts.instance_id == "") ≡ false → i.id ≡ opts.instance_id

started-IsStarted :
    (m : Machine) (opts : StartOptions) (id : String) (now : ℤ)
    → ((opts.instance_id == "") ≡ false → id ≡ opts.instance_id)
    → IsStarted m opts (started m opts id now)
unfolding started
started-IsStarted m opts id now own = record {
  workflow = refl;
  version = refl;
  state = refl;
  status = refl;
  revision = refl;
  fields = refl;
  named = own;
}

module _ ⦃env : Env⦄ (order : ScanOrder) (ms : Dict Machine) (hs : Dict (TaskHandler MemoryStore))
    (opts : StartOptions) (w : World MemoryStore) (m : Machine)
    (known : find_machine (runtime_on order ms hs) opts.workflow opts.version ≡ ok m) where
  create_started_lem :
      (id : String) (w : World MemoryStore)
      → ((opts.instance_id == "") ≡ false → id ≡ opts.instance_id)
      → IsUnused opts.workflow opts.idempotency_key w.store
      → (i : WorkflowInstance) × (es : List ExecutionHistory) × (ts : List TaskExecution) × (n : ℕ)
        × (create_started (runtime_on order ms hs) m opts id w ≡ (
          ok i,
          record {
            store =
                created
                  (start_request i es ts)
                  (with_key opts.workflow opts.idempotency_key i.id w.store);
            readings = n;
          },
        ))
        × IsStarted m opts i
        × AreScheduled m i i.started_at (state_at m m.initial).on_enter ts
        × (types_of es
            ≡ HistoryType.workflow_started
              ∷ repeat HistoryType.task_scheduled (state_at m m.initial).on_enter)
  unfolding create_started schedule_state_tasks create_instance started
  create_started_lem id w own unused =
      let now = env.clock w.readings in
      let i = started m opts id now in
      let h : ExecutionHistory =
        entry_of
          (record (input_of i.id HistoryType.workflow_started "流程已启动" m.initial now) {
            payload = clone_map opts.fields;
          })
          (id_at "hist" (suc w.readings)) in
      let (ts, es, n, run, scheduled, types) =
        schedule_all-AreScheduled (runtime_on order ms hs) m i now known
          (state_at m m.initial).on_enter (record w { readings = suc (suc w.readings) }) in
      (
        i,
        h ∷ es,
        ts,
        n,
        rw (
          run,
          claim_unused order ms hs opts.workflow opts.idempotency_key (record w { readings = n }) id
              unused,
        ),
        started-IsStarted m opts id now own,
        scheduled,
        ap (λ l. HistoryType.workflow_started ∷ l) types,
      )

  -- Over the memory store, a Start of a registered machine whose key is unused (or empty) succeeds: it
  -- returns an instance in the initial state made from the options, and the store is as before but for the
  -- key, the instance, its entries and one pending task for each entry task of the initial state.
  pub start_creates :
      IsUnused opts.workflow opts.idempotency_key w.store
      → (i : WorkflowInstance) × (es : List ExecutionHistory) × (ts : List TaskExecution) × (n : ℕ)
        × (start_workflow (runtime_on order ms hs) opts w ≡ (
          ok i,
          record {
            store =
                created
                  (start_request i es ts)
                  (with_key opts.workflow opts.idempotency_key i.id w.store);
            readings = n;
          },
        ))
        × IsStarted m opts i
        × AreScheduled m i i.started_at (state_at m m.initial).on_enter ts
        × (types_of es
            ≡ HistoryType.workflow_started
              ∷ repeat HistoryType.task_scheduled (state_at m m.initial).on_enter)
  unfolding start_workflow
  start_creates unused = elim (Bool-cases (opts.instance_id == "")) [
    | inl unset ↦
        let w' : World MemoryStore = record w { readings = suc w.readings } in
        let (i, es, ts, n, run, is_started, scheduled, types) =
          create_started_lem (id_at "wf" w.readings) w' (λ set. cc) unused in
        (
          i,
          es,
          ts,
          n,
          rw
              (
                known,
                unset,
                recorded_unused order ms hs opts.workflow opts.idempotency_key w' unused,
              )
              run,
          is_started,
          scheduled,
          types,
        )
    | inr set ↦
        let (i, es, ts, n, run, is_started, scheduled, types) =
          create_started_lem opts.instance_id w (λ _. refl) unused in
        (
          i,
          es,
          ts,
          n,
          rw (known, set, recorded_unused order ms hs opts.workflow opts.idempotency_key w unused)
              run,
          is_started,
          scheduled,
          types,
        )
  ]

  -- a key that an earlier Start recorded, for an instance that is stored
  pub start_replayed :
      (first : String) (i : WorkflowInstance)
      → (opts.idempotency_key == "") ≡ false
      → lookup (scoped opts.workflow opts.idempotency_key) w.store.idempotency ≡ some first
      → lookup first w.store.instances ≡ some i
      → (n : ℕ) × (start_workflow (runtime_on order ms hs) opts w
          ≡ (ok (clone_instance i), record w { readings = n }))
  unfolding start_workflow
  start_replayed first i named used stored = elim (Bool-cases (opts.instance_id == "")) [
    | inl unset ↦
        let w' : World MemoryStore = record w { readings = suc w.readings } in
        (
          suc w.readings,
          rw (
            known,
            unset,
            recorded_used order ms hs opts.workflow opts.idempotency_key w' first named used,
            get_found first w.store i stored,
          ),
        )
    | inr set ↦ (
      w.readings,
      rw (
        known,
        set,
        recorded_used order ms hs opts.workflow opts.idempotency_key w first named used,
        get_found first w.store i stored,
      ),
    )
  ]
