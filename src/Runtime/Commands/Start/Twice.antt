-- ===== src/Runtime/Commands/Start/Twice.antt =====
-- StartWorkflow of workflow/runtime.go, done twice under one key over the memory store.
use fsm_go.Prelude.{ℕ, ◌≡◌, ap, ◌∙◌, false, none, some, ◌==◌}
use fsm_go.Dict.{Dict, lookup}
use fsm_go.Dict.Laws.{lookup-insert_self}
use fsm_go.Errors.{ok}
use fsm_go.Types.{WorkflowInstance, StartOptions}
use fsm_go.World.{Env, World}
use fsm_go.Compiler.{Machine}
use fsm_go.Memory.{MemoryStore, ScanOrder, clone_instance, scoped}
use fsm_go.Runtime.Base.{TaskHandler, find_machine}
use fsm_go.Runtime.Commands.{start_workflow}
use fsm_go.Runtime.Commands.Memory.{runtime_on, with_key, clone_instance-clone_instance}
use fsm_go.Runtime.Commands.Start.{created, start_request, IsStarted, start_creates, start_replayed}

module _ ⦃env : Env⦄ (order : ScanOrder) (ms : Dict Machine) (hs : Dict (TaskHandler MemoryStore))
    (opts : StartOptions) (w : World MemoryStore) (m : Machine)
    (known : find_machine (runtime_on order ms hs) opts.workflow opts.version ≡ ok m) where
  -- Over the memory store, a Start of a registered machine, with a key that is not empty and unused,
  -- creates an instance in the initial state; and the same Start again returns a copy of that instance and
  -- changes nothing in the store.
  pub start_twice :
      (opts.idempotency_key == "") ≡ false
      → lookup (scoped opts.workflow opts.idempotency_key) w.store.idempotency ≡ none
      → (i : WorkflowInstance) × (w' : World MemoryStore) × (n : ℕ) × (start_workflow
            (runtime_on order ms hs)
            opts
            w
          ≡ (ok i, w'))
        × IsStarted m opts i
        × (start_workflow (runtime_on order ms hs) opts w'
            ≡ (ok (clone_instance i), record w' { readings = n }))
  start_twice named new =
      let (i, es, ts, n, run, is_started, _, _) =
        start_creates order ms hs opts w m known (λ _. new) in
      let w' : World MemoryStore = record {
        store =
            created (start_request i es ts)
              (with_key opts.workflow opts.idempotency_key i.id w.store);
        readings = n;
      } in
      let used : lookup (scoped opts.workflow opts.idempotency_key) w'.store.idempotency
          ≡ some i.id =
        rw named (
          lookup-insert_self (scoped opts.workflow opts.idempotency_key) i.id
            w.store.idempotency) in
      let stored : lookup i.id w'.store.instances ≡ some (clone_instance i) =
        lookup-insert_self i.id (clone_instance i)
          (with_key opts.workflow opts.idempotency_key i.id w.store).instances in
      let (n', again) =
        start_replayed order ms hs opts w' m known i.id (clone_instance i) named used stored in
      (
        i,
        w',
        n',
        run,
        is_started,
        again ∙ ap (λ j. (ok j, record w' { readings = n' })) (clone_instance-clone_instance i),
      )
