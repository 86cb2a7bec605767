-- ===== src/Runtime/Commands/Examples.antt =====
-- The theorems about Start and Signal at the leave request.
use fsm_go.Prelude.{ℕ, pos, inc, ◌≡◌, refl, ap, some, List, [], ◌∷◌}
use fsm_go.Dict.{lookup, insert}
use fsm_go.Errors.{Result, ok, err, concurrent_update}
use fsm_go.Types.{HistoryType, WorkflowInstance, TaskExecution, ExecutionHistory}
use fsm_go.World.{World}
use fsm_go.Memory.{MemoryStore, update_instance, clone_instance}
use fsm_go.Memory.Ops.{Op, update, apply_op, run_ops}
use fsm_go.Runtime.Commands.Races.{overtaken, overtaken_signal_lost}
use fsm_go.Runtime.Advance.{Advance}
use fsm_go.Runtime.Advance.Steps.{IsStep, AreScheduled, types_of}
use fsm_go.Runtime.Commands.{start_workflow, signal_workflow}
use fsm_go.Runtime.Commands.Memory.{with_key}
use fsm_go.Runtime.Commands.Signal.{signalled, signal_advances}
use fsm_go.Runtime.Commands.Delivery.{signal_twice}
use fsm_go.Runtime.Commands.Failures.{IsLeft, failed_signal_leaves}
use fsm_go.Runtime.Commands.Start.{IsStarted, created, start_request, start_creates}
use fsm_go.Runtime.Commands.Start.Twice.{start_twice}
use fsm_go.Fixtures.{
  test_env, scan_listed, submit, leave_machine, machines, handlers, instance_in, start_options,
  signal_options,
}
use fsm_go.Runtime.Fixtures.{test_runtime, draft_world, leave_known, submit_found, in_draft}

start_creates_example :
    (i : WorkflowInstance) × (es : List ExecutionHistory) × (ts : List TaskExecution) × (n : ℕ)
    × (start_workflow ⦃env = test_env⦄ test_runtime start_options draft_world ≡ (
      ok i,
      record {
        store = created (start_request i es ts) (with_key "leave" "key" i.id draft_world.store);
        readings = n;
      },
    ))
    × IsStarted leave_machine start_options i
    × AreScheduled leave_machine i i.started_at [] ts
    × (types_of es ≡ HistoryType.workflow_started ∷ [])
unfolding lookup
start_creates_example =
    start_creates ⦃env = test_env⦄ scan_listed machines handlers start_options draft_world
      leave_machine leave_known (λ _. refl)

start_twice_example :
    (i : WorkflowInstance) × (w' : World MemoryStore) × (n : ℕ) × (start_workflow ⦃env = test_env⦄
        test_runtime start_options draft_world
      ≡ (ok i, w'))
    × IsStarted leave_machine start_options i
    × (start_workflow ⦃env = test_env⦄ test_runtime start_options w'
        ≡ (ok (clone_instance i), record w' { readings = n }))
unfolding lookup
start_twice_example =
    start_twice ⦃env = test_env⦄ scan_listed machines handlers start_options draft_world
      leave_machine leave_known refl refl

signal_advances_example :
    (step : Advance) × (n : ℕ) × (signal_workflow ⦃env = test_env⦄ test_runtime
        (signal_options "submit")
        draft_world
      ≡ (
        ok step.instance,
        record draft_world {
          store = signalled (instance_in "draft") "key" step draft_world.store;
          readings = n;
        },
      ))
    × IsStep leave_machine (instance_in "draft") "submit" (pos 100) step
unfolding lookup
signal_advances_example =
    signal_advances ⦃env = test_env⦄ scan_listed machines handlers (signal_options "submit")
      draft_world (instance_in "draft") in_draft leave_machine submit refl (λ _. refl) leave_known
      submit_found

signal_twice_example :
    (next : WorkflowInstance) × (w' : World MemoryStore) × (signal_workflow ⦃env = test_env⦄
        test_runtime
        (signal_options "submit")
        draft_world
      ≡ (ok next, w'))
    × (next.revision ≡ inc (pos 4))
    × (next.state ≡ "review")
    × (signal_workflow ⦃env = test_env⦄ test_runtime (signal_options "submit") w'
        ≡ (ok (clone_instance next), w'))
unfolding lookup
signal_twice_example =
    signal_twice ⦃env = test_env⦄ scan_listed machines handlers (signal_options "submit")
      draft_world (instance_in "draft") leave_machine submit in_draft refl refl refl leave_known
      submit_found

stored_own_id :
    (i : WorkflowInstance) → lookup "wf-1" draft_world.store.instances ≡ some i → i.id ≡ "wf-1"
unfolding lookup
stored_own_id i h = cc

abbrev other_update : Op
other_update = update (record {
  instance = record (instance_in "review") { revision = pos 5 };
  expected_revision = pos 4;
  history = [];
  tasks = [];
  outbox = [];
})

overtaken_signal_lost_example :
    (n : ℕ) × let w' : World MemoryStore = record {
      store = run_ops (other_update ∷ []) (with_key "leave" "key" "wf-1" draft_world.store);
      readings = n;
    } in
      (signal_workflow ⦃env = test_env⦄
          (overtaken ⦃env = test_env⦄ scan_listed (other_update ∷ []) machines handlers)
          (signal_options "submit")
          draft_world
        ≡ (err (concurrent_update "wf-1"), w'))
      × (signal_workflow ⦃env = test_env⦄ test_runtime (signal_options "submit") w'
          ≡ (ok (record (instance_in "review") { revision = pos 5 }), w'))
unfolding lookup insert run_ops apply_op update_instance
overtaken_signal_lost_example =
    overtaken_signal_lost ⦃env = test_env⦄ scan_listed machines handlers (signal_options "submit")
      draft_world (other_update ∷ []) (instance_in "draft")
      (record (instance_in "review") { revision = pos 5 }) leave_machine submit in_draft refl refl
      refl leave_known submit_found refl refl refl

abbrev beside : World MemoryStore → Result WorkflowInstance × World MemoryStore
beside =
    signal_workflow ⦃env = test_env⦄
      (overtaken ⦃env = test_env⦄ scan_listed (other_update ∷ []) machines handlers)
      (signal_options "submit")

submit_overtaken : (beside draft_world).0 ≡ err (concurrent_update "wf-1")
unfolding lookup insert run_ops apply_op update_instance
submit_overtaken =
    let (n, (first, again)) =
      overtaken_signal_lost ⦃env = test_env⦄ scan_listed machines handlers (signal_options "submit")
        draft_world (other_update ∷ []) (instance_in "draft")
        (record (instance_in "review") { revision = pos 5 }) leave_machine submit in_draft refl refl
        refl leave_known submit_found refl refl refl in
    ap (λ x. x.0) first

failed_signal_leaves_example :
    IsLeft
      (signal_options "submit")
      (other_update ∷ [])
      (concurrent_update "wf-1")
      draft_world.store
      (beside draft_world).1.store
failed_signal_leaves_example =
    failed_signal_leaves ⦃env = test_env⦄ scan_listed machines handlers (signal_options "submit")
      (other_update ∷ []) draft_world (concurrent_update "wf-1") stored_own_id submit_overtaken
