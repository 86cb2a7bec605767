-- ===== src/Runtime/Finish/Examples.antt =====
-- The theorems about the end of a task at the leave request.
use fsm_go.Prelude.{
  ℕ, pos, ◌≡◌, refl, subst, if◌then◌else◌, Bool-cases, inl, inr, ◌==◌, Option, none, some, List, [],
  ◌∷◌, arith,
}
use fsm_go.Dict.{lookup}
use fsm_go.Errors.{ok, err, concurrent_update, other}
use fsm_go.Types.{TaskStatus, HistoryType, WorkflowInstance, TaskExecution, ExecutionHistory}
use fsm_go.World.{World}
use fsm_go.Memory.{MemoryStore}
use fsm_go.Runtime.Advance.{Advance}
use fsm_go.Compiler.{with_defaults}
use fsm_go.Runtime.Advance.Steps.{IsStep, AreScheduled, types_of}
use fsm_go.Runtime.Finish.{finish_task}
use fsm_go.Runtime.Finish.Outcomes.{failed_task_retried, exhausted_task_fails}
use fsm_go.Runtime.Finish.Endings.{IsEnded, IsRetry, ended_with}
use fsm_go.Runtime.Finish.Attempts.{attempts_within}
use fsm_go.Memory.Attempts.{AreWithin, IsWithin}
use fsm_go.Compiler.WellFormed.{compile-IsWellFormed}
use fsm_go.Runtime.Finish.Success.{success_request, success_advances, stale_success_fails}
use fsm_go.Runtime.Commands.Memory.{updated}
use fsm_go.Fixtures.{
  test_env, listed, scan_listed, mail_task, approve, leave, leave_machine, leave_compiles, machines,
  handlers, sent, instance_in, mail_attempt, store_with, world_of,
}
use fsm_go.Runtime.Fixtures.{test_runtime, review_world, leave_known, approve_found, in_review}

failed_task_retried_example :
    (t : TaskExecution) × (h : ExecutionHistory) × (n : ℕ) × (finish_task ⦃env = test_env⦄
        test_runtime
        (instance_in "review")
        mail_task
        (pos 90)
        (mail_attempt 1 TaskStatus.running)
        TaskStatus.failed
        (some sent)
        (some (other "no route"))
        []
        review_world
      ≡ (
        ok TaskStatus.retrying,
        record { store = ended_with t (h ∷ []) [] [] review_world.store; readings = n },
      ))
    × IsRetry mail_task (mail_attempt 1 TaskStatus.running) (pos 90) (other "no route") t
    × (h.type ≡ HistoryType.task_retrying)
failed_task_retried_example =
    failed_task_retried ⦃env = test_env⦄ scan_listed machines handlers (instance_in "review")
      mail_task (pos 90) (mail_attempt 1 TaskStatus.running) [] review_world sent (other "no route")
      (omega arith) (omega arith)

exhausted_task_fails_example :
    (t : TaskExecution) × (es : List ExecutionHistory) × (cs : List TaskExecution) × (n : ℕ)
    × (finish_task ⦃env = test_env⦄ test_runtime
          (instance_in "review")
          mail_task
          (pos 90)
          (mail_attempt 3 TaskStatus.running)
          TaskStatus.failed
          (some sent)
          (some (other "no route"))
          []
          review_world
        ≡ (
          ok TaskStatus.failed,
          record { store = ended_with t es cs [] review_world.store; readings = n },
        ))
    × IsEnded (mail_attempt 3 TaskStatus.running) TaskStatus.failed (pos 90) t
    × AreScheduled leave_machine (instance_in "review") (pos 90) ("retract" ∷ []) cs
    × (types_of es
        ≡ HistoryType.task_failed ∷ HistoryType.compensation_scheduled ∷ HistoryType.task_scheduled
          ∷ [])
exhausted_task_fails_example =
    exhausted_task_fails ⦃env = test_env⦄ scan_listed machines handlers (instance_in "review")
      mail_task (pos 90) (mail_attempt 3 TaskStatus.running) [] review_world leave_machine sent
      (other "no route") leave_known (omega arith) refl

success_advances_example :
    (step : Advance) × (t : TaskExecution) × (h : ExecutionHistory) × (n : ℕ) × (finish_task
        ⦃env = test_env⦄ test_runtime
        (instance_in "review")
        mail_task
        (pos 90)
        (mail_attempt 1 TaskStatus.running)
        TaskStatus.succeeded
        (some sent)
        none
        []
        review_world
      ≡ (
        ok TaskStatus.succeeded,
        record {
          store = ended_with t [] [] [] (
              updated
                (success_request (instance_in "review") (h ∷ []) sent step)
                review_world.store);
          readings = n;
        },
      ))
    × IsEnded (mail_attempt 1 TaskStatus.running) TaskStatus.succeeded (pos 90) t
    × (h.type ≡ HistoryType.task_succeeded)
    × IsStep leave_machine (instance_in "review") "approve" (pos 100) step
success_advances_example =
    success_advances ⦃env = test_env⦄ scan_listed machines handlers (instance_in "review") mail_task
      (pos 90) (mail_attempt 1 TaskStatus.running) [] review_world sent leave_machine approve
      (instance_in "review") leave_known refl approve_found in_review refl

abbrev read_before : WorkflowInstance
read_before = record (instance_in "review") { revision = pos 3 }

stale_success_fails_example :
    (n : ℕ) × (finish_task ⦃env = test_env⦄ test_runtime read_before mail_task
        (pos 90)
        (mail_attempt 1 TaskStatus.running)
        TaskStatus.succeeded
        (some sent)
        none
        []
        review_world
      ≡ (err (concurrent_update "wf-1"), record review_world { readings = n }))
stale_success_fails_example =
    stale_success_fails ⦃env = test_env⦄ scan_listed machines handlers read_before mail_task
      (pos 90) (mail_attempt 1 TaskStatus.running) [] review_world sent leave_machine approve
      (instance_in "review") leave_known refl approve_found in_review refl

abbrev last_world : World MemoryStore
last_world = world_of (store_with "review" (mail_attempt 3 TaskStatus.running))

last_world-AreWithin : AreWithin last_world.store
unfolding lookup
last_world-AreWithin k t found = elim (Bool-cases ("task-1" == k)) [
  | inl same ↦
      subst
        (λ (o : Option TaskExecution). elim o as (λ _. Type 0) [
          | none ↦ Unit {0}
          | some y ↦ IsWithin y
        ])
        (subst (λ b. (if b then some (mail_attempt 3 TaskStatus.running) else none) ≡ some t) same
          found)
        (omega arith)
  | inr apart ↦ absurd (
      let got : none ≡ some t =
        subst (λ b. (if b then some (mail_attempt 3 TaskStatus.running) else none) ≡ some t) apart
          found in
      cc)
]

attempts_within_example :
    AreWithin
      (finish_task ⦃env = test_env⦄ test_runtime
        (instance_in "review")
        mail_task
        (pos 90)
        (mail_attempt 3 TaskStatus.running)
        TaskStatus.failed
        (some sent)
        (some (other "no route"))
        []
        last_world).1.store
unfolding lookup with_defaults
attempts_within_example =
    attempts_within ⦃env = test_env⦄ scan_listed machines handlers (instance_in "review") mail_task
      (pos 90) leave_machine leave_known
      (compile-IsWellFormed listed leave leave_machine leave_compiles)
      (mail_attempt 3 TaskStatus.running) TaskStatus.failed (some sent) (some (other "no route")) []
      last_world (λ _. refl) (omega arith) (omega arith) last_world-AreWithin
