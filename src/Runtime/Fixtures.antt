-- ===== src/Runtime/Fixtures.antt =====
-- A runtime with the leave request's machine, and two stores for it.
use fsm_go.Prelude.{◌≡◌, refl, some}
use fsm_go.Dict.{lookup}
use fsm_go.Errors.{ok}
use fsm_go.Types.{TaskStatus}
use fsm_go.World.{World}
use fsm_go.Compiler.{transition_key}
use fsm_go.Memory.{MemoryStore}
use fsm_go.Runtime.Base.{Runtime, find_machine}
use fsm_go.Runtime.Commands.Memory.{runtime_on}
use fsm_go.Fixtures.{
  test_env, scan_listed, submit, approve, leave_machine, machines, handlers, instance_in,
  mail_attempt, store_with, world_of,
}

abbrev pub test_runtime : Runtime MemoryStore
test_runtime = runtime_on ⦃env = test_env⦄ scan_listed machines handlers

abbrev pub draft_world : World MemoryStore
draft_world = world_of (store_with "draft" (mail_attempt 1 TaskStatus.pending))

abbrev pub review_world : World MemoryStore
review_world = world_of (store_with "review" (mail_attempt 1 TaskStatus.running))

pub leave_known : find_machine test_runtime "leave" "v1" ≡ ok leave_machine
unfolding find_machine lookup
leave_known = refl

pub submit_found : lookup (transition_key "draft" "submit") leave_machine.transitions ≡ some submit
unfolding lookup
submit_found = refl

pub approve_found :
    lookup (transition_key "review" "approve") leave_machine.transitions ≡ some approve
unfolding lookup
approve_found = refl

pub in_draft : lookup "wf-1" draft_world.store.instances ≡ some (instance_in "draft")
unfolding lookup
in_draft = refl

pub in_review : lookup "wf-1" review_world.store.instances ≡ some (instance_in "review")
unfolding lookup
in_review = refl
