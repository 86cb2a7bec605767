-- ===== src/Fixtures.antt =====
-- Concrete data for the tests: a small workflow, an environment, and orders that keep a list as it is.
use mathlib.Core.List
use fsm_go.Prelude.{ℕ, pos, String, ◌≡◌, refl, true, false, none, some, [], ◌∷◌, All, arith}
use fsm_go.Dict.{Dict, lookup, insert}
use fsm_go.Errors.{ok}
use fsm_go.Types.{
  nil_map, InstanceStatus, TaskStatus, TaskDefinition, Transition, WorkflowDefinition,
  WorkflowInstance, TaskExecution, TaskResult, StartOptions, SignalOptions,
}
use fsm_go.World.{Env, World}
use fsm_go.Compiler.{
  Machine, RangeOrder, compile, add_states, add_events, add_tasks, add_transitions, add_all,
  prepare_state, prepare_event, prepare_task, prepare_transition, with_defaults, check_state,
  check_task,
}
use fsm_go.Compiler.Valid.{machine_of, state_names}
use fsm_go.Compiler.Keys.{HasNoColon}
use fsm_go.Memory.{MemoryStore, ScanOrder, new_memory_store}
use fsm_go.Runtime.Base.{TaskHandler}

-- the clocks stand at 100 and 200; the randomness is the reading's number
abbrev pub test_env : Env
test_env = record {
  clock = λ _. pos 100;
  wall = λ _. pos 200;
  random = λ n. some (n ∷ []);
  stamp = λ _. "0";
}

abbrev pub listed : RangeOrder
listed = record {
  states = λ xs. xs;
  tasks = λ xs. xs;
  states_perm = λ xs. List.Permᴰ.refl xs;
  tasks_perm = λ xs. List.Permᴰ.refl xs;
}

abbrev pub scan_listed : ScanOrder
scan_listed = record {
  tasks = λ xs. xs;
  outbox = λ xs. xs;
  tasks_perm = λ xs. List.Permᴰ.refl xs;
  outbox_perm = λ xs. List.Permᴰ.refl xs;
}

abbrev pub mail_task : TaskDefinition
mail_task = record {
  name = "mail";
  handler = "mailer";
  retry = record { max_attempts = pos 3; backoff = pos 10 };
  timeout = pos 60;
  compensation = "retract";
  on_success = "approve";
  on_failure = "";
}

abbrev pub retract_task : TaskDefinition
retract_task = record {
  name = "retract";
  handler = "mailer";
  retry = record { max_attempts = pos 1; backoff = pos 10 };
  timeout = pos 0;
  compensation = "";
  on_success = "";
  on_failure = "";
}

abbrev pub submit : Transition
submit = record { name = "submit"; from = "draft"; event = "submit"; to = "review" }

abbrev pub approve : Transition
approve = record { name = "approve"; from = "review"; event = "approve"; to = "done" }

-- a leave request
abbrev pub leave : WorkflowDefinition
leave = record {
  name = "leave";
  version = "v1";
  initial = "draft";
  states =
      record { name = "draft"; terminal = false; on_enter = [] }
      ∷ record { name = "review"; terminal = false; on_enter = "mail" ∷ [] }
      ∷ record { name = "done"; terminal = true; on_enter = [] }
      ∷ [];
  events = record { name = "submit" } ∷ record { name = "approve" } ∷ [];
  tasks = mail_task ∷ retract_task ∷ [];
  transitions = submit ∷ approve ∷ [];
}

abbrev pub leave_machine : Machine
leave_machine = machine_of leave

abbrev pub machines : Dict Machine
machines = ("leave:v1", leave_machine) ∷ []

abbrev pub sent : TaskResult
sent = record { event = ""; output = nil_map; outbox = [] }

abbrev pub mailer : TaskHandler MemoryStore
mailer left context s = ((sent, none), s)

abbrev pub handlers : Dict (TaskHandler MemoryStore)
handlers = ("mailer", mailer) ∷ []

abbrev pub instance_in : String → WorkflowInstance
instance_in state = record {
  id = "wf-1";
  workflow = "leave";
  version = "v1";
  state = state;
  status = InstanceStatus.running;
  revision = pos 4;
  fields = some [];
  started_at = pos 50;
  updated_at = pos 50;
  finished_at = pos 0;
}

-- the n-th attempt of the mail task
abbrev pub mail_attempt : ℕ → TaskStatus → TaskExecution
mail_attempt n status = record {
  id = "task-1";
  instance_id = "wf-1";
  task = "mail";
  handler = "mailer";
  status = status;
  attempt = pos n;
  max_attempts = pos 3;
  next_run_at = pos 60;
  timeout_at = pos 0;
  last_error = "";
  input = some [];
  output = some [];
  created_at = pos 50;
  updated_at = pos 50;
}

-- one instance in a state, and its task
abbrev pub store_with : String → TaskExecution → MemoryStore
store_with state task = record new_memory_store {
  instances = ("wf-1", instance_in state) ∷ [];
  tasks = ("task-1", task) ∷ [];
}

abbrev pub world_of : MemoryStore → World MemoryStore
world_of s = record { store = s; readings = 0 }

abbrev pub start_options : StartOptions
start_options = record {
  instance_id = "";
  workflow = "leave";
  version = "v1";
  idempotency_key = "key";
  fields = nil_map;
}

abbrev pub signal_options : String → SignalOptions
signal_options event = record {
  instance_id = "wf-1";
  event = event;
  idempotency_key = "key";
  payload = nil_map;
}

-- the leave request compiles
pub leave_compiles : compile listed (some leave) ≡ ok leave_machine
unfolding compile add_states add_events add_tasks add_transitions add_all prepare_state
    prepare_event prepare_task prepare_transition with_defaults check_state check_task lookup insert
leave_compiles = refl

pub leave-HasNoColon : All HasNoColon (state_names leave.states)
leave-HasNoColon = ground arith
