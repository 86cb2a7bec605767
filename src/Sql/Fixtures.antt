-- ===== src/Sql/Fixtures.antt =====
-- Concrete data for the tests of the store of persistence/internal/sqlstore/store.go: a database, its tables with
-- the leave request and its task, and requests.
mod Codec
use Prim.Native.Nat.{◌/◌}
use fsm_go.Prelude.{
  ℕ, pos, negsuc, ◌*◌, String, ◌≡◌, refl, sym, subst, eq_iff, true, false, some, [], ◌∷◌, ◌==◌,
  if◌then◌else◌, Bool-cases, inl, inr,
}
use fsm_go.Dict.{Dict, lookup}
use fsm_go.Errors.{Result, ok, err, ok-injective, other}
use fsm_go.Types.{
  Any, AnyMap, Time, nil_map, TaskStatus, HistoryType, ExecutionHistory, OutboxMessage,
  CreateInstanceRequest, UpdateInstanceRequest, CompleteTaskRequest,
}
use fsm_go.World.{Env, World, entry_of, input_of}
use fsm_go.Memory.{MemoryStore, new_memory_store}
use fsm_go.Sql.Database.{Database, Answer, works, Violation, duplicate_key, negative_limit}
use fsm_go.Sql.Rows.{Tables, instance_row, task_row, scan_instance, scan_task, scan_rows, unmarshal}
use fsm_go.Sql.Records.{IsCodec}
use fsm_go.Sql.Shown.{Shows}
use fsm_go.Sql.PrimaryKeys.{HasPrimaryKeys}
use fsm_go.Fixtures.{test_env, instance_in, mail_attempt, store_with}
use Codec.{encode, decode, encode_written}

abbrev pub paid : Dict Any
paid = ("paid", Any.flag true) ∷ []

abbrev complain : Violation → String
complain (duplicate_key table) = "duplicate key"
complain negative_limit = "negative limit"

-- tens of nanoseconds
abbrev coarse : Time → Time
coarse (pos n) = pos (n / 10 * 10)
coarse (negsuc n) = negsuc n

abbrev pub database : (ℕ → Answer) → Database
database answer = record {
  answer = answer;
  complaint = complain;
  reports_changed = true;
  same_json = λ a b. a == b;
  kept_time = coarse;
  text_before = λ a b. false;
  encode = encode;
  decode = decode;
}

-- every call is carried out
instance abbrev pub sound : Database
sound = database (λ _. works)

instance abbrev pub system : Env
system = test_env

abbrev pub waiting : MemoryStore
waiting = store_with "review" (mail_attempt 1 TaskStatus.pending)

abbrev pub tables : Tables
tables = record {
  instances = instance_row (instance_in "review") "{}" ∷ [];
  tasks = task_row (mail_attempt 1 TaskStatus.pending) "{}" "{}" ∷ [];
  history = [];
  idempotency = [];
  outbox = [];
}

abbrev pub empty : Tables
empty = record { instances = []; tasks = []; history = []; idempotency = []; outbox = [] }

abbrev pub world_of : Tables → World Tables
world_of t = record { store = t; readings = 0 }

abbrev pub note : ExecutionHistory
note = entry_of (input_of "wf-1" HistoryType.state_changed "" "review" (pos 82)) "hist-2"

-- a message that leaves its id, its status and its instants out
abbrev pub mail : OutboxMessage
mail = record {
  id = "";
  topic = "mails";
  key = "wf-1";
  payload = nil_map;
  status = "";
  attempt = pos 0;
  next_run_at = pos 0;
  created_at = pos 0;
  updated_at = pos 0;
}

abbrev pub moved_on : UpdateInstanceRequest
moved_on = record {
  instance = record (instance_in "done") { revision = pos 5; fields = some paid };
  expected_revision = pos 4;
  history = note ∷ [];
  tasks = [];
  outbox = mail ∷ [];
}

abbrev pub completion : CompleteTaskRequest
completion = record {
  task = mail_attempt 1 TaskStatus.succeeded;
  history = note ∷ [];
  tasks = [];
  outbox = [];
}

abbrev pub creation : CreateInstanceRequest
creation = record {
  instance = instance_in "review";
  history = note ∷ [];
  tasks = mail_attempt 1 TaskStatus.pending ∷ [];
  outbox = mail ∷ [];
}

pub sound-IsCodec : IsCodec sound
sound-IsCodec = record { back = λ m raw h. (_, refl); written = encode_written }

pub tables-show : Shows tables waiting
unfolding scan_instance scan_task scan_rows unmarshal lookup
tables-show = record {
  instances = λ id. elim (Bool-cases ("wf-1" == id)) [ inl e ↦ rw e refl | inr e ↦ rw e tt ];
  tasks = λ id. elim (Bool-cases ("task-1" == id)) [ inl e ↦ rw e refl | inr e ↦ rw e tt ];
  outbox = λ id. tt;
  history = refl;
  idempotency = λ scope key. refl;
}

pub empty-show : Shows empty new_memory_store
unfolding scan_rows lookup
empty-show = record {
  instances = λ id. tt;
  tasks = λ id. tt;
  outbox = λ id. tt;
  history = refl;
  idempotency = λ scope key. refl;
}

pub tables-HasPrimaryKeys : HasPrimaryKeys tables
tables-HasPrimaryKeys = record {
  instances = (tt, tt);
  tasks = (tt, tt);
  history = tt;
  idempotency = tt;
  outbox = tt;
}
