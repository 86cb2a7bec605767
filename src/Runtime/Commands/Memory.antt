-- ===== src/Runtime/Commands/Memory.antt =====
-- The runtime over the memory store: what each store call of the commands does there.
use fsm_go.Prelude.{
  String, ◌≡◌, false, none, some, arith, ◌==◌, eq_ℤ_refl, if◌then◌else◌, Bool-cases, Option-cases,
  inl, inr,
}
use fsm_go.Dict.{Dict, lookup, insert}
use fsm_go.Errors.{ok, err, not_found}
use fsm_go.Types.{WorkflowInstance, UpdateInstanceRequest}
use fsm_go.World.{Env, World}
use fsm_go.Compiler.{Machine}
use fsm_go.Memory.{
  MemoryStore, ScanOrder, memory_store, clone_instance, append_locked, put_tasks, put_outbox,
  scoped, get_instance, update_instance, get_idempotency, record_idempotency,
}
use fsm_go.Runtime.Base.{Runtime, TaskHandler}
use fsm_go.Runtime.Commands.{recorded, claim_key}

-- a runtime over the memory store
abbrev pub runtime_on :
    ⦃env : Env⦄ → ScanOrder → Dict Machine → Dict (TaskHandler MemoryStore) → Runtime MemoryStore
runtime_on order machines handlers = record {
  store = memory_store order;
  machines = machines;
  handlers = handlers;
}

-- the store with a key recorded; the empty key is not
abbrev pub with_key : String → String → String → MemoryStore → MemoryStore
with_key workflow key id s =
    if key == ""
    then s
    else record s { idempotency = insert (scoped workflow key) id s.idempotency }

-- the key is empty, or no request has recorded it
abbrev pub IsUnused : String → String → MemoryStore → Type 0
IsUnused workflow key s = (key == "") ≡ false → lookup (scoped workflow key) s.idempotency ≡ none

pub clone_instance-clone_instance :
    (i : WorkflowInstance) → clone_instance (clone_instance i) ≡ clone_instance i
clone_instance-clone_instance i = elim (Option-cases i.fields) [ inl e ↦ rw e | inr (m, e) ↦ rw e ]

pub get_found :
    (id : String) (s : MemoryStore) (i : WorkflowInstance)
    → lookup id s.instances ≡ some i
    → get_instance id s ≡ (ok (clone_instance i), s)
unfolding get_instance
get_found id s i found = rw (found, get_instance)

pub get_missing :
    (id : String) (s : MemoryStore)
    → lookup id s.instances ≡ none
    → get_instance id s ≡ (err (not_found "workflow_instance" id), s)
unfolding get_instance
get_missing id s missing = rw (missing, get_instance)

pub instances-with_key :
    (workflow key id : String) (s : MemoryStore)
    → (with_key workflow key id s).instances ≡ s.instances
instances-with_key workflow key id s = ground arith

-- the store after a successful update
abbrev pub updated : UpdateInstanceRequest → MemoryStore → MemoryStore
updated req s = record s {
  instances = insert req.instance.id (clone_instance req.instance) s.instances;
  history = append_locked req.history s.history;
  tasks = put_tasks req.tasks s.tasks;
  outbox = put_outbox req.outbox s.outbox;
}

pub update_found :
    (req : UpdateInstanceRequest) (s : MemoryStore) (i : WorkflowInstance)
    → lookup req.instance.id s.instances ≡ some i
    → i.revision ≡ req.expected_revision
    → update_instance req s ≡ (ok tt, updated req s)
unfolding update_instance
update_found req s i found same = rw (found, update_instance, same, eq_ℤ_refl req.expected_revision)

module _ ⦃env : Env⦄ (order : ScanOrder) (ms : Dict Machine) (hs : Dict (TaskHandler MemoryStore))
    (workflow key : String) (w : World MemoryStore) where
  pub recorded_unused :
      IsUnused workflow key w.store
      → recorded (runtime_on order ms hs) workflow key w ≡ (ok none, w)
  unfolding recorded get_idempotency
  recorded_unused unused = elim (Bool-cases (key == "")) [ inl e ↦ rw e | inr e ↦ rw (e, unused e) ]

  pub claim_unused :
      (id : String)
      → IsUnused workflow key w.store
      → claim_key (runtime_on order ms hs) workflow key id w
        ≡ (ok tt, record w { store = with_key workflow key id w.store })
  unfolding claim_key record_idempotency
  claim_unused id unused = elim (Bool-cases (key == "")) [
    | inl e ↦ rw e
    | inr e ↦ rw (e, unused e, record_idempotency)
  ]

  pub recorded_used :
      (id : String)
      → (key == "") ≡ false
      → lookup (scoped workflow key) w.store.idempotency ≡ some id
      → recorded (runtime_on order ms hs) workflow key w ≡ (ok (some id), w)
  unfolding recorded get_idempotency
  recorded_used id e used = rw (e, used)
