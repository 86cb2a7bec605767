-- ===== src/Memory/Keyed.antt =====
-- The memory store keeps each instance, task execution and message under its own id.
use fsm_go.Prelude.{
  String, ◌≡◌, refl, sym, ap, ◌∙◌, inl, inr, Option, none, some, List, [], ◌∷◌, ◌==◌, eq_iff, map,
  subst, if◌then◌else◌, not, ◌||◌, ℤ, eq_ℤ, Option-cases, Bool-cases,
}
use fsm_go.Dict.{Dict, lookup, insert, insert_all}
use fsm_go.Dict.Laws.{lookup-insert}
use fsm_go.Types.{
  WorkflowInstance, TaskExecution, OutboxMessage, ExecutionHistory, Time, TaskStatus,
  UpdateInstanceRequest,
}
use fsm_go.Memory.{
  MemoryStore, is_waiting, clone_instance, clone_task, clone_outbox, put_tasks, put_outbox,
  append_locked, scoped, create_instance, update_instance, append_history, mark_task_running,
  complete_task, record_idempotency, append_outbox, mark_outbox_published,
}
use fsm_go.Memory.Ops.{
  Op, create, update, add_history, mark_running, complete, record_key, add_outbox, mark_published,
  apply_op, run_ops, run_ops_keeps,
}

-- what is found under a key has that key for its id
abbrev pub AreKeyed : {V : Type 0} → (V → String) → Dict V → Type 0
AreKeyed {V} id_of d = (k : String) (v : V) → lookup k d ≡ some v → id_of v ≡ k

pub record IsKeyed (s : MemoryStore) : Type 0 where
  pub instances : AreKeyed (λ i. i.id) s.instances
  pub tasks : AreKeyed (λ t. t.id) s.tasks
  pub outbox : AreKeyed (λ m. m.id) s.outbox

module _ {V : Type 0} (id_of : V → String) where
  insert_keyed :
      (k : String) (v : V) (d : Dict V)
      → id_of v ≡ k
      → AreKeyed id_of d
      → AreKeyed id_of (insert k v d)
  insert_keyed k v d own keyed j x found = elim (Bool-cases (k == j)) [
    | inl same ↦
        let got : some v ≡ some x =
          subst (λ b. (if b then some v else lookup j d) ≡ some x) same
            (sym (lookup-insert k j v d) ∙ found) in
        ap (λ (o : Option V). elim o [ none ↦ id_of v | some y ↦ id_of y ]) (sym got)
        ∙ own
        ∙ (eq_iff k j).0 same
    | inr other ↦ keyed j x (
        subst (λ b. (if b then some v else lookup j d) ≡ some x) other
          (sym (lookup-insert k j v d) ∙ found))
  ]

  -- writes of copies, each under its own id
  insert_all_keyed :
      (copy : V → V)
      → ((v : V) → id_of (copy v) ≡ id_of v)
      → (vs : List V) (d : Dict V) → AreKeyed id_of d
      → AreKeyed id_of (insert_all id_of (map copy vs) d)
  insert_all_keyed copy same [] d keyed = keyed
  insert_all_keyed copy same (v ∷ vs) d keyed =
      insert_all_keyed copy same vs (insert (id_of (copy v)) (copy v) d)
        (insert_keyed (id_of (copy v)) (copy v) d refl keyed)

tasks_keep :
    (ts : List TaskExecution) (d : Dict TaskExecution)
    → AreKeyed (λ t. t.id) d
    → AreKeyed (λ t. t.id) (put_tasks ts d)
tasks_keep = insert_all_keyed (λ (t : TaskExecution). t.id) clone_task (λ _. refl)

outbox_keeps :
    (ms : List OutboxMessage) (d : Dict OutboxMessage)
    → AreKeyed (λ m. m.id) d
    → AreKeyed (λ m. m.id) (put_outbox ms d)
outbox_keeps = insert_all_keyed (λ (m : OutboxMessage). m.id) clone_outbox (λ _. refl)

-- the instance, the tasks and the messages that a request writes
written :
    (i : WorkflowInstance) (hs : List ExecutionHistory) (ts : List TaskExecution)
    (ms : List OutboxMessage) (s : MemoryStore)
    → IsKeyed s
    → IsKeyed (record s {
      instances = insert i.id (clone_instance i) s.instances;
      history = append_locked hs s.history;
      tasks = put_tasks ts s.tasks;
      outbox = put_outbox ms s.outbox;
    })
written i hs ts ms s h = record {
  instances =
      insert_keyed (λ (i : WorkflowInstance). i.id) i.id (clone_instance i) s.instances refl
        h.instances;
  tasks = tasks_keep ts s.tasks h.tasks;
  outbox = outbox_keeps ms s.outbox h.outbox;
}

update_keeps :
    (req : UpdateInstanceRequest) (s : MemoryStore) → IsKeyed s → IsKeyed (update_instance req s).1
unfolding update_instance
update_keeps req s h = elim (Option-cases (lookup req.instance.id s.instances)) [
  | inl missing ↦ rw (missing, update_instance) h
  | inr (i, found) ↦ elim (Bool-cases (eq_ℤ i.revision req.expected_revision)) [
    | inl same ↦
        rw (found, update_instance, same)
          (written req.instance req.history req.tasks req.outbox s h)
    | inr stale ↦ rw (found, update_instance, stale) h
  ]
]

mark_keeps :
    (id : String) (attempt : ℤ) (now : Time) (s : MemoryStore)
    → IsKeyed s
    → IsKeyed (mark_task_running id attempt now s).1
unfolding mark_task_running
mark_keeps id attempt now s h = elim (Option-cases (lookup id s.tasks)) [
  | inl missing ↦ rw (missing, mark_task_running) h
  | inr (t, found) ↦ elim (Bool-cases (not (eq_ℤ t.attempt attempt) || not (is_waiting t.status))) [
    | inl refused ↦ rw (found, mark_task_running, refused) h
    | inr free ↦
        rw (found, mark_task_running, free)
          (record {
            instances = h.instances;
            tasks =
                insert_keyed (λ (t : TaskExecution). t.id) id
                  (clone_task (record t { status = TaskStatus.running; updated_at = now })) s.tasks
                  (h.tasks id t found) h.tasks;
            outbox = h.outbox;
          })
  ]
]

published_keeps :
    (id : String) (now : Time) (s : MemoryStore)
    → IsKeyed s
    → IsKeyed (mark_outbox_published id now s).1
unfolding mark_outbox_published
published_keeps id now s h = elim (Option-cases (lookup id s.outbox)) [
  | inl missing ↦ rw (missing, mark_outbox_published) h
  | inr (m, found) ↦
      rw (found, mark_outbox_published)
        (record {
          instances = h.instances;
          tasks = h.tasks;
          outbox =
              insert_keyed (λ (m : OutboxMessage). m.id) id
                (record m { status = "published"; updated_at = now }) s.outbox (h.outbox id m found)
                h.outbox;
        })
]

key_keeps :
    (scope key id : String) (s : MemoryStore)
    → IsKeyed s
    → IsKeyed (record_idempotency scope key id s).1
unfolding record_idempotency
key_keeps scope key id s h = elim (Option-cases (lookup (scoped scope key) s.idempotency)) [
  | inl new ↦
      rw (new, record_idempotency)
        (record { instances = h.instances; tasks = h.tasks; outbox = h.outbox })
  | inr (known, found) ↦ rw (found, record_idempotency) h
]

apply_op_keeps : (op : Op) (s : MemoryStore) → IsKeyed s → IsKeyed (apply_op op s)
unfolding apply_op create_instance append_history complete_task append_outbox
apply_op_keeps (create req) s h = written req.instance req.history req.tasks req.outbox s h
apply_op_keeps (update req) s h = update_keeps req s h
apply_op_keeps (add_history items) s h = record {
  instances = h.instances;
  tasks = h.tasks;
  outbox = h.outbox;
}
apply_op_keeps (mark_running id attempt now) s h = mark_keeps id attempt now s h
apply_op_keeps (complete req) s h = record {
  instances = h.instances;
  tasks = tasks_keep req.tasks (insert req.task.id (clone_task req.task) s.tasks) (
      insert_keyed (λ (t : TaskExecution). t.id) req.task.id (clone_task req.task) s.tasks refl
        h.tasks);
  outbox = outbox_keeps req.outbox s.outbox h.outbox;
}
apply_op_keeps (record_key scope key id) s h = key_keeps scope key id s h
apply_op_keeps (add_outbox ms) s h = record {
  instances = h.instances;
  tasks = h.tasks;
  outbox = outbox_keeps ms s.outbox h.outbox;
}
apply_op_keeps (mark_published id now) s h = published_keeps id now s h

-- Whatever operations run on the memory store, each instance, task execution and outbox message is
-- found under its own id, if it was so before.
pub records-IsKeyed : (ops : List Op) (s : MemoryStore) → IsKeyed s → IsKeyed (run_ops ops s)
records-IsKeyed ops s h = run_ops_keeps IsKeyed apply_op_keeps ops s h
