-- ===== src/Memory/Claims.antt =====
-- A task that one worker has claimed is not claimed again, whatever the other workers do, until an
-- operation writes the task's record: `MarkTaskRunning` is the lock of `RunDueTasks`.
use fsm_go.Prelude.{
  ℤ, String, ◌≡◌, refl, ◌≢◌, true, false, not, ◌||◌, none, some, List, [], ◌∷◌, map, arith, eq_ℤ,
  All, Bool-cases, inl, inr, Option-cases, ◌∙◌, Bool, ap,
}
use fsm_go.Dict.{Dict, lookup, insert}
use fsm_go.Dict.Laws.{lookup-insert_self, lookup-insert_ne, IsNew}
use fsm_go.Errors.{ok, err, not_found, concurrent_update, ok-injective}
use fsm_go.Types.{Time, TaskStatus, TaskExecution, UpdateInstanceRequest}
use fsm_go.Memory.{
  MemoryStore, is_waiting, clone_task, put_tasks, create_instance, update_instance, append_history,
  mark_task_running, complete_task, record_idempotency, append_outbox, mark_outbox_published,
}
use fsm_go.Memory.Ops.{
  Op, create, update, add_history, mark_running, complete, record_key, add_outbox, mark_published,
  apply_op, run_ops, run_ops_induction,
}

abbrev pub task_ids : List TaskExecution → List String
task_ids = map (λ t. t.id)

-- the operation writes no record under `id`, but perhaps by a claim
abbrev pub Spares : String → Op → Type 0
Spares id (create req) = IsNew id (task_ids req.tasks)
Spares id (update req) = IsNew id (task_ids req.tasks)
Spares id (complete req) = (req.task.id ≢ id) × IsNew id (task_ids req.tasks)
Spares id _ = Unit {0}

-- the store's task under `id` is running, for `instance_id`
abbrev pub IsClaimed : String → String → MemoryStore → Type 0
IsClaimed id instance_id s =
    (t : TaskExecution) × (lookup id s.tasks ≡ some t)
    × (t.status ≡ TaskStatus.running)
    × (t.instance_id ≡ instance_id)

lookup-put_tasks :
    (id : String) (ts : List TaskExecution) (m : Dict TaskExecution)
    → IsNew id (task_ids ts)
    → lookup id (put_tasks ts m) ≡ lookup id m
lookup-put_tasks id [] m h = refl
lookup-put_tasks id (t ∷ ts) m h =
    rw (lookup-put_tasks id ts (insert t.id (clone_task t) m) h.1)
      (lookup-insert_ne t.id id (clone_task t) m h.0)

-- the test of `MarkTaskRunning`: another attempt, or not waiting
abbrev refuses : ℤ → TaskExecution → Bool
refuses attempt t = not (eq_ℤ t.attempt attempt) || not (is_waiting t.status)

abbrev marked : Time → TaskExecution → TaskExecution
marked now t = clone_task (record t { status = TaskStatus.running; updated_at = now })

module _ (id : String) (attempt : ℤ) (now : Time) (s : MemoryStore) (t : TaskExecution)
    (found : lookup id s.tasks ≡ some t) where
  claim_refused :
      refuses attempt t ≡ true
      → mark_task_running id attempt now s ≡ (err (concurrent_update t.instance_id), s)
  unfolding mark_task_running
  claim_refused no_claim = rw (found, mark_task_running, no_claim)

  claim_granted :
      refuses attempt t ≡ false
      → mark_task_running id attempt now s
        ≡ (ok (clone_task (marked now t)), record s { tasks = insert id (marked now t) s.tasks })
  unfolding mark_task_running
  claim_granted claim = rw (found, mark_task_running, claim)

claim_missing :
    (id : String) (attempt : ℤ) (now : Time) (s : MemoryStore)
    → lookup id s.tasks ≡ none
    → mark_task_running id attempt now s ≡ (err (not_found "task_execution" id), s)
unfolding mark_task_running
claim_missing id attempt now s missing = rw (missing, mark_task_running)

-- a running task is no candidate for a claim
still_running :
    (attempt : ℤ) (t u : TaskExecution)
    → t.status ≡ TaskStatus.running
    → refuses attempt u ≡ false
    → u ≢ t
still_running attempt t u run claim same = ground arith

module _ (id instance_id : String) where
  IsClaimed-refuses :
      (attempt : ℤ) (now : Time) (s : MemoryStore)
      → IsClaimed id instance_id s
      → mark_task_running id attempt now s ≡ (err (concurrent_update instance_id), s)
  IsClaimed-refuses attempt now s (t, found, is_running, owner) =
      rw (← owner) (claim_refused id attempt now s t found (ground arith))

  IsClaimed-update :
      (req : UpdateInstanceRequest) (s : MemoryStore)
      → IsNew id (task_ids req.tasks)
      → IsClaimed id instance_id s
      → IsClaimed id instance_id (update_instance req s).1
  unfolding update_instance
  IsClaimed-update req s spares (t, found, run, owner) =
      (t, ground (arith, lookup-put_tasks id req.tasks s.tasks spares), run, owner)

  IsClaimed-mark :
      (other : String) (attempt : ℤ) (now : Time) (s : MemoryStore)
      → IsClaimed id instance_id s
      → IsClaimed id instance_id (mark_task_running other attempt now s).1
  IsClaimed-mark other attempt now s (t, found, run, owner) =
      elim (Option-cases (lookup other s.tasks)) [
        | inl missing ↦ (t, rw (claim_missing other attempt now s missing) found, run, owner)
        | inr (u, there) ↦ elim (Bool-cases (refuses attempt u)) [
          | inl no_claim ↦
              (t, rw (claim_refused other attempt now s u there no_claim) found, run, owner)
          | inr claim ↦
              let apart : other ≢ id = λ same. still_running attempt t u run claim (cc) in
              (
                t,
                rw (claim_granted other attempt now s u there claim)
                    (lookup-insert_ne other id (marked now u) s.tasks apart ∙ found),
                run,
                owner,
              )
        ]
      ]

  apply_op-IsClaimed :
      (op : Op) (s : MemoryStore)
      → Spares id op
      → IsClaimed id instance_id s
      → IsClaimed id instance_id (apply_op op s)
  unfolding apply_op create_instance append_history complete_task record_idempotency append_outbox
      mark_outbox_published
  apply_op-IsClaimed (create req) s spares (t, found, run, owner) =
      (t, lookup-put_tasks id req.tasks s.tasks spares ∙ found, run, owner)
  apply_op-IsClaimed (update req) s spares claimed = IsClaimed-update req s spares claimed
  apply_op-IsClaimed (add_history items) s spares claimed = claimed
  apply_op-IsClaimed (mark_running other attempt now) s spares claimed =
      IsClaimed-mark other attempt now s claimed
  apply_op-IsClaimed (complete req) s spares (t, found, run, owner) = (
    t,
    lookup-put_tasks id req.tasks (insert req.task.id (clone_task req.task) s.tasks) spares.1
        ∙ lookup-insert_ne req.task.id id (clone_task req.task) s.tasks spares.0
        ∙ found,
    run,
    owner,
  )
  apply_op-IsClaimed (record_key scope key result) s spares (t, found, run, owner) =
      (t, ground arith, run, owner)
  apply_op-IsClaimed (add_outbox ms) s spares claimed = claimed
  apply_op-IsClaimed (mark_published msg now) s spares (t, found, run, owner) =
      (t, ground arith, run, owner)

claim-IsClaimed :
    (id : String) (attempt : ℤ) (now : Time) (s : MemoryStore) (t : TaskExecution)
    → (mark_task_running id attempt now s).0 ≡ ok t
    → IsClaimed id t.instance_id (mark_task_running id attempt now s).1
claim-IsClaimed id attempt now s t h = elim (Option-cases (lookup id s.tasks)) [
  | inl missing ↦ absurd (cc (claim_missing id attempt now s missing))
  | inr (u, there) ↦ elim (Bool-cases (refuses attempt u)) [
    | inl no_claim ↦ absurd (cc (claim_refused id attempt now s u there no_claim))
    | inr claim ↦
        let granted = claim_granted id attempt now s u there claim in
        (
          marked now u,
          rw granted (lookup-insert_self id (marked now u) s.tasks),
          refl,
          let same : ok (clone_task (marked now u)) ≡ ok t = cc granted in
              ap (λ (v : TaskExecution). v.instance_id) (ok-injective same),
        )
  ]
]

-- After a successful `MarkTaskRunning`, and any operations of other workers that do not write the task's
-- record, every further claim of it is refused with ErrConcurrentUpdate and changes nothing.
pub claimed_once :
    (id : String) (attempt attempt' : ℤ) (now now' : Time) (s : MemoryStore) (t : TaskExecution)
    (ops : List Op)
    → (mark_task_running id attempt now s).0 ≡ ok t
    → All (Spares id) ops
    → let s' = run_ops ops (mark_task_running id attempt now s).1 in
      mark_task_running id attempt' now' s' ≡ (err (concurrent_update t.instance_id), s')
claimed_once id attempt attempt' now now' s t ops h spare =
    IsClaimed-refuses id t.instance_id attempt' now'
      (run_ops ops (mark_task_running id attempt now s).1)
      (run_ops_induction (IsClaimed id t.instance_id) (Spares id)
        (apply_op-IsClaimed id t.instance_id) ops (mark_task_running id attempt now s).1 spare
        (claim-IsClaimed id attempt now s t h))
