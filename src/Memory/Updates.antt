-- ===== src/Memory/Updates.antt =====
-- The revision of an instance decides between concurrent updates.
use fsm_go.Prelude.{
  ℤ, inc, String, ◌≡◌, ◌∙◌, ◌≢◌, ◌⊎◌, inl, inr, true, false, none, some, List, arith, eq_ℤ,
  eq_ℤ-inc, eq_iff, ◌==◌, Bool-cases, Option-cases, All,
}
use fsm_go.Dict.{lookup, insert}
use fsm_go.Dict.Laws.{lookup-insert_self, lookup-insert_ne}
use fsm_go.Errors.{ok, err, not_found, concurrent_update}
use fsm_go.Types.{WorkflowInstance, UpdateInstanceRequest}
use fsm_go.Memory.{
  MemoryStore, clone_instance, create_instance, update_instance, append_history, mark_task_running,
  complete_task, record_idempotency, append_outbox, mark_outbox_published,
}
use fsm_go.Memory.Ops.{Op, create, update, apply_op, run_ops, run_ops_induction}

-- the operation creates no instance `id`, and updates it only from the revision `old`
abbrev pub IsStale : String → ℤ → Op → Type 0
IsStale id old (create req) = req.instance.id ≢ id
IsStale id old (update req) = (req.instance.id ≢ id) ⊎ (req.expected_revision ≡ old)
IsStale id old _ = Unit {0}

module _ (req : UpdateInstanceRequest) (s : MemoryStore) where
  -- the three outcomes
  update_missing :
      lookup req.instance.id s.instances ≡ none
      → update_instance req s ≡ (err (not_found "workflow_instance" req.instance.id), s)
  unfolding update_instance
  update_missing missing = rw (missing, update_instance)

  pub update_refused :
      (i : WorkflowInstance)
      → lookup req.instance.id s.instances ≡ some i
      → eq_ℤ i.revision req.expected_revision ≡ false
      → update_instance req s ≡ (err (concurrent_update req.instance.id), s)
  unfolding update_instance
  update_refused i found differs = rw (found, update_instance, differs)

  pub instances-update :
      (i : WorkflowInstance)
      → lookup req.instance.id s.instances ≡ some i
      → eq_ℤ i.revision req.expected_revision ≡ true
      → ((update_instance req s).0 ≡ ok tt)
        × ((update_instance req s).1.instances
            ≡ insert req.instance.id (clone_instance req.instance) s.instances)
  unfolding update_instance
  instances-update i found same =
      (rw (found, update_instance, same), rw (found, update_instance, same))

  update_wins :
      (update_instance req s).0 ≡ ok tt
      → lookup req.instance.id (update_instance req s).1.instances
        ≡ some (clone_instance req.instance)
  update_wins h = elim (Option-cases (lookup req.instance.id s.instances)) [
    | inl missing ↦ absurd (cc (update_missing missing))
    | inr (i, found) ↦ elim (Bool-cases (eq_ℤ i.revision req.expected_revision)) [
      | inl same ↦
          rw (instances-update i found same).1
            (lookup-insert_self req.instance.id (clone_instance req.instance) s.instances)
      | inr differs ↦ absurd (cc (update_refused i found differs))
    ]
  ]

  -- an update of another instance, or one that is refused, leaves `id` alone
  update_other :
      (id : String)
      → req.instance.id ≢ id
      → lookup id (update_instance req s).1.instances ≡ lookup id s.instances
  update_other id apart = elim (Option-cases (lookup req.instance.id s.instances)) [
    | inl missing ↦ rw (update_missing missing)
    | inr (i, found) ↦ elim (Bool-cases (eq_ℤ i.revision req.expected_revision)) [
      | inl same ↦
          rw (instances-update i found same).1
            (lookup-insert_ne req.instance.id id (clone_instance req.instance) s.instances apart)
      | inr differs ↦ rw (update_refused i found differs)
    ]
  ]

module _ (id : String) (old : ℤ) (i : WorkflowInstance) (newer : i.revision ≡ inc old) where
  stale_update :
      (req : UpdateInstanceRequest) (s : MemoryStore)
      → (req.instance.id ≢ id) ⊎ (req.expected_revision ≡ old)
      → lookup id s.instances ≡ some i
      → lookup id (update_instance req s).1.instances ≡ some i
  stale_update req s (inl apart) found = update_other req s id apart ∙ found
  stale_update req s (inr expects) found = elim (Bool-cases (req.instance.id == id)) [
    | inl same ↦
        let e : req.instance.id ≡ id = (eq_iff req.instance.id id).0 same in
        let differs : eq_ℤ i.revision req.expected_revision ≡ false =
          rw (newer, expects) (eq_ℤ-inc old) in
        rw (update_refused req s i (rw e found) differs) found
    | inr apart ↦ update_other req s id (λ e. ground (arith, eq_iff req.instance.id id)) ∙ found
  ]

  apply_op_stale :
      (op : Op) (s : MemoryStore)
      → IsStale id old op
      → lookup id s.instances ≡ some i
      → lookup id (apply_op op s).instances ≡ some i
  unfolding apply_op create_instance append_history mark_task_running complete_task
      record_idempotency append_outbox mark_outbox_published
  apply_op_stale (create req) s apart found =
      lookup-insert_ne req.instance.id id (clone_instance req.instance) s.instances apart ∙ found
  apply_op_stale (update req) s stale found = stale_update req s stale found
  apply_op_stale _ s stale found = ground arith

-- Of updates of one instance from the same revision one wins. Once an update that moves the
-- revision on by one has succeeded, the instance stays as it wrote it, whatever operations follow,
-- as long as they update this instance from the old revision only and do not create it anew.
pub update_one_winner :
    (req : UpdateInstanceRequest) (s : MemoryStore) (ops : List Op)
    → (update_instance req s).0 ≡ ok tt
    → req.instance.revision ≡ inc req.expected_revision
    → All (IsStale req.instance.id req.expected_revision) ops
    → lookup req.instance.id (run_ops ops (update_instance req s).1).instances
      ≡ some (clone_instance req.instance)
update_one_winner req s ops h newer stale =
    run_ops_induction (λ s. lookup req.instance.id s.instances ≡ some (clone_instance req.instance))
      (IsStale req.instance.id req.expected_revision)
      (apply_op_stale req.instance.id req.expected_revision (clone_instance req.instance) newer) ops
      (update_instance req s).1 stale (update_wins req s h)
