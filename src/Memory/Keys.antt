-- ===== src/Memory/Keys.antt =====
-- Idempotency keys: the first request that records a key owns it for good.
use fsm_go.Prelude.{String, ◌≡◌, ap, inl, inr, true, some, List, arith, ◌==◌, eq_iff, Option-cases}
use fsm_go.Dict.{lookup}
use fsm_go.Dict.Laws.{lookup-insert, lookup-insert_self}
use fsm_go.Errors.{ok}
use fsm_go.Memory.{
  MemoryStore, scoped, create_instance, update_instance, append_history, mark_task_running,
  complete_task, record_idempotency, get_idempotency, append_outbox, mark_outbox_published,
}
use fsm_go.Memory.Ops.{Op, create, record_key, apply_op, run_ops, run_ops_keeps}

module _ (full id : String) where
  record_keeps :
      (scope key result : String) (s : MemoryStore)
      → lookup full s.idempotency ≡ some id
      → lookup full (record_idempotency scope key result s).1.idempotency ≡ some id
  unfolding record_idempotency
  record_keeps scope key result s found =
      elim (Option-cases (lookup (scoped scope key) s.idempotency)) [
        | inl new ↦
            rw (new, record_idempotency, lookup-insert)
              (ground (arith, eq_iff (scoped scope key) full))
        | inr (other, there) ↦ rw (there, record_idempotency) found
      ]

  apply_op_keeps :
      (op : Op) (s : MemoryStore)
      → lookup full s.idempotency ≡ some id
      → lookup full (apply_op op s).idempotency ≡ some id
  unfolding apply_op create_instance update_instance append_history mark_task_running complete_task
      append_outbox mark_outbox_published
  apply_op_keeps (create req) s found = found
  apply_op_keeps (record_key scope key result) s found = record_keeps scope key result s found
  apply_op_keeps _ s found = ground arith

recorded_now :
    (scope key id : String) (s : MemoryStore)
    → (record_idempotency scope key id s).0 ≡ ok true
    → lookup (scoped scope key) (record_idempotency scope key id s).1.idempotency ≡ some id
unfolding record_idempotency
recorded_now scope key id s h = elim (Option-cases (lookup (scoped scope key) s.idempotency)) [
  | inl new ↦ rw (new, record_idempotency) (lookup-insert_self (scoped scope key) id s.idempotency)
  | inr (other, there) ↦ rw (there, record_idempotency) (ground (arith, eq_iff other id, there))
]

answer :
    (scope key id other : String) (s : MemoryStore)
    → lookup (scoped scope key) s.idempotency ≡ some id
    → record_idempotency scope key other s ≡ (ok (id == other), s)
unfolding record_idempotency
answer scope key id other s found = rw (found, record_idempotency)

-- a recorded key stays
pub key_kept :
    (full id : String) (ops : List Op) (s : MemoryStore)
    → lookup full s.idempotency ≡ some id
    → lookup full (run_ops ops s).idempotency ≡ some id
key_kept full id = run_ops_keeps (λ s. lookup full s.idempotency ≡ some id) (apply_op_keeps full id)

-- After a successful RecordIdempotency and any operations at all, GetIdempotency gives its result, and
-- recording the key again changes nothing and answers whether it is for the same result.
pub first_key_wins :
    (scope key id : String) (s : MemoryStore) (ops : List Op)
    → (record_idempotency scope key id s).0 ≡ ok true
    → let s' = run_ops ops (record_idempotency scope key id s).1 in
      ((get_idempotency scope key s').0 ≡ ok (some id))
      × ((other : String) → record_idempotency scope key other s' ≡ (ok (id == other), s'))
unfolding get_idempotency
first_key_wins scope key id s ops h =
    let s₀ = (record_idempotency scope key id s).1 in
    let found = key_kept (scoped scope key) id ops s₀ (recorded_now scope key id s h) in
    (ap ok found, λ other. answer scope key id other (run_ops ops s₀) found)
