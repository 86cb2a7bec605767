-- ===== src/Memory/Timeline.antt =====
-- The timeline: history only grows, and ListHistory gives an instance's entries in time order.
use fsm_go.Prelude.{
  eq_ℤ, eq_ℤ-eq, String, ◌≡◌, refl, sym, ap, ◌∙◌, true, false, Bool, List, [], ◌∷◌, ◌++◌, map,
  Permᴰ, arith, ◌==◌, keep, Bool-cases, inl, inr,
}
use mathlib.Core.List.{append-nil, append_assoc}
use fsm_go.Errors.{ok, is_ok}
use fsm_go.Types.{Time, ExecutionHistory, UpdateInstanceRequest}
use fsm_go.Memory.{
  MemoryStore, clone_history, created_before, create_instance, update_instance, append_history,
  list_history, mark_task_running, complete_task, record_idempotency, append_outbox,
  mark_outbox_published,
}
use fsm_go.Memory.Sorting.{
  sort_stable, sort_stable-perm, sort_stable-IsSorted, keep-sort_stable, IsSorted, IsWeakOrder,
}
use fsm_go.Memory.Ops.{Op, create, update, add_history, complete, apply_op, run_ops}

-- `later` begins with `earlier`
abbrev pub Extends : List ExecutionHistory → List ExecutionHistory → Type 0
Extends earlier later = (new : List ExecutionHistory) × (later ≡ earlier ++ new)

history-update :
    (req : UpdateInstanceRequest) (s : MemoryStore)
    → Extends s.history (update_instance req s).1.history
unfolding update_instance
history-update req s = elim (Bool-cases (is_ok (update_instance req s).0)) [
  | inl done ↦ (map clone_history req.history, ground arith)
  | inr failed ↦ ([], ground (arith, append-nil s.history))
]

apply_op-Extends : (op : Op) (s : MemoryStore) → Extends s.history (apply_op op s).history
unfolding apply_op create_instance append_history mark_task_running complete_task record_idempotency
    append_outbox mark_outbox_published
apply_op-Extends (create req) s = (map clone_history req.history, refl)
apply_op-Extends (update req) s = history-update req s
apply_op-Extends (add_history items) s = (map clone_history items, refl)
apply_op-Extends (complete req) s = (map clone_history req.history, refl)
apply_op-Extends _ s = ([], ground (arith, append-nil s.history))

-- No operation, in any number, removes or changes an entry of the timeline: the history after them
-- begins with the history before.
pub history_append_only :
    (ops : List Op) (s : MemoryStore) → Extends s.history (run_ops ops s).history
unfolding run_ops
history_append_only [] s = ([], sym (append-nil s.history))
history_append_only (op ∷ ops) s =
    let (new, e) = apply_op-Extends op s in
    let (more, f) = history_append_only ops (apply_op op s) in
    (new ++ more, f ∙ ap (λ h. h ++ more) e ∙ append_assoc s.history new more)

created_before-IsWeakOrder : IsWeakOrder created_before
created_before-IsWeakOrder = record {
  asym = λ x y h. ground arith;
  trans = λ x y z h k. ground arith;
}

-- the copies of the entries of one instance, in the order in which they were appended
abbrev pub entries_for : String → MemoryStore → List ExecutionHistory
entries_for id s = map clone_history (keep (λ h. h.instance_id == id) s.history)

abbrev pub created_at : Time → ExecutionHistory → Bool
created_at t h = eq_ℤ h.created_at t

-- ListHistory returns exactly the entries of the instance, none before one that was created earlier,
-- and those of one instant in the order in which they were appended.
pub list_history_ordered :
    (id : String) (s : MemoryStore)
    → (out : List ExecutionHistory) × ((list_history id s).0 ≡ ok out)
      × IsSorted created_before out
      × Permᴰ out (entries_for id s)
      × ((t : Time) → keep (created_at t) out ≡ keep (created_at t) (entries_for id s))
unfolding list_history
list_history_ordered id s = (
  sort_stable created_before (entries_for id s),
  refl,
  sort_stable-IsSorted created_before created_before-IsWeakOrder (entries_for id s),
  sort_stable-perm created_before (entries_for id s),
  λ t. keep-sort_stable created_before (created_at t) (level t) (entries_for id s),
)
  where
    level :
        (t : Time) (x y : ExecutionHistory)
        → created_at t x ≡ true
        → created_at t y ≡ true
        → created_before y x ≡ false
    level t x y h k = ground (arith, eq_ℤ-eq x.created_at t, eq_ℤ-eq y.created_at t)
