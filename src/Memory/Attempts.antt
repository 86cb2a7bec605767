-- ===== src/Memory/Attempts.antt =====
-- Stored tasks whose attempts are within their limits, and the store's operations.
use fsm_go.Prelude.{
  ◌≤ℤ◌, String, ◌≡◌, sym, subst, ◌∙◌, Option, none, some, List, [], ◌∷◌, ◌==◌, eq_ℤ, All,
  Bool-cases, Option-cases, inl, inr, if◌then◌else◌,
}
use fsm_go.Dict.{Dict, lookup, insert}
use fsm_go.Dict.Laws.{lookup-insert}
use fsm_go.Types.{TaskExecution, ExecutionHistory, OutboxMessage, UpdateInstanceRequest}
use fsm_go.Memory.{MemoryStore, clone_task, put_tasks, complete_task, update_instance}

-- an attempt within the limit
abbrev pub IsWithin : TaskExecution → Type 0
IsWithin t = t.attempt ≤ℤ t.max_attempts

abbrev pub AllWithin : Dict TaskExecution → Type 0
AllWithin d = (k : String) (t : TaskExecution) → lookup k d ≡ some t → IsWithin t

abbrev pub AreWithin : MemoryStore → Type 0
AreWithin s = AllWithin s.tasks

pub insert_within :
    (k : String) (t : TaskExecution) (d : Dict TaskExecution)
    → IsWithin t
    → AllWithin d
    → AllWithin (insert k t d)
insert_within k t d within all j x found = elim (Bool-cases (k == j)) [
  | inl same ↦
      let got : some t ≡ some x =
        subst (λ b. (if b then some t else lookup j d) ≡ some x) same
          (sym (lookup-insert k j t d) ∙ found) in
      subst
        (λ (o : Option TaskExecution). elim o as (λ _. Type 0) [
          | none ↦ Unit {0}
          | some y ↦ IsWithin y
        ])
        got within
  | inr other ↦ all j x (
      subst (λ b. (if b then some t else lookup j d) ≡ some x) other
        (sym (lookup-insert k j t d) ∙ found))
]

pub put_within :
    (ts : List TaskExecution) (d : Dict TaskExecution)
    → All IsWithin ts
    → AllWithin d
    → AllWithin (put_tasks ts d)
put_within [] d within all = all
put_within (t ∷ ts) d (here, rest) all =
    put_within ts (insert t.id (clone_task t) d) rest (insert_within t.id (clone_task t) d here all)

pub update_within :
    (req : UpdateInstanceRequest) (s : MemoryStore)
    → All IsWithin req.tasks
    → AreWithin s
    → AreWithin (update_instance req s).1
unfolding update_instance
update_within req s within all = elim (Option-cases (lookup req.instance.id s.instances)) [
  | inl missing ↦ rw (missing, update_instance) all
  | inr (i, found) ↦ elim (Bool-cases (eq_ℤ i.revision req.expected_revision)) [
    | inl same ↦ rw (found, update_instance, same) (put_within req.tasks s.tasks within all)
    | inr stale ↦ rw (found, update_instance, stale) all
  ]
]

pub complete_within :
    (task : TaskExecution) (es : List ExecutionHistory) (next : List TaskExecution)
    (out : List OutboxMessage) (s : MemoryStore)
    → IsWithin task
    → All IsWithin next
    → AreWithin s
    → AreWithin
        (complete_task (record { task = task; history = es; tasks = next; outbox = out }) s).1
unfolding complete_task
complete_within task es next out s here rest all =
    put_within next (insert task.id (clone_task task) s.tasks) rest
      (insert_within task.id (clone_task task) s.tasks here all)
