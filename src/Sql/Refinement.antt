-- ===== src/Sql/Refinement.antt =====
-- The store of persistence/internal/sqlstore/store.go against the one of workflowtest/memory_store.go: from
-- tables that show a store in memory, a method that succeeds leaves tables that show what the method
-- of the other store leaves.
pub mod Create
pub mod Update
pub mod Complete
use fsm_go.Prelude.{
  String, ℤ, eqb, eq_ℤ, ◌≡◌, refl, sym, ap, ◌∙◌, subst, Bool, true, false, not, none, some, List,
  [], ◌∷◌, map, if◌then◌else◌, Bool-cases, inl, inr, ◌==◌,
}
use fsm_go.Dict.{lookup, insert}
use fsm_go.Errors.{Result, ok, err, ok-injective, concurrent_update}
use fsm_go.Types.{
  WorkflowInstance, TaskExecution, ExecutionHistory, OutboxMessage, CreateInstanceRequest,
  UpdateInstanceRequest, CompleteTaskRequest,
}
use fsm_go.World.{Env, World, Act, lift, raise, next_reading, ◌>>=◌, ◌>>◌}
use fsm_go.Memory
use fsm_go.Memory.{MemoryStore, clone_instance, clone_task, append_locked, put_tasks, put_outbox}
use fsm_go.Sql.Database.{Database, wrapped, call, with_tx}
use fsm_go.Sql.Rows.{Tables, marshal, instance_row}
use fsm_go.Sql.Writes.{
  add_instance_row, update_instance_row, complete_row, insert_history, insert_tasks, insert_outbox,
  append_all, create_body, create_instance, update_body, update_instance, complete_body,
  complete_task,
}
use fsm_go.Sql.Calls.{>>=-ok, call-ok, wrapped-ok, guarded-ok}
use fsm_go.Sql.Atomic.{Commits, AllOrNothing, with_tx-AllOrNothing}
use fsm_go.Sql.Records.{
  IsCodec, kept_instance, kept_task, kept_history, kept_outbox, scan_instance-instance_row,
}
use fsm_go.Sql.Carries.{lift-ok, Carries-statement, insert_history-Carries, insert_tasks-Carries}
use fsm_go.Sql.Carries.Outbox.{FillAll, insert_outbox-Carries}
use fsm_go.Sql.PrimaryKeys.{HasPrimaryKeys}
use fsm_go.Sql.Shown.{Shows}
use fsm_go.Sql.Shown.Statements.{Shows-add_instance_row}
use fsm_go.Sql.Shown.Updates.{Continues, Shows-update}
use fsm_go.Sql.Shown.Completions.{ContinuesTask, Shows-complete}

module _ ⦃db : Database⦄ where
  -- The requests of the store in memory: the instants and the maps that the columns keep, and messages that are filled in.
  abbrev pub kept_create : CreateInstanceRequest → List OutboxMessage → CreateInstanceRequest
  kept_create req fulls = record {
    instance = kept_instance req.instance;
    history = map kept_history req.history;
    tasks = map kept_task req.tasks;
    outbox = map kept_outbox fulls;
  }

  abbrev pub kept_update : UpdateInstanceRequest → List OutboxMessage → UpdateInstanceRequest
  kept_update req fulls = record {
    instance = kept_instance req.instance;
    expected_revision = req.expected_revision;
    history = map kept_history req.history;
    tasks = map kept_task req.tasks;
    outbox = map kept_outbox fulls;
  }

  abbrev pub kept_complete : CompleteTaskRequest → List OutboxMessage → CompleteTaskRequest
  kept_complete req fulls = record {
    task = kept_task req.task;
    history = map kept_history req.history;
    tasks = map kept_task req.tasks;
    outbox = map kept_outbox fulls;
  }

  abbrev pub appended :
      List ExecutionHistory → List TaskExecution → List OutboxMessage → MemoryStore → MemoryStore
  appended history tasks fulls s = record s {
    history = append_locked (map kept_history history) s.history;
    tasks = put_tasks (map kept_task tasks) s.tasks;
    outbox = put_outbox (map kept_outbox fulls) s.outbox;
  }

  -- the store in memory once the instance, or the task, is written
  abbrev pub with_instance : WorkflowInstance → MemoryStore → MemoryStore
  with_instance i s = record s {
    instances = insert i.id (clone_instance (kept_instance i)) s.instances;
  }

  abbrev pub with_task : TaskExecution → MemoryStore → MemoryStore
  with_task task s = record s { tasks = insert task.id (clone_task (kept_task task)) s.tasks }

  pub with_tx-ok :
      (fn : Act Tables (Unit {0})) (w w' : World Tables)
      → with_tx fn w ≡ (ok tt, w')
      → Commits fn w w'
  with_tx-ok fn w w' h = elim (subst (λ o. AllOrNothing fn w o) h (with_tx-AllOrNothing fn w)) [
    | inl (done, commits) ↦ commits
    | inr (failed, rest) ↦ absurd (let no : true ≡ false = failed in cc)
  ]

module _ ⦃env : Env⦄ ⦃db : Database⦄ (codec : IsCodec db) where
  pub append_all-shown :
      (history : List ExecutionHistory) (tasks : List TaskExecution) (outbox : List OutboxMessage)
      (w w' : World Tables) (s : MemoryStore)
      → Shows w.store s
      → append_all history tasks outbox w ≡ (ok tt, w')
      → (fulls : List OutboxMessage) × FillAll outbox fulls
        × Shows w'.store (appended history tasks fulls s)
  unfolding append_all
  append_all-shown history tasks outbox w w' s h done =
      let (x, v, wrote_history, rest) =
        >>=-ok (insert_history history) (λ _. insert_tasks tasks >> insert_outbox outbox) w w' tt
          done in
      let (y, u, wrote_tasks, last) =
        >>=-ok (insert_tasks tasks) (λ _. insert_outbox outbox) v w' tt rest in
      insert_outbox-Carries codec outbox u w' _
        (insert_tasks-Carries codec tasks v u _
          (insert_history-Carries codec history w v s h wrote_history) wrote_tasks)
        last
