-- ===== src/Sql/Delivery.antt =====
-- What persistence/internal/sqlstore/store.go keeps of a signal's key: the workflow of an instance, and the key in that
-- workflow's scope.
pub mod Keyed
pub mod Signals
pub mod Starts
use fsm_go.Prelude.{
  String, ◌≡◌, refl, sym, ap, ◌∙◌, subst, Bool, true, false, Option, none, some, List, [], ◌∷◌, All,
  ◌==◌, Option-cases, inl, inr, first,
}
use fsm_go.Dict.{Dict}
use fsm_go.Errors.{Error, Result, ok, err, ok-injective, >>=-eq-ok}
use fsm_go.Types.{WorkflowInstance, SignalOptions, UpdateInstanceRequest}
use fsm_go.World.{Env, World, Act, pure, lift, continue, ◌>>=◌}
use fsm_go.Compiler.{Machine}
use fsm_go.Runtime.Base.{Runtime, TaskHandler, find_machine}
use fsm_go.Runtime.Advance.{apply_event}
use fsm_go.Runtime.Advance.Outcome.{store-apply_event}
use fsm_go.Runtime.Commands.{claim_key, recorded, apply_signal, signal_workflow}
use fsm_go.Runtime.Commands.Signal.{signal_request}
use fsm_go.Sql.Database.{Database}
use fsm_go.Sql.Rows.{InstanceRow, Tables, instance_row, scan_instance, scan_one}
use fsm_go.Sql.Writes.{record_idempotency, get_idempotency, update_instance}
use fsm_go.Sql.Reads.{get_instance, sql_store}
use fsm_go.Sql.Calls.{insert_row-ok, placed-keeps, >>=-ok, call-ok, guarded-ok}
use fsm_go.Sql.Shown.Updates.{scan_instance-columns}
use fsm_go.Sql.Updating.{found-append, found-update_rows}
use fsm_go.Sql.Requests.{Request, create, update, complete, record_key, serve, serve_all}
use fsm_go.Sql.Keeps.{Keeps-call, Keeps-query}
use fsm_go.Sql.Keeps.Requests.{StatementsKeep, Allows, serve_all-Keeps}
use fsm_go.Sql.Idempotency.{
  recorded_as, get_idempotency-ok, record_idempotency-answer, is_answer-recorded,
  serve_all-recorded,
}

-- the column `workflow` of the row that was found
abbrev pub column : Option InstanceRow → Option String
column none = none
column (some row) = some row.workflow

abbrev pub workflow_in : String → Tables → Option String
workflow_in id t = column (first (λ r. r.id == id) t.instances)

-- the key is recorded in the scope of the instance's workflow
abbrev pub IsUsed : String → String → Tables → Type 0
IsUsed id key t =
    (workflow : String) × (known : String) × (workflow_in id t ≡ some workflow)
    × (recorded_as workflow key t ≡ some known)

module _ ⦃env : Env⦄ ⦃db : Database⦄ (id : String) where
  -- no request writes another workflow to an instance
  statements-workflow : (workflow : String) → StatementsKeep (λ t. workflow_in id t ≡ some workflow)
  statements-workflow workflow =
      let kept : Tables → Type 0 = λ t. workflow_in id t ≡ some workflow in
      record {
        add_history = λ row. Keeps-call _ λ t h. placed-keeps kept _ _ t h (λ _ _. h);
        add_task = λ row. Keeps-call _ λ t h. placed-keeps kept _ _ t h (λ _ _. h);
        add_outbox = λ row. Keeps-call _ λ t h. placed-keeps kept _ _ t h (λ _ _. h);
        add_key = λ row. Keeps-call _ λ t h. placed-keeps kept _ _ t h (λ _ _. h);
        claim = λ id attempt now. Keeps-call _ (λ t h. h);
        publish = λ id now. Keeps-call _ (λ t h. h);
      }

  All-Allows :
      (workflow : String) (requests : List Request)
      → All (Allows (λ t. workflow_in id t ≡ some workflow)) requests
  All-Allows workflow [] = tt
  All-Allows workflow (create req ∷ rest) = (
    λ fields. Keeps-call _ λ t h.
        placed-keeps (λ t. workflow_in id t ≡ some workflow) _
          (λ rows. record t { instances = rows }) t h
          λ rows added.
            let row = instance_row req.instance fields in
            let (fresh, rows_eq) =
              insert_row-ok _ (λ r. r.id == row.id) row t.instances rows added in
            rw rows_eq
              (found-append column (λ r. r.id == id) t.instances (row ∷ []) workflow refl h),
    All-Allows workflow rest,
  )
  All-Allows workflow (update req ∷ rest) = (
    λ fields. Keeps-call _ λ t h.
        found-update_rows column (λ r. r.id == id) _ _ t.instances (λ r. refl) (λ r. refl) ∙ h,
    All-Allows workflow rest,
  )
  All-Allows workflow (complete req ∷ rest) =
      (λ input output. Keeps-call _ (λ t h. h), All-Allows workflow rest)
  All-Allows workflow (_ ∷ rest) = (tt, All-Allows workflow rest)

  pub serve_all-workflow :
      (workflow : String) (requests : List Request) (w : World Tables)
      → workflow_in id w.store ≡ some workflow
      → workflow_in id (serve_all requests w).store ≡ some workflow
  serve_all-workflow workflow requests w =
      serve_all-Keeps (statements-workflow workflow) requests w (All-Allows workflow requests)

  pub serve_all-IsUsed :
      (key : String) (requests : List Request) (w : World Tables)
      → IsUsed id key w.store
      → IsUsed id key (serve_all requests w).store
  serve_all-IsUsed key requests w (workflow, known, there, used) = (
    workflow,
    known,
    serve_all-workflow workflow requests w there,
    serve_all-recorded workflow key known requests w used,
  )

  column-scan :
      (o : Option InstanceRow) (missing : Error) (i : WorkflowInstance)
      → scan_one scan_instance missing o ≡ ok i
      → column o ≡ some i.workflow
  column-scan none missing i h = absurd (let no : err missing ≡ ok i = h in cc)
  column-scan (some row) missing i h = ap some (scan_instance-columns row i h).0

  pub get_instance-ok :
      (w v : World Tables) (i : WorkflowInstance)
      → get_instance id w ≡ (ok i, v)
      → (workflow_in id w.store ≡ some i.workflow) × (v.store ≡ w.store)
  unfolding get_instance
  get_instance-ok w v i done =
      let ran = call-ok _ w v i done in
      (column-scan _ _ i (ap (λ p. p.0) ran), sym (ap (λ p. p.1) ran))
