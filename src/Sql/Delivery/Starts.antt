-- ===== src/Sql/Delivery/Starts.antt =====
-- `StartWorkflow` of workflow/runtime.go over the store of persistence/internal/sqlstore/store.go: a start under a key
-- makes one instance.
use fsm_go.Prelude.{
  String, ◌≡◌, refl, sym, ap, ◌∙◌, subst, Bool, true, false, some, List, [], ◌∷◌, ◌==◌,
  if◌then◌else◌, Option-cases, inl, inr, eq_iff, first, Option, none,
}
use fsm_go.Dict.{Dict}
use fsm_go.Errors.{Error, Result, ok, err, >>=-eq-ok, ok-injective}
use fsm_go.Types.{WorkflowInstance, StartOptions, CreateInstanceRequest}
use fsm_go.World.{Env, World, pure, lift, new_id}
use fsm_go.Compiler.{Machine}
use fsm_go.Runtime.Base.{TaskHandler, find_machine}
use fsm_go.Runtime.Commands.{
  claim_key, recorded, choose_id, started, create_started, start_workflow,
}
use fsm_go.Runtime.Advance.{schedule_state_tasks}
use fsm_go.Sql.Database.{Database}
use fsm_go.Sql.Rows.{Tables, scan_instance, scan_one, unmarshal, InstanceRow}
use fsm_go.Sql.Writes.{get_idempotency, create_instance}
use fsm_go.Sql.Reads.{get_instance}
use fsm_go.Sql.Calls.{>>=-ok, call-ok}
use fsm_go.Sql.Requests.{Request, serve, serve_all, create}
use fsm_go.Sql.Keeps.{Keeps-query}
use fsm_go.Sql.Idempotency.{recorded_as, get_idempotency-ok, serve_all-recorded}
use fsm_go.Sql.Shown.Updates.{first-some}
use fsm_go.Sql.Delivery.Keyed.{>>=-unchanged, runtime_over, claim_key-recorded, recorded_named}

-- what is returned, if anything is, has the id
abbrev pub HasId : String → Result WorkflowInstance → Type 0
HasId id (ok i) = i.id ≡ id
HasId id (err _) = Unit {0}

HasId-returned :
    (id : String) (r : Result WorkflowInstance)
    → ((i : WorkflowInstance) → r ≡ ok i → i.id ≡ id)
    → HasId id r
HasId-returned id (ok i) h = h i refl
HasId-returned id (err e) h = tt

module _ ⦃db : Database⦄ where
  scan_instance-id :
      (row : InstanceRow) (i : WorkflowInstance) → scan_instance row ≡ ok i → row.id ≡ i.id
  unfolding scan_instance
  scan_instance-id row i h =
      let (fields, read, done) = >>=-eq-ok (unmarshal row.fields) _ h in
      ap (λ j. j.id) (ok-injective done)

  scan_one-id :
      (id : String) (rows : List InstanceRow) (found : Option InstanceRow) (missing : Error)
      (i : WorkflowInstance)
      → first (λ r. r.id == id) rows ≡ found
      → scan_one scan_instance missing found ≡ ok i
      → i.id ≡ id
  scan_one-id id rows none missing i at h = absurd (let no : err missing ≡ ok i = h in cc)
  scan_one-id id rows (some row) missing i at h =
      sym (scan_instance-id row i h)
      ∙ (eq_iff row.id id).0 (first-some (λ r. r.id == id) rows row at)

  -- an instance that is read has the id that was asked for
  get_instance-id :
      (id : String) (w v : World Tables) (i : WorkflowInstance)
      → get_instance id w ≡ (ok i, v)
      → i.id ≡ id
  unfolding get_instance
  get_instance-id id w v i done =
      scan_one-id id w.store.instances _ _ i refl (ap (λ p. p.0) (call-ok _ w v i done))

  store-get_instance : (id : String) (w : World Tables) → (get_instance id w).1.store ≡ w.store
  unfolding get_instance
  store-get_instance id w = (Keeps-query {P = λ t. t ≡ w.store} _).at w refl

module _ ⦃env : Env⦄ ⦃db : Database⦄ (ms : Dict Machine) (hs : Dict (TaskHandler Tables)) where
  store-get_idempotency :
      (scope key : String) (w : World Tables) → (get_idempotency scope key w).1.store ≡ w.store
  unfolding get_idempotency
  store-get_idempotency scope key w = (Keeps-query {P = λ t. t ≡ w.store} _).at w refl

  create_instance-recorded :
      (scope key id : String) (req : CreateInstanceRequest) (r : Result (Unit {0}))
      (w v : World Tables)
      → create_instance req w ≡ (r, v)
      → recorded_as scope key w.store ≡ some id
      → recorded_as scope key v.store ≡ some id
  unfolding serve serve_all
  create_instance-recorded scope key id req r w v ran used =
      subst (λ p. recorded_as scope key p.1.store ≡ some id) ran
        (serve_all-recorded scope key id (create req ∷ []) w used)

  -- an instance that is created under a key leaves the key recorded for it
  create_started-recorded :
      (m : Machine) (opts : StartOptions) (id : String) (i : WorkflowInstance) (w v : World Tables)
      → (opts.idempotency_key == "") ≡ false
      → create_started (runtime_over ms hs) m opts id w ≡ (ok i, v)
      → recorded_as opts.workflow opts.idempotency_key v.store ≡ some i.id
  unfolding create_started
  create_started-recorded m opts id i w v named done =
      let workflow = opts.workflow in
      let key = opts.idempotency_key in
      let now = env.clock w.readings in
      let new = started m opts id now in
      let (scheduled, a, ran, after_schedule) =
        >>=-ok (schedule_state_tasks (runtime_over ms hs) m new now) _ _ v i done in
      let (_, b, claimed, after_claim) =
        >>=-ok (claim_key (runtime_over ms hs) workflow key new.id) _ a v i after_schedule in
      let (_, used) = claim_key-recorded ms hs workflow key new.id a b named claimed in
      let (_, c, created, after_create) = >>=-ok (create_instance _) _ b v i after_claim in
      let i_eq : new ≡ i = ok-injective (ap (λ p. p.0) after_create) in
      let v_eq : c ≡ v = ap (λ p. p.1) after_create in
      let still = create_instance-recorded workflow key new.id _ _ b c created used in
      subst (λ j. recorded_as workflow key v.store ≡ some j.id) i_eq
        (subst (λ x. recorded_as workflow key x.store ≡ some new.id) v_eq still)

  -- a start that succeeds under a key leaves the key recorded for the instance that it returns
  start_workflow-recorded :
      (opts : StartOptions) (i : WorkflowInstance) (w v : World Tables)
      → (opts.idempotency_key == "") ≡ false
      → start_workflow (runtime_over ms hs) opts w ≡ (ok i, v)
      → recorded_as opts.workflow opts.idempotency_key v.store ≡ some i.id
  unfolding start_workflow
  start_workflow-recorded opts i w v named done =
      let workflow = opts.workflow in
      let key = opts.idempotency_key in
      let (m, a, found, after_find) =
        >>=-ok (lift (find_machine (runtime_over ms hs) workflow opts.version)) _ w v i done in
      let (id, b, drawn, after_draw) = >>=-ok (choose_id opts) _ a v i after_find in
      let (earlier, c, asked, after_ask) =
        >>=-ok (recorded (runtime_over ms hs) workflow key) _ b v i after_draw in
      let (earlier_eq, c_store) =
        get_idempotency-ok workflow key key b c earlier
          (subst (λ m. m b ≡ (ok earlier, c)) (recorded_named ms hs workflow key named) asked) in
      elim (Option-cases earlier) [
        | inl fresh ↦ create_started-recorded m opts id i c v named (rw fresh at after_ask)
        | inr (known, used) ↦
            let got : get_instance known c ≡ (ok i, v) = rw used at after_ask in
            let at_v : v.store ≡ b.store =
              sym (ap (λ p. p.1.store) got) ∙ store-get_instance known c ∙ c_store in
            rw (get_instance-id known c v i got, at_v) (sym earlier_eq ∙ used)
      ]

  chosen_unchanged :
      (b : Bool) (id : String) (w : World Tables)
      → ((if b then new_id "wf" else pure id) w).1.store ≡ w.store
  chosen_unchanged true id w = refl
  chosen_unchanged false id w = refl

  -- under a key that is recorded a start writes nothing
  store-restarted :
      (opts : StartOptions) (known : String) (w : World Tables)
      → (opts.idempotency_key == "") ≡ false
      → recorded_as opts.workflow opts.idempotency_key w.store ≡ some known
      → (start_workflow (runtime_over ms hs) opts w).1.store ≡ w.store
  unfolding start_workflow
  store-restarted opts known w named used =
      let workflow = opts.workflow in
      let key = opts.idempotency_key in
      let reads = recorded_named ms hs workflow key named in
      >>=-unchanged (lift (find_machine (runtime_over ms hs) workflow opts.version)) _ w refl
        λ m found.
          let a = (choose_id opts w).1 in
          let a_store = chosen_unchanged (opts.instance_id == "") opts.instance_id w in
          >>=-unchanged (choose_id opts) _ w a_store λ id drawn.
            >>=-unchanged (recorded (runtime_over ms hs) workflow key) _ a
              (rw reads (store-get_idempotency workflow key a))
              λ earlier asked.
                let b = (recorded (runtime_over ms hs) workflow key a).1 in
                let (earlier_eq, _) =
                  get_idempotency-ok workflow key key a b earlier
                    (subst (λ m. m a ≡ (ok earlier, b)) reads asked) in
                let used_at_a : recorded_as workflow key a.store ≡ some known =
                  subst (λ t. recorded_as workflow key t ≡ some known) (sym a_store) used in
                rw (earlier_eq ∙ used_at_a) (store-get_instance known b)

  -- Over the SQL store, once a start under a key that is not empty has succeeded, another start of the workflow under
  -- this key writes nothing, whatever is asked for in between and whatever the database answers; and if it
  -- succeeds it returns an instance with the id of the first.
  pub start_applied_once :
      (one two : StartOptions) (i : WorkflowInstance) (between : List Request) (w v : World Tables)
      → (one.idempotency_key == "") ≡ false
      → start_workflow (runtime_over ms hs) one w ≡ (ok i, v)
      → two.workflow ≡ one.workflow
      → two.idempotency_key ≡ one.idempotency_key
      → ((start_workflow (runtime_over ms hs) two (serve_all between v)).1.store
          ≡ (serve_all between v).store)
        × HasId i.id (start_workflow (runtime_over ms hs) two (serve_all between v)).0
  start_applied_once one two i between w v named done same_workflow same_key =
      let named_two : (two.idempotency_key == "") ≡ false = rw same_key named in
      let used : recorded_as two.workflow two.idempotency_key (serve_all between v).store
          ≡ some i.id =
        rw (same_workflow, same_key)
          (serve_all-recorded one.workflow one.idempotency_key i.id between v
            (start_workflow-recorded one i w v named done)) in
      let unchanged = store-restarted two i.id (serve_all between v) named_two used in
      (
        unchanged,
        HasId-returned i.id _ λ j done_two.
            let u = (start_workflow (runtime_over ms hs) two (serve_all between v)).1 in
            let after =
              start_workflow-recorded two j (serve_all between v) u named_two
                (ap (λ r. (r, u)) done_two) in
            let both : some j.id ≡ some i.id =
              sym after ∙ ap (recorded_as two.workflow two.idempotency_key) unchanged ∙ used in
            cc,
      )
