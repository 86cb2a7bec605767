-- ===== src/Sql/Delivery/Signals.antt =====
-- `SignalWorkflow` of workflow/runtime.go over the store of persistence/internal/sqlstore/store.go: a signal under a
-- key is applied once.
use fsm_go.Prelude.{
  ◌≡◌, refl, sym, ap, ◌∙◌, subst, Bool, true, false, some, List, [], ◌∷◌, ◌==◌, if◌then◌else◌,
  Option-cases, inl, inr,
}
use fsm_go.Dict.{Dict}
use fsm_go.Errors.{idempotent_conflict, Error, ok}
use fsm_go.Types.{WorkflowInstance, SignalOptions}
use fsm_go.World.{Env, World, pure, raise, lift}
use fsm_go.Compiler.{Machine}
use fsm_go.Runtime.Base.{TaskHandler, find_machine}
use fsm_go.Runtime.Advance.{apply_event}
use fsm_go.Runtime.Advance.Outcome.{store-apply_event}
use fsm_go.Runtime.Commands.{claim_key, recorded, apply_signal, signal_workflow}
use fsm_go.Runtime.Commands.Signal.{signal_request}
use fsm_go.Sql.Database.{Database}
use fsm_go.Sql.Rows.{Tables}
use fsm_go.Sql.Writes.{get_idempotency, update_instance}
use fsm_go.Sql.Reads.{get_instance}
use fsm_go.Sql.Calls.{>>=-ok, guarded-ok}
use fsm_go.Sql.Requests.{Request, update, record_key, serve, serve_all}
use fsm_go.Sql.Keeps.{Keeps-query}
use fsm_go.Sql.Idempotency.{recorded_as, get_idempotency-ok}
use fsm_go.Sql.Delivery.Keyed.{>>=-unchanged, runtime_over, claim_key-recorded, recorded_named}
use fsm_go.Sql.Delivery.{IsUsed, workflow_in, serve_all-workflow, serve_all-IsUsed, get_instance-ok}

module _ ⦃env : Env⦄ ⦃db : Database⦄ (ms : Dict Machine) (hs : Dict (TaskHandler Tables)) where
  -- a signal that is applied under a key leaves the key recorded
  apply_signal-IsUsed :
      (instance i : WorkflowInstance) (opts : SignalOptions) (w v : World Tables)
      → (opts.idempotency_key == "") ≡ false
      → workflow_in opts.instance_id w.store ≡ some instance.workflow
      → apply_signal (runtime_over ms hs) instance opts w ≡ (ok i, v)
      → IsUsed opts.instance_id opts.idempotency_key v.store
  unfolding apply_signal serve serve_all
  apply_signal-IsUsed instance i opts w v named there done =
      let id = opts.instance_id in
      let key = opts.idempotency_key in
      let workflow = instance.workflow in
      let (m, a, found, after_find) =
        >>=-ok (lift (find_machine (runtime_over ms hs) workflow instance.version)) _ w v i done in
      let a_eq : w ≡ a = ap (λ p. p.1) found in
      let (step, b, stepped, after_step) =
        >>=-ok (apply_event (runtime_over ms hs) m instance opts.event opts.payload) _ a v i
          after_find in
      let b_store : b.store ≡ w.store =
        sym (ap (λ p. p.1.store) stepped)
        ∙ store-apply_event (runtime_over ms hs) m instance opts.event opts.payload a
            (ap (λ p. p.0) found)
        ∙ sym (ap (λ x. x.store) a_eq) in
      let (_, c, claimed, after_claim) =
        >>=-ok (claim_key (runtime_over ms hs) workflow key instance.id) _ b v i after_step in
      let (recording, used) = claim_key-recorded ms hs workflow key instance.id b c named claimed in
      let (_, d, updated, after_update) =
        >>=-ok (update_instance (signal_request instance step)) _ c v i after_claim in
      let d_eq : d ≡ v = ap (λ p. p.1) after_update in
      let there_at_c : workflow_in id c.store ≡ some workflow =
        subst (λ p. workflow_in id p.1.store ≡ some workflow) recording
          (serve_all-workflow id workflow (record_key workflow key instance.id ∷ []) b
            (subst (λ t. workflow_in id t ≡ some workflow) (sym b_store) there)) in
      subst (λ x. IsUsed id key x.store) d_eq
        (subst (λ p. IsUsed id key p.1.store) updated
          (serve_all-IsUsed id key (update (signal_request instance step) ∷ []) c
            (workflow, instance.id, there_at_c, used)))

  -- a signal that succeeds under a key leaves the key recorded
  signal_workflow-IsUsed :
      (opts : SignalOptions) (i : WorkflowInstance) (w v : World Tables)
      → (opts.idempotency_key == "") ≡ false
      → signal_workflow (runtime_over ms hs) opts w ≡ (ok i, v)
      → IsUsed opts.instance_id opts.idempotency_key v.store
  unfolding signal_workflow
  signal_workflow-IsUsed opts i w v named done =
      let id = opts.instance_id in
      let key = opts.idempotency_key in
      let (j, a, got, after_get) = >>=-ok (get_instance id) _ w v i done in
      let (there, a_store) = get_instance-ok id w a j got in
      let there_at_a : workflow_in id a.store ≡ some j.workflow =
        subst (λ t. workflow_in id t ≡ some j.workflow) (sym a_store) there in
      let (earlier, b, asked, after_ask) =
        >>=-ok (recorded (runtime_over ms hs) j.workflow key) _ a v i after_get in
      let (earlier_eq, b_store) =
        get_idempotency-ok j.workflow key key a b earlier
          (subst (λ m. m a ≡ (ok earlier, b)) (recorded_named ms hs j.workflow key named) asked) in
      let there_at_b : workflow_in id b.store ≡ some j.workflow =
        subst (λ t. workflow_in id t ≡ some j.workflow) (sym b_store) there_at_a in
      elim (Option-cases earlier) [
        | inl fresh ↦ apply_signal-IsUsed j i opts b v named there_at_b (rw fresh at after_ask)
        | inr (known, used) ↦
            let (_, ended) = guarded-ok (known == id) (pure j) _ b v i (rw used at after_ask) in
            subst (λ x. IsUsed id key x.store) (ap (λ p. p.1) ended)
              (
                j.workflow,
                known,
                there_at_b,
                subst (λ t. recorded_as j.workflow key t ≡ some known) (sym b_store)
                    (sym earlier_eq ∙ used),
              )
      ]

  settled :
      (b : Bool) (j : WorkflowInstance) (e : Error) (w : World Tables)
      → ((if b then pure j else raise e) w).1.store ≡ w.store
  settled true j e w = refl
  settled false j e w = refl

  -- under a key that is recorded a signal writes nothing
  store-replayed :
      (opts : SignalOptions) (w : World Tables)
      → (opts.idempotency_key == "") ≡ false
      → IsUsed opts.instance_id opts.idempotency_key w.store
      → (signal_workflow (runtime_over ms hs) opts w).1.store ≡ w.store
  unfolding signal_workflow get_instance get_idempotency
  store-replayed opts w named (workflow, known, there, used) =
      let id = opts.instance_id in
      let key = opts.idempotency_key in
      let u = (get_instance id w).1 in
      >>=-unchanged (get_instance id) _ w ((Keeps-query {P = λ t. t ≡ w.store} _).at w refl)
        λ j got.
          let (column_eq, u_store) = get_instance-ok id w u j got in
          let workflow_eq : workflow ≡ j.workflow =
            let both : some workflow ≡ some j.workflow = sym there ∙ column_eq in cc in
          let used_at_u : recorded_as j.workflow key u.store ≡ some known =
            subst (λ scope. recorded_as scope key u.store ≡ some known) workflow_eq
              (subst (λ t. recorded_as workflow key t ≡ some known) (sym u_store) used) in
          let reads = recorded_named ms hs j.workflow key named in
          >>=-unchanged (recorded (runtime_over ms hs) j.workflow key) _ u
            (rw reads ((Keeps-query {P = λ t. t ≡ u.store} _).at u refl))
            λ earlier asked.
              let v = (recorded (runtime_over ms hs) j.workflow key u).1 in
              let (earlier_eq, _) =
                get_idempotency-ok j.workflow key key u v earlier
                  (subst (λ m. m u ≡ (ok earlier, v)) reads asked) in
              rw (earlier_eq ∙ used_at_u) (settled (known == id) j (idempotent_conflict key) v)

  -- Over the SQL store, once a signal under a key that is not empty has succeeded, another signal under this key for
  -- the instance writes nothing, whatever is asked for in between and whatever the database answers.
  pub signal_applied_once :
      (one two : SignalOptions) (i : WorkflowInstance) (between : List Request) (w v : World Tables)
      → (one.idempotency_key == "") ≡ false
      → signal_workflow (runtime_over ms hs) one w ≡ (ok i, v)
      → two.instance_id ≡ one.instance_id
      → two.idempotency_key ≡ one.idempotency_key
      → (signal_workflow (runtime_over ms hs) two (serve_all between v)).1.store
        ≡ (serve_all between v).store
  signal_applied_once one two i between w v named done same_id same_key =
      store-replayed two (serve_all between v) (rw same_key named) (
        rw (same_id, same_key)
          (serve_all-IsUsed one.instance_id one.idempotency_key between v
            (signal_workflow-IsUsed one i w v named done)))
