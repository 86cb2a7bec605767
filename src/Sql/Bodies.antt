-- ===== src/Sql/Bodies.antt =====
-- What the bodies of transactions did where they succeeded: `UpdateInstance` of
-- persistence/internal/sqlstore/store.go.
use fsm_go.Prelude.{String, eqb, ◌≡◌, sym, ap, subst, true, length, keep}
use fsm_go.Errors.{ok, concurrent_update, ok-injective}
use fsm_go.Types.{UpdateInstanceRequest}
use fsm_go.World.{Env, World, lift}
use fsm_go.Sql.Database.{Database, wrapped, call, update_rows}
use fsm_go.Sql.Rows.{Tables, marshal}
use fsm_go.Sql.Writes.{
  at_revision, is_counted_instance, set_instance, update_instance_row, append_all, update_body,
}
use fsm_go.Sql.Calls.{>>=-ok, call-ok, wrapped-ok, guarded-ok}
use fsm_go.Sql.Carries.{lift-ok}

module _ ⦃env : Env⦄ ⦃db : Database⦄ where
  -- the update counted one row, and what follows succeeded
  pub update_body-ok :
      (req : UpdateInstanceRequest) (w w' : World Tables)
      → update_body req w ≡ (ok tt, w')
      → (raw : String) × (u : World Tables) × (marshal req.instance.fields ≡ ok raw)
        × (eqb
              (length (
                keep
                  (is_counted_instance req.instance raw req.expected_revision)
                  w.store.instances))
              1
            ≡ true)
        × (u.store ≡ record w.store {
          instances =
              update_rows
                (at_revision req.instance.id req.expected_revision)
                (set_instance req.instance raw)
                w.store.instances;
        })
        × (append_all req.history req.tasks req.outbox u ≡ (ok tt, w'))
  unfolding update_body
  update_body-ok req w w' done =
      let (raw, v, lifted, rest) = >>=-ok (lift (marshal req.instance.fields)) _ w w' tt done in
      let (raw_eq, world_eq) = lift-ok (marshal req.instance.fields) w v raw lifted in
      let statement = update_instance_row req.instance raw req.expected_revision in
      let (affected, u, updated, last) =
        >>=-ok (wrapped "update workflow instance: " (call statement)) _ v w' tt rest in
      let ran =
        subst (λ x. statement x.store ≡ (ok affected, u.store)) (sym world_eq)
          (call-ok statement v u affected (wrapped-ok _ (call statement) v u affected updated)) in
      let (one, appending) =
        guarded-ok (eqb affected 1) (append_all req.history req.tasks req.outbox)
          (concurrent_update req.instance.id) u w' tt last in
      (
        raw,
        u,
        raw_eq,
        subst (λ n. eqb n 1 ≡ true) (sym (ok-injective (ap (λ p. p.0) ran))) one,
        sym (ap (λ p. p.1) ran),
        appending,
      )
