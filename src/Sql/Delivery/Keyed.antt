-- ===== src/Sql/Delivery/Keyed.antt =====
-- The keys of workflow/runtime.go over the store of persistence/internal/sqlstore/store.go.
use fsm_go.Prelude.{String, ◌≡◌, refl, sym, ap, ◌∙◌, true, false, some, ◌==◌}
use fsm_go.Dict.{Dict}
use fsm_go.Errors.{Result, ok, err}
use fsm_go.World.{Env, World, Act, pure, continue, ◌>>=◌}
use fsm_go.Compiler.{Machine}
use fsm_go.Runtime.Base.{Runtime, TaskHandler}
use fsm_go.Runtime.Commands.{claim_key, recorded}
use fsm_go.Sql.Database.{Database}
use fsm_go.Sql.Rows.{Tables}
use fsm_go.Sql.Writes.{record_idempotency, get_idempotency}
use fsm_go.Sql.Reads.{sql_store}
use fsm_go.Sql.Calls.{>>=-ok, guarded-ok}
use fsm_go.Sql.Idempotency.{recorded_as, record_idempotency-answer, is_answer-recorded}

module _ {S A B : Type 0} where
  continue-unchanged :
      (r : Result A) (f : A → Act S B) (w : World S)
      → ((a : A) → r ≡ ok a → (f a w).1.store ≡ w.store)
      → (continue r f w).1.store ≡ w.store
  continue-unchanged (ok a) f w h = h a refl
  continue-unchanged (err e) f w h = refl

  -- two actions that leave the store as it is
  pub >>=-unchanged :
      (m : Act S A) (f : A → Act S B) (w : World S)
      → (m w).1.store ≡ w.store
      → ((a : A) → m w ≡ (ok a, (m w).1) → (f a (m w).1).1.store ≡ (m w).1.store)
      → ((m >>= f) w).1.store ≡ w.store
  >>=-unchanged m f w h k =
      continue-unchanged (m w).0 f (m w).1 (λ a e. k a (ap (λ r. (r, (m w).1)) e)) ∙ h

module _ ⦃env : Env⦄ ⦃db : Database⦄ (ms : Dict Machine) (hs : Dict (TaskHandler Tables)) where
  abbrev pub runtime_over : Runtime Tables
  runtime_over = record { store = sql_store; machines = ms; handlers = hs }

  pub claim_key-recorded :
      (workflow key id : String) (w v : World Tables)
      → (key == "") ≡ false
      → claim_key runtime_over workflow key id w ≡ (ok tt, v)
      → (record_idempotency workflow key id w ≡ (ok true, v))
        × (recorded_as workflow key v.store ≡ some id)
  unfolding claim_key
  claim_key-recorded workflow key id w v named done =
      let (fresh, u, asked, rest) =
        >>=-ok (record_idempotency workflow key id) _ w v tt (rw named at done) in
      let (is_fresh, ended) = guarded-ok fresh (pure tt) _ u v tt rest in
      let same : u ≡ v = ap (λ p. p.1) ended in
      let ran : record_idempotency workflow key id w ≡ (ok true, v) =
        asked ∙ rw (is_fresh, same) refl in
      (
        ran,
        is_answer-recorded id (recorded_as workflow key v.store)
            (sym (record_idempotency-answer workflow key id w v true ran)),
      )

  pub recorded_named :
      (workflow key : String)
      → (key == "") ≡ false
      → recorded runtime_over workflow key ≡ get_idempotency workflow key
  unfolding recorded
  recorded_named workflow key named = rw named refl
