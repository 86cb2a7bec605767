-- ===== src/Sql/Atomic.antt =====
-- Transactions of persistence/internal/sqlstore/store.go: `withTx`, and what a call that succeeded did.
use fsm_go.Prelude.{String, ◌≡◌, refl, ◌⊎◌, inl, inr, false}
use fsm_go.Errors.{Error, Result, ok, err, other, is_ok}
use fsm_go.World.{World, Act, next_reading}
use fsm_go.Sql.Database.{Database, Answer, works, refused, lost, call, query, close, with_tx}

pub answer-cases :
    (a : Answer)
    → (a ≡ works) ⊎ (((text : String) × (a ≡ refused text)) ⊎ ((text : String) × (a ≡ lost text)))
answer-cases works = inl refl
answer-cases (refused text) = inr (inl (text, refl))
answer-cases (lost text) = inr (inr (text, refl))

-- how a transaction with the body `fn` was run from `w`, and what came of it
pub data Transacts {S : Type 0} ⦃db : Database⦄ (fn : Act S (Unit {0})) (w : World S)
    (done : Result (Unit {0}) × World S) : Type 0 where
  committed :
      (x : World S)
      → db.answer w.readings ≡ works
      → fn (next_reading w) ≡ (ok tt, x)
      → db.answer x.readings ≡ works
      → done.0 ≡ ok tt
      → done.1.store ≡ x.store
      → Transacts fn w done
  not_begun :
      (text : String)
      → (db.answer w.readings ≡ refused text) ⊎ (db.answer w.readings ≡ lost text)
      → done.0 ≡ err (other text)
      → done.1.store ≡ w.store
      → Transacts fn w done
  rolled_back :
      (e : Error) (x : World S)
      → db.answer w.readings ≡ works
      → fn (next_reading w) ≡ (err e, x)
      → done.0 ≡ err e
      → done.1.store ≡ w.store
      → Transacts fn w done
  commit_refused :
      (x : World S) (text : String)
      → db.answer w.readings ≡ works
      → fn (next_reading w) ≡ (ok tt, x)
      → db.answer x.readings ≡ refused text
      → done.0 ≡ err (other text)
      → done.1.store ≡ w.store
      → Transacts fn w done
  commit_lost :
      (x : World S) (text : String)
      → db.answer w.readings ≡ works
      → fn (next_reading w) ≡ (ok tt, x)
      → db.answer x.readings ≡ lost text
      → done.0 ≡ err (other text)
      → done.1.store ≡ x.store
      → Transacts fn w done

module _ {S : Type 0} ⦃db : Database⦄ where
  -- `v` holds what all of `fn`, begun in `w`, has written
  abbrev pub Commits : Act S (Unit {0}) → World S → World S → Type 0
  Commits fn w v = (x : World S) × (fn (next_reading w) ≡ (ok tt, x)) × (v.store ≡ x.store)

  abbrev pub AllOrNothing : Act S (Unit {0}) → World S → Result (Unit {0}) × World S → Type 0
  AllOrNothing fn w done =
      ((done.0 ≡ ok tt) × Commits fn w done.1)
      ⊎ ((is_ok done.0 ≡ false) × ((done.1.store ≡ w.store) ⊎ Commits fn w done.1))

  -- a call that reads nothing and writes nothing
  store-idle : (w : World S) → ((query {A = Unit {0}} (λ _. ok tt) w).1.store ≡ w.store)
  unfolding call
  store-idle w = elim (answer-cases (db.answer w.readings)) [
    | inl e ↦ rw e refl
    | inr (inl (text, e)) ↦ rw e refl
    | inr (inr (text, e)) ↦ rw e refl
  ]

  close-Transacts :
      (fn : Act S (Unit {0})) (w v : World S) (r : Result (Unit {0}))
      → db.answer w.readings ≡ works
      → fn (next_reading w) ≡ (r, v)
      → Transacts fn w (close w.store r v)
  unfolding call
  close-Transacts fn w v (err e) begun ran =
      rolled_back e v begun ran refl (store-idle (record v { store = w.store }))
  close-Transacts fn w v (ok tt) begun ran = elim (answer-cases (db.answer v.readings)) [
    | inl e ↦ rw e (committed v begun ran e refl refl)
    | inr (inl (text, e)) ↦ rw e (commit_refused v text begun ran e refl refl)
    | inr (inr (text, e)) ↦ rw e (commit_lost v text begun ran e refl refl)
  ]

  -- A transaction is run in one of five ways: its body succeeds and the commit works, so that it succeeds and what
  -- the body has written stands; or it cannot begin, or its body fails, or the commit is refused, so that it
  -- fails with the error of that step and nothing is written; or the commit is carried out and its answer is
  -- lost, so that it fails though all of it is written.
  pub with_tx-Transacts : (fn : Act S (Unit {0})) (w : World S) → Transacts fn w (with_tx fn w)
  unfolding with_tx call
  with_tx-Transacts fn w = elim (answer-cases (db.answer w.readings)) [
    | inl e ↦ rw e (close-Transacts fn w (fn (next_reading w)).1 (fn (next_reading w)).0 e refl)
    | inr (inl (text, e)) ↦ rw e (not_begun text (inl e) refl refl)
    | inr (inr (text, e)) ↦ rw e (not_begun text (inr e) refl refl)
  ]

  Transacts-AllOrNothing :
      (fn : Act S (Unit {0})) (w : World S) (done : Result (Unit {0}) × World S)
      → Transacts fn w done
      → AllOrNothing fn w done
  Transacts-AllOrNothing fn w done (committed x begun ran fate result stands) =
      inl (result, (x, ran, stands))
  Transacts-AllOrNothing fn w done (not_begun text fate result stands) =
      inr (rw result refl, inl stands)
  Transacts-AllOrNothing fn w done (rolled_back e x begun ran result stands) =
      inr (rw result refl, inl stands)
  Transacts-AllOrNothing fn w done (commit_refused x text begun ran fate result stands) =
      inr (rw result refl, inl stands)
  Transacts-AllOrNothing fn w done (commit_lost x text begun ran fate result stands) =
      inr (rw result refl, inr (x, ran, stands))

  pub with_tx-AllOrNothing :
      (fn : Act S (Unit {0})) (w : World S) → AllOrNothing fn w (with_tx fn w)
  with_tx-AllOrNothing fn w = Transacts-AllOrNothing fn w (with_tx fn w) (with_tx-Transacts fn w)
