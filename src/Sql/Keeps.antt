-- ===== src/Sql/Keeps.antt =====
-- What every part of an action keeps, the action keeps: the rules by which invariants of the tables of
-- persistence/internal/sqlstore/store.go are proved.
pub mod Inserts
pub mod Requests
use fsm_go.Prelude.{
  String, ◌≡◌, refl, Bool, true, false, Option, if◌then◌else◌, Bool-cases, inl, inr, List,
}
use fsm_go.Errors.{Error, Result, ok, err, Result-cases}
use fsm_go.Types.{Time, OutboxMessage}
use fsm_go.World.{
  Env, World, Act, pure, raise, lift, try, on_store, ◌>>=◌, ◌>>◌, continue, wall_now, new_id,
  next_reading,
}
use fsm_go.Sql.Database.{
  Database, Answer, works, refused, lost, wrapped, answered, call, query, close, with_tx,
}

-- `m` keeps `P`, whether it succeeds or fails
pub record Keeps {S A : Type 0} (P : S → Type 0) (m : Act S A) : Type 0 where
  pub at : (w : World S) → P w.store → P (m w).1.store

module _ {S : Type 0} {P : S → Type 0} where
  module _ {A : Type 0} where
    pub Keeps-pure : (a : A) → Keeps P (pure a)
    Keeps-pure a = record { at = λ w h. h }

    pub Keeps-raise : (e : Error) → Keeps P (raise {A = A} e)
    Keeps-raise e = record { at = λ w h. h }

    pub Keeps-lift : (r : Result A) → Keeps P (lift r)
    Keeps-lift r = record { at = λ w h. h }

    pub Keeps-try : {m : Act S A} → Keeps P m → Keeps P (try m)
    Keeps-try k = record { at = k.at }

    pub Keeps-wrapped : (context : String) {m : Act S A} → Keeps P m → Keeps P (wrapped context m)
    Keeps-wrapped context k = record { at = k.at }

    pub Keeps-if : (b : Bool) {m n : Act S A} → Keeps P m → Keeps P n → Keeps P (if b then m else n)
    Keeps-if true k l = k
    Keeps-if false k l = l

    Keeps-answered :
        (a : Answer) (f : S → Result A × S) → ((s : S) → P s → P (f s).1) → Keeps P (answered a f)
    Keeps-answered works f k = record { at = λ w h. k w.store h }
    Keeps-answered (refused text) f k = record { at = λ w h. h }
    Keeps-answered (lost text) f k = record { at = λ w h. k w.store h }

    -- whatever the answer
    pub Keeps-call :
        ⦃db : Database⦄ (f : S → Result A × S) → ((s : S) → P s → P (f s).1) → Keeps P (call f)
    unfolding call
    Keeps-call ⦃db⦄ f k = record {
      at = λ w h. (Keeps-answered (db.answer w.readings) f k).at (next_reading w) h;
    }

    pub Keeps-query : ⦃db : Database⦄ (f : S → Result A) → Keeps P (query f)
    Keeps-query f = Keeps-call (λ s. (f s, s)) (λ s h. h)

  module _ ⦃env : Env⦄ where
    pub Keeps-wall_now : Keeps P wall_now
    Keeps-wall_now = record { at = λ w h. h }

    pub Keeps-new_id : (prefix : String) → Keeps P (new_id prefix)
    Keeps-new_id prefix = record { at = λ w h. h }

  module _ {A B : Type 0} where
    pub Keeps-continue :
        (r : Result A) (f : A → Act S B) → ((a : A) → Keeps P (f a)) → Keeps P (continue r f)
    Keeps-continue (ok a) f k = record { at = λ w h. (k a).at w h }
    Keeps-continue (err e) f k = record { at = λ w h. h }

    pub Keeps-bind :
        {m : Act S A} {f : A → Act S B} → Keeps P m → ((a : A) → Keeps P (f a)) → Keeps P (m >>= f)
    Keeps-bind {m} {f} k l = record {
      at = λ w h. (Keeps-continue (m w).0 f l).at (m w).1 (k.at w h);
    }

  -- a transaction, whose writes are kept, dropped or lost sight of
  Keeps-close :
      ⦃db : Database⦄ (before : S) (r : Result (Unit {0})) → P before → Keeps P (close before r)
  Keeps-close before (err e) h = record {
    at = λ w k. (Keeps-query (λ _. ok tt)).at (record w { store = before }) h;
  }
  Keeps-close before (ok tt) h = record {
    at = λ w k. (Keeps-call (λ _. (ok tt, w.store)) (λ _ _. k)).at (record w { store = before }) h;
  }

  pub Keeps-with_tx : ⦃db : Database⦄ {fn : Act S (Unit {0})} → Keeps P fn → Keeps P (with_tx fn)
  unfolding with_tx
  Keeps-with_tx {fn} k = record {
    at = λ w h.
        (Keeps-continue (query {A = Unit {0}} (λ _. ok tt) w).0
            (λ _ v. let (r, v') = fn v in close v.store r v')
            (λ _. record {
              at = λ v g. (Keeps-close v.store (fn v).0 g).at (fn v).1 (k.at v g);
            })).at
          (query {A = Unit {0}} (λ _. ok tt) w).1
          ((Keeps-query {A = Unit {0}} (λ _. ok tt)).at w h);
  }
