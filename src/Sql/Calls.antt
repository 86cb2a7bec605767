-- ===== src/Sql/Calls.antt =====
-- What is known of the parts of an action that succeeded: calls of the database, insertions and bound actions
-- in persistence/internal/sqlstore/store.go.
use fsm_go.Prelude.{
  String, ◌≡◌, refl, sym, ap, inl, inr, Bool, true, false, none, List, [], ◌∷◌, ◌++◌, first,
  Option-cases, if◌then◌else◌,
}
use fsm_go.Errors.{Error, Result, ok, err, ok-injective}
use fsm_go.World.{World, Act, lift, raise, try, ◌>>=◌, continue, next_reading}
use fsm_go.Sql.Database.{
  Database, Answer, works, refused, lost, wrap, wrapped, answered, call, insert_row, placed,
}

module _ {R : Type 0} ⦃db : Database⦄ where
  pub insert_row-ok :
      (table : String) (same : R → Bool) (row : R) (rows rows' : List R)
      → insert_row table same row rows ≡ ok rows'
      → (first same rows ≡ none) × (rows' ≡ rows ++ row ∷ [])
  insert_row-ok table same row rows rows' h = elim (Option-cases (first same rows)) [
    | inl e ↦ (e, sym (ok-injective (rw e at h)))
    | inr (r, e) ↦ absurd (let no : err _ ≡ ok rows' = rw e at h in cc)
  ]

module _ {A S : Type 0} where
  pub placed-keeps :
      (P : S → Type 0) (r : Result A) (put : A → S) (s : S)
      → P s
      → ((rows : A) → r ≡ ok rows → P (put rows))
      → P (placed r put s).1
  placed-keeps P (ok rows) put s h k = k rows refl
  placed-keeps P (err e) put s h k = h

  pub placed-ok :
      (r : Result A) (put : A → S) (s s' : S)
      → placed r put s ≡ (ok tt, s')
      → (rows : A) × (r ≡ ok rows) × (s' ≡ put rows)
  placed-ok (ok rows) put s s' h = (rows, refl, sym (ap (λ p. p.1) h))
  placed-ok (err e) put s s' h = absurd (let no : err e ≡ ok tt = ap (λ p. p.0) h in cc)

wrap-ok : {A : Type 0} (context : String) (r : Result A) (x : A) → wrap context r ≡ ok x → r ≡ ok x
wrap-ok context (ok y) x h = h
wrap-ok context (err e) x h = absurd (let no : err _ ≡ ok x = h in cc)

module _ {S A : Type 0} where
  answered-ok :
      (a : Answer) (f : S → Result A × S) (w w' : World S) (x : A)
      → answered a f w ≡ (ok x, w')
      → f w.store ≡ (ok x, w'.store)
  answered-ok works f w w' x h = ap (λ p. (p.0, p.1.store)) h
  answered-ok (refused text) f w w' x h = absurd (let no : err _ ≡ ok x = ap (λ p. p.0) h in cc)
  answered-ok (lost text) f w w' x h = absurd (let no : err _ ≡ ok x = ap (λ p. p.0) h in cc)

  -- a call that succeeded did what its statement does
  pub call-ok :
      ⦃db : Database⦄ (f : S → Result A × S) (w w' : World S) (x : A)
      → call f w ≡ (ok x, w')
      → f w.store ≡ (ok x, w'.store)
  unfolding call
  call-ok ⦃db⦄ f w w' x h = answered-ok (db.answer w.readings) f (next_reading w) w' x h

  pub wrapped-ok :
      (context : String) (m : Act S A) (w w' : World S) (x : A)
      → wrapped context m w ≡ (ok x, w')
      → m w ≡ (ok x, w')
  wrapped-ok context m w w' x h =
      let first_eq = wrap-ok context (m w).0 x (ap (λ p. p.0) h) in
      let second_eq : (m w).1 ≡ w' = ap (λ p. p.1) h in rw (← first_eq, ← second_eq) refl

module _ {S A B : Type 0} where
  continue-ok :
      (r : Result A) (f : A → Act S B) (w w' : World S) (y : B)
      → continue r f w ≡ (ok y, w')
      → (x : A) × (r ≡ ok x) × (f x w ≡ (ok y, w'))
  continue-ok (ok a) f w w' y h = (a, refl, h)
  continue-ok (err e) f w w' y h = absurd (let no : err _ ≡ ok y = ap (λ p. p.0) h in cc)

  -- an action that succeeded went through its first step
  pub >>=-ok :
      (m : Act S A) (f : A → Act S B) (w w' : World S) (y : B)
      → (m >>= f) w ≡ (ok y, w')
      → (x : A) × (v : World S) × (m w ≡ (ok x, v)) × (f x v ≡ (ok y, w'))
  >>=-ok m f w w' y h =
      let (x, e, k) = continue-ok (m w).0 f (m w).1 w' y h in (x, (m w).1, rw (← e) refl, k)

-- `if bad { return err }`
pub guarded-ok :
    {S A : Type 0} (b : Bool) (m : Act S A) (e : Error) (w w' : World S) (y : A)
    → (if b then m else raise e) w ≡ (ok y, w')
    → (b ≡ true) × (m w ≡ (ok y, w'))
guarded-ok true m e w w' y h = (refl, h)
guarded-ok false m e w w' y h = absurd (let no : err e ≡ ok y = ap (λ p. p.0) h in cc)

pub try-ok :
    {S A : Type 0} (m : Act S A) (w v : World S) (r : Result A) → try m w ≡ (ok r, v) → m w ≡ (r, v)
try-ok m w v r h =
    let result_eq : (m w).0 ≡ r = ok-injective (ap (λ p. p.0) h) in
    let world_eq : (m w).1 ≡ v = ap (λ p. p.1) h in rw (← result_eq, ← world_eq) refl

pub >>=-run :
    {S A B : Type 0} (m : Act S A) (f : A → Act S B) (w v : World S) (x : A)
    → m w ≡ (ok x, v)
    → (m >>= f) w ≡ f x v
>>=-run m f w v x h = rw h refl

pub lift-run :
    {S A B : Type 0} (r : Result A) (f : A → Act S B) (w : World S) (x : A)
    → r ≡ ok x
    → (lift r >>= f) w ≡ f x w
lift-run r f w x h = rw h refl
