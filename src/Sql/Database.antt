-- ===== src/Sql/Database.antt =====
-- The database behind persistence/internal/sqlstore/store.go, as far as its statements use it. A table is
-- the list of its rows, in the order of their insertion. The server, its driver and the JSON columns
-- are a parameter; what the statements do to the tables is read from their text.
use fsm_go.Prelude.{
  ℤ, pos, negsuc, ℕ, String, append, Bool, ◌&&◌, not, Option, none, some, List, [], ◌∷◌, ◌++◌,
  first, take, if◌then◌else◌,
}
use fsm_go.Dict.{Dict}
use fsm_go.Errors.{Result, ok, err, other, error_text}
use fsm_go.Types.{Any, AnyMap, Time}
use fsm_go.World.{Act, raise, on_store, next_reading, continue}

-- What becomes of a call of the database: it is carried out, or refused with an error, or carried out while
-- the answer is lost, so that the caller sees an error.
pub data Answer : Type 0 where
  works : Answer
  refused : String → Answer
  lost : String → Answer

-- the statements that a sound connection refuses
pub data Violation : Type 0 where
  duplicate_key : String → Violation
  negative_limit : Violation

pub record Database : Type 0 where
  -- the fate of a call, by the number of readings before it
  pub answer : ℕ → Answer
  pub complaint : Violation → String
  -- Whether the number of rows that an UPDATE reports is that of the rows that it changed, as MySQL's driver has
  -- it by default, or of those that it matched, as PostgreSQL has it; and whether a JSON column counts a
  -- text as the one that it holds.
  pub reports_changed : Bool
  pub same_json : String → String → Bool
  -- the instant that a column keeps of the one written
  pub kept_time : Time → Time
  -- the order of texts in ORDER BY
  pub text_before : String → String → Bool
  -- what is written to a JSON column, and what is read from one
  pub encode : Dict Any → Result String
  pub decode : String → Result AnyMap

-- fmt.Errorf(context + "%w", err)
abbrev pub wrap : {A : Type 0} → String → Result A → Result A
wrap context (ok a) = ok a
wrap context (err e) = err (other (append context (error_text e)))

module _ {S A : Type 0} where
  abbrev pub wrapped : String → Act S A → Act S A
  wrapped context m w = let (r, w') = m w in (wrap context r, w')

  abbrev pub answered : Answer → (S → Result A × S) → Act S A
  answered works f w = on_store f w
  answered (refused text) f w = raise (other text) w
  answered (lost text) f w = let (r, w') = on_store f w in (err (other text), w')

  -- one call of the database
  unfoldable pub call : ⦃db : Database⦄ → (S → Result A × S) → Act S A
  call ⦃db⦄ f w = answered (db.answer w.readings) f (next_reading w)

-- a statement that only reads
abbrev pub query : ⦃db : Database⦄ {S A : Type 0} → (S → Result A) → Act S A
query f = call (λ s. (f s, s))

module _ {S : Type 0} ⦃db : Database⦄ where
  -- `Rollback` and `Commit` of database/sql, for a transaction that began with the store `before`: the former undoes
  -- what the transaction has written, the latter puts it in place at once.
  abbrev pub rollback : S → Act S (Unit {0})
  rollback before w = query (λ _. ok tt) (record w { store = before })

  abbrev pub commit : S → Act S (Unit {0})
  commit before w = call (λ _. (ok tt, w.store)) (record w { store = before })

  -- the end of a transaction: the rollback's own error is dropped
  abbrev pub close : S → Result (Unit {0}) → Act S (Unit {0})
  close before (err e) w = let (_, w') = rollback before w in (err e, w')
  close before (ok _) w = commit before w

  -- begin, fn, then rollback or commit
  unfoldable pub with_tx : Act S (Unit {0}) → Act S (Unit {0})
  with_tx fn w =
      let (begun, w') = query (λ _. ok tt) w in
      continue begun (λ _ v. let (r, v') = fn v in close v.store r v') w'

module _ {A : Type 0} where
  -- the table with the new row behind the others, unless a row has its key
  abbrev add_free : ⦃db : Database⦄ → String → Option A → A → List A → Result (List A)
  add_free ⦃db⦄ table (some _) row rows = err (other (db.complaint (duplicate_key table)))
  add_free table none row rows = ok (rows ++ row ∷ [])

  -- INSERT, into a table with a primary key: `same` tells the rows of the new row's key
  abbrev pub insert_row : ⦃db : Database⦄ → String → (A → Bool) → A → List A → Result (List A)
  insert_row table same row rows = add_free table (first same rows) row rows

  -- UPDATE ... SET ... WHERE
  abbrev pub update_rows : (A → Bool) → (A → A) → List A → List A
  update_rows matches set [] = []
  update_rows matches set (row ∷ rows) =
      (if matches row then set row else row) ∷ update_rows matches set rows

  -- the rows that an UPDATE reports, where `same` tells those that it leaves as they are
  abbrev pub is_counted : ⦃db : Database⦄ → (A → Bool) → (A → Bool) → A → Bool
  is_counted ⦃db⦄ matches same row = matches row && not (db.reports_changed && same row)

  -- LIMIT
  abbrev pub limit_rows : ⦃db : Database⦄ → ℤ → List A → Result (List A)
  limit_rows (pos n) rows = ok (take n rows)
  limit_rows ⦃db⦄ (negsuc _) rows = err (other (db.complaint negative_limit))

-- a table's new rows in place, or the error
abbrev pub placed : {A S : Type 0} → Result A → (A → S) → S → Result (Unit {0}) × S
placed (ok rows) put s = (ok tt, put rows)
placed (err e) put s = (err e, s)
