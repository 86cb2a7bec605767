-- ===== src/Sql/Shown.antt =====
-- When the tables hold what a store in memory holds: the relation by which
-- persistence/internal/sqlstore/store.go is compared with workflowtest/memory_store.go.
pub mod Statements
pub mod Updates
pub mod Completions
use fsm_go.Prelude.{
  ℕ, String, ◌≡◌, refl, sym, ap, ◌∙◌, subst, Bool, true, false, ◌&&◌, Option, none, some, List, [],
  ◌∷◌, ◌++◌, map, arith, ◌==◌, eq_iff, eq_refl, if◌then◌else◌, Bool-cases, Option-cases, inl, inr,
  first, keep,
}
use mathlib.Core.Option
use fsm_go.Dict.{Dict, lookup, insert}
use fsm_go.Dict.Laws.{lookup-insert, lookup-insert_self, AreDistinct, IsNew}
use fsm_go.Errors.{Result, ok, err}
use fsm_go.Sql.Database.{Database, insert_row, update_rows}
use fsm_go.Sql.Rows.{Tables, scan_instance, scan_task, scan_history, scan_outbox, scan_rows}
use fsm_go.Sql.Writes.{has_key, result_of}
use fsm_go.Memory.{MemoryStore, scoped}

module _ {R A : Type 0} (scan : R → Result A) (key : R → String) where
  -- what a query for one row finds is what a map holds
  abbrev pub Seen : Option R → Option A → Type 0
  Seen none none = Unit {0}
  Seen (some row) (some a) = scan row ≡ ok a
  Seen _ _ = ⊥

  abbrev pub with_key : String → R → Bool
  with_key id row = key row == id

  abbrev pub Holds : List R → Dict A → Type 0
  Holds rows d = (id : String) → Seen (first (with_key id) rows) (lookup id d)

  first-append_other :
      (id : String) (rows : List R) (row : R)
      → with_key id row ≡ false
      → first (with_key id) (rows ++ row ∷ []) ≡ first (with_key id) rows
  first-append_other id [] row h = rw h refl
  first-append_other id (r ∷ rows) row h = elim (Bool-cases (with_key id r)) [
    | inl e ↦ rw e refl
    | inr e ↦ rw e (first-append_other id rows row h)
  ]

  first-append_new :
      (id : String) (rows : List R) (row : R)
      → first (with_key id) rows ≡ none
      → with_key id row ≡ true
      → first (with_key id) (rows ++ row ∷ []) ≡ some row
  first-append_new id [] row h k = rw k refl
  first-append_new id (r ∷ rows) row h k = elim (Bool-cases (with_key id r)) [
    | inl e ↦ absurd (let no : some r ≡ none = rw e at h in cc)
    | inr e ↦ rw e (first-append_new id rows row (rw e at h) k)
  ]

  -- a row under a new key is seen as a write of the map
  pub Holds-insert :
      (rows : List R) (d : Dict A) (row : R) (a : A)
      → Holds rows d
      → scan row ≡ ok a
      → first (with_key (key row)) rows ≡ none
      → Holds (rows ++ row ∷ []) (insert (key row) a d)
  Holds-insert rows d row a h scanned fresh id = elim (Bool-cases (key row == id)) [
    | inl e ↦
        subst (λ i. Seen (first (with_key i) (rows ++ row ∷ [])) (lookup i (insert (key row) a d)))
          ((eq_iff (key row) id).0 e)
          (rw (first-append_new (key row) rows row fresh (eq_refl (key row)), lookup-insert_self)
            scanned)
    | inr e ↦ rw (first-append_other id rows row e, lookup-insert, e) (h id)
  ]

  module _ (matches : R → Bool) (set : R → R) (keeps_key : (r : R) → key (set r) ≡ key r) where
    abbrev set_where : R → R
    set_where r = if matches r then set r else r

    key-set_where : (r : R) → key (set_where r) ≡ key r
    key-set_where r = elim (Bool-cases (matches r)) [
      | inl e ↦ rw e (keeps_key r)
      | inr e ↦ rw e refl
    ]

    pub first-update_rows :
        (id : String) (rows : List R)
        → first (with_key id) (update_rows matches set rows)
          ≡ Option.map set_where (first (with_key id) rows)
    first-update_rows id [] = refl
    first-update_rows id (r ∷ rows) = elim (Bool-cases (with_key id r)) [
      | inl e ↦ rw (key-set_where r, e) refl
      | inr e ↦ rw (key-set_where r, e) (first-update_rows id rows)
    ]

    first-update_other :
        (id : String) (rows : List R)
        → ((r : R) → key r == id ≡ true → matches r ≡ false)
        → first (with_key id) (update_rows matches set rows) ≡ first (with_key id) rows
    first-update_other id [] spare = refl
    first-update_other id (r ∷ rows) spare = elim (Bool-cases (with_key id r)) [
      | inl e ↦ rw (spare r e, e) refl
      | inr e ↦ rw (key-set_where r, e) (first-update_other id rows spare)
    ]

    -- A statement that sets the row of one key, and no other, is seen as a write of the map.
    pub Holds-update_rows :
        (rows : List R) (d : Dict A) (row : R) (a : A)
        → Holds rows d
        → first (with_key (key row)) rows ≡ some row
        → matches row ≡ true
        → ((r : R) → key row == key r ≡ false → matches r ≡ false)
        → scan (set row) ≡ ok a
        → Holds (update_rows matches set rows) (insert (key row) a d)
    Holds-update_rows rows d row a h found hit others scanned id =
        elim (Bool-cases (key row == id)) [
          | inl e ↦
              subst
                (λ i.
                  Seen (first (with_key i) (update_rows matches set rows))
                    (lookup i (insert (key row) a d)))
                ((eq_iff (key row) id).0 e)
                (rw (first-update_rows (key row) rows, found, lookup-insert_self, hit) scanned)
          | inr e ↦
              rw
                (
                  first-update_other id rows (λ r at. others r (rw ((eq_iff (key r) id).0 at) e)),
                  lookup-insert,
                  e,
                )
                (h id)
        ]

-- The tables hold the store's instances, tasks and messages under their ids, and its history in its order; the
-- recorded keys are compared for pairs of a scope and a key.
pub record Shows ⦃db : Database⦄ (t : Tables) (s : MemoryStore) : Type 0 where
  pub instances : Holds scan_instance (λ r. r.id) t.instances s.instances
  pub tasks : Holds scan_task (λ r. r.id) t.tasks s.tasks
  pub outbox : Holds scan_outbox (λ r. r.id) t.outbox s.outbox
  pub history : scan_rows scan_history t.history ≡ ok s.history
  pub idempotency :
      (scope key : String)
      → result_of (first (has_key scope key) t.idempotency)
        ≡ lookup (scoped scope key) s.idempotency
