-- ===== src/Sql/Shown/Updates.antt =====
-- UPDATE workflow_instance of persistence/internal/sqlstore/store.go as a write of a store in memory.
use fsm_go.Prelude.{
  String, ℤ, eqb, eq_ℤ, ◌≡◌, refl, ap, ◌∙◌, subst, Bool, true, Option, none, some, List, [], ◌∷◌,
  arith, not, ◌&&◌, ◌==◌, eq_iff, Bool-cases, inl, inr, first, keep, length,
}
use fsm_go.Dict.{lookup, insert}
use fsm_go.Errors.{Result, ok, >>=-eq-ok, ok-injective}
use fsm_go.Types.{WorkflowInstance}
use fsm_go.Memory.{MemoryStore, clone_instance}
use fsm_go.Sql.Database.{Database, update_rows}
use fsm_go.Sql.Rows.{InstanceRow, Tables, marshal, unmarshal, scan_instance}
use fsm_go.Sql.Writes.{at_revision, set_instance, same_instance, is_counted_instance}
use fsm_go.Sql.Records.{IsCodec, kept_instance, unmarshal-marshal, clone_map-kept_map}
use fsm_go.Sql.Unique.{counted-one}
use fsm_go.Sql.PrimaryKeys.{HasPrimaryKeys}
use fsm_go.Sql.Shown.{Shows, Seen, Holds, Holds-update_rows}

pub first-some :
    {A : Type 0} (p : A → Bool) (xs : List A) (x : A) → first p xs ≡ some x → p x ≡ true
first-some p [] x h = cc
first-some p (y ∷ ys) x h = elim (Bool-cases (p y)) [
  | inl e ↦ subst (λ z. p z ≡ true) (let same : some y ≡ some x = rw e at h in cc) e
  | inr e ↦ first-some p ys x (rw e at h)
]

-- what is found in the tables stands in the store
Seen-some :
    {R A : Type 0} (scan : R → Result A) (key : R → String) (row : R) (o : Option A)
    → Seen scan key (some row) o
    → (a : A) × (o ≡ some a) × (scan row ≡ ok a)
Seen-some scan key row none h = elim h [ ]
Seen-some scan key row (some a) h = (a, refl, h)

pub Seen-row :
    {R A : Type 0} (scan : R → Result A) (key : R → String) (o : Option R) (a : A)
    → Seen scan key o (some a)
    → (row : R) × (o ≡ some row) × (scan row ≡ ok a)
Seen-row scan key none a h = elim h [ ]
Seen-row scan key (some row) a h = (row, refl, h)

module _ ⦃db : Database⦄ where
  -- the request keeps the columns that UPDATE does not write
  abbrev pub Continues : WorkflowInstance → MemoryStore → Type 0
  Continues i s =
      (j : WorkflowInstance)
      → lookup i.id s.instances ≡ some j
      → (j.workflow ≡ i.workflow)
        × (j.version ≡ i.version)
        × (j.started_at ≡ db.kept_time i.started_at)

  pub scan_instance-columns :
      (row : InstanceRow) (j : WorkflowInstance)
      → scan_instance row ≡ ok j
      → (row.workflow ≡ j.workflow)
        × (row.version ≡ j.version)
        × (row.started_at ≡ j.started_at)
        × (row.revision ≡ j.revision)
  unfolding scan_instance
  scan_instance-columns row j h =
      let (fields, read, done) = >>=-eq-ok (unmarshal row.fields) _ h in
      let same = ok-injective done in
      (
        ap (λ i. i.workflow) same,
        ap (λ i. i.version) same,
        ap (λ i. i.started_at) same,
        ap (λ i. i.revision) same,
      )

  module _ (codec : IsCodec db) where
    scan_instance-set_instance :
        (i : WorkflowInstance) (raw : String) (row : InstanceRow)
        → marshal i.fields ≡ ok raw
        → row.id ≡ i.id
        → (row.workflow ≡ i.workflow)
          × (row.version ≡ i.version)
          × (row.started_at ≡ db.kept_time i.started_at)
        → scan_instance (set_instance i raw row) ≡ ok (clone_instance (kept_instance i))
    unfolding scan_instance
    scan_instance-set_instance i raw row written id_eq (workflow_eq, version_eq, started_eq) =
        rw
          (
            unmarshal-marshal codec i.fields raw written,
            id_eq,
            workflow_eq,
            version_eq,
            started_eq,
            clone_map-kept_map i.fields,
          )
          refl

    -- UPDATE workflow_instance, where it reports one row
    pub Shows-update :
        (t : Tables) (s : MemoryStore) (i : WorkflowInstance) (raw : String) (expected : ℤ)
        → Shows t s
        → HasPrimaryKeys t
        → Continues i s
        → marshal i.fields ≡ ok raw
        → eqb (length (keep (is_counted_instance i raw expected) t.instances)) 1 ≡ true
        → (j : WorkflowInstance) × (lookup i.id s.instances ≡ some j)
          × (eq_ℤ j.revision expected ≡ true)
          × Shows
              (record t {
                instances =
                    update_rows (at_revision i.id expected) (set_instance i raw) t.instances;
              })
              (record s { instances = insert i.id (clone_instance (kept_instance i)) s.instances })
    Shows-update t s i raw expected h keys continues written one =
        let (row, found, hit) =
          counted-one (λ r. r.id) i.id (λ r. eq_ℤ r.revision expected)
            (λ r. not (db.reports_changed && same_instance r (set_instance i raw r))) t.instances
            keys.instances one in
        let id_eq = (eq_iff row.id i.id).0 (first-some (λ r. r.id == i.id) t.instances row found) in
        let (j, stands, scanned) =
          Seen-some scan_instance (λ r. r.id) row (lookup i.id s.instances)
            (subst (λ o. Seen scan_instance (λ r. r.id) o (lookup i.id s.instances)) found
              (h.instances i.id)) in
        let (workflow_eq, version_eq, started_eq, revision_eq) =
          scan_instance-columns row j scanned in
        let (workflow_kept, version_kept, started_kept) = continues j stands in
        (
          j,
          stands,
          subst (λ n. eq_ℤ n expected ≡ true) revision_eq hit,
          record {
            instances =
                subst
                  (λ id.
                    Holds scan_instance (λ r. r.id)
                      (update_rows (at_revision i.id expected) (set_instance i raw) t.instances)
                      (insert id (clone_instance (kept_instance i)) s.instances))
                  id_eq
                  (Holds-update_rows scan_instance (λ r. r.id) (at_revision i.id expected)
                    (set_instance i raw) (λ r. refl) t.instances s.instances row
                    (clone_instance (kept_instance i)) h.instances (rw id_eq found)
                    (ground (arith, hit, eq_iff row.id i.id))
                    (λ r not_it. ground (arith, eq_iff row.id r.id, eq_iff r.id i.id))
                    (scan_instance-set_instance i raw row written id_eq (
                      workflow_eq ∙ workflow_kept,
                      version_eq ∙ version_kept,
                      started_eq ∙ started_kept,
                    )));
            tasks = h.tasks;
            outbox = h.outbox;
            history = h.history;
            idempotency = h.idempotency;
          },
        )
