-- ===== src/Sql/Unique.antt =====
-- Primary keys of the tables (persistence/mysql/schema.go, persistence/postgres/schema.go): no two rows of a
-- table have one key, whatever the store of persistence/internal/sqlstore/store.go does.
use fsm_go.Prelude.{
  String, ◌≡◌, refl, Bool, true, false, ◌&&◌, none, some, List, [], ◌∷◌, ◌++◌, arith, ◌==◌, eq_iff,
  if◌then◌else◌, Bool-cases, inl, inr, first, keep, length, eqb, Option-cases, All, ◌∙◌,
}
use fsm_go.Sql.Database.{update_rows}

module _ {R : Type 0} (same : R → R → Bool) where
  -- no row has the key of one before it
  abbrev pub AreUnique : List R → Type 0
  AreUnique [] = Unit {0}
  AreUnique (row ∷ rows) = All (λ later. same row later ≡ false) rows × AreUnique rows

  first-none→All :
      (row : R) (rows : List R)
      → first (λ r. same r row) rows ≡ none
      → All (λ r. same r row ≡ false) rows
  first-none→All row [] h = tt
  first-none→All row (r ∷ rows) h = elim (Bool-cases (same r row)) [
    | inl e ↦ absurd (let no : some r ≡ none = rw e at h in cc)
    | inr e ↦ (e, first-none→All row rows (rw e at h))
  ]

  All-snoc :
      (P : R → Type 0) (rows : List R) (row : R) → All P rows → P row → All P (rows ++ row ∷ [])
  All-snoc P [] row h k = (k, tt)
  All-snoc P (r ∷ rows) row h k = (h.0, All-snoc P rows row h.1 k)

  pub AreUnique-insert :
      (row : R) (rows : List R)
      → AreUnique rows
      → first (λ r. same r row) rows ≡ none
      → AreUnique (rows ++ row ∷ [])
  AreUnique-insert row rows h fresh = go rows h (first-none→All row rows fresh)
    where
      go :
          (rs : List R)
          → AreUnique rs
          → All (λ r. same r row ≡ false) rs
          → AreUnique (rs ++ row ∷ [])
      go [] h k = (tt, tt)
      go (r ∷ rs) h k = (All-snoc _ rs row h.0 k.0, go rs h.1 k.1)

  module _ (matches : R → Bool) (set : R → R)
      (keeps_left : (r later : R) → same (set r) later ≡ same r later)
      (keeps_right : (r later : R) → same r (set later) ≡ same r later) where
    All-update_rows :
        (row : R) (rows : List R)
        → All (λ later. same row later ≡ false) rows
        → All (λ later. same row later ≡ false) (update_rows matches set rows)
    All-update_rows row [] h = tt
    All-update_rows row (r ∷ rows) h = elim (Bool-cases (matches r)) [
      | inl e ↦ rw (e, keeps_right row r) (h.0, All-update_rows row rows h.1)
      | inr e ↦ rw e (h.0, All-update_rows row rows h.1)
    ]

    same-set :
        (row : R) (rows : List R)
        → All (λ later. same row later ≡ false) rows
        → All (λ later. same (set row) later ≡ false) rows
    same-set row [] h = tt
    same-set row (r ∷ rows) h = (rw (keeps_left row r) h.0, same-set row rows h.1)

    -- a statement that writes no key
    pub AreUnique-update :
        (rows : List R) → AreUnique rows → AreUnique (update_rows matches set rows)
    AreUnique-update [] h = tt
    AreUnique-update (r ∷ rows) h = elim (Bool-cases (matches r)) [
      | inl e ↦ rw e (same-set r _ (All-update_rows r rows h.0), AreUnique-update rows h.1)
      | inr e ↦ rw e (All-update_rows r rows h.0, AreUnique-update rows h.1)
    ]

module _ {R : Type 0} (key : R → String) where
  abbrev pub same_key : R → R → Bool
  same_key a b = key a == key b

  keep-nothing :
      (id : String) (more : R → Bool) (row : R) (rows : List R)
      → key row ≡ id
      → All (λ later. same_key row later ≡ false) rows
      → keep (λ r. key r == id && more r) rows ≡ []
  keep-nothing id more row [] e h = refl
  keep-nothing id more row (r ∷ rows) e h =
      ground (
        arith,
        keep-nothing id more row rows,
        h.0,
        h.1,
        eq_iff (key r) id,
        eq_iff (key row) (key r),
      )

  -- A condition on a primary key and on more matches the row of that key, or none.
  pub keep-with_key :
      (id : String) (more : R → Bool) (rows : List R)
      → AreUnique same_key rows
      → keep (λ r. key r == id && more r) rows ≡ (elim (first (λ r. key r == id) rows) [
        | none ↦ []
        | some r ↦ if more r then r ∷ [] else []
      ])
  keep-with_key id more [] h = refl
  keep-with_key id more (r ∷ rows) h = elim (Bool-cases (key r == id)) [
    | inl e ↦ rw (e, keep-nothing id more r rows ((eq_iff (key r) id).0 e) h.0) refl
    | inr e ↦ rw e (keep-with_key id more rows h.1)
  ]

  -- a statement that matched one row
  pub keep-one :
      (id : String) (more : R → Bool) (rows : List R)
      → AreUnique same_key rows
      → eqb (length (keep (λ r. key r == id && more r) rows)) 1 ≡ true
      → (row : R) × (first (λ r. key r == id) rows ≡ some row) × (more row ≡ true)
  keep-one id more rows unique one =
      let counted = rw (keep-with_key id more rows unique) at one in
      elim (Option-cases (first (λ r. key r == id) rows)) [
        | inl e ↦ absurd (let no : false ≡ true = rw e at counted in cc)
        | inr (row, e) ↦ elim (Bool-cases (more row)) [
          | inl m ↦ (row, e, m)
          | inr n ↦ absurd (let no : false ≡ true = rw (e, n) at counted in cc)
        ]
      ]

  keep-more :
      (p more counted : R → Bool) (rows : List R)
      → keep (λ r. (p r && more r) && counted r) rows
        ≡ keep (λ r. p r && (more r && counted r)) rows
  keep-more p more counted [] = refl
  keep-more p more counted (r ∷ rows) = ground (arith, keep-more p more counted rows)

  -- a statement that counted one row
  pub keep-counted :
      (id : String) (more counted : R → Bool) (rows : List R)
      → AreUnique same_key rows
      → keep (λ r. (key r == id && more r) && counted r) rows
        ≡ (elim (first (λ r. key r == id) rows) [
          | none ↦ []
          | some r ↦ if more r && counted r then r ∷ [] else []
        ])
  keep-counted id more counted rows unique =
      keep-more (λ r. key r == id) more counted rows
      ∙ keep-with_key id (λ r. more r && counted r) rows unique

  pub counted-one :
      (id : String) (more counted : R → Bool) (rows : List R)
      → AreUnique same_key rows
      → eqb (length (keep (λ r. (key r == id && more r) && counted r) rows)) 1 ≡ true
      → (row : R) × (first (λ r. key r == id) rows ≡ some row) × (more row ≡ true)
  counted-one id more counted rows unique one =
      let (row, found, both) =
        keep-one id (λ r. more r && counted r) rows unique
          (rw (keep-more (λ r. key r == id) more counted rows) at one) in
      (row, found, ground (arith, both))
