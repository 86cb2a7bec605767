-- ===== src/Sql/Updating.antt =====
-- UPDATE statements on lists of rows (persistence/internal/sqlstore/store.go): which rows are found afterwards.
use fsm_go.Prelude.{
  String, ◌≡◌, refl, sym, ap, ◌∙◌, Bool, true, false, Option, none, some, List, [], ◌∷◌, ◌++◌, ◌==◌,
  Bool-cases, inl, inr, keep, first, is_some,
}
use fsm_go.Sql.Database.{update_rows}
use fsm_go.Sql.Rows.{TaskRow}

-- a statement whose condition its own writes end finds no row afterwards
pub keep-update_rows :
    {R : Type 0} (matches again : R → Bool) (set : R → R) (rows : List R)
    → ((r : R) → matches r ≡ true → again (set r) ≡ false)
    → ((r : R) → matches r ≡ false → again r ≡ false)
    → keep again (update_rows matches set rows) ≡ []
keep-update_rows matches again set [] h k = refl
keep-update_rows matches again set (r ∷ rows) h k = elim (Bool-cases (matches r)) [
  | inl e ↦ rw (e, h r e) (keep-update_rows matches again set rows h k)
  | inr e ↦ rw (e, k r e) (keep-update_rows matches again set rows h k)
]

pub keep-update_nothing :
    {R : Type 0} (matches again : R → Bool) (set : R → R) (rows : List R)
    → ((r : R) → matches r ≡ true → again (set r) ≡ false)
    → keep again rows ≡ []
    → keep again (update_rows matches set rows) ≡ []
keep-update_nothing matches again set [] h nothing = refl
keep-update_nothing matches again set (r ∷ rows) h nothing = elim (Bool-cases (again r)) [
  | inl e ↦ absurd (let no : r ∷ keep again rows ≡ [] = rw e at nothing in cc)
  | inr e ↦ elim (Bool-cases (matches r)) [
    | inl m ↦ rw (m, h r m) (keep-update_nothing matches again set rows h (rw e at nothing))
    | inr n ↦ rw (n, e) (keep-update_nothing matches again set rows h (rw e at nothing))
  ]
]

-- what is read of the first row with a property, after an insertion
pub found-append :
    {R A : Type 0} (read : Option R → Option A) (p : R → Bool) (rows more : List R) (a : A)
    → read none ≡ none
    → read (first p rows) ≡ some a
    → read (first p (rows ++ more)) ≡ some a
found-append read p [] more a nothing h = absurd (let no : none ≡ some a = sym nothing ∙ h in cc)
found-append read p (r ∷ rows) more a nothing h = elim (Bool-cases (p r)) [
  | inl e ↦ rw e (rw e at h)
  | inr e ↦ rw e (found-append read p rows more a nothing (rw e at h))
]

-- and after an update that leaves the property and what is read alone
pub found-update_rows :
    {R A : Type 0} (read : Option R → Option A) (p matches : R → Bool) (set : R → R) (rows : List R)
    → ((r : R) → p (set r) ≡ p r)
    → ((r : R) → read (some (set r)) ≡ read (some r))
    → read (first p (update_rows matches set rows)) ≡ read (first p rows)
found-update_rows read p matches set [] same alike = refl
found-update_rows read p matches set (r ∷ rows) same alike =
    let rest = found-update_rows read p matches set rows same alike in
    elim (Bool-cases (matches r)) [
      | inl m ↦ elim (Bool-cases (p r)) [
        | inl e ↦ rw (m, same r, e) (alike r)
        | inr n ↦ rw (m, same r, n) rest
      ]
      | inr k ↦ elim (Bool-cases (p r)) [ inl e ↦ rw (k, e) refl | inr n ↦ rw (k, n) rest ]
    ]

pub is_some-update_rows :
    (id : String) (matches : TaskRow → Bool) (set : TaskRow → TaskRow)
    → ((r : TaskRow) → (set r).id ≡ r.id)
    → (rows : List TaskRow) → is_some (first (λ r. r.id == id) rows) ≡ true
    → is_some (first (λ r. r.id == id) (update_rows matches set rows)) ≡ true
is_some-update_rows id matches set same [] h = h
is_some-update_rows id matches set same (r ∷ rows) h = elim (Bool-cases (r.id == id)) [
  | inl e ↦ elim (Bool-cases (matches r)) [
    | inl m ↦ rw (m, same r, e) refl
    | inr n ↦ rw (n, e) refl
  ]
  | inr e ↦
      let rest = is_some-update_rows id matches set same rows (rw e at h) in
      elim (Bool-cases (matches r)) [ inl m ↦ rw (m, same r, e) rest | inr n ↦ rw (n, e) rest ]
]

pub is_some-append :
    (id : String) (rows more : List TaskRow)
    → is_some (first (λ r. r.id == id) rows) ≡ true
    → is_some (first (λ r. r.id == id) (rows ++ more)) ≡ true
is_some-append id [] more h = absurd (let no : false ≡ true = h in cc)
is_some-append id (r ∷ rows) more h = elim (Bool-cases (r.id == id)) [
  | inl e ↦ rw e refl
  | inr e ↦ rw e (is_some-append id rows more (rw e at h))
]

pub keep-imp :
    {R : Type 0} (p q : R → Bool) (rows : List R)
    → ((r : R) → q r ≡ true → p r ≡ true)
    → keep p rows ≡ []
    → keep q rows ≡ []
keep-imp p q [] h nothing = refl
keep-imp p q (r ∷ rows) h nothing = elim (Bool-cases (p r)) [
  | inl e ↦ absurd (let no : r ∷ keep p rows ≡ [] = rw e at nothing in cc)
  | inr e ↦ elim (Bool-cases (q r)) [
    | inl m ↦ absurd (let no : true ≡ false = sym (h r m) ∙ e in cc)
    | inr n ↦ rw n (keep-imp p q rows h (rw e at nothing))
  ]
]

pub update_rows-none :
    {R : Type 0} (matches : R → Bool) (set : R → R) (rows : List R)
    → keep matches rows ≡ []
    → update_rows matches set rows ≡ rows
update_rows-none matches set [] h = refl
update_rows-none matches set (r ∷ rows) h = elim (Bool-cases (matches r)) [
  | inl e ↦ absurd (let no : r ∷ keep matches rows ≡ [] = rw e at h in cc)
  | inr e ↦ rw e (ap (λ rs. r ∷ rs) (update_rows-none matches set rows (rw e at h)))
]
