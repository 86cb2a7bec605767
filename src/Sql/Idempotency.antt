-- ===== src/Sql/Idempotency.antt =====
-- `RecordIdempotency` and `GetIdempotency` of persistence/internal/sqlstore/store.go.
use fsm_go.Prelude.{
  String, ◌≡◌, refl, sym, ap, ◌∙◌, subst, Bool, true, false, Option, none, some, List, [], ◌∷◌,
  ◌++◌, arith, ◌==◌, eq_iff, eq_refl, Bool-cases, inl, inr, first, All,
}
use fsm_go.Errors.{Error, Result, ok, err, ok-injective}
use fsm_go.World.{Env, World, try, next_reading}
use fsm_go.Sql.Database.{Database, call}
use fsm_go.Sql.Rows.{KeyRow, Tables}
use fsm_go.Sql.Writes.{
  has_key, result_of, is_answer, key_row, add_key_row, compare_known, after_insert, get_idempotency,
  record_idempotency,
}
use fsm_go.Sql.Calls.{insert_row-ok, placed-keeps, placed-ok, >>=-ok, call-ok, try-ok}
use fsm_go.Sql.Requests.{Request, create, update, complete, record_key, serve, serve_all}
use fsm_go.Sql.Updating.{found-append}
use fsm_go.Sql.Keeps.{Keeps-call}
use fsm_go.Sql.Keeps.Requests.{StatementsKeep, Allows, serve_all-Keeps}

-- what the table has for the scope and the key
abbrev pub recorded_as : String → String → Tables → Option String
recorded_as scope key t = result_of (first (has_key scope key) t.idempotency)

has_key_self : (row : KeyRow) → has_key row.scope row.idem_key row ≡ true
has_key_self row = ground (arith, eq_refl row.scope, eq_refl row.idem_key)

first-append_last :
    {R : Type 0} (p : R → Bool) (rows : List R) (row : R)
    → first p rows ≡ none
    → p row ≡ true
    → first p (rows ++ row ∷ []) ≡ some row
first-append_last p [] row h k = rw k refl
first-append_last p (r ∷ rows) row h k = elim (Bool-cases (p r)) [
  | inl e ↦ absurd (let no : some r ≡ none = rw e at h in cc)
  | inr e ↦ rw e (first-append_last p rows row (rw e at h) k)
]

module _ ⦃env : Env⦄ ⦃db : Database⦄ (scope key id : String) where
  pub get_idempotency-ok :
      (w v : World Tables) (found : Option String)
      → get_idempotency scope key w ≡ (ok found, v)
      → (found ≡ recorded_as scope key w.store) × (v.store ≡ w.store)
  unfolding get_idempotency
  get_idempotency-ok w v found done =
      let ran = call-ok _ w v found done in
      (sym (ok-injective (ap (λ p. p.0) ran)), sym (ap (λ p. p.1) ran))

  compare_known-ok :
      (refusal : Error) (known : Result (Option String)) (w v : World Tables) (answer : Bool)
      → compare_known id refusal known w ≡ (ok answer, v)
      → (existing : Option String) × (known ≡ ok existing)
        × (answer ≡ is_answer id existing)
        × (v ≡ w)
  compare_known-ok refusal (ok existing) w v answer done =
      (existing, refl, sym (ok-injective (ap (λ p. p.0) done)), sym (ap (λ p. p.1) done))
  compare_known-ok refusal (err e) w v answer done =
      absurd (let no : err refusal ≡ ok answer = ap (λ p. p.0) done in cc)

  after_insert-answer :
      (inserted : Result (Unit {0})) (w v : World Tables) (answer : Bool)
      → after_insert scope key id inserted w ≡ (ok answer, v)
      → (inserted ≡ ok tt → is_answer id (recorded_as scope key w.store) ≡ true)
      → answer ≡ is_answer id (recorded_as scope key v.store)
  after_insert-answer (ok tt) w v answer done fresh =
      subst (λ x. answer ≡ is_answer id (recorded_as scope key x.store)) (ap (λ p. p.1) done)
        (sym (ok-injective (ap (λ p. p.0) done)) ∙ sym (fresh refl))
  after_insert-answer (err refusal) w v answer done fresh =
      let (known, u, read, rest) =
        >>=-ok (try (get_idempotency scope key)) (compare_known id refusal) w v answer done in
      let (existing, known_eq, answer_eq, v_eq) = compare_known-ok refusal known u v answer rest in
      let (found_eq, u_eq) = get_idempotency-ok w u existing (
        subst (λ r. get_idempotency scope key w ≡ (r, u)) known_eq
          (try-ok (get_idempotency scope key) w u known read)) in
      let v_store : v.store ≡ w.store = ap (λ x. x.store) v_eq ∙ u_eq in
      rw v_store (answer_eq ∙ ap (is_answer id) found_eq)

  -- RecordIdempotency answers whether the table has the key, afterwards, for the id that was asked for; so it does
  -- where the answer to its insertion was lost.
  pub record_idempotency-answer :
      (w v : World Tables) (answer : Bool)
      → record_idempotency scope key id w ≡ (ok answer, v)
      → answer ≡ is_answer id (recorded_as scope key v.store)
  unfolding record_idempotency
  record_idempotency-answer w v answer done =
      let row = key_row scope key id (env.wall w.readings) in
      let (inserted, u, tried, rest) =
        >>=-ok (try (call (add_key_row row))) (after_insert scope key id) (next_reading w) v answer
          done in
      let ran = try-ok (call (add_key_row row)) (next_reading w) u inserted tried in
      after_insert-answer inserted u v answer rest λ succeeded.
        let placed_eq =
          call-ok (add_key_row row) (next_reading w) u tt (ran ∙ ap (λ r. (r, u)) succeeded) in
        let (rows, added, u_eq) =
          placed-ok _ (λ rows. record w.store { idempotency = rows }) w.store u.store placed_eq in
        let (fresh, rows_eq) =
          insert_row-ok _ (has_key scope key) row w.store.idempotency rows added in
        rw
          (
            u_eq,
            rows_eq,
            first-append_last (has_key scope key) w.store.idempotency row fresh (has_key_self row),
          )
          (eq_refl id)

pub is_answer-recorded :
    (id : String) (found : Option String) → is_answer id found ≡ true → found ≡ some id
is_answer-recorded id none h = absurd (let no : false ≡ true = h in cc)
is_answer-recorded id (some existing) h = ap some ((eq_iff existing id).0 h)

module _ ⦃env : Env⦄ ⦃db : Database⦄ (scope key : String) where
  -- what is recorded stays, whatever is asked for
  statements-recorded :
      (found : String) → StatementsKeep (λ t. recorded_as scope key t ≡ some found)
  statements-recorded found =
      let kept : Tables → Type 0 = λ t. recorded_as scope key t ≡ some found in
      record {
        add_history = λ row. Keeps-call _ λ t h. placed-keeps kept _ _ t h (λ _ _. h);
        add_task = λ row. Keeps-call _ λ t h. placed-keeps kept _ _ t h (λ _ _. h);
        add_outbox = λ row. Keeps-call _ λ t h. placed-keeps kept _ _ t h (λ _ _. h);
        add_key = λ row. Keeps-call _ λ t h. placed-keeps kept _ _ t h λ rows added.
            let (fresh, rows_eq) =
              insert_row-ok _ (has_key row.scope row.idem_key) row t.idempotency rows added in
            rw rows_eq
              (found-append result_of (has_key scope key) t.idempotency (row ∷ []) found refl h);
        claim = λ id attempt now. Keeps-call _ (λ t h. h);
        publish = λ id now. Keeps-call _ (λ t h. h);
      }

  All-Allows :
      (found : String) (requests : List Request)
      → All (Allows (λ t. recorded_as scope key t ≡ some found)) requests
  All-Allows found [] = tt
  All-Allows found (create req ∷ rest) = (
    λ fields.
        Keeps-call _
          λ t h. placed-keeps (λ t. recorded_as scope key t ≡ some found) _ _ t h (λ _ _. h),
    All-Allows found rest,
  )
  All-Allows found (update req ∷ rest) = (λ fields. Keeps-call _ (λ t h. h), All-Allows found rest)
  All-Allows found (complete req ∷ rest) =
      (λ input output. Keeps-call _ (λ t h. h), All-Allows found rest)
  All-Allows found (_ ∷ rest) = (tt, All-Allows found rest)

  pub serve_all-recorded :
      (id : String) (requests : List Request) (w : World Tables)
      → recorded_as scope key w.store ≡ some id
      → recorded_as scope key (serve_all requests w).store ≡ some id
  serve_all-recorded id requests w =
      serve_all-Keeps (statements-recorded id) requests w (All-Allows id requests)

  -- Once RecordIdempotency has answered yes for an id, a later call that returns answers yes for that id and no
  -- for every other, whatever is done in between and whatever the database answers.
  pub first_record_wins :
      (id id' : String) (between : List Request) (w v v' : World Tables) (answer : Bool)
      → record_idempotency scope key id w ≡ (ok true, v)
      → record_idempotency scope key id' (serve_all between v) ≡ (ok answer, v')
      → answer ≡ (id == id')
  unfolding serve serve_all
  first_record_wins id id' between w v v' answer first_call second_call =
      let recorded =
        is_answer-recorded id (recorded_as scope key v.store)
          (sym (record_idempotency-answer scope key id w v true first_call)) in
      let still =
        serve_all-recorded id (record_key scope key id' ∷ []) (serve_all between v)
          (serve_all-recorded id between v recorded) in
      let still_here : recorded_as scope key v'.store ≡ some id =
        subst (λ p. recorded_as scope key p.1.store ≡ some id) second_call still in
      record_idempotency-answer scope key id' (serve_all between v) v' answer second_call
      ∙ ap (is_answer id') still_here
