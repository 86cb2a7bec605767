-- ===== src/Sql/Schema/Sending.antt =====
-- What `InitSchema` of persistence/internal/sqlstore/store.go sends to the database.
use Prim.Native.String.append
use fsm_go.Prelude.{
  ℕ, ◌+◌, String, append as concat, ◌≡◌, refl, sym, ap, ◌∙◌, false, List, [], ◌∷◌, All, eq_iff,
  Bool-cases, inl, inr,
}
use fsm_go.Errors.{Result}
use fsm_go.World.{Act, pure, ◌>>◌}
use fsm_go.Sql.{one}
use fsm_go.Sql.Database.{Database, wrapped, call}
use fsm_go.Sql.Placeholders.{joined, joined-cons, concat-one, append_assoc}
use fsm_go.Sql.Schema.{is_semicolon, split_from, trim_space, run_statements, init_schema}
use fsm_go.Sql.Schema.Trimming.{IsBlank, IsTrimmed, concat-nil, trim_space-lem}

abbrev pub HasNoSemicolon : String → Type 0
HasNoSemicolon String.[] = Unit {0}
HasNoSemicolon (String.◌∷◌ c rest) = (is_semicolon c ≡ false) × HasNoSemicolon rest

-- the statements that a list of parts is sent as
pub data Sends : List String → List String → Type 0 where
  nothing : Sends [] []
  blank :
      {part : String} {parts statements : List String}
      → IsBlank part
      → Sends parts statements
      → Sends (part ∷ parts) statements
  sent :
      {part s : String} {parts statements : List String}
      → IsTrimmed part s
      → Sends parts statements
      → Sends (part ∷ parts) (s ∷ statements)

parts_of :
    (n : ℕ) (part schema : String)
    → (first : String) × (parts : List String) × HasNoSemicolon first
      × All HasNoSemicolon parts
      × (schema ≡ joined (λ _. ";") n first parts)
      × (split_from part schema ≡ concat part first ∷ parts)
unfolding split_from
parts_of n part String.[] = (String.[], [], tt, tt, refl, ap (λ s. s ∷ []) (sym (concat-nil part)))
parts_of n part (String.◌∷◌ c rest) = elim (Bool-cases (is_semicolon c)) [
  | inl ends ↦
      let (first, parts, plain, all, same, split) = parts_of (n + 1) "" rest in
      (
        String.[],
        first ∷ parts,
        tt,
        (plain, all),
        sym (concat-one c rest)
            ∙ ap (λ s. concat s rest) ((eq_iff (one c) ";").0 ends)
            ∙ ap (concat ";") same
            ∙ sym (append.nil (concat ";" (joined (λ _. ";") (n + 1) first parts))),
        rw (split_from, ends)
            (ap (λ s. part ∷ s) split ∙ rw (append.nil first, concat-nil part) refl),
      )
  | inr other ↦
      let (first, parts, plain, all, same, split) = parts_of n (concat part (one c)) rest in
      (
        String.◌∷◌ c first,
        parts,
        (other, plain),
        all,
        ap (String.◌∷◌ c) same ∙ sym (joined-cons (λ _. ";") n c first parts),
        rw (split_from, other)
            (split
              ∙ ap (λ s. s ∷ parts)
                  (append_assoc part (one c) first ∙ ap (concat part) (concat-one c first))),
      )
]

module _ {S : Type 0} ⦃db : Database⦄ (carry_out : String → S → Result (Unit {0}) × S) where
  -- one call for each statement, up to the first that fails
  abbrev pub send_all : List String → Act S (Unit {0})
  send_all [] = pure tt
  send_all (statement ∷ statements) =
      let rest = send_all statements in wrapped "init schema: " (call (carry_out statement)) >> rest

  run_statements-Sends :
      (parts : List String)
      → (statements : List String) × Sends parts statements
        × (run_statements carry_out parts ≡ send_all statements)
  unfolding run_statements
  run_statements-Sends [] = ([], Sends.nothing, refl)
  run_statements-Sends (part ∷ parts) =
      let (statements, sends, ran) = run_statements-Sends parts in
      elim (trim_space-lem part) [
        | inl (empty, is_blank) ↦
            (statements, Sends.blank is_blank sends, rw (run_statements, empty) ran)
        | inr (there, trimmed) ↦ (
          trim_space part ∷ statements,
          Sends.sent trimmed sends,
          rw (run_statements, there)
              (ap (λ m. wrapped "init schema: " (call (carry_out (trim_space part))) >> m) ran),
        )
      ]

  -- Every schema is a list of parts without a semicolon, joined by semicolons. InitSchema sends each of the parts
  -- that is not blank to the database as one statement, in order, up to the first that fails: the part less
  -- white space at both ends, which begins and ends with other characters.
  pub init_schema-Sends :
      (schema : String)
      → (first : String) × (parts statements : List String) × HasNoSemicolon first
        × All HasNoSemicolon parts
        × (schema ≡ joined (λ _. ";") 1 first parts)
        × Sends (first ∷ parts) statements
        × (init_schema carry_out schema ≡ send_all statements)
  unfolding init_schema
  init_schema-Sends schema =
      let (first, parts, plain, all, same, split) = parts_of 1 "" schema in
      let (statements, sends, ran) = run_statements-Sends (first ∷ parts) in
      (
        first,
        parts,
        statements,
        plain,
        all,
        same,
        sends,
        ap (run_statements carry_out) (split ∙ ap (λ s. s ∷ parts) (append.nil first)) ∙ ran,
      )
