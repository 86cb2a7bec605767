-- ===== src/Sql/Schema/Trimming.antt =====
-- What strings.TrimSpace leaves of a part of a schema in persistence/internal/sqlstore/store.go.
use Prim.Native.Char.{Char}
use Prim.Native.String.append
use fsm_go.Prelude.{
  String, append as concat, ◌≡◌, refl, sym, ap, ◌∙◌, subst, Bool, true, false, not, ◌==◌, eq_iff,
  Bool-cases, inl, inr, ◌⊎◌,
}
use fsm_go.Sql.{one}
use fsm_go.Sql.Placeholders.{concat-one}
use fsm_go.Sql.Schema.{is_space, trim_left, trim_right, trim_space}

-- all white space
abbrev pub IsBlank : String → Type 0
IsBlank String.[] = Unit {0}
IsBlank (String.◌∷◌ c rest) = (is_space c ≡ true) × IsBlank rest

abbrev starts_plain : String → Bool
starts_plain String.[] = false
starts_plain (String.◌∷◌ c rest) = not (is_space c)

abbrev is_nil : String → Bool
is_nil String.[] = true
is_nil (String.◌∷◌ c rest) = false

-- the first character is no white space
abbrev pub Starts : String → Type 0
Starts s = starts_plain s ≡ true

-- the last character is no white space
abbrev pub Ends : String → Type 0
Ends s = (most : String) × (c : Char) × (s ≡ concat most (one c)) × (is_space c ≡ false)

-- `s` is `part` without the white space at its ends
abbrev pub IsTrimmed : String → String → Type 0
IsTrimmed part s =
    (lead trail : String) × IsBlank lead
    × IsBlank trail
    × (part ≡ concat lead (concat s trail))
    × Starts s
    × Ends s

pub concat-nil : (s : String) → concat s "" ≡ s
concat-nil String.[] = append.nil ""
concat-nil (String.◌∷◌ c s) = append.cons c s "" ∙ ap (String.◌∷◌ c) (concat-nil s)

trim_left-lem :
    (s : String)
    → (lead : String) × IsBlank lead
      × (s ≡ concat lead (trim_left s))
      × ((trim_left s ≡ "") ⊎ Starts (trim_left s))
unfolding trim_left
trim_left-lem String.[] = (String.[], tt, sym (append.nil ""), inl refl)
trim_left-lem (String.◌∷◌ c rest) = elim (Bool-cases (is_space c)) [
  | inl space ↦
      let (lead, blank, same, fate) = trim_left-lem rest in
      (
        String.◌∷◌ c lead,
        (space, blank),
        rw (trim_left, space) (ap (String.◌∷◌ c) same ∙ sym (append.cons c lead (trim_left rest))),
        rw (trim_left, space) fate,
      )
  | inr plain ↦ (
    String.[],
    tt,
    rw (trim_left, plain) (sym (append.nil (String.◌∷◌ c rest))),
    inr (rw (trim_left, plain, plain) refl),
  )
]

Starts-nonempty : (s : String) → Starts s → (s == "") ≡ false
Starts-nonempty s h = elim (Bool-cases (s == "")) [
  | inl e ↦ absurd (let no : false ≡ true = sym (ap starts_plain ((eq_iff s "").0 e)) ∙ h in cc)
  | inr e ↦ e
]

Ends-nonempty : (s : String) → Ends s → s ≡ "" → ⊥
Ends-nonempty s (String.[], c, same, plain) nothing =
    let no : not (is_space c) ≡ false =
      ap starts_plain (sym (append.nil (one c)) ∙ sym same ∙ nothing) in
    cc (plain, no)
Ends-nonempty s (String.◌∷◌ d most, c, same, plain) nothing =
    let no : "" ≡ String.◌∷◌ d (concat most (one c)) =
      sym nothing ∙ same ∙ append.cons d most (one c) in
    let wrong : true ≡ false = ap is_nil no in cc

-- a character before a text that ends well
Ends-more :
    (c : Char) (s : String)
    → (s == "") ≡ false
    → (s ≡ "") ⊎ Ends s
    → (concat (one c) s ≡ "") ⊎ Ends (concat (one c) s)
Ends-more c s more (inl nothing) =
    absurd (let no : true ≡ false = sym ((eq_iff s "").1 nothing) ∙ more in cc)
Ends-more c s more (inr (most, d, ends, plain)) = inr (
  String.◌∷◌ c most,
  d,
  concat-one c s ∙ ap (String.◌∷◌ c) ends ∙ sym (append.cons c most (one d)),
  plain,
)

trim_right-lem :
    (s : String)
    → (trail : String) × IsBlank trail
      × (s ≡ concat (trim_right s) trail)
      × ((trim_right s ≡ "") ⊎ Ends (trim_right s))
unfolding trim_right
trim_right-lem String.[] = (String.[], tt, sym (append.nil ""), inl refl)
trim_right-lem (String.◌∷◌ c rest) =
    let (trail, blank, same, fate) = trim_right-lem rest in
    let kept : String.◌∷◌ c rest ≡ concat (concat (one c) (trim_right rest)) trail =
      ap (String.◌∷◌ c) same
      ∙ sym (append.cons c (trim_right rest) trail)
      ∙ ap (λ x. concat x trail) (sym (concat-one c (trim_right rest))) in
    elim (Bool-cases (trim_right rest == "")) [
      | inl empty ↦
          let none_left = (eq_iff (trim_right rest) "").0 empty in
          elim (Bool-cases (is_space c)) [
            | inl space ↦ (
              String.◌∷◌ c trail,
              (space, blank),
              rw (trim_right, space, empty)
                  (ap (String.◌∷◌ c) (same ∙ ap (λ x. concat x trail) none_left ∙ append.nil trail)
                    ∙ sym (append.nil (String.◌∷◌ c trail))),
              inl (rw (trim_right, space, empty) refl),
            )
            | inr plain ↦ (
              trail,
              blank,
              rw (trim_right, plain) kept,
              inr (
                String.[],
                c,
                rw (trim_right, plain)
                    (ap (concat (one c)) none_left ∙ concat-nil (one c) ∙ sym (append.nil (one c))),
                plain,
              ),
            )
          ]
      | inr more ↦ elim (Bool-cases (is_space c)) [
        | inl space ↦ (
          trail,
          blank,
          rw (trim_right, space, more) kept,
          rw (trim_right, space, more) (Ends-more c (trim_right rest) more fate),
        )
        | inr plain ↦ (
          trail,
          blank,
          rw (trim_right, plain) kept,
          rw (trim_right, plain) (Ends-more c (trim_right rest) more fate),
        )
      ]
    ]

-- a text that begins a text that begins with no white space
Starts-prefix : (s trail : String) → Starts (concat s trail) → (s ≡ "") ⊎ Starts s
Starts-prefix String.[] trail h = inl refl
Starts-prefix (String.◌∷◌ c s) trail h = inr (ap starts_plain (sym (append.cons c s trail)) ∙ h)

blank_start : (s : String) → IsBlank s → starts_plain s ≡ false
blank_start String.[] h = refl
blank_start (String.◌∷◌ c s) h = rw h.0 refl

-- a part is blank, and nothing is left of it, or it is trimmed
pub trim_space-lem :
    (part : String)
    → (((trim_space part == "") ≡ true) × IsBlank part)
      ⊎ (((trim_space part == "") ≡ false) × IsTrimmed part (trim_space part))
unfolding trim_right
trim_space-lem part =
    let (lead, lead_blank, whole, left_fate) = trim_left-lem part in
    let (trail, trail_blank, rest, right_fate) = trim_right-lem (trim_left part) in
    elim left_fate [
      | inl nothing ↦ inl (
        (eq_iff (trim_space part) "").1 (ap trim_right nothing),
        subst IsBlank (sym (whole ∙ ap (concat lead) nothing ∙ concat-nil lead)) lead_blank,
      )
      | inr starts ↦ elim right_fate [
        | inl nothing ↦ absurd (
            let all_trail : trim_left part ≡ trail =
              rest ∙ ap (λ s. concat s trail) nothing ∙ append.nil trail in
            let no : true ≡ false =
              sym starts ∙ ap starts_plain all_trail ∙ blank_start trail trail_blank in
            cc)
        | inr ends ↦ elim (Starts-prefix (trim_space part) trail (subst Starts rest starts)) [
          | inl nothing ↦ absurd (Ends-nonempty (trim_space part) ends nothing)
          | inr begins ↦ inr (
            Starts-nonempty (trim_space part) begins,
            (lead, trail, lead_blank, trail_blank, whole ∙ ap (concat lead) rest, begins, ends),
          )
        ]
      ]
    ]
