-- ===== src/Sql/Placeholders.antt =====
-- What `q` makes of a statement: its n-th placeholder becomes $n, and all else stays.
use Prim.Native.Char.{Char}
use Prim.Native.String.append
use fsm_go.Prelude.{
  ℕ, ◌+◌, String, append as concat, ◌≡◌, refl, sym, ap, ◌∙◌, false, List, [], ◌∷◌, All, eq_iff,
  Bool-cases, inl, inr,
}
use fsm_go.Sql.{Dialect, decimal, one, is_mark, number_marks, q}

-- none of the text's characters is a placeholder
abbrev pub HasNoMark : String → Type 0
HasNoMark String.[] = Unit {0}
HasNoMark (String.◌∷◌ c rest) = (is_mark c ≡ false) × HasNoMark rest

-- the parts of a statement, joined by the marks from number `n` on
abbrev pub joined : (ℕ → String) → ℕ → String → List String → String
joined mark n first [] = first
joined mark n first (part ∷ parts) = concat first (concat (mark n) (joined mark (n + 1) part parts))

abbrev pub dollar : ℕ → String
dollar n = concat "$" (decimal n)

-- a character before the first part
pub joined-cons :
    (mark : ℕ → String) (n : ℕ) (c : Char) (first : String) (parts : List String)
    → joined mark n (String.◌∷◌ c first) parts ≡ String.◌∷◌ c (joined mark n first parts)
joined-cons mark n c first [] = refl
joined-cons mark n c first (part ∷ parts) = append.cons c first _

pub concat-one : (c : Char) (s : String) → concat (one c) s ≡ String.◌∷◌ c s
concat-one c s = append.cons c String.[] s ∙ ap (String.◌∷◌ c) (append.nil s)

pub append_assoc : (a b c : String) → concat (concat a b) c ≡ concat a (concat b c)
append_assoc String.[] b c = ap (λ s. concat s c) (append.nil b) ∙ sym (append.nil (concat b c))
append_assoc (String.◌∷◌ x a) b c =
    ap (λ s. concat s c) (append.cons x a b)
    ∙ append.cons x (concat a b) c
    ∙ ap (String.◌∷◌ x) (append_assoc a b c)
    ∙ sym (append.cons x a (concat b c))

parts_of :
    (n : ℕ) (query : String)
    → (first : String) × (parts : List String) × HasNoMark first
      × All HasNoMark parts
      × (query ≡ joined (λ _. "?") n first parts)
      × (number_marks n query ≡ joined dollar n first parts)
unfolding number_marks
parts_of n String.[] = (String.[], [], tt, tt, refl, refl)
parts_of n (String.◌∷◌ c rest) = elim (Bool-cases (is_mark c)) [
  | inl mark ↦
      let (first, parts, plain, all, same, numbered) = parts_of (n + 1) rest in
      (
        String.[],
        first ∷ parts,
        tt,
        (plain, all),
        sym (concat-one c rest)
            ∙ ap (λ s. concat s rest) ((eq_iff (one c) "?").0 mark)
            ∙ ap (concat "?") same
            ∙ sym (append.nil (concat "?" (joined (λ _. "?") (n + 1) first parts))),
        rw (number_marks, mark)
            (ap (λ s. concat "$" (concat (decimal n) s)) numbered
              ∙ sym (append_assoc "$" (decimal n) (joined dollar (n + 1) first parts))
              ∙ sym (append.nil (concat (dollar n) (joined dollar (n + 1) first parts)))),
      )
  | inr other ↦
      let (first, parts, plain, all, same, numbered) = parts_of n rest in
      (
        String.◌∷◌ c first,
        parts,
        (other, plain),
        all,
        ap (String.◌∷◌ c) same ∙ sym (joined-cons (λ _. "?") n c first parts),
        rw (number_marks, other)
            (ap (String.◌∷◌ c) numbered ∙ sym (joined-cons dollar n c first parts)),
      )
]

-- Every statement is a list of parts without a question mark, joined by question marks; `q` leaves it for
-- MySQL, and for PostgreSQL joins the same parts by $1, $2 and so on, in order.
pub q-joined :
    (query : String)
    → (first : String) × (parts : List String) × HasNoMark first
      × All HasNoMark parts
      × (query ≡ joined (λ _. "?") 1 first parts)
      × (q Dialect.mysql query ≡ query)
      × (q Dialect.postgres query ≡ joined dollar 1 first parts)
unfolding q
q-joined query =
    let (first, parts, plain, all, same, numbered) = parts_of 1 query in
    (first, parts, plain, all, same, refl, numbered)
