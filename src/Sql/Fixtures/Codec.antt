-- ===== src/Sql/Fixtures/Codec.antt =====
-- A small notation for the JSON columns that persistence/internal/sqlstore/store.go writes and reads: it takes every
-- map. Flags are read as flags, and all else as text.
use Prim.Native.Char.{Char}
use fsm_go.Prelude.{
  pos, String, append, ◌≡◌, refl, ap, ◌∙◌, eq_iff, Bool-cases, inl, inr, Bool, true, false, some,
  [], ◌∷◌, ◌==◌, if◌then◌else◌,
}
use fsm_go.Dict.{Dict}
use fsm_go.Errors.{Result, ok, ok-injective}
use fsm_go.Types.{Any, AnyMap}
use fsm_go.Sql.{one, decimal}

abbrev pub shown_value : Any → String
shown_value (Any.flag true) = "true"
shown_value (Any.flag false) = "false"
shown_value (Any.number (pos n)) = decimal n
shown_value (Any.text t) = t
shown_value _ = "null"

abbrev pub shown_fields : Dict Any → String
shown_fields [] = "}"
shown_fields ((key, value) ∷ rest) =
    append key (append ":" (append (shown_value value) (append ";" (shown_fields rest))))

abbrev pub encode : Dict Any → Result String
encode m = ok (String.◌∷◌ "{" (shown_fields m))

pub data Mark : Type 0 where
  colon semicolon brace plain : Mark

abbrev pub mark_of : Char → Mark
mark_of c =
    if one c == ":"
    then Mark.colon
    else if one c == ";"
    then Mark.semicolon
    else if one c == "{"
    then Mark.brace
    else if one c == "}"
    then Mark.brace
    else Mark.plain

abbrev pub read_value : String → Any
read_value t =
    if t == "true" then Any.flag true else if t == "false" then Any.flag false else Any.text t

-- the fields of a text, where `key` and `part` have been read
abbrev pub read_fields : String → String → String → Dict Any
read_fields key part String.[] = []
read_fields key part (String.◌∷◌ c rest) = elim (mark_of c) [
  | colon ↦ read_fields part "" rest
  | semicolon ↦ (key, read_value part) ∷ read_fields "" "" rest
  | brace ↦ read_fields key part rest
  | plain ↦ read_fields key (append part (one c)) rest
]

abbrev pub decode : String → Result AnyMap
decode raw = ok (some (read_fields "" "" raw))

abbrev is_empty : String → Bool
is_empty String.[] = true
is_empty (String.◌∷◌ c rest) = false

pub encode_written : (m : Dict Any) (raw : String) → encode m ≡ ok raw → (raw == "") ≡ false
encode_written m raw h = elim (Bool-cases (raw == "")) [
  | inl e ↦
      absurd (let no : false ≡ true = ap is_empty (ok-injective h ∙ (eq_iff raw "").0 e) in cc)
  | inr e ↦ e
]

-- a map of flags comes back as it was
kept_flags :
    read_fields "" ""
      (append "{" (shown_fields (("paid", Any.flag true) ∷ ("sent", Any.flag false) ∷ [])))
    ≡ ("paid", Any.flag true) ∷ ("sent", Any.flag false) ∷ []
kept_flags = refl

-- numbers come back as texts
number_as_text : decode "{days:3;}" ≡ ok (some (("days", Any.text "3") ∷ []))
number_as_text = refl
