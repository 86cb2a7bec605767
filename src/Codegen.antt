-- ===== src/Codegen.antt =====
-- cmd/workflowgen/main.go: the specification that the generator reads, and the names and constants that it makes
-- of it. Case beyond ASCII is a parameter (`Unicode`).
mod Examples
pub mod Render
pub mod Names
pub mod Separators
use Prim.Native.Char.{Char, code}
use fsm_go.Prelude.{
  ℕ, ◌-◌, ℤ, leb, String, append, Bool, true, false, ◌&&◌, ◌||◌, List, [], ◌∷◌, map, ◌==◌,
  if◌then◌else◌,
}
use fsm_go.Dict.{Dict, insert, lookup_or}
use fsm_go.World.{nth_text}
use fsm_go.Sql.{one}

pub record StateSpec : Type 0 where
  pub name : String
  pub terminal : Bool
  pub on_enter : List String

pub record NamedSpec : Type 0 where
  pub name : String

pub record TaskSpec : Type 0 where
  pub name : String
  pub handler : String
  pub max_attempts : ℤ
  pub backoff : String
  pub timeout : String
  pub compensation : String
  pub on_success : String
  pub on_failure : String

pub record TransSpec : Type 0 where
  pub name : String
  pub from : String
  pub event : String
  pub to : String

pub record Spec : Type 0 where
  pub package_name : String
  pub workflow : String
  pub version : String
  pub initial : String
  pub states : List StateSpec
  pub events : List NamedSpec
  pub tasks : List TaskSpec
  pub transitions : List TransSpec

-- what `main` does before it renders
abbrev pub with_package : Spec → Spec
with_package s = if s.package_name == "" then record s { package_name = "workflowdef" } else s

abbrev lower_letters : List String
lower_letters =
    "a" ∷ "b" ∷ "c" ∷ "d" ∷ "e" ∷ "f" ∷ "g" ∷ "h" ∷ "i" ∷ "j" ∷ "k" ∷ "l" ∷ "m" ∷ "n" ∷ "o" ∷ "p"
    ∷ "q" ∷ "r" ∷ "s" ∷ "t" ∷ "u" ∷ "v" ∷ "w" ∷ "x" ∷ "y" ∷ "z" ∷ []

abbrev upper_letters : List String
upper_letters =
    "A" ∷ "B" ∷ "C" ∷ "D" ∷ "E" ∷ "F" ∷ "G" ∷ "H" ∷ "I" ∷ "J" ∷ "K" ∷ "L" ∷ "M" ∷ "N" ∷ "O" ∷ "P"
    ∷ "Q" ∷ "R" ∷ "S" ∷ "T" ∷ "U" ∷ "V" ∷ "W" ∷ "X" ∷ "Y" ∷ "Z" ∷ []

-- The tables of Unicode, for characters beyond ASCII: the lower case, and the bytes of a character after its first,
-- which are no characters by themselves, as the text of a file has them.
pub record Unicode : Type 0 where
  pub lower : Char → String
  pub later_bytes : Char → String

abbrev is_ascii : Char → Bool
is_ascii c = leb (code c) 127

-- unicode.ToLower
abbrev lower_char : ⦃unicode : Unicode⦄ → Char → String
lower_char ⦃unicode⦄ c =
    if leb 65 (code c) && leb (code c) 90
    then nth_text lower_letters (code c - 65)
    else if is_ascii c
    then one c
    else unicode.lower c

abbrev upper_char : Char → String
upper_char c =
    if leb 97 (code c) && leb (code c) 122 then nth_text upper_letters (code c - 97) else one c

-- The first byte of a character in upper case, and its other bytes. A byte that is no character becomes U+FFFD.
abbrev first_byte_upper : ⦃unicode : Unicode⦄ → Char → String
first_byte_upper ⦃unicode⦄ c =
    if is_ascii c then upper_char c else append "�" (unicode.later_bytes c)

-- strings.ToLower
unfoldable pub to_lower : ⦃unicode : Unicode⦄ → String → String
to_lower String.[] = ""
to_lower (String.◌∷◌ c s) = append (lower_char c) (to_lower s)

-- strings.ToUpper(part[:1]) and the rest of the part
abbrev pub capitalized : ⦃unicode : Unicode⦄ → String → String
capitalized String.[] = ""
capitalized (String.◌∷◌ c s) = append (first_byte_upper c) s

abbrev pub is_separator : Char → Bool
is_separator c = one c == "_" || one c == "-" || one c == "." || one c == " "

-- strings.FieldsFunc: the runs between separators, where `part` is the one that is being read
unfoldable pub fields_from : String → String → List String
fields_from part String.[] = if part == "" then [] else part ∷ []
fields_from part (String.◌∷◌ c s) =
    let next = fields_from "" s in
    let longer = fields_from (append part (one c)) s in
    if is_separator c then (if part == "" then next else part ∷ next) else longer

abbrev pub fields_func : String → List String
fields_func = fields_from ""

-- the loop of `exported` over the parts
unfoldable pub write_parts : ⦃unicode : Unicode⦄ → List String → String
write_parts [] = ""
write_parts (part ∷ parts) =
    let rest = write_parts parts in
    if part == "" then rest else append (capitalized (to_lower part)) rest

unfoldable pub exported : ⦃unicode : Unicode⦄ → String → String
exported value = write_parts (fields_func value)

pub record Constant : Type 0 where
  pub go_name : String
  pub value : String

-- the loop of `constants`, with the map of the values that were seen
unfoldable pub constants_from :
    ⦃unicode : Unicode⦄ → String → Dict Bool → List String → List Constant
constants_from prefix seen [] = []
constants_from prefix seen (value ∷ values) =
    let skipped = constants_from prefix seen values in
    let taken =
      record { go_name = append prefix (exported value); value = value }
      ∷ constants_from prefix (insert value true seen) values in
    if value == "" || lookup_or false value seen then skipped else taken

unfoldable pub constants : ⦃unicode : Unicode⦄ → String → List String → List Constant
constants prefix values = constants_from prefix [] values

abbrev pub names_from_states : List StateSpec → List String
names_from_states = map (λ s. s.name)

abbrev pub names_from_named : List NamedSpec → List String
names_from_named = map (λ s. s.name)

abbrev pub names_from_tasks : List TaskSpec → List String
names_from_tasks = map (λ s. s.name)

abbrev pub handlers_from_tasks : List TaskSpec → List String
handlers_from_tasks = map (λ s. s.handler)
