-- ===== src/Sql/Schema.antt =====
-- `InitSchema` of persistence/internal/sqlstore/store.go: the statements of a schema, one after another.
pub mod Texts
pub mod Trimming
pub mod Sending
use Prim.Native.Char.{Char, code}
use fsm_go.Prelude.{
  ℕ, leb, eqb, String, append, Bool, ◌&&◌, ◌||◌, List, [], ◌∷◌, ◌==◌, if◌then◌else◌,
}
use fsm_go.Errors.{Result}
use fsm_go.World.{Act, pure, ◌>>◌}
use fsm_go.Sql.{one}
use fsm_go.Sql.Database.{Database, wrapped, call}

abbrev pub is_semicolon : Char → Bool
is_semicolon c = one c == ";"

abbrev within : ℕ → ℕ → ℕ → Bool
within low high n = leb low n && leb n high

-- unicode.IsSpace: the white space of ASCII and Latin-1, and that beyond
abbrev pub is_space : Char → Bool
is_space c =
    let n = code c in
    within 9 13 n
    || eqb n 32
    || eqb n 0x85
    || eqb n 0xA0
    || eqb n 0x1680
    || within 0x2000 0x200A n
    || within 0x2028 0x2029 n
    || eqb n 0x202F
    || eqb n 0x205F
    || eqb n 0x3000

-- strings.Split(schema, ";"), where `part` is the one that is being read
unfoldable pub split_from : String → String → List String
split_from part String.[] = part ∷ []
split_from part (String.◌∷◌ c s) =
    let next = split_from "" s in
    let longer = split_from (append part (one c)) s in
    if is_semicolon c then part ∷ next else longer

unfoldable pub trim_left : String → String
trim_left String.[] = ""
trim_left (String.◌∷◌ c s) = let rest = trim_left s in if is_space c then rest else String.◌∷◌ c s

-- a character before a text whose end is trimmed: white space stays only before something
abbrev pub before : Char → String → String
before c rest = if is_space c && rest == "" then "" else append (one c) rest

unfoldable pub trim_right : String → String
trim_right String.[] = ""
trim_right (String.◌∷◌ c s) = before c (trim_right s)

-- strings.TrimSpace
abbrev pub trim_space : String → String
trim_space s = trim_right (trim_left s)

-- the loop over the parts; `carry_out` is what the database does for a statement
module _ {S : Type 0} ⦃db : Database⦄ (carry_out : String → S → Result (Unit {0}) × S) where
  unfoldable pub run_statements : List String → Act S (Unit {0})
  run_statements [] = pure tt
  run_statements (part ∷ parts) =
      let statement = trim_space part in
      let rest = run_statements parts in
      if statement == "" then rest else wrapped "init schema: " (call (carry_out statement)) >> rest

  unfoldable pub init_schema : String → Act S (Unit {0})
  init_schema schema = run_statements (split_from "" schema)
