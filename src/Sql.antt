-- ===== src/Sql.antt =====
-- persistence/internal/sqlstore/store.go: the dialects, and the rewriting `q` of a statement's placeholders.
pub mod Placeholders
pub mod Database
pub mod Rows
pub mod Writes
pub mod Reads
pub mod Calls
pub mod Atomic
pub mod Records
pub mod Shown
pub mod Carries
pub mod Updating
pub mod Unique
pub mod Keeps
pub mod PrimaryKeys
pub mod Requests
pub mod Bodies
pub mod Refinement
pub mod Conflicts
pub mod Due
pub mod Delivery
pub mod Idempotency
pub mod Progress
pub mod Schema
pub mod Fixtures
mod Examples
use Prim.Native.Char.{Char}
use Prim.Native.Nat.{◌/◌, ◌%◌}
use fsm_go.Prelude.{ℕ, zero, suc, ◌+◌, ltb, String, append, Bool, ◌==◌, if◌then◌else◌}
use fsm_go.World.{hex_digits, nth_text}

pub data Dialect : Type 0 where
  mysql postgres : Dialect

abbrev digit : ℕ → String
digit = nth_text hex_digits

-- at most as many digits as given
abbrev digits_upto : ℕ → ℕ → String
digits_upto zero n = ""
digits_upto (suc most) n =
    let high = digits_upto most (n / 10) in
    if ltb n 10 then digit n else append high (digit (n % 10))

-- %d; a number has no more digits than its successor counts
unfoldable pub decimal : ℕ → String
decimal n = digits_upto (suc n) n

abbrev pub one : Char → String
one c = String.◌∷◌ c String.[]

-- ch == '?'
abbrev pub is_mark : Char → Bool
is_mark c = one c == "?"

-- the loop of `q`, from number `n` on
unfoldable pub number_marks : ℕ → String → String
number_marks n String.[] = ""
number_marks n (String.◌∷◌ c rest) =
    if is_mark c
    then append "$" (append (decimal n) (number_marks (n + 1) rest))
    else String.◌∷◌ c (number_marks n rest)

unfoldable pub q : Dialect → String → String
q Dialect.mysql query = query
q Dialect.postgres query = number_marks 1 query
