-- ===== src/Sql/Examples.antt =====
-- Placeholders of a statement with two parameters.
mod Conflicts
mod Progress
mod Delivery
mod Refinement
mod Schema
use fsm_go.Prelude.{String, ◌≡◌, refl, List, All}
use fsm_go.Sql.{Dialect, decimal, number_marks, q}
use fsm_go.Sql.Placeholders.{HasNoMark, joined, dollar, q-joined}

numbered : q Dialect.postgres "WHERE id = ? AND revision = ?" ≡ "WHERE id = $1 AND revision = $2"
unfolding q number_marks decimal
numbered = refl

tenth : decimal 10 ≡ "10"
unfolding decimal
tenth = refl

q-joined_example :
    (first : String) × (parts : List String) × HasNoMark first
    × All HasNoMark parts
    × ("WHERE id = ? AND revision = ?" ≡ joined (λ _. "?") 1 first parts)
    × (q Dialect.mysql "WHERE id = ? AND revision = ?" ≡ "WHERE id = ? AND revision = ?")
    × (q Dialect.postgres "WHERE id = ? AND revision = ?" ≡ joined dollar 1 first parts)
q-joined_example = q-joined "WHERE id = ? AND revision = ?"
