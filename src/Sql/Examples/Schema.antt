-- ===== src/Sql/Examples/Schema.antt =====
-- The schema of persistence/mysql/schema.go, and a small one with its statements listed.
use fsm_go.Prelude.{String, ◌≡◌, refl, List, [], ◌∷◌, ◌++◌, All, length}
use fsm_go.Errors.{Result, ok}
use fsm_go.World.{World}
use fsm_go.Sql.Database.{call}
use fsm_go.Sql.Placeholders.{joined}
use fsm_go.Sql.Schema.{init_schema, run_statements, split_from, trim_left, trim_right}
use fsm_go.Sql.Schema.Texts.{mysql_schema, init_mysql}
use fsm_go.Sql.Schema.Sending.{HasNoSemicolon, Sends, send_all, init_schema-Sends}
use fsm_go.Sql.Fixtures.{sound}

-- a database that lists what it is sent
abbrev listing : String → List String → Result (Unit {0}) × List String
listing statement sent = (ok tt, sent ++ statement ∷ [])

abbrev blank : World (List String)
blank = record { store = []; readings = 0 }

sends :
    (init_schema listing "\nCREATE a;\n ;\tCREATE b ;\n" blank).1.store
    ≡ "CREATE a" ∷ "CREATE b" ∷ []
unfolding init_schema run_statements split_from trim_left trim_right call
sends = refl

five : length (init_mysql listing blank).1.store ≡ 5
unfolding init_schema run_statements split_from trim_left trim_right call mysql_schema
five = refl

init_schema-Sends_example :
    (first : String) × (parts statements : List String) × HasNoSemicolon first
    × All HasNoSemicolon parts
    × (mysql_schema ≡ joined (λ _. ";") 1 first parts)
    × Sends (first ∷ parts) statements
    × (init_mysql listing ≡ send_all listing statements)
init_schema-Sends_example = init_schema-Sends listing mysql_schema
