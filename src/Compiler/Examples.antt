-- ===== src/Compiler/Examples.antt =====
-- The theorems about `Compile` at the leave request.
use fsm_go.Prelude.{◌≡◌}
use fsm_go.Compiler.Keys.{HasNoColon}
use fsm_go.Compiler.Valid.{IsValid, machine_of}
use fsm_go.Compiler.Exact.{compile_exact}
use fsm_go.Compiler.WellFormed.{IsWellFormed, compile-IsWellFormed}
use fsm_go.Fixtures.{leave, leave_machine, listed, leave_compiles, leave-HasNoColon}

compile_exact_example : IsValid leave × (leave_machine ≡ machine_of leave)
compile_exact_example = (compile_exact listed leave leave_machine).0 leave_compiles

compile-IsWellFormed_example : IsWellFormed leave_machine
compile-IsWellFormed_example = compile-IsWellFormed listed leave leave_machine leave_compiles

draft-HasNoColon : HasNoColon "draft"
draft-HasNoColon = leave-HasNoColon.0
