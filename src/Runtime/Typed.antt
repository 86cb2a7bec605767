-- ===== src/Runtime/Typed.antt =====
-- workflow/typed.go: the wrapper that takes typed names, and passes its calls on to the runtime. A typed name
-- is its text.
use fsm_go.Prelude.{String}
use fsm_go.Compiler.{Machine}
use fsm_go.Runtime.Base.{TaskHandler, Runtime, register_machine, register_task}

pub record TypedRuntime (S : Type 0) : Type 0 where
  pub runtime : Runtime S

module _ {S : Type 0} where
  abbrev pub new_typed_runtime : Runtime S → TypedRuntime S
  new_typed_runtime r = record { runtime = r }

  abbrev pub typed_register_machine : Machine → TypedRuntime S → TypedRuntime S
  typed_register_machine machine r = record { runtime = register_machine machine r.runtime }

  abbrev pub typed_register_task : String → TaskHandler S → TypedRuntime S → TypedRuntime S
  typed_register_task name handler r = record { runtime = register_task name handler r.runtime }
