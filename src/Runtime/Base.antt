-- ===== src/Runtime/Base.antt =====
-- The runtime's parts (workflow/runtime.go): the registered machines and handlers, and `Runtime` itself.
use fsm_go.Prelude.{String, append, Option, none, some, []}
use fsm_go.Dict.{Dict, lookup, insert}
use fsm_go.Errors.{Error, Result, ok, err, not_found}
use fsm_go.Types.{Duration, TaskContext, TaskResult}
use fsm_go.Store.{Store}
use fsm_go.Compiler.{Machine}

-- The application's code. It is given the time that its context leaves, if there is a deadline. It may
-- call the runtime, and other workers run beside it: so it takes the store to any other.
abbrev pub TaskHandler : Type 0 → Type 0
TaskHandler S = Option Duration → TaskContext → S → (TaskResult × Option Error) × S

-- the clock is the environment's
pub record Runtime (S : Type 0) : Type 0 where
  pub store : Store S
  pub machines : Dict Machine
  pub handlers : Dict (TaskHandler S)

abbrev pub machine_key : String → String → String
machine_key name version = append name (append ":" version)

module _ {S : Type 0} where
  abbrev pub new_runtime : Store S → Runtime S
  new_runtime store = record { store = store; machines = []; handlers = [] }

  abbrev pub register_machine : Machine → Runtime S → Runtime S
  register_machine machine r = record r {
    machines = insert (machine_key machine.name machine.version) machine r.machines;
  }

  abbrev pub register_task : String → TaskHandler S → Runtime S → Runtime S
  register_task name handler r = record r { handlers = insert name handler r.handlers }

  unfoldable pub find_machine : Runtime S → String → String → Result Machine
  find_machine r name version = elim (lookup (machine_key name version) r.machines) [
    | none ↦ err (not_found "workflow" (machine_key name version))
    | some machine ↦ ok machine
  ]

  unfoldable pub find_handler : Runtime S → String → Result (TaskHandler S)
  find_handler r name = elim (lookup name r.handlers) [
    | none ↦ err (not_found "handler" name)
    | some handler ↦ ok handler
  ]
