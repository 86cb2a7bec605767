-- ===== src/World.antt =====
-- The runtime's effects (workflow/id.go, and `Clock` of workflow/runtime.go). An action runs on a store
-- and a counter of outside readings; it returns a result or an error, and what it wrote before an
-- error stays written. A reading of a clock or of the random source takes the counter's next
-- value; the environment says what is read there.
use Prim.Native.Nat.{◌/◌, ◌%◌}
use fsm_go.Prelude.{ℕ, zero, suc, String, append, Option, none, some, List, [], ◌∷◌}
use fsm_go.Errors.{Error, Result, ok, err}
use fsm_go.Types.{Time, clone_map, nil_map, HistoryType, HistoryInput, ExecutionHistory}

-- What the n-th reading of the outside gives: the runtime's clock, the system's clock, eight random
-- bytes (or an error), and the system time in the layout of `NewID`.
pub record Env : Type 0 where
  pub clock : ℕ → Time
  pub wall : ℕ → Time
  pub random : ℕ → Option (List ℕ)
  pub stamp : ℕ → String

pub record World (S : Type 0) : Type 0 where
  pub store : S
  pub readings : ℕ

abbrev pub Act : Type 0 → Type 0 → Type 0
Act S A = World S → Result A × World S

module _ {S A : Type 0} where
  abbrev pub pure : A → Act S A
  pure a w = (ok a, w)

  abbrev pub raise : Error → Act S A
  raise e w = (err e, w)

  abbrev pub lift : Result A → Act S A
  lift r w = (r, w)

  -- an operation of a store that reads nothing outside it
  abbrev pub run_store : Result A × S → World S → Result A × World S
  run_store (r, s) w = (r, record w { store = s })

  abbrev pub on_store : (S → Result A × S) → Act S A
  on_store f w = run_store (f w.store) w

  -- `x, err := m()`: the error is kept as a value
  abbrev pub try : Act S A → Act S (Result A)
  try m w = let (r, w') = m w in (ok r, w')

module _ {S A B : Type 0} where
  abbrev pub continue : Result A → (A → Act S B) → Act S B
  continue (ok a) f w = f a w
  continue (err e) f w = (err e, w)

  infixl 10 ◌>>=◌ ◌>>◌
  abbrev pub ◌>>=◌ : Act S A → (A → Act S B) → Act S B
  ◌>>=◌ m f w = let (r, w') = m w in continue r f w'

  abbrev pub ◌>>◌ : Act S A → Act S B → Act S B
  m >> n = m >>= λ _. n

abbrev pub next_reading : {S : Type 0} → World S → World S
next_reading w = record w { readings = suc w.readings }

abbrev pub hex_digits : List String
hex_digits =
    "0" ∷ "1" ∷ "2" ∷ "3" ∷ "4" ∷ "5" ∷ "6" ∷ "7" ∷ "8" ∷ "9" ∷ "a" ∷ "b" ∷ "c" ∷ "d" ∷ "e" ∷ "f"
    ∷ []

abbrev pub nth_text : List String → ℕ → String
nth_text [] n = ""
nth_text (x ∷ xs) zero = x
nth_text (x ∷ xs) (suc n) = nth_text xs n

-- hex.EncodeToString: two digits for each byte, the high one first
pub hex : List ℕ → String
hex [] = ""
hex (b ∷ bytes) =
    append (nth_text hex_digits (b / 16)) (append (nth_text hex_digits (b % 16)) (hex bytes))

-- the identifier that the n-th reading gives
unfoldable pub id_at : ⦃env : Env⦄ → String → ℕ → String
unfolding hex
id_at ⦃env⦄ prefix n = elim (env.random n) [
  | none ↦ append prefix (append "-" (env.stamp n))
  | some bytes ↦ append prefix (append "-" (hex bytes))
]

module _ ⦃env : Env⦄ {S : Type 0} where
  -- r.clock.Now()
  abbrev pub clock_now : Act S Time
  clock_now w = (ok (env.clock w.readings), next_reading w)

  -- time.Now().UTC()
  abbrev pub wall_now : Act S Time
  wall_now w = (ok (env.wall w.readings), next_reading w)

  abbrev pub new_id : String → Act S String
  new_id prefix w = (ok (id_at prefix w.readings), next_reading w)

-- the entry that `history` makes of its input, under the identifier that it drew
abbrev pub entry_of : HistoryInput → String → ExecutionHistory
entry_of input id = record {
  id = id;
  instance_id = input.instance_id;
  type = input.type;
  message = input.message;
  state = input.state;
  task_id = input.task_id;
  task = input.task;
  event = input.event;
  payload = clone_map input.payload;
  created_at = input.created_at;
}

abbrev pub history : ⦃env : Env⦄ {S : Type 0} → HistoryInput → Act S ExecutionHistory
history input = do id ← new_id "hist"; pure (entry_of input id)

-- An input with the fields that every call sets; the others have their zero values.
abbrev pub input_of : String → HistoryType → String → String → Time → HistoryInput
input_of instance_id type message state now = record {
  instance_id = instance_id;
  type = type;
  message = message;
  state = state;
  task_id = "";
  task = "";
  event = "";
  payload = nil_map;
  created_at = now;
}
