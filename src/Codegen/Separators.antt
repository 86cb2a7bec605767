-- ===== src/Codegen/Separators.antt =====
-- The commas of the generated calls (the template of cmd/workflowgen/main.go).
use fsm_go.Prelude.{
  String, ◌≡◌, refl, sym, ap, Bool, true, false, ◌||◌, List, [], ◌∷◌, ◌++◌, arith, Bool-cases, inl,
  inr,
}
use mathlib.Core.List.{append_assoc, append-nil}
use fsm_go.Codegen.{Unicode, StateSpec, TaskSpec}
use fsm_go.Codegen.Render.{
  state_name, task_name, handler_name, is_given, are_given, is_set, when, blocks, on_enter_pieces,
  state_pieces, retry_pieces, timeout_pieces, compensation_pieces, success_pieces, failure_pieces,
  task_pieces,
}

-- each argument behind a comma
abbrev pub with_commas : List (List String) → List String
with_commas [] = []
with_commas (x ∷ xs) = ", " ∷ (x ++ with_commas xs)

-- an argument, with the condition for it
abbrev pub Choice : Type 0
Choice = Bool × List String

-- the arguments whose conditions hold
abbrev pub chosen : List Choice → List (List String)
chosen [] = []
chosen ((true, pieces) ∷ choices) = pieces ∷ chosen choices
chosen ((false, pieces) ∷ choices) = chosen choices

-- the arguments as the template writes them, with a comma where an earlier one was written
abbrev chain : Bool → List Choice → List String → List String
chain earlier [] rest = rest
chain earlier ((here, pieces) ∷ choices) rest =
    when here (when earlier (", " ∷ []) ++ pieces) ++ chain (earlier || here) choices rest

abbrev any : List Choice → Bool
any [] = false
any ((here, _) ∷ choices) = here || any choices

chain-true :
    (choices : List Choice) (rest : List String)
    → chain true choices rest ≡ with_commas (chosen choices) ++ rest
chain-true [] rest = refl
chain-true ((true, pieces) ∷ choices) rest =
    rw (chain-true choices rest)
      (ap (λ xs. ", " ∷ xs) (sym (append_assoc pieces (with_commas (chosen choices)) rest)))
chain-true ((false, pieces) ∷ choices) rest = chain-true choices rest

-- the first argument has its comma from the head of the call
chain-false :
    (choices : List Choice) (rest : List String)
    → any choices ≡ true
    → ", " ∷ chain false choices rest ≡ with_commas (chosen choices) ++ rest
chain-false [] rest h = absurd (let no : false ≡ true = h in cc)
chain-false ((true, pieces) ∷ choices) rest h =
    rw (chain-true choices rest)
      (ap (λ xs. ", " ∷ xs) (sym (append_assoc pieces (with_commas (chosen choices)) rest)))
chain-false ((false, pieces) ∷ choices) rest h = chain-false choices rest h

chain-none :
    (choices : List Choice) (rest : List String)
    → any choices ≡ false
    → (chain false choices rest ≡ rest) × (chosen choices ≡ [])
chain-none [] rest h = (refl, refl)
chain-none ((true, pieces) ∷ choices) rest h = absurd (let no : true ≡ false = h in cc)
chain-none ((false, pieces) ∷ choices) rest h = chain-none choices rest h

-- Without an argument a comma stands only for a backoff, and closes the call.
abbrev pub or_trailing : Bool → List (List String) → List String
or_trailing backoff [] = when backoff (", " ∷ [])
or_trailing backoff (x ∷ xs) = with_commas (x ∷ xs)

or_trailing-chosen :
    (backoff : Bool) (choices : List Choice)
    → any choices ≡ true
    → or_trailing backoff (chosen choices) ≡ with_commas (chosen choices)
or_trailing-chosen backoff [] h = absurd (let no : false ≡ true = h in cc)
or_trailing-chosen backoff ((true, pieces) ∷ choices) h = refl
or_trailing-chosen backoff ((false, pieces) ∷ choices) h = or_trailing-chosen backoff choices h

-- the head's comma, the chain and the rest
headed :
    (backoff : Bool) (choices : List Choice) (rest : List String)
    → when (backoff || any choices) (", " ∷ []) ++ chain false choices rest
      ≡ or_trailing backoff (chosen choices) ++ rest
headed backoff choices rest = elim (Bool-cases (any choices)) [
  | inl e ↦
      rw (e, or_trailing-chosen backoff choices e, either backoff) (chain-false choices rest e)
  | inr e ↦
      let (chain_eq, chosen_eq) = chain-none choices rest e in
      rw (e, chain_eq, chosen_eq, neither backoff) refl
]
  where
    either : (b : Bool) → (b || true) ≡ true
    either true = refl
    either false = refl

    neither : (b : Bool) → (b || false) ≡ b
    neither true = refl
    neither false = refl

abbrev pub task_choices : ⦃unicode : Unicode⦄ → TaskSpec → List Choice
task_choices t =
    (is_set t.max_attempts, retry_pieces t)
    ∷ (is_given t.timeout, timeout_pieces t)
    ∷ (is_given t.compensation, compensation_pieces t)
    ∷ (is_given t.on_success, success_pieces t)
    ∷ (is_given t.on_failure, failure_pieces t)
    ∷ []

head_first :
    (r b t c s f : Bool)
    → (r || b || t || c || s || f) ≡ (b || (r || (t || (c || (s || (f || false))))))
head_first r b t c s f = ground arith

-- A task becomes a call with its name, its handler and then its options, each behind one comma; only a backoff
-- without any option leaves a comma before the closing parenthesis.
pub task_pieces-separated :
    ⦃unicode : Unicode⦄ (t : TaskSpec)
    → task_pieces t
      ≡ "\n\t\tTask("
        ∷ task_name t.name
        ∷ ", "
        ∷ handler_name t.handler
        ∷ (or_trailing (is_given t.backoff) (chosen (task_choices t)) ++ ")." ∷ [])
unfolding task_pieces
task_pieces-separated t =
    rw
      (head_first (is_set t.max_attempts) (is_given t.backoff) (is_given t.timeout)
        (is_given t.compensation) (is_given t.on_success) (is_given t.on_failure))
      (ap (λ xs. "\n\t\tTask(" ∷ task_name t.name ∷ ", " ∷ handler_name t.handler ∷ xs)
        (headed (is_given t.backoff) (task_choices t) (")." ∷ [])))

abbrev pub on_enter_call : ⦃unicode : Unicode⦄ → StateSpec → List String
on_enter_call s =
    blocks (("workflow.OnEnter(" ∷ []) ∷ on_enter_pieces 0 s.on_enter ∷ (")" ∷ []) ∷ [])

abbrev pub state_choices : ⦃unicode : Unicode⦄ → StateSpec → List Choice
state_choices s =
    (s.terminal, "workflow.Terminal()" ∷ []) ∷ (are_given s.on_enter, on_enter_call s) ∷ []

state_commas :
    ⦃unicode : Unicode⦄ (terminal enters : Bool) (call rest : List String)
    → blocks (
        when (terminal || enters) (", " ∷ [])
        ∷ when terminal ("workflow.Terminal()" ∷ when enters (", " ∷ []))
        ∷ when enters call
        ∷ rest
        ∷ [])
      ≡ with_commas (chosen ((terminal, "workflow.Terminal()" ∷ []) ∷ (enters, call) ∷ [])) ++ rest
state_commas true true call rest = simp append-nil
state_commas true false call rest = simp append-nil
state_commas false true call rest = simp append-nil
state_commas false false call rest = simp append-nil

-- A state becomes a call with its name and then its options, each behind one comma.
pub state_pieces-separated :
    ⦃unicode : Unicode⦄ (s : StateSpec)
    → state_pieces s
      ≡ "\n\t\tState(" ∷ state_name s.name ∷ (with_commas (chosen (state_choices s)) ++ ")." ∷ [])
unfolding state_pieces
state_pieces-separated s =
    ap (λ xs. "\n\t\tState(" ∷ state_name s.name ∷ xs)
      (state_commas s.terminal (are_given s.on_enter) (on_enter_call s) (")." ∷ []))
