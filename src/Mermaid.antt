-- ===== src/Mermaid.antt =====
-- workflow/mermaid.go: the diagram of a machine, as the lines that are written. The loops over its maps go
-- through them in an order that Go leaves open.
use mathlib.Core.List
use mathlib.Core.List.{append_assoc}
use mathlib.Core.Path.{subst₂}
use fsm_go.Prelude.{String, append, refl, subst, List, [], ◌∷◌, ◌++◌, map, Permᴰ}
use fsm_go.Dict.{values}
use fsm_go.Types.{StateDefinition, Transition}
use fsm_go.Compiler.{Machine}

pub record DiagramOrder : Type 0 where
  pub states : List StateDefinition → List StateDefinition
  pub transitions : List Transition → List Transition
  pub states_perm : (xs : List StateDefinition) → Permᴰ (states xs) xs
  pub transitions_perm : (xs : List Transition) → Permᴰ (transitions xs) xs

-- "    %s --> %s: %s\n"
abbrev pub arrow : String → String → String → String
arrow from to label =
    append "    " (append from (append " --> " (append to (append ": " (append label "\n")))))

-- the inner loop: two arrows for each task that the state starts
abbrev pub enter_lines : String → List String → List String
enter_lines state [] = []
enter_lines state (task ∷ tasks) =
    let task_node = append state (append "_" task) in
    arrow state task_node "on enter" ∷ arrow task_node state "task" ∷ enter_lines state tasks

abbrev pub states_lines : List StateDefinition → List String
states_lines [] = []
states_lines (state ∷ states) = enter_lines state.name state.on_enter ++ states_lines states

abbrev pub transition_line : Transition → String
transition_line t = arrow t.from t.to t.event

unfoldable pub mermaid_lines : DiagramOrder → Machine → List String
mermaid_lines order machine =
    "stateDiagram-v2\n"
    ∷ append "    [*] --> " (append machine.initial "\n")
    ∷ (states_lines (order.states (values machine.states))
        ++ map transition_line (order.transitions (values machine.transitions)))

abbrev write_lines : List String → String
write_lines [] = ""
write_lines (line ∷ lines) = append line (write_lines lines)

-- b.String()
abbrev pub mermaid : DiagramOrder → Machine → String
mermaid order machine = write_lines (mermaid_lines order machine)

swap_blocks : (a b rest : List String) → Permᴰ (a ++ (b ++ rest)) (b ++ (a ++ rest))
swap_blocks a b rest =
    subst₂ Permᴰ (append_assoc a b rest) (append_assoc b a rest)
      (List.Permᴰ.append_right rest (List.Permᴰ.append_comm a b))

states_lines-perm :
    {xs ys : List StateDefinition} → Permᴰ xs ys → Permᴰ (states_lines xs) (states_lines ys)
states_lines-perm Permᴰ.nil = Permᴰ.nil
states_lines-perm (Permᴰ.cons {a = x} {l₁ = xs} {l₂ = ys} e h) =
    subst (λ y. Permᴰ (states_lines (x ∷ xs)) (states_lines (y ∷ ys))) e
      (List.Permᴰ.append_left (enter_lines x.name x.on_enter) (states_lines-perm h))
states_lines-perm (Permᴰ.swap {a = x} {b = y} {l = xs} e f) =
    subst₂ (λ y' x'. Permᴰ (states_lines (x ∷ y ∷ xs)) (states_lines (y' ∷ x' ∷ xs))) f e
      (swap_blocks (enter_lines x.name x.on_enter) (enter_lines y.name y.on_enter)
        (states_lines xs))
states_lines-perm (Permᴰ.trans h k) = Permᴰ.trans (states_lines-perm h) (states_lines-perm k)

-- The lines of a diagram are the same in whatever order its maps are read, up to their order.
pub mermaid_lines-perm :
    (one two : DiagramOrder) (machine : Machine)
    → Permᴰ (mermaid_lines one machine) (mermaid_lines two machine)
unfolding mermaid_lines
mermaid_lines-perm one two machine =
    let states = values machine.states in
    let transitions = values machine.transitions in
    Permᴰ.cons refl (
      Permᴰ.cons refl (
        Permᴰ.trans
          (List.Permᴰ.append_right _ (
            states_lines-perm
              (Permᴰ.trans (one.states_perm states) (List.Permᴰ.symm (two.states_perm states)))))
          (List.Permᴰ.append_left _ (
            List.Permᴰ.map transition_line (
              Permᴰ.trans (one.transitions_perm transitions)
                (List.Permᴰ.symm (two.transitions_perm transitions)))))))
