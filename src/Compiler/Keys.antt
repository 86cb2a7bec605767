-- ===== src/Compiler/Keys.antt =====
-- The keys of the transition table. `transitionKey` joins two names by a colon, which tells the
-- pairs apart as long as the states' names have no colon of their own.
use Prim.Native.Char.{Char, code}
use Prim.Native.String.append
use fsm_go.Prelude.{ℕ, String, append as concat, ◌≡◌, refl, ◌≢◌, ap, ◌∙◌, sym}
use fsm_go.Compiler.{transition_key}

-- `:` is not a character of the text
abbrev pub HasNoColon : String → Type 0
HasNoColon String.[] = Unit {0}
HasNoColon (String.◌∷◌ c s) = (code c ≢ b':') × HasNoColon s

abbrev colon : Char
colon = ":"

-- the key with its first name taken apart
abbrev joined : String → String → String
joined String.[] event = String.◌∷◌ colon event
joined (String.◌∷◌ c s) event = String.◌∷◌ c (joined s event)

transition_key-joined : (s e : String) → transition_key s e ≡ joined s e
transition_key-joined String.[] e =
    append.nil (concat ":" e) ∙ append.cons colon String.[] e ∙ ap (String.◌∷◌ colon) (append.nil e)
transition_key-joined (String.◌∷◌ c s) e =
    append.cons c s (concat ":" e) ∙ ap (String.◌∷◌ c) (transition_key-joined s e)

abbrev first_code : String → ℕ
first_code String.[] = 0
first_code (String.◌∷◌ c s) = code c

joined-injective :
    (s s' e e' : String)
    → HasNoColon s
    → HasNoColon s'
    → joined s e ≡ joined s' e'
    → (s ≡ s') × (e ≡ e')
joined-injective String.[] String.[] e e' h h' p = (refl, cc)
joined-injective String.[] (String.◌∷◌ c s') e e' h h' p = absurd (h'.0 (sym (ap first_code p)))
joined-injective (String.◌∷◌ c s) String.[] e e' h h' p = absurd (h.0 (ap first_code p))
joined-injective (String.◌∷◌ c s) (String.◌∷◌ c' s') e e' h h' p =
    let ih = joined-injective s s' e e' h.1 h'.1 (cc) in (cc ih.0, ih.1)

-- Two keys over states whose names have no colon are equal only for the same state and event.
pub transition_key-injective :
    (s s' e e' : String)
    → HasNoColon s
    → HasNoColon s'
    → transition_key s e ≡ transition_key s' e'
    → (s ≡ s') × (e ≡ e')
transition_key-injective s s' e e' h h' p =
    joined-injective s s' e e' h h'
      (sym (transition_key-joined s e) ∙ p ∙ transition_key-joined s' e')
