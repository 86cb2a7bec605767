-- ===== src/Errors.antt =====
-- workflow/errors.go: the error values, their texts, and results that may be errors.
use fsm_go.Prelude.{String, append, Bool, true, false, ◌≡◌, refl, ◌⊎◌, inl, inr}

pub data Error : Type 0 where
  not_found : String → String → Error
  invalid_definition : String → Error
  invalid_transition : String → String → Error
  concurrent_update : String → Error
  idempotent_conflict : String → Error
  -- an error of another package, by its text
  other : String → Error

-- e.Error()
unfoldable pub error_text : Error → String
error_text (not_found resource id) = append resource (append " not found: " id)
error_text (invalid_definition message) = append "invalid workflow definition: " message
error_text (invalid_transition state event) =
    append "invalid transition from " (append state (append " by " event))
error_text (concurrent_update id) = append "concurrent workflow update: " id
error_text (idempotent_conflict key) = append "idempotent conflict: " key
error_text (other text) = text

-- errors.As(err, &ErrConcurrentUpdate{})
abbrev pub is_concurrent_update : Error → Bool
is_concurrent_update (concurrent_update _) = true
is_concurrent_update _ = false

pub data Result {ℓ} (A : Type ℓ) : Type ℓ where
  err : Error → Result A
  ok : A → Result A

infixl 5 ◌>>=◌ ◌>>◌
abbrev pub ◌>>=◌ {ℓ κ} : {X : Type ℓ} {Y : Type κ} → Result X → (X → Result Y) → Result Y
err e >>= next = err e
ok x >>= next = next x

-- a check, and what follows where it passes
abbrev pub ◌>>◌ {κ} : {Y : Type κ} → Result (Unit {0}) → Result Y → Result Y
check >> rest = check >>= λ _. rest

-- if bad { return err }
abbrev pub refuse : Bool → Error → Result (Unit {0})
refuse true e = err e
refuse false e = ok tt

-- A successful chain has a successful first step.
pub >>=-eq-ok {ℓ κ} :
    {X : Type ℓ} {Y : Type κ} {y : Y} (r : Result X) (next : X → Result Y)
    → (r >>= next) ≡ ok y
    → (x : X) × (r ≡ ok x) × (next x ≡ ok y)
>>=-eq-ok (err e) next success = cc
>>=-eq-ok (ok x) next success = (x, refl, success)

pub Result-cases {ℓ} :
    {A : Type ℓ} (r : Result A) → ((a : A) × (r ≡ ok a)) ⊎ ((e : Error) × (r ≡ err e))
Result-cases (ok a) = inl (a, refl)
Result-cases (err e) = inr (e, refl)

pub ok-injective {ℓ} : {A : Type ℓ} {a b : A} → ok a ≡ ok b → a ≡ b
ok-injective p = cc

abbrev pub is_ok {ℓ} : {A : Type ℓ} → Result A → Bool
is_ok (ok _) = true
is_ok (err _) = false
