-- ===== src/Builder/Examples.antt =====
-- The builder at the leave request.
use fsm_go.Prelude.{◌≡◌, refl, pos, [], ◌∷◌}
use fsm_go.Builder.{new_definition, apply_options, task, build, retry}
use fsm_go.Builder.RoundTrip.{calls_for, build-calls_for}
use fsm_go.Fixtures.{leave}

build-calls_for_example : build (calls_for leave) ≡ leave
build-calls_for_example = build-calls_for leave

-- an option that is given twice counts as given last
last_retry :
    (build (
      task "mail" "mailer"
        (retry (pos 3) (pos 10) ∷ retry (pos 5) (pos 20) ∷ [])
        (new_definition "leave" "v1"))).tasks
    ≡ (build
        (task "mail" "mailer" (retry (pos 5) (pos 20) ∷ []) (new_definition "leave" "v1"))).tasks
unfolding task apply_options new_definition
last_retry = refl
