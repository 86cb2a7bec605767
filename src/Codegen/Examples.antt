-- ===== src/Codegen/Examples.antt =====
-- Names, constants and calls of a small specification.
use fsm_go.Prelude.{if◌then◌else◌, ◌==◌, pos, ◌≡◌, refl, [], ◌∷◌, ◌++◌, map, keep}
use fsm_go.Codegen.{Unicode, TaskSpec, exported, write_parts, fields_from, to_lower, constants}
use fsm_go.Codegen.Render.{task_name, handler_name, is_given, task_pieces, text_of}
use fsm_go.Codegen.Names.{distinct, is_text, named, constants-distinct}
use fsm_go.Codegen.Separators.{chosen, task_choices, or_trailing, task_pieces-separated}
use fsm_go.Sql.{one, decimal}

-- one letter beyond ASCII, É, with the lower case é, whose second byte is shown as it is marked here
instance abbrev accents : Unicode
accents = record { lower = λ c. if one c == "É" then "é" else one c; later_bytes = λ c. "[A9]" }

accent_cut : exported "ÉCLAIR" ≡ "�[A9]clair"
unfolding exported write_parts fields_from to_lower
accent_cut = refl

parts_joined : exported "leave_request-Sent.x" ≡ "LeaveRequestSentX"
unfolding exported write_parts fields_from to_lower
parts_joined = refl

-- the capitals inside a part are lost
capitals_lost : exported "leaveRequest" ≡ "Leaverequest"
unfolding exported write_parts fields_from to_lower
capitals_lost = refl

-- two texts, one name: a file with both constants does not compile
names_collide : exported "to_do" ≡ exported "to-do"
unfolding exported write_parts fields_from to_lower
names_collide = refl

constants-distinct_example :
    constants "State" ("done" ∷ "" ∷ "draft" ∷ "done" ∷ [])
    ≡ map (named "State") (distinct (keep is_text ("done" ∷ "" ∷ "draft" ∷ "done" ∷ [])))
constants-distinct_example = constants-distinct "State" ("done" ∷ "" ∷ "draft" ∷ "done" ∷ [])

twice_done : distinct ("done" ∷ "draft" ∷ "done" ∷ []) ≡ "done" ∷ "draft" ∷ []
twice_done = refl

abbrev mail_spec : TaskSpec
mail_spec = record {
  name = "mail";
  handler = "mailer";
  max_attempts = pos 3;
  backoff = "";
  timeout = "1m";
  compensation = "";
  on_success = "approve";
  on_failure = "";
}

task_pieces-separated_example :
    task_pieces mail_spec
    ≡ "\n\t\tTask("
      ∷ task_name "mail"
      ∷ ", "
      ∷ handler_name "mailer"
      ∷ (or_trailing (is_given "") (chosen (task_choices mail_spec)) ++ ")." ∷ [])
task_pieces-separated_example = task_pieces-separated mail_spec

mail_call :
    text_of (task_pieces mail_spec)
    ≡ "\n\t\tTask(TaskMail, HandlerMailer, workflow.Retry(3, time.Second), workflow.Timeout(mustDuration(\"1m\")), workflow.OnSuccess(EventApprove))."
unfolding task_pieces decimal exported write_parts fields_from to_lower
mail_call = refl

-- a backoff without attempts is dropped, but for a comma
backoff_dropped :
    text_of (
      task_pieces
        (record mail_spec { max_attempts = pos 0; backoff = "5s"; timeout = ""; on_success = "" }))
    ≡ "\n\t\tTask(TaskMail, HandlerMailer, )."
unfolding task_pieces exported write_parts fields_from to_lower
backoff_dropped = refl
