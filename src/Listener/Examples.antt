-- ===== src/Listener/Examples.antt =====
-- Runs of the listener on concrete events.
use celery_cnc.Base.{
  ℕ, ◌≡◌, refl, none, some, List, [], ◌∷◌, arith, string_eq, get_elem?, nat_eq, ◌==◌, length,
  if◌then◌else◌,
}
use celery_cnc.Base.Dict.{lookup}
use celery_cnc.Value.{Integer, pos, negsuc, Fields, text, end, field}
use celery_cnc.Listener.{Item, EventListener, StoreCall, stored, escaped, remove_text, state_of}
use celery_cnc.Listener.Parse.{Objects}
use celery_cnc.Listener.Queues.{Step, arrive, take, run, own_run, run-queue}
use celery_cnc.Listener.Routes.{AllValid, run-AllValid}

abbrev objects : Objects ℕ
objects = record {
  as_datetime = λ o. none;
  as_float = λ o. some o;
  fromtimestamp = λ x. x;
  fromisoformat = λ t. none;
  float_of_int = λ n. 0;
  float_of_text = λ t. none;
  int_of_float = λ x. some (pos x);
  int_of_text = λ t. none;
  str = λ v. "?";
  dumps = λ v. "[]";
  json_safe = λ fields. fields;
  upper = λ t. t;
  redact_url = λ t. t;
}

abbrev magnitude : Integer → ℕ
magnitude (pos n) = n
magnitude (negsuc n) = 0

-- The third call ends in an error that is not caught.
abbrev keep : Item ℕ → List (Item ℕ) → StoreCall × List (Item ℕ)
keep item db = (if length db == 2 then escaped else stored, item ∷ db)

abbrev started : Fields
started =
    field "type" (text "task-started")
      (field "uuid" (text "a") (field "argsrepr" (text "(1,)") end))

abbrev related : Fields
related =
    field "type" (text "task-relation") (
      field "root_id" (text "a")
        (field "child_id" (text "b") (field "relation" (text "chain") end)))

abbrev listener : EventListener ℕ (List (Item ℕ))
listener = record {
  broker_url_redacted = "redis://";
  db_client = some [];
  metrics_queues = record { maxsize = 1; items = [] } ∷ record { maxsize = 4; items = [] } ∷ [];
}

abbrev steps : List Step
steps = arrive 5 started ∷ arrive 6 related ∷ take 0 ∷ arrive 7 started ∷ arrive 8 started ∷ []

unknown_state : state_of objects magnitude "task-task-x" ≡ "x"
unfolding state_of lookup string_eq remove_text
unknown_state = refl

run-queue_example :
    get_elem? (run objects magnitude keep steps listener).metrics_queues 1
    ≡ some (
        own_run objects magnitude keep "redis://" 1 steps
          (some [])
          (record { maxsize = 4; items = [] }))
run-queue_example = run-queue objects magnitude keep steps listener 1

run-AllValid_example : AllValid (run objects magnitude keep steps listener).metrics_queues
run-AllValid_example = run-AllValid objects magnitude keep steps listener (
  record { bounded = omega arith; metric = tt },
  (record { bounded = omega arith; metric = tt }, tt),
)
