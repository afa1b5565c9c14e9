-- ===== src/Reconciler/Examples.antt =====
-- Turns of the reconciler on concrete databases.
use celery_cnc.Base.{ℕ, refl, String, none, some, List, [], ◌∷◌, All, arith, string_eq}
use celery_cnc.Value.{Fields, text, field, end, mapping}
use celery_cnc.Schemas.{Task}
use celery_cnc.Listener.Parse.{Objects}
use celery_cnc.Reconciler.{App, reply, no_reply}
use celery_cnc.Reconciler.Process.{Database, Reconciler}
use celery_cnc.Reconciler.Turns.{Instant, IsAmong, choose_workers, first_ten_only}

abbrev workers : List String
workers = "a" ∷ "b" ∷ "c" ∷ "d" ∷ "e" ∷ "f" ∷ "g" ∷ "h" ∷ "i" ∷ "j" ∷ "k" ∷ []

abbrev task : String → Task ℕ
task state = record {
  task_id = "t";
  name = none;
  state = state;
  worker = none;
  received = none;
  started = none;
  finished = none;
  runtime = none;
  args = none;
  kwargs = none;
  result = none;
  traceback = none;
  stamps = none;
  retries = none;
  parent_id = none;
  root_id = none;
  group_id = none;
  chord_id = none;
}

-- The task is reported in each state.
abbrev database : Database ℕ ℕ
database = record {
  get_workers = λ s. some workers;
  get_tasks = λ state s. some (task state ∷ []);
  store_worker_event = λ event s. some s;
  store_broker_queue_event = λ event s. some s;
  store_task_event = λ event s. some s;
}

abbrev fresh : Reconciler ℕ
fresh = record {
  worker_names = [];
  worker_index = 0;
  broker_index = 0;
  task_queue = [];
  task_refresh_at = 0;
  worker_refresh_at = 0;
  round_robin_index = 0;
}

abbrev at : ℕ → Instant
at n = record { now = n; later = n }

abbrev turns : List Instant
turns =
    at 3 ∷ at 6 ∷ at 9 ∷ at 12 ∷ at 15 ∷ at 18 ∷ at 21 ∷ at 24 ∷ at 27 ∷ at 30 ∷ at 33 ∷ at 36 ∷ []

abbrev objects : Objects ℕ
objects = record {
  as_datetime = λ o. none;
  as_float = λ o. some o;
  fromtimestamp = λ x. x;
  fromisoformat = λ t. none;
  float_of_int = λ n. 0;
  float_of_text = λ t. none;
  int_of_float = λ x. none;
  int_of_text = λ t. none;
  str = λ v. "?";
  dumps = λ v. "[]";
  json_safe = λ fields. fields;
  upper = λ t. t;
  redact_url = λ t. t;
}

abbrev meta : Fields
meta = field "status" (text "SUCCESS") end

abbrev apps : List App
apps =
    record {
      name = "x";
      broker_url = "";
      inspect = λ h. none;
      get_task_meta = λ t. no_reply;
      list_queues = none;
    }
    ∷ record {
      name = "y";
      broker_url = "";
      inspect = λ h. none;
      get_task_meta = λ t. reply (mapping meta);
      list_queues = none;
    }
    ∷ []

first_ten_only_example : All (IsAmong 10 workers) (choose_workers database turns 0 fresh)
first_ten_only_example = first_ten_only database workers 0 refl turns 0 fresh refl (
  omega arith,
  omega arith,
  (
    omega arith,
    omega arith,
    (
      omega arith,
      omega arith,
      (
        omega arith,
        omega arith,
        (
          omega arith,
          omega arith,
          (
            omega arith,
            omega arith,
            (
              omega arith,
              omega arith,
              (
                omega arith,
                omega arith,
                (
                  omega arith,
                  omega arith,
                  (
                    omega arith,
                    omega arith,
                    (omega arith, omega arith, (omega arith, omega arith, tt)),
                  ),
                ),
              ),
            ),
          ),
        ),
      ),
    ),
  ),
)
