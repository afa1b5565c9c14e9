-- ===== src/Metrics/Examples.antt =====
-- Runs of the exporter, and the theorems at them.
use celery_cnc.Base.{
  ℕ, ◌≡◌, ◌≢◌, refl, String, none, some, List, [], ◌∷◌, string_eq, option_eq, arith,
}
use celery_cnc.Base.{==_iff}
use mathlib.Core.Bool.{false≢true}
use celery_cnc.Base.Dict.{lookup, keys, insert}
use celery_cnc.Schemas.{TaskEvent}
use celery_cnc.Metrics.{
  Exporter, on_task_event, track_task_state, keep_tracker, observe_prefetch, enter_started,
  enter_received, leave_started, leave_received, update_active, update_prefetched, count_event,
}
use celery_cnc.Metrics.Census.{census}
use celery_cnc.Metrics.Counts.{IsExact}
use celery_cnc.Metrics.Runs.{AllStay, on_task_events, on_task_events-IsExact, moved_task_drifts}

abbrev same : String → String
same s = s

abbrev fresh : Exporter ℕ
fresh = record {
  broker_backend_map = [];
  worker_brokers = [];
  trackers = [];
  prefetched_counts = [];
  active_counts = [];
  samples = [];
}

abbrev running : Exporter ℕ
running = record fresh {
  trackers =
      ("a", record { name = "app.add"; worker = "w1"; state = "STARTED"; received_at = none }) ∷ [];
  active_counts = ("w1", 1) ∷ [];
}

abbrev event : String → String → String → TaskEvent ℕ
event id state worker = record {
  task_id = id;
  name = some "app.add";
  state = state;
  timestamp = 5;
  worker = some worker;
  args = none;
  kwargs = none;
  result = none;
  traceback = none;
  stamps = none;
  runtime = none;
  retries = none;
  eta = none;
  expires = none;
  parent_id = none;
  root_id = none;
  group_id = none;
  chord_id = none;
}

fresh-IsExact : IsExact fresh
unfolding lookup census keys
fresh-IsExact = record { single = tt; exact = λ j. refl }

running-IsExact : IsExact running
unfolding lookup census keys
running-IsExact = record { single = (refl, tt); exact = λ j. ground arith }

abbrev run : List (TaskEvent ℕ)
run = event "a" "STARTED" "w1" ∷ event "b" "STARTED" "w1" ∷ event "a" "SUCCESS" "w1" ∷ []

run_stays : AllStay same same same run fresh
unfolding lookup string_eq on_task_event track_task_state keep_tracker observe_prefetch
    enter_started enter_received leave_started leave_received update_active update_prefetched
    count_event option_eq insert
run_stays = (tt, (tt, ((λ _ _. refl), tt)))

on_task_events-IsExact_example : IsExact (on_task_events same same same run fresh)
on_task_events-IsExact_example =
    on_task_events-IsExact same same same run fresh fresh-IsExact run_stays

found_a :
    lookup "a" running.trackers
    ≡ some (record { name = "app.add"; worker = "w1"; state = "STARTED"; received_at = none })
unfolding lookup string_eq
found_a = refl

other_worker : ◌≢◌ {A = String} "w1" "w2"
unfolding string_eq
other_worker e = false≢true ((==_iff "w1" "w2").1 e)

moved_task_drifts_example :
    ¬ IsExact (on_task_event same same same (event "a" "STARTED" "w2") running)
unfolding string_eq
moved_task_drifts_example =
    moved_task_drifts same same same (event "a" "STARTED" "w2") running
      (record { name = "app.add"; worker = "w1"; state = "STARTED"; received_at = none })
      running-IsExact found_a refl refl other_worker
