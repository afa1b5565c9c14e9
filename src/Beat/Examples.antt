-- ===== src/Beat/Examples.antt =====
-- A scheduler with one schedule that ran.
use celery_cnc.Base.{
  List, ℕ, suc, ◌≡◌, refl, String, true, Option, none, some, [], ◌∷◌, string_eq, nat_eq, option_eq,
}
use celery_cnc.Base.Dict.{keys}
use celery_cnc.Schemas.{Schedule}
use celery_cnc.Beat.{
  Readers, Database, Entry, DatabaseScheduler, writeback_run_state, load_schedules,
}
use celery_cnc.Beat.Writeback.{Changed, stored_one_by_one, writeback_run_state-changed}

abbrev readers : Readers
readers = record {
  Timing = String;
  Args = Option String;
  Kwargs = Option String;
  parse_schedule = λ t. some t;
  parse_args = λ t. t;
  parse_kwargs = λ t. t;
}

-- A database that counts what it is sent.
abbrev counting : Database ℕ
counting = record { get_schedules = λ n. (some [], n); store_schedule = λ s n. suc n }

abbrev hourly : Schedule
hourly = record {
  schedule_id = "s1";
  name = "hourly";
  task = "report";
  schedule = "0 * * * *";
  args = none;
  kwargs = none;
  enabled = true;
  last_run_at = some 3;
  total_run_count = some 1;
  app = some "app";
}

abbrev entry_after : ℕ → Entry readers
entry_after n = record {
  name = "s1";
  task = "report";
  schedule = "0 * * * *";
  args = none;
  kwargs = none;
  enabled = true;
  last_run_at = some 3;
  total_run_count = n;
}

abbrev ran : DatabaseScheduler readers
ran = record {
  refresh_interval = 5;
  last_refresh_at = 0;
  schedule_cache = ("s1", hourly) ∷ [];
  run_state_cache = ("s1", (some 3, 1)) ∷ [];
  app_label = "app";
  schedule = ("s1", entry_after 2) ∷ [];
}

writeback_run_state-changed_example :
    (changed : List Schedule) × Changed readers ran.schedule ran.run_state_cache ran.schedule_cache
      changed
    × ((writeback_run_state readers counting ran 0).1
        ≡ stored_one_by_one readers counting changed 0)
    × ((net : ℕ)
        → (writeback_run_state readers counting
            (writeback_run_state readers counting ran 0).0
            net).1
          ≡ net)
unfolding keys
writeback_run_state-changed_example = writeback_run_state-changed readers counting ran 0 (refl, tt)

one_stored : (writeback_run_state readers counting ran 0).1 ≡ 1
unfolding writeback_run_state string_eq nat_eq option_eq
one_stored = refl

loaded :
    load_schedules readers 9 (hourly ∷ []) (record {
      refresh_interval = 5;
      last_refresh_at = 0;
      schedule_cache = [];
      run_state_cache = [];
      app_label = "app";
      schedule = [];
    })
    ≡ some (record {
      refresh_interval = 5;
      last_refresh_at = 0;
      schedule_cache = ("s1", hourly) ∷ [];
      run_state_cache = ("s1", (some 3, 1)) ∷ [];
      app_label = "app";
      schedule = ("s1", entry_after 1) ∷ [];
    })
unfolding load_schedules
loaded = refl
