-- ===== src/Supervisor/Examples.antt =====
-- A manager with two brokers that show the same, started and restarted.
use celery_cnc.Base.{ℕ, ◌≡◌, refl, String, true, false, some, List, [], ◌∷◌, string_eq}
use celery_cnc.Base.Dict.{lookup, insert, keys}
use celery_cnc.Supervisor.{
  Role, db_manager, reconciler, event_listener, Config, ProcessManager, build_processes, put_scoped,
  put_listeners, put_beats, start, monitor,
}
use celery_cnc.Supervisor.Restart.{dies, monitors, run, IsRunning, monitor-run}

abbrev one_digit : ℕ → String
one_digit n = "2"

abbrev hidden : String → String
hidden url = "redis://:***@h"

abbrev same : String → String
same t = t

abbrev config : Config
config = record {
  prometheus = true;
  open_telemetry = false;
  beat = false;
  worker_import_paths = [];
  frontend = false;
  mcp = false;
}

abbrev brokers : List String
brokers = "redis://:a@h" ∷ "redis://:b@h" ∷ []

second_listener :
    build_processes one_digit hidden same (λ scope. true) config brokers
    ≡ some (
        ("db_manager", db_manager)
        ∷ ("prometheus", Role.prometheus)
        ∷ ("event_listener:redis://:***@h", event_listener "redis://:a@h" 1)
        ∷ ("event_listener:redis://:***@h#2", event_listener "redis://:b@h" 1)
        ∷ ("reconciler", reconciler)
        ∷ [])
unfolding build_processes put_scoped put_listeners put_beats lookup insert string_eq
second_listener = refl

abbrev manager : ProcessManager
manager = record {
  process_factories = ("db_manager", db_manager) ∷ ("reconciler", reconciler) ∷ [];
  processes = [];
  stopping = false;
}

monitor-run_example :
    IsRunning
      (lookup "reconciler"
        (monitor
          (run (dies "reconciler" ∷ monitors ∷ dies "reconciler" ∷ []) (start manager))).processes)
      reconciler
unfolding lookup keys string_eq
monitor-run_example =
    monitor-run manager (dies "reconciler" ∷ monitors ∷ dies "reconciler" ∷ []) "reconciler"
      reconciler (refl, refl, (refl, (refl, tt))) refl
