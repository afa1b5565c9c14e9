-- ===== src/Otel/Examples.antt =====
-- A run of the exporter, and its theorem there.
use celery_cnc.Base.{ℕ, String, none, some, List, [], ◌∷◌, ◌≡◌, ◌+◌, refl}
use celery_cnc.Base.{string_eq, nat_eq, option_eq}
use celery_cnc.Base.Dict.{lookup}
use celery_cnc.Value.{pos, integer, field, end}
use celery_cnc.Schemas.{TaskEvent, WorkerEvent}
use celery_cnc.Metrics.{Exporter, count_of}
use celery_cnc.Otel.{OtelExporter}
use celery_cnc.Otel.Totals.{total, up, down}
use celery_cnc.Otel.Reports.{
  task, worker, Told, counted_by_otel, counted_by_prometheus, counted_by_otel-counted_by_prometheus,
}

abbrev same : String → String
same t = t

abbrev prometheus : Exporter ℕ
prometheus = record {
  broker_backend_map = [];
  worker_brokers = [];
  trackers = [];
  prefetched_counts = [];
  active_counts = [];
  samples = [];
}

abbrev otel : OtelExporter ℕ
otel = record {
  broker_backend_map = [];
  worker_brokers = [];
  task_trackers = [];
  prefetched_counts = [];
  active_counts = [];
  online = [];
  last_heartbeat = [];
  task_prefetch_times = [];
  pool_size = [];
  samples = [];
}

abbrev event : String → TaskEvent ℕ
event state = record {
  task_id = "t";
  name = some "add";
  state = state;
  timestamp = 5;
  worker = some "w";
  args = none;
  kwargs = none;
  result = none;
  traceback = none;
  stamps = none;
  runtime = none;
  retries = none;
  eta = none;
  expires = none;
  parent_id = none;
  root_id = none;
  group_id = none;
  chord_id = none;
}

abbrev heartbeat : WorkerEvent
heartbeat = record {
  hostname = "w";
  event = "worker-heartbeat";
  timestamp = 6;
  info = some (field "active" (integer (pos 3)) end);
  broker_url = some "redis://b";
}

abbrev told : List (Told ℕ)
told = task (event "STARTED") ∷ worker heartbeat ∷ []

counted_by_otel-counted_by_prometheus_example :
    total up "w" (counted_by_otel same same same told otel).samples
    ≡ total down "w" (counted_by_otel same same same told otel).samples
      + count_of "w" (counted_by_prometheus same same same told prometheus).active_counts
unfolding total lookup
counted_by_otel-counted_by_prometheus_example =
    counted_by_otel-counted_by_prometheus same same same told prometheus otel
      (record {
        backends = refl;
        brokers = refl;
        trackers = refl;
        prefetched = refl;
        active = refl;
      })
      (λ j. refl) "w"
