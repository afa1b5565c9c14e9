-- ===== src/Otel.antt =====
-- celery_root/components/metrics/opentelemetry/exporter.py: the exporter that reports every change of
-- a count, where that of Metrics reports the count. The labels, the trackers and the readers of a
-- worker's report are those of Metrics, which the two files repeat word for word. The OpenTelemetry
-- client is not part of the repository: its calls are the samples that a method adds.
pub mod Totals
pub mod Steps
pub mod Agreement
pub mod Reports
mod Examples
use mathlib.Core.Option.{get_or}
use celery_cnc.Base.{
  ◌≡◌, ℕ, zero, suc, ◌+◌, ◌-◌, String, ◌<>◌, Bool, true, false, not, ◌&&◌, Option, none, some, List,
  [], ◌∷◌, ◌++◌,
}
use celery_cnc.Base.{Eq, ◌==◌, nat_eq, string_eq, option_eq, if◌then◌else◌, contains, leb}
use celery_cnc.Base.Dict.{Dict, lookup, insert, erase}
use celery_cnc.Schemas.{Datetime, TaskEvent, WorkerEvent}
use celery_cnc.Value.{Integer, pos, negsuc, Fields, get}
use celery_cnc.Metrics.{
  Tracker, Metric, events, task_failures, task_retries, task_runtime, task_runtime_by_task,
  task_prefetch, task_queue_latency, prefetched_tasks, worker_online, worker_last_heartbeat,
  worker_current, worker_pool_size, Labels, Reading, increment, float, micros, count, signed,
  Sample, pair_eq, terminal_states, shifted, count_of, put_count, event_types, parse_active_tasks,
  parse_pool_size, prev_state, prev_name, prev_worker, or_unknown, normalize_label,
}

pub record OtelExporter (F : Type 0) : Type 0 where
  pub broker_backend_map : Dict String String
  pub worker_brokers : Dict String String
  pub task_trackers : Dict String Tracker
  pub prefetched_counts : Dict (String × String) ℕ
  pub active_counts : Dict String ℕ
  pub online : Dict String ℕ
  pub last_heartbeat : Dict String Datetime
  pub task_prefetch_times : Dict (String × String) ℕ
  pub pool_size : Dict String Integer
  pub samples : List (Sample F)

-- `current - previous`
unfoldable pub difference : ℕ → ℕ → Integer
difference current previous =
    if leb previous current then pos (current - previous) else negsuc (previous - current - 1)

module _ {F : Type 0} (upper lower strip_credentials : String → String) where
  unfoldable pub broker_label : OtelExporter F → String → String
  unfolding normalize_label lookup
  broker_label x worker =
      normalize_label strip_credentials (lookup worker x.worker_brokers) "default"

  abbrev backend_of : OtelExporter F → Option String → Option String
  backend_of x none = none
  backend_of x (some broker_url) = lookup broker_url x.broker_backend_map

  unfoldable pub backend_label : OtelExporter F → String → String
  unfolding normalize_label lookup
  backend_label x worker =
      normalize_label strip_credentials (backend_of x (lookup worker x.worker_brokers)) "disabled"

  unfoldable pub task_labels : OtelExporter F → String → String → Option String → Labels
  unfolding broker_label backend_label
  task_labels x task worker event_type = record {
    task = some task;
    worker = some worker;
    broker = broker_label x worker;
    backend = backend_label x worker;
    event_type = event_type;
  }

  unfoldable pub task_summary_labels : OtelExporter F → String → String → Labels
  unfolding broker_label backend_label
  task_summary_labels x task worker = record {
    task = some task;
    worker = none;
    broker = broker_label x worker;
    backend = backend_label x worker;
    event_type = none;
  }

  unfoldable pub worker_labels : OtelExporter F → String → Labels
  unfolding broker_label backend_label
  worker_labels x worker = record {
    task = none;
    worker = some worker;
    broker = broker_label x worker;
    backend = backend_label x worker;
    event_type = none;
  }

  -- One call of the client.
  abbrev pub emit : Metric → Labels → Reading F → OtelExporter F → OtelExporter F
  emit metric labels reading x = record x {
    samples = x.samples ++ record { metric = metric; labels = labels; reading = reading } ∷ [];
  }

  -- `if actual_delta: ….add(actual_delta, …)`
  unfoldable pub add_delta : Metric → Labels → ℕ → ℕ → OtelExporter F → OtelExporter F
  unfolding difference
  add_delta metric labels current previous x =
      if current == previous then x else emit metric labels (signed (difference current previous)) x

  unfoldable pub update_prefetched : String → String → Integer → OtelExporter F → OtelExporter F
  unfolding put_count pair_eq task_labels add_delta lookup
  update_prefetched task worker delta x =
      let previous = count_of (task, worker) x.prefetched_counts in
      let current = shifted previous delta in
      add_delta prefetched_tasks (task_labels x task worker none) current previous
        (record x { prefetched_counts = put_count (task, worker) current x.prefetched_counts })

  -- A new count for a worker, and the change that is reported.
  unfoldable pub put_active : String → ℕ → OtelExporter F → OtelExporter F
  unfolding put_count worker_labels add_delta lookup
  put_active worker current x =
      add_delta worker_current (worker_labels x worker) current (count_of worker x.active_counts)
        (record x { active_counts = put_count worker current x.active_counts })

  unfoldable pub update_active : String → Integer → OtelExporter F → OtelExporter F
  unfolding put_active lookup
  update_active worker delta x =
      put_active worker (shifted (count_of worker x.active_counts) delta) x

  unfoldable pub set_active_count : String → Integer → OtelExporter F → OtelExporter F
  unfolding put_active
  set_active_count worker given x = put_active worker (shifted 0 given) x

  -- The two departures from a state and the two arrivals, in their order.
  unfoldable pub leave_received :
      Option Tracker → String → String → String → OtelExporter F → OtelExporter F
  leave_received previous task_name worker state x =
      if prev_state previous == some "RECEIVED" && not (state == "RECEIVED")
      then update_prefetched (prev_name previous task_name) (prev_worker previous worker) (negsuc 0)
          x
      else x

  unfoldable pub leave_started : Option Tracker → String → String → OtelExporter F → OtelExporter F
  leave_started previous worker state x =
      if prev_state previous == some "STARTED" && not (state == "STARTED")
      then update_active (prev_worker previous worker) (negsuc 0) x
      else x

  unfoldable pub enter_received :
      Option Tracker → String → String → String → OtelExporter F → OtelExporter F
  enter_received previous task_name worker state x =
      if state == "RECEIVED" && not (prev_state previous == some "RECEIVED")
      then update_prefetched task_name worker (pos 1) x
      else x

  unfoldable pub enter_started : Option Tracker → String → String → OtelExporter F → OtelExporter F
  enter_started previous worker state x =
      if state == "STARTED" && not (prev_state previous == some "STARTED")
      then update_active worker (pos 1) x
      else x

  -- The wait between arrival and start; a clock that ran backwards counts as 0.
  abbrev pub waited : ℕ → String → String → OtelExporter F → OtelExporter F
  waited wait task_name worker x =
      emit task_queue_latency (task_labels x task_name worker none) (micros wait)
        (record x { task_prefetch_times = insert (task_name, worker) wait x.task_prefetch_times })

  abbrev pub after_wait :
      Option Datetime → Bool → Datetime → String → String → OtelExporter F → OtelExporter F
  after_wait none starts timestamp task_name worker x = x
  after_wait (some received_at) starts timestamp task_name worker x =
      if starts then waited (timestamp - received_at) task_name worker x else x

  unfoldable pub observe_prefetch :
      Option Tracker → Datetime → String → String → String → OtelExporter F → OtelExporter F
  unfolding pair_eq
  observe_prefetch none timestamp task_name worker state x = x
  observe_prefetch (some previous) timestamp task_name worker state x =
      after_wait previous.received_at (previous.state == "RECEIVED" && state == "STARTED") timestamp
        task_name worker x

  unfoldable pub keep_tracker :
      Datetime → String → String → String → String → OtelExporter F → OtelExporter F
  keep_tracker timestamp task_id task_name worker state x =
      if contains terminal_states state
      then record x { task_trackers = erase task_id x.task_trackers }
      else record x {
        task_trackers =
            insert task_id
              (record {
                name = task_name;
                worker = worker;
                state = state;
                received_at = if state == "RECEIVED" then some timestamp else none;
              })
              x.task_trackers;
      }

  unfoldable pub track_task_state :
      TaskEvent F → String → String → String → OtelExporter F → OtelExporter F
  track_task_state event task_name worker state x =
      let previous = lookup event.task_id x.task_trackers in
      keep_tracker event.timestamp event.task_id task_name worker state (
        observe_prefetch previous event.timestamp task_name worker state (
          enter_started previous worker state (
            enter_received previous task_name worker state (
              leave_started previous worker state
                (leave_received previous task_name worker state x)))))

  abbrev pub timed : Option F → String → String → OtelExporter F → OtelExporter F
  timed none task_name worker x = x
  timed (some runtime) task_name worker x =
      emit task_runtime_by_task (task_summary_labels x task_name worker) (float runtime)
        (emit task_runtime (task_labels x task_name worker none) (float runtime) x)

  abbrev pub count_if : Bool → Metric → Labels → OtelExporter F → OtelExporter F
  count_if test metric labels x = if test then emit metric labels increment x else x

  unfoldable pub count_event :
      TaskEvent F → String → String → String → OtelExporter F → OtelExporter F
  unfolding lookup task_labels task_summary_labels
  count_event event task_name worker state x =
      let event_type = get_or (lookup state event_types) ("task-" <> lower state) in
      let x1 = emit events (task_labels x task_name worker (some event_type)) increment x in
      let labels = task_labels x task_name worker none in
      timed event.runtime task_name worker (
        count_if (state == "RETRY") task_retries labels
          (count_if (state == "FAILURE") task_failures labels x1))

  unfoldable pub on_task_event : TaskEvent F → OtelExporter F → OtelExporter F
  on_task_event event x =
      let worker = or_unknown event.worker in
      let task_name = or_unknown event.name in
      let state = upper event.state in
      track_task_state event task_name worker state (count_event event task_name worker state x)

  abbrev pub with_broker : String → Option String → OtelExporter F → OtelExporter F
  with_broker hostname none x = x
  with_broker hostname (some url) x = record x {
    worker_brokers = insert hostname url x.worker_brokers;
  }

  abbrev pub with_active : String → Option Integer → OtelExporter F → OtelExporter F
  with_active hostname none x = x
  with_active hostname (some active) x = set_active_count hostname active x

  abbrev pub with_pool : String → Option Integer → OtelExporter F → OtelExporter F
  with_pool hostname none x = x
  with_pool hostname (some size) x = record x { pool_size = insert hostname size x.pool_size }

  unfoldable pub note_info : String → Option Fields → OtelExporter F → OtelExporter F
  unfolding parse_active_tasks parse_pool_size
  note_info hostname none x = x
  note_info hostname (some info) x =
      with_pool hostname (parse_pool_size (get "pool" info))
        (with_active hostname (parse_active_tasks (get "active" info)) x)

  -- By whether the event says that the worker is there, or that it has gone.
  abbrev pub status_as : Bool → Bool → String → Datetime → OtelExporter F → OtelExporter F
  status_as true offline hostname timestamp x = record x {
    online = insert hostname 1 x.online;
    last_heartbeat = insert hostname timestamp x.last_heartbeat;
  }
  status_as false true hostname timestamp x = record x { online = insert hostname 0 x.online }
  status_as false false hostname timestamp x = x

  unfoldable pub note_status : WorkerEvent → OtelExporter F → OtelExporter F
  note_status event x =
      let normalized = lower event.event in
      status_as
        (contains ("worker-online" ∷ "online" ∷ "worker-heartbeat" ∷ "heartbeat" ∷ []) normalized)
        (contains ("worker-offline" ∷ "offline" ∷ []) normalized) event.hostname event.timestamp x

  unfoldable pub on_worker_event : WorkerEvent → OtelExporter F → OtelExporter F
  unfolding note_info note_status
  on_worker_event event x =
      note_status event
        (note_info event.hostname event.info (with_broker event.hostname event.broker_url x))

  -- The callbacks of the gauges: one observation for every entry.
  unfoldable pub observe_tasks : OtelExporter F → Dict (String × String) ℕ → List (Labels × ℕ)
  unfolding task_labels
  observe_tasks x [] = []
  observe_tasks x (((task, worker), wait) ∷ rest) =
      (task_labels x task worker none, wait) ∷ observe_tasks x rest

  unfoldable pub observe_workers : {V : Type 0} → OtelExporter F → Dict String V → List (Labels × V)
  unfolding worker_labels
  observe_workers x [] = []
  observe_workers x ((worker, value) ∷ rest) =
      (worker_labels x worker, value) ∷ observe_workers x rest

  unfoldable pub observe_task_prefetch : OtelExporter F → List (Labels × ℕ)
  unfolding observe_tasks
  observe_task_prefetch x = observe_tasks x x.task_prefetch_times

  unfoldable pub observe_worker_online : OtelExporter F → List (Labels × ℕ)
  unfolding observe_workers
  observe_worker_online x = observe_workers x x.online

  unfoldable pub observe_worker_last_heartbeat : OtelExporter F → List (Labels × Datetime)
  unfolding observe_workers
  observe_worker_last_heartbeat x = observe_workers x x.last_heartbeat

  unfoldable pub observe_worker_pool_size : OtelExporter F → List (Labels × Integer)
  unfolding observe_workers
  observe_worker_pool_size x = observe_workers x x.pool_size
