-- ===== src/Metrics.antt =====
-- celery_root/components/metrics/prometheus/exporter.py: the exporter that follows each task and
-- counts what every worker holds. The Prometheus client is not part of the repository: its calls
-- are the samples that a method adds to `samples`. `upper`, `lower` and `strip_credentials` stand
-- for `str.upper`, `str.lower` and the URL parser.
pub mod Census
pub mod Steps
pub mod Counts
pub mod Runs
pub mod Examples
use mathlib.Core.Option.{get_or}
use celery_cnc.Base.{
  ◌≡◌, ℕ, zero, suc, ◌+◌, ◌-◌, String, ◌<>◌, Bool, true, false, not, ◌&&◌, Option, none, some, List,
  [], ◌∷◌, ◌++◌,
}
use celery_cnc.Base.{Eq, ◌==◌, string_eq, option_eq, if◌then◌else◌, contains, ltb}
use celery_cnc.Base.Dict.{Dict, lookup, insert, erase}
use celery_cnc.Schemas.{Datetime, TaskEvent, WorkerEvent}
use celery_cnc.Value.{
  truthy, or_value, Value, Integer, pos, negsuc, Items, items_length, list, integer, mapping,
  boolean, Fields, get,
}

pub record Tracker : Type 0 where
  pub name : String
  pub worker : String
  pub state : String
  pub received_at : Option Datetime

pub data Metric : Type 0 where
  events task_failures task_retries task_runtime task_runtime_by_task : Metric
  task_prefetch task_queue_latency prefetched_tasks : Metric
  worker_online worker_last_heartbeat worker_current worker_pool_size : Metric

pub record Labels : Type 0 where
  pub task : Option String
  pub worker : Option String
  pub broker : String
  pub backend : String
  pub event_type : Option String

-- What a call hands to the client: one more, a float, a span or time in microseconds, or a count.
pub data Reading (F : Type 0) : Type 0 where
  increment : Reading F
  float : F → Reading F
  micros : ℕ → Reading F
  count : ℕ → Reading F
  signed : Integer → Reading F

pub record Sample (F : Type 0) : Type 0 where
  pub metric : Metric
  pub labels : Labels
  pub reading : Reading F

pub record Exporter (F : Type 0) : Type 0 where
  pub broker_backend_map : Dict String String
  pub worker_brokers : Dict String String
  pub trackers : Dict String Tracker
  pub prefetched_counts : Dict (String × String) ℕ
  pub active_counts : Dict String ℕ
  pub samples : List (Sample F)

-- Two names as one key.
instance unfoldable pub pair_eq : Eq (String × String)
pair_eq = record { dec = λ p q. pair_dec p.0 p.1 q.0 q.1 }
  where
    pair_dec : (a b c d : String) → Dec (◌≡◌ {A = String × String} (a, b) (c, d))
    pair_dec a b c d = elim (string_eq.dec a c) [
      | yes p ↦ elim (string_eq.dec b d) [
        | yes q ↦ yes (λ i. (p i, q i))
        | no n ↦ no (λ e. n (λ i. (e i).1))
      ]
      | no n ↦ no (λ e. n (λ i. (e i).0))
    ]

abbrev pub terminal_states : List String
terminal_states = "SUCCESS" ∷ "FAILURE" ∷ "REVOKED" ∷ "REJECTED" ∷ []

-- `count + delta`; the callers treat what is not positive as 0.
abbrev pub shifted : ℕ → Integer → ℕ
shifted n (pos d) = n + d
shifted n (negsuc d) = n - suc d

module _ {K : Type 0} ⦃e : Eq K⦄ where
  abbrev pub count_of : K → Dict K ℕ → ℕ
  count_of key counts = get_or (lookup key counts) 0

  -- A count of 0 is not stored.
  unfoldable pub put_count : K → ℕ → Dict K ℕ → Dict K ℕ
  unfolding insert erase
  put_count key zero counts = erase key counts
  put_count key (suc n) counts = insert key (suc n) counts

  unfoldable pub shift_count : K → Integer → Dict K ℕ → Dict K ℕ
  unfolding put_count lookup
  shift_count key delta counts = put_count key (shifted (count_of key counts) delta) counts

-- `_TASK_EVENT_TYPE_BY_STATE`
abbrev pub event_types : Dict String String
event_types =
    ("RECEIVED", "task-received")
    ∷ ("STARTED", "task-started")
    ∷ ("SUCCESS", "task-succeeded")
    ∷ ("FAILURE", "task-failed")
    ∷ ("RETRY", "task-retried")
    ∷ ("REVOKED", "task-revoked")
    ∷ ("REJECTED", "task-rejected")
    ∷ ("PENDING", "task-sent")
    ∷ []

unfoldable pub parse_active_tasks : Value → Option Integer
parse_active_tasks (list items) = some (pos (items_length items))
parse_active_tasks (integer n) = some n
parse_active_tasks (boolean true) = some (pos 1)
parse_active_tasks (boolean false) = some (pos 0)
parse_active_tasks v = none

unfoldable pub parse_pool_size : Value → Option Integer
unfolding get truthy
parse_pool_size (mapping fields) =
    elim (or_value (get "max-concurrency" fields) (get "max_concurrency" fields)) [
      | integer n ↦ some n
      | boolean true ↦ some (pos 1)
      | boolean false ↦ some (pos 0)
      | _ ↦ none
    ]
parse_pool_size v = none

-- What the tracker of a task says of its state before an event.
abbrev pub prev_state : Option Tracker → Option String
prev_state none = none
prev_state (some t) = some t.state

abbrev pub prev_name : Option Tracker → String → String
prev_name none task_name = task_name
prev_name (some t) task_name = t.name

abbrev pub prev_worker : Option Tracker → String → String
prev_worker none worker = worker
prev_worker (some t) worker = t.worker

-- `value or "unknown"`
abbrev pub or_unknown : Option String → String
or_unknown none = "unknown"
or_unknown (some value) = if value == "" then "unknown" else value

unfoldable pub normalize_label : (String → String) → Option String → String → String
normalize_label strip_credentials none empty_label = "unknown"
normalize_label strip_credentials (some value) empty_label =
    if value == "" then empty_label else strip_credentials value

module _ {F : Type 0} (upper lower strip_credentials : String → String) where
  unfoldable pub broker_label : Exporter F → String → String
  unfolding normalize_label lookup
  broker_label x worker =
      normalize_label strip_credentials (lookup worker x.worker_brokers) "default"

  unfoldable pub backend_label : Exporter F → String → String
  unfolding normalize_label lookup
  backend_label x worker = elim (lookup worker x.worker_brokers) [
    | none ↦ normalize_label strip_credentials none "disabled"
    | some broker_url ↦
        normalize_label strip_credentials (lookup broker_url x.broker_backend_map) "disabled"
  ]

  unfoldable pub task_labels : Exporter F → String → String → Option String → Labels
  unfolding broker_label backend_label
  task_labels x task worker event_type = record {
    task = some task;
    worker = some worker;
    broker = broker_label x worker;
    backend = backend_label x worker;
    event_type = event_type;
  }

  unfoldable pub task_summary_labels : Exporter F → String → String → Labels
  unfolding broker_label backend_label
  task_summary_labels x task worker = record {
    task = some task;
    worker = none;
    broker = broker_label x worker;
    backend = backend_label x worker;
    event_type = none;
  }

  unfoldable pub worker_labels : Exporter F → String → Labels
  unfolding broker_label backend_label
  worker_labels x worker = record {
    task = none;
    worker = some worker;
    broker = broker_label x worker;
    backend = backend_label x worker;
    event_type = none;
  }

  -- One call of the client.
  abbrev pub emit : Metric → Labels → Reading F → Exporter F → Exporter F
  emit metric labels reading x = record x {
    samples = x.samples ++ record { metric = metric; labels = labels; reading = reading } ∷ [];
  }

  unfoldable pub update_prefetched : String → String → Integer → Exporter F → Exporter F
  unfolding shift_count pair_eq task_labels
  update_prefetched task worker delta x =
      let counts = shift_count (task, worker) delta x.prefetched_counts in
      emit prefetched_tasks (task_labels x task worker none)
        (count (count_of (task, worker) counts)) (record x { prefetched_counts = counts })

  unfoldable pub update_active : String → Integer → Exporter F → Exporter F
  unfolding shift_count worker_labels
  update_active worker delta x =
      let counts = shift_count worker delta x.active_counts in
      emit worker_current (worker_labels x worker) (count (count_of worker counts))
        (record x { active_counts = counts })

  unfoldable pub set_active_count : String → Integer → Exporter F → Exporter F
  unfolding put_count worker_labels
  set_active_count worker given x =
      let current = shifted 0 given in
      emit worker_current (worker_labels x worker) (count current)
        (record x { active_counts = put_count worker current x.active_counts })

  -- The two departures from a state and the two arrivals, in their order.
  unfoldable pub leave_received :
      Option Tracker → String → String → String → Exporter F → Exporter F
  leave_received previous task_name worker state x =
      if prev_state previous == some "RECEIVED" && not (state == "RECEIVED")
      then update_prefetched (prev_name previous task_name) (prev_worker previous worker) (negsuc 0)
          x
      else x

  unfoldable pub leave_started : Option Tracker → String → String → Exporter F → Exporter F
  leave_started previous worker state x =
      if prev_state previous == some "STARTED" && not (state == "STARTED")
      then update_active (prev_worker previous worker) (negsuc 0) x
      else x

  unfoldable pub enter_received :
      Option Tracker → String → String → String → Exporter F → Exporter F
  enter_received previous task_name worker state x =
      if state == "RECEIVED" && not (prev_state previous == some "RECEIVED")
      then update_prefetched task_name worker (pos 1) x
      else x

  unfoldable pub enter_started : Option Tracker → String → String → Exporter F → Exporter F
  enter_started previous worker state x =
      if state == "STARTED" && not (prev_state previous == some "STARTED")
      then update_active worker (pos 1) x
      else x

  -- The wait between arrival and start; a clock that ran backwards counts as 0.
  unfoldable pub observe_prefetch :
      Option Tracker → Datetime → String → String → String → Exporter F → Exporter F
  observe_prefetch none timestamp task_name worker state x = x
  observe_prefetch (some previous) timestamp task_name worker state x = elim previous.received_at [
    | none ↦ x
    | some received_at ↦
        if previous.state == "RECEIVED" && state == "STARTED"
        then emit task_queue_latency (task_labels x task_name worker none)
            (micros (timestamp - received_at))
            (emit task_prefetch (task_labels x task_name worker none)
              (micros (timestamp - received_at)) x)
        else x
  ]

  unfoldable pub keep_tracker :
      Datetime → String → String → String → String → Exporter F → Exporter F
  keep_tracker timestamp task_id task_name worker state x =
      if contains terminal_states state
      then record x { trackers = erase task_id x.trackers }
      else record x {
        trackers =
            insert task_id
              (record {
                name = task_name;
                worker = worker;
                state = state;
                received_at = if state == "RECEIVED" then some timestamp else none;
              })
              x.trackers;
      }

  unfoldable pub track_task_state : TaskEvent F → String → String → String → Exporter F → Exporter F
  track_task_state event task_name worker state x =
      let previous = lookup event.task_id x.trackers in
      keep_tracker event.timestamp event.task_id task_name worker state (
        observe_prefetch previous event.timestamp task_name worker state (
          enter_started previous worker state (
            enter_received previous task_name worker state (
              leave_started previous worker state
                (leave_received previous task_name worker state x)))))

  unfoldable pub count_event : TaskEvent F → String → String → String → Exporter F → Exporter F
  unfolding lookup task_labels task_summary_labels
  count_event event task_name worker state x =
      let event_type = get_or (lookup state event_types) ("task-" <> lower state) in
      let x1 = emit events (task_labels x task_name worker (some event_type)) increment x in
      let x2 =
        if state == "FAILURE"
        then emit task_failures (task_labels x task_name worker none) increment x1
        else x1 in
      let x3 =
        if state == "RETRY"
        then emit task_retries (task_labels x task_name worker none) increment x2
        else x2 in
      elim event.runtime [
        | none ↦ x3
        | some runtime ↦
            emit task_runtime_by_task (task_summary_labels x task_name worker) (float runtime)
              (emit task_runtime (task_labels x task_name worker none) (float runtime) x3)
      ]

  unfoldable pub on_task_event : TaskEvent F → Exporter F → Exporter F
  on_task_event event x =
      let worker = or_unknown event.worker in
      let task_name = or_unknown event.name in
      let state = upper event.state in
      track_task_state event task_name worker state (count_event event task_name worker state x)

  abbrev pub with_broker : String → Option String → Exporter F → Exporter F
  with_broker hostname none x = x
  with_broker hostname (some url) x = record x {
    worker_brokers = insert hostname url x.worker_brokers;
  }

  abbrev pub with_active : String → Option Integer → Exporter F → Exporter F
  with_active hostname none x = x
  with_active hostname (some active) x = set_active_count hostname active x

  abbrev pub with_pool : String → Option Integer → Exporter F → Exporter F
  with_pool hostname none x = x
  with_pool hostname (some size) x =
      emit worker_pool_size (worker_labels x hostname) (signed size) x

  unfoldable pub note_info : String → Option Fields → Exporter F → Exporter F
  unfolding parse_active_tasks parse_pool_size
  note_info hostname none x = x
  note_info hostname (some info) x =
      with_pool hostname (parse_pool_size (get "pool" info))
        (with_active hostname (parse_active_tasks (get "active" info)) x)

  -- By whether the event says that the worker is there, or that it has gone.
  abbrev pub status_as : Bool → Bool → Labels → Datetime → Exporter F → Exporter F
  status_as true offline labels timestamp x =
      emit worker_last_heartbeat labels (micros timestamp) (emit worker_online labels (count 1) x)
  status_as false true labels timestamp x = emit worker_online labels (count 0) x
  status_as false false labels timestamp x = x

  unfoldable pub on_worker_event : WorkerEvent → Exporter F → Exporter F
  on_worker_event event x =
      let known = with_broker event.hostname event.broker_url x in
      let normalized = lower event.event in
      status_as
        (contains ("worker-online" ∷ "online" ∷ "worker-heartbeat" ∷ "heartbeat" ∷ []) normalized)
        (contains ("worker-offline" ∷ "offline" ∷ []) normalized)
        (worker_labels known event.hostname) event.timestamp
        (note_info event.hostname event.info known)
