-- ===== src/Otel/Reports.antt =====
-- The two exporters side by side, fed with the same events.
use celery_cnc.Base.{
  ◌≡◌, ◌+◌, String, Bool, true, false, Option, none, some, List, [], ◌∷◌, ap, ◌∙◌, sym, subst,
}
use celery_cnc.Base.{nat_eq, string_eq, option_eq}
use celery_cnc.Base.Dict.{lookup, insert}
use celery_cnc.Schemas.{Datetime, TaskEvent, WorkerEvent}
use celery_cnc.Value.{Integer, Fields, get}
use celery_cnc.Metrics.{
  Tracker, Metric, Labels, Reading, Exporter, pair_eq, shifted, count_of, put_count, shift_count,
  prev_state, prev_name, prev_worker, or_unknown, terminal_states, parse_active_tasks,
  parse_pool_size,
}
use celery_cnc.Metrics
use celery_cnc.Otel.{OtelExporter, add_delta}
use celery_cnc.Otel
use celery_cnc.Otel.Totals.{AddsUp, total, up, down}
use celery_cnc.Otel.Steps.{on_task_event-AddsUp, on_worker_event-AddsUp}
use celery_cnc.Otel.Agreement.{
  Agrees, leave_received-Agrees, leave_started-Agrees, enter_received-Agrees, enter_started-Agrees,
  observe_prefetch-Agrees, keep_tracker-Agrees, count_event-Agrees, set_active_count-Agrees,
}

-- What the monitors are told: the events of tasks and of workers.
pub data Told (F : Type 0) : Type 0 where
  task : TaskEvent F → Told F
  worker : WorkerEvent → Told F

module _ {F : Type 0} (upper lower strip : String → String) where
  -- The steps of `track_task_state` for one tracker.
  abbrev followed :
      Option Tracker → TaskEvent F → String → String → String → OtelExporter F → OtelExporter F
  followed p e n w s y = Otel.keep_tracker upper lower strip e.timestamp e.task_id n w s (
      Otel.observe_prefetch upper lower strip p e.timestamp n w s (
        Otel.enter_started upper lower strip p w s (
          Otel.enter_received upper lower strip p n w s (
            Otel.leave_started upper lower strip p w s
              (Otel.leave_received upper lower strip p n w s y)))))

  track_task_state-Agrees :
      (e : TaskEvent F) (n w s : String) (x : Exporter F) (y : OtelExporter F)
      → Agrees x y
      → Agrees
          (Metrics.track_task_state upper lower strip e n w s x)
          (Otel.track_task_state upper lower strip e n w s y)
  unfolding Metrics.track_task_state Otel.track_task_state
  track_task_state-Agrees e n w s x y h =
      let p = lookup e.task_id x.trackers in
      subst
        (λ q. Agrees (Metrics.track_task_state upper lower strip e n w s x) (followed q e n w s y))
        (ap (lookup e.task_id) h.trackers)
        (keep_tracker-Agrees upper lower strip e.timestamp e.task_id n w s _ _ (
          observe_prefetch-Agrees upper lower strip p e.timestamp n w s _ _ (
            enter_started-Agrees upper lower strip p w s _ _ (
              enter_received-Agrees upper lower strip p n w s _ _ (
                leave_started-Agrees upper lower strip p w s _ _
                  (leave_received-Agrees upper lower strip p n w s x y h))))))

  on_task_event-Agrees :
      (e : TaskEvent F) (x : Exporter F) (y : OtelExporter F)
      → Agrees x y
      → Agrees
          (Metrics.on_task_event upper lower strip e x)
          (Otel.on_task_event upper lower strip e y)
  unfolding Metrics.on_task_event Otel.on_task_event
  on_task_event-Agrees e x y h =
      let n = or_unknown e.name in
      let w = or_unknown e.worker in
      let s = upper e.state in
      track_task_state-Agrees e n w s _ _ (count_event-Agrees upper lower strip e n w s x y h)

  with_broker-Agrees :
      (name : String) (o : Option String) (x : Exporter F) (y : OtelExporter F)
      → Agrees x y
      → Agrees
          (Metrics.with_broker upper lower strip name o x)
          (Otel.with_broker upper lower strip name o y)
  with_broker-Agrees name none x y h = h
  with_broker-Agrees name (some url) x y h = record {
    backends = h.backends;
    brokers = ap (insert name url) h.brokers;
    trackers = h.trackers;
    prefetched = h.prefetched;
    active = h.active;
  }

  with_active-Agrees :
      (name : String) (o : Option Integer) (x : Exporter F) (y : OtelExporter F)
      → Agrees x y
      → Agrees
          (Metrics.with_active upper lower strip name o x)
          (Otel.with_active upper lower strip name o y)
  with_active-Agrees name none x y h = h
  with_active-Agrees name (some n) x y h = set_active_count-Agrees upper lower strip name n x y h

  with_pool-Agrees :
      (name : String) (o : Option Integer) (x : Exporter F) (y : OtelExporter F)
      → Agrees x y
      → Agrees
          (Metrics.with_pool upper lower strip name o x)
          (Otel.with_pool upper lower strip name o y)
  with_pool-Agrees name none x y h = h
  with_pool-Agrees name (some n) x y h = record {
    backends = h.backends;
    brokers = h.brokers;
    trackers = h.trackers;
    prefetched = h.prefetched;
    active = h.active;
  }

  note_info-Agrees :
      (name : String) (o : Option Fields) (x : Exporter F) (y : OtelExporter F)
      → Agrees x y
      → Agrees
          (Metrics.note_info upper lower strip name o x)
          (Otel.note_info upper lower strip name o y)
  unfolding Metrics.note_info Otel.note_info
  note_info-Agrees name none x y h = h
  note_info-Agrees name (some info) x y h =
      with_pool-Agrees name (parse_pool_size (get "pool" info)) _ _
        (with_active-Agrees name (parse_active_tasks (get "active" info)) x y h)

  -- The status changes nothing of the common parts on either side.
  status-Agrees :
      (online offline : Bool) (l : Labels) (name : String) (t : Datetime) (x : Exporter F)
      (y : OtelExporter F)
      → Agrees x y
      → Agrees
          (Metrics.status_as upper lower strip online offline l t x)
          (Otel.status_as upper lower strip online offline name t y)
  status-Agrees true offline l name t x y h = record {
    backends = h.backends;
    brokers = h.brokers;
    trackers = h.trackers;
    prefetched = h.prefetched;
    active = h.active;
  }
  status-Agrees false true l name t x y h = record {
    backends = h.backends;
    brokers = h.brokers;
    trackers = h.trackers;
    prefetched = h.prefetched;
    active = h.active;
  }
  status-Agrees false false l name t x y h = h

  on_worker_event-Agrees :
      (e : WorkerEvent) (x : Exporter F) (y : OtelExporter F)
      → Agrees x y
      → Agrees
          (Metrics.on_worker_event upper lower strip e x)
          (Otel.on_worker_event upper lower strip e y)
  unfolding Metrics.on_worker_event Otel.on_worker_event Otel.note_status
  on_worker_event-Agrees e x y h =
      let known = with_broker-Agrees e.hostname e.broker_url x y h in
      status-Agrees _ _ _ e.hostname e.timestamp _ _ (note_info-Agrees e.hostname e.info _ _ known)

  unfoldable pub counted_by_prometheus : List (Told F) → Exporter F → Exporter F
  counted_by_prometheus [] x = x
  counted_by_prometheus (task e ∷ rest) x =
      counted_by_prometheus rest (Metrics.on_task_event upper lower strip e x)
  counted_by_prometheus (worker e ∷ rest) x =
      counted_by_prometheus rest (Metrics.on_worker_event upper lower strip e x)

  unfoldable pub counted_by_otel : List (Told F) → OtelExporter F → OtelExporter F
  counted_by_otel [] y = y
  counted_by_otel (task e ∷ rest) y =
      counted_by_otel rest (Otel.on_task_event upper lower strip e y)
  counted_by_otel (worker e ∷ rest) y =
      counted_by_otel rest (Otel.on_worker_event upper lower strip e y)

  -- Two exporters that keep the same counts, and of which the second has so far reported changes that
  -- add up to its counts, are told the same events of tasks and workers. Then for every worker the
  -- changes that the OpenTelemetry exporter has reported, over all labels, add up to the number of
  -- running tasks that the Prometheus exporter keeps.
  pub counted_by_otel-counted_by_prometheus :
      (events : List (Told F)) (x : Exporter F) (y : OtelExporter F)
      → Agrees x y
      → AddsUp y
      → (j : String)
      → total up j (counted_by_otel events y).samples
        ≡ total down j (counted_by_otel events y).samples
          + count_of j (counted_by_prometheus events x).active_counts
  unfolding counted_by_otel counted_by_prometheus
  counted_by_otel-counted_by_prometheus [] x y h sums j =
      sums j ∙ ap (λ c. total down j y.samples + count_of j c) (sym h.active)
  counted_by_otel-counted_by_prometheus (task e ∷ rest) x y h sums j =
      counted_by_otel-counted_by_prometheus rest (Metrics.on_task_event upper lower strip e x)
        (Otel.on_task_event upper lower strip e y) (on_task_event-Agrees e x y h)
        (on_task_event-AddsUp upper lower strip e y sums) j
  counted_by_otel-counted_by_prometheus (worker e ∷ rest) x y h sums j =
      counted_by_otel-counted_by_prometheus rest (Metrics.on_worker_event upper lower strip e x)
        (Otel.on_worker_event upper lower strip e y) (on_worker_event-Agrees e x y h)
        (on_worker_event-AddsUp upper lower strip e y sums) j
