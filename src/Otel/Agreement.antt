-- ===== src/Otel/Agreement.antt =====
-- The steps of the two exporters side by side.
use celery_cnc.Base.{
  ◌≡◌, ℕ, String, Bool, true, false, not, ◌&&◌, Option, none, some, ap, ◌∙◌, inl, inr, Bool-cases,
  arith,
}
use celery_cnc.Base.{◌==◌, nat_eq, string_eq, option_eq, if◌then◌else◌, contains}
use celery_cnc.Base.Dict.{insert, erase}
use celery_cnc.Schemas.{Datetime, TaskEvent}
use celery_cnc.Value.{Integer, pos, negsuc}
use celery_cnc.Metrics.{
  Tracker, Metric, Labels, Reading, Exporter, pair_eq, shifted, count_of, put_count, shift_count,
  prev_state, prev_name, prev_worker, or_unknown, terminal_states, parse_active_tasks,
  parse_pool_size,
}
use celery_cnc.Metrics
use celery_cnc.Otel.{OtelExporter, add_delta}
use celery_cnc.Otel

-- The parts that the two have in common.
pub record Agrees {F : Type 0} (x : Exporter F) (y : OtelExporter F) : Type 0 where
  pub backends : x.broker_backend_map ≡ y.broker_backend_map
  pub brokers : x.worker_brokers ≡ y.worker_brokers
  pub trackers : x.trackers ≡ y.task_trackers
  pub prefetched : x.prefetched_counts ≡ y.prefetched_counts
  pub active : x.active_counts ≡ y.active_counts

module _ {F : Type 0} (upper lower strip : String → String) where
  add_delta-Agrees :
      (m : Metric) (l : Labels) (c p : ℕ) (x : Exporter F) (y : OtelExporter F)
      → Agrees x y
      → Agrees x (add_delta upper lower strip m l c p y)
  unfolding add_delta
  add_delta-Agrees m l c p x y h = elim (Bool-cases (c == p)) [
    | inl e ↦ rw e h
    | inr e ↦ rw e (record {
      backends = h.backends;
      brokers = h.brokers;
      trackers = h.trackers;
      prefetched = h.prefetched;
      active = h.active;
    })
  ]

  if-Agrees :
      (b : Bool) (x x' : Exporter F) (y y' : OtelExporter F)
      → Agrees x y
      → Agrees x' y'
      → Agrees (if b then x else x') (if b then y else y')
  if-Agrees true x x' y y' h k = h
  if-Agrees false x x' y y' h k = k

  update_active-Agrees :
      (w : String) (d : Integer) (x : Exporter F) (y : OtelExporter F)
      → Agrees x y
      → Agrees
          (Metrics.update_active upper lower strip w d x)
          (Otel.update_active upper lower strip w d y)
  unfolding Metrics.update_active Otel.update_active
  update_active-Agrees w d x y h = add_delta-Agrees _ _ _ _ _ _ (record {
    backends = h.backends;
    brokers = h.brokers;
    trackers = h.trackers;
    prefetched = h.prefetched;
    active = ap (λ c. put_count w (shifted (count_of w c) d) c) h.active;
  })

  pub set_active_count-Agrees :
      (w : String) (n : Integer) (x : Exporter F) (y : OtelExporter F)
      → Agrees x y
      → Agrees
          (Metrics.set_active_count upper lower strip w n x)
          (Otel.set_active_count upper lower strip w n y)
  unfolding Metrics.set_active_count Otel.set_active_count
  set_active_count-Agrees w n x y h = add_delta-Agrees _ _ _ _ _ _ (record {
    backends = h.backends;
    brokers = h.brokers;
    trackers = h.trackers;
    prefetched = h.prefetched;
    active = ap (put_count w (shifted 0 n)) h.active;
  })

  update_prefetched-Agrees :
      (n w : String) (d : Integer) (x : Exporter F) (y : OtelExporter F)
      → Agrees x y
      → Agrees
          (Metrics.update_prefetched upper lower strip n w d x)
          (Otel.update_prefetched upper lower strip n w d y)
  unfolding Metrics.update_prefetched Otel.update_prefetched
  update_prefetched-Agrees n w d x y h = add_delta-Agrees _ _ _ _ _ _ (record {
    backends = h.backends;
    brokers = h.brokers;
    trackers = h.trackers;
    prefetched = ap (λ c. put_count (n, w) (shifted (count_of (n, w) c) d) c) h.prefetched;
    active = h.active;
  })

  pub leave_received-Agrees :
      (p : Option Tracker) (n w s : String) (x : Exporter F) (y : OtelExporter F)
      → Agrees x y
      → Agrees
          (Metrics.leave_received upper lower strip p n w s x)
          (Otel.leave_received upper lower strip p n w s y)
  unfolding Metrics.leave_received Otel.leave_received
  leave_received-Agrees p n w s x y h =
      if-Agrees (prev_state p == some "RECEIVED" && not (s == "RECEIVED")) _ x _ y
        (update_prefetched-Agrees (prev_name p n) (prev_worker p w) (negsuc 0) x y h) h

  pub leave_started-Agrees :
      (p : Option Tracker) (w s : String) (x : Exporter F) (y : OtelExporter F)
      → Agrees x y
      → Agrees
          (Metrics.leave_started upper lower strip p w s x)
          (Otel.leave_started upper lower strip p w s y)
  unfolding Metrics.leave_started Otel.leave_started
  leave_started-Agrees p w s x y h =
      if-Agrees (prev_state p == some "STARTED" && not (s == "STARTED")) _ x _ y
        (update_active-Agrees (prev_worker p w) (negsuc 0) x y h) h

  pub enter_received-Agrees :
      (p : Option Tracker) (n w s : String) (x : Exporter F) (y : OtelExporter F)
      → Agrees x y
      → Agrees
          (Metrics.enter_received upper lower strip p n w s x)
          (Otel.enter_received upper lower strip p n w s y)
  unfolding Metrics.enter_received Otel.enter_received
  enter_received-Agrees p n w s x y h =
      if-Agrees (s == "RECEIVED" && not (prev_state p == some "RECEIVED")) _ x _ y
        (update_prefetched-Agrees n w (pos 1) x y h) h

  pub enter_started-Agrees :
      (p : Option Tracker) (w s : String) (x : Exporter F) (y : OtelExporter F)
      → Agrees x y
      → Agrees
          (Metrics.enter_started upper lower strip p w s x)
          (Otel.enter_started upper lower strip p w s y)
  unfolding Metrics.enter_started Otel.enter_started
  enter_started-Agrees p w s x y h =
      if-Agrees (s == "STARTED" && not (prev_state p == some "STARTED")) _ x _ y
        (update_active-Agrees w (pos 1) x y h) h

  -- A step of the Prometheus exporter that changes nothing of the common parts.
  record Same (x y : Exporter F) : Type 0 where
    backends : y.broker_backend_map ≡ x.broker_backend_map
    brokers : y.worker_brokers ≡ x.worker_brokers
    trackers : y.trackers ≡ x.trackers
    prefetched : y.prefetched_counts ≡ x.prefetched_counts
    active : y.active_counts ≡ x.active_counts

  Same-Agrees : (x x' : Exporter F) (y : OtelExporter F) → Same x x' → Agrees x y → Agrees x' y
  Same-Agrees x x' y e h = record {
    backends = e.backends ∙ h.backends;
    brokers = e.brokers ∙ h.brokers;
    trackers = e.trackers ∙ h.trackers;
    prefetched = e.prefetched ∙ h.prefetched;
    active = e.active ∙ h.active;
  }

  observe_prefetch-Same :
      (p : Option Tracker) (t : Datetime) (n w s : String) (x : Exporter F)
      → Same x (Metrics.observe_prefetch upper lower strip p t n w s x)
  unfolding Metrics.observe_prefetch
  observe_prefetch-Same none t n w s x = ground arith
  observe_prefetch-Same (some p) t n w s x = ground arith

  count_event-Same :
      (e : TaskEvent F) (n w s : String) (x : Exporter F)
      → Same x (Metrics.count_event upper lower strip e n w s x)
  unfolding Metrics.count_event
  count_event-Same e n w s x = ground arith

  emit-Agrees :
      (m : Metric) (l : Labels) (r : Reading F) (x : Exporter F) (y : OtelExporter F)
      → Agrees x y
      → Agrees x (Otel.emit upper lower strip m l r y)
  emit-Agrees m l r x y h = record {
    backends = h.backends;
    brokers = h.brokers;
    trackers = h.trackers;
    prefetched = h.prefetched;
    active = h.active;
  }

  after_wait-Agrees :
      (r : Option Datetime) (starts : Bool) (t : Datetime) (n w : String) (x : Exporter F)
      (y : OtelExporter F)
      → Agrees x y
      → Agrees x (Otel.after_wait upper lower strip r starts t n w y)
  after_wait-Agrees none starts t n w x y h = h
  after_wait-Agrees (some r) true t n w x y h = record {
    backends = h.backends;
    brokers = h.brokers;
    trackers = h.trackers;
    prefetched = h.prefetched;
    active = h.active;
  }
  after_wait-Agrees (some r) false t n w x y h = h

  pub observe_prefetch-Agrees :
      (p : Option Tracker) (t : Datetime) (n w s : String) (x : Exporter F) (y : OtelExporter F)
      → Agrees x y
      → Agrees
          (Metrics.observe_prefetch upper lower strip p t n w s x)
          (Otel.observe_prefetch upper lower strip p t n w s y)
  unfolding Otel.observe_prefetch
  observe_prefetch-Agrees none t n w s x y h =
      Same-Agrees x _ y (observe_prefetch-Same none t n w s x) h
  observe_prefetch-Agrees (some p) t n w s x y h =
      after_wait-Agrees p.received_at (p.state == "RECEIVED" && s == "STARTED") t n w _ y
        (Same-Agrees x _ y (observe_prefetch-Same (some p) t n w s x) h)

  pub keep_tracker-Agrees :
      (t : Datetime) (i n w s : String) (x : Exporter F) (y : OtelExporter F)
      → Agrees x y
      → Agrees
          (Metrics.keep_tracker upper lower strip t i n w s x)
          (Otel.keep_tracker upper lower strip t i n w s y)
  unfolding Metrics.keep_tracker Otel.keep_tracker
  keep_tracker-Agrees t i n w s x y h =
      if-Agrees (contains terminal_states s) _ _ _ _
        (record {
          backends = h.backends;
          brokers = h.brokers;
          trackers = ap (erase i) h.trackers;
          prefetched = h.prefetched;
          active = h.active;
        })
        (record {
          backends = h.backends;
          brokers = h.brokers;
          trackers = ap (insert i _) h.trackers;
          prefetched = h.prefetched;
          active = h.active;
        })

  timed-Agrees :
      (r : Option F) (n w : String) (x : Exporter F) (y : OtelExporter F)
      → Agrees x y
      → Agrees x (Otel.timed upper lower strip r n w y)
  timed-Agrees none n w x y h = h
  timed-Agrees (some r) n w x y h = emit-Agrees _ _ _ x _ (emit-Agrees _ _ _ x y h)

  count_if-Agrees :
      (b : Bool) (m : Metric) (l : Labels) (x : Exporter F) (y : OtelExporter F)
      → Agrees x y
      → Agrees x (Otel.count_if upper lower strip b m l y)
  count_if-Agrees true m l x y h = emit-Agrees m l _ x y h
  count_if-Agrees false m l x y h = h

  pub count_event-Agrees :
      (e : TaskEvent F) (n w s : String) (x : Exporter F) (y : OtelExporter F)
      → Agrees x y
      → Agrees
          (Metrics.count_event upper lower strip e n w s x)
          (Otel.count_event upper lower strip e n w s y)
  unfolding Otel.count_event
  count_event-Agrees e n w s x y h = timed-Agrees e.runtime n w _ _ (
      count_if-Agrees (s == "RETRY") _ _ _ _ (
        count_if-Agrees (s == "FAILURE") _ _ _ _
          (emit-Agrees _ _ _ _ y (Same-Agrees x _ y (count_event-Same e n w s x) h))))
