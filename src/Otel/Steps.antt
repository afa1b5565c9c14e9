-- ===== src/Otel/Steps.antt =====
-- The steps of the exporter, for the sums of its changes.
use celery_cnc.Base.{
  ◌≡◌, refl, ℕ, String, Bool, true, false, not, ◌&&◌, Option, none, some, inl, inr, Bool-cases,
}
use celery_cnc.Base.{◌==◌, nat_eq, string_eq, option_eq, if◌then◌else◌, contains}
use celery_cnc.Base.Dict.{lookup}
use celery_cnc.Schemas.{Datetime, TaskEvent, WorkerEvent}
use celery_cnc.Value.{Integer, pos, negsuc, Fields, get}
use celery_cnc.Metrics.{
  Tracker, Metric, events, task_failures, task_retries, task_runtime, task_runtime_by_task,
  task_queue_latency, prefetched_tasks, shifted, terminal_states, prev_state, prev_name,
  prev_worker, or_unknown, parse_active_tasks, parse_pool_size, increment, float, Labels, pair_eq,
  count_of,
}
use celery_cnc.Otel.{
  OtelExporter, add_delta, emit, task_labels, task_summary_labels, update_prefetched, update_active,
  set_active_count, leave_received, leave_started, enter_received, enter_started, after_wait,
  observe_prefetch, keep_tracker, count_event, count_if, timed, track_task_state, on_task_event,
  with_broker, with_active, with_pool, note_info, status_as, note_status, on_worker_event,
}
use celery_cnc.Otel.Totals.{up, down, share, AddsUp, quiet, put_active-AddsUp}

module _ {F : Type 0} (upper lower strip : String → String) where
  if_AddsUp : (b : Bool) (x y : OtelExporter F) → AddsUp x → AddsUp y → AddsUp (if b then x else y)
  if_AddsUp true x y h k = h
  if_AddsUp false x y h k = k

  update_prefetched-AddsUp :
      (task worker : String) (delta : Integer) (x : OtelExporter F)
      → AddsUp x
      → AddsUp (update_prefetched upper lower strip task worker delta x)
  unfolding update_prefetched add_delta
  update_prefetched-AddsUp task worker delta x h =
      elim (Bool-cases (shifted previous delta == previous)) [
        | inl e ↦ rw e h
        | inr e ↦ rw e (quiet upper lower strip prefetched_tasks _ _ x (λ j. (refl, refl)) h)
      ]
    where
      previous : ℕ
      previous = count_of (task, worker) x.prefetched_counts

  leave_received-AddsUp :
      (p : Option Tracker) (n w s : String) (x : OtelExporter F)
      → AddsUp x
      → AddsUp (leave_received upper lower strip p n w s x)
  unfolding leave_received
  leave_received-AddsUp p n w s x h =
      if_AddsUp (prev_state p == some "RECEIVED" && not (s == "RECEIVED")) _ x
        (update_prefetched-AddsUp (prev_name p n) (prev_worker p w) (negsuc 0) x h) h

  leave_started-AddsUp :
      (p : Option Tracker) (w s : String) (x : OtelExporter F)
      → AddsUp x
      → AddsUp (leave_started upper lower strip p w s x)
  unfolding leave_started update_active
  leave_started-AddsUp p w s x h =
      if_AddsUp (prev_state p == some "STARTED" && not (s == "STARTED")) _ x
        (put_active-AddsUp upper lower strip (prev_worker p w) _ x h) h

  enter_received-AddsUp :
      (p : Option Tracker) (n w s : String) (x : OtelExporter F)
      → AddsUp x
      → AddsUp (enter_received upper lower strip p n w s x)
  unfolding enter_received
  enter_received-AddsUp p n w s x h =
      if_AddsUp (s == "RECEIVED" && not (prev_state p == some "RECEIVED")) _ x
        (update_prefetched-AddsUp n w (pos 1) x h) h

  enter_started-AddsUp :
      (p : Option Tracker) (w s : String) (x : OtelExporter F)
      → AddsUp x
      → AddsUp (enter_started upper lower strip p w s x)
  unfolding enter_started update_active
  enter_started-AddsUp p w s x h =
      if_AddsUp (s == "STARTED" && not (prev_state p == some "STARTED")) _ x
        (put_active-AddsUp upper lower strip w _ x h) h

  after_wait-AddsUp :
      (r : Option Datetime) (starts : Bool) (t : Datetime) (n w : String) (x : OtelExporter F)
      → AddsUp x
      → AddsUp (after_wait upper lower strip r starts t n w x)
  after_wait-AddsUp none starts t n w x h = h
  after_wait-AddsUp (some r) true t n w x h =
      quiet upper lower strip task_queue_latency _ _ x (λ j. (refl, refl)) h
  after_wait-AddsUp (some r) false t n w x h = h

  observe_prefetch-AddsUp :
      (p : Option Tracker) (t : Datetime) (n w s : String) (x : OtelExporter F)
      → AddsUp x
      → AddsUp (observe_prefetch upper lower strip p t n w s x)
  unfolding observe_prefetch
  observe_prefetch-AddsUp none t n w s x h = h
  observe_prefetch-AddsUp (some p) t n w s x h =
      after_wait-AddsUp p.received_at (p.state == "RECEIVED" && s == "STARTED") t n w x h

  keep_tracker-AddsUp :
      (t : Datetime) (i n w s : String) (x : OtelExporter F)
      → AddsUp x
      → AddsUp (keep_tracker upper lower strip t i n w s x)
  unfolding keep_tracker
  keep_tracker-AddsUp t i n w s x h = elim (Bool-cases (contains terminal_states s)) [
    | inl e ↦ rw e h
    | inr e ↦ rw e h
  ]

  count_if-AddsUp :
      (b : Bool) (m : Metric) (l : Labels) (x : OtelExporter F)
      → ((j : String)
          → (share {F = F} up j m l.worker increment ≡ 0)
            × (share {F = F} down j m l.worker increment ≡ 0))
      → AddsUp x
      → AddsUp (count_if upper lower strip b m l x)
  count_if-AddsUp true m l x still h = quiet upper lower strip m l increment x still h
  count_if-AddsUp false m l x still h = h

  timed-AddsUp :
      (r : Option F) (n w : String) (x : OtelExporter F)
      → AddsUp x
      → AddsUp (timed upper lower strip r n w x)
  timed-AddsUp none n w x h = h
  timed-AddsUp (some runtime) n w x h =
      quiet upper lower strip task_runtime_by_task (task_summary_labels upper lower strip x n w)
        (float runtime)
        (emit upper lower strip task_runtime (task_labels upper lower strip x n w none)
          (float runtime) x)
        (λ j. (refl, refl))
        (quiet upper lower strip task_runtime (task_labels upper lower strip x n w none)
          (float runtime) x (λ j. (refl, refl)) h)

  count_event-AddsUp :
      (e : TaskEvent F) (n w s : String) (x : OtelExporter F)
      → AddsUp x
      → AddsUp (count_event upper lower strip e n w s x)
  unfolding count_event
  count_event-AddsUp e n w s x h =
      let labels = task_labels upper lower strip x n w none in
      timed-AddsUp e.runtime n w _ (
        count_if-AddsUp (s == "RETRY") task_retries labels _ (λ j. (refl, refl))
          (count_if-AddsUp (s == "FAILURE") task_failures labels _ (λ j. (refl, refl))
            (quiet upper lower strip events _ increment x (λ j. (refl, refl)) h)))

  track_task_state-AddsUp :
      (e : TaskEvent F) (n w s : String) (x : OtelExporter F)
      → AddsUp x
      → AddsUp (track_task_state upper lower strip e n w s x)
  unfolding track_task_state
  track_task_state-AddsUp e n w s x h =
      let p = lookup e.task_id x.task_trackers in
      keep_tracker-AddsUp e.timestamp e.task_id n w s _ (
        observe_prefetch-AddsUp p e.timestamp n w s _ (
          enter_started-AddsUp p w s _ (
            enter_received-AddsUp p n w s _
              (leave_started-AddsUp p w s _ (leave_received-AddsUp p n w s x h)))))

  pub on_task_event-AddsUp :
      (e : TaskEvent F) (x : OtelExporter F)
      → AddsUp x
      → AddsUp (on_task_event upper lower strip e x)
  unfolding on_task_event
  on_task_event-AddsUp e x h =
      track_task_state-AddsUp e (or_unknown e.name) (or_unknown e.worker) (upper e.state) _
        (count_event-AddsUp e (or_unknown e.name) (or_unknown e.worker) (upper e.state) x h)

  with_broker-AddsUp :
      (name : String) (o : Option String) (x : OtelExporter F)
      → AddsUp x
      → AddsUp (with_broker upper lower strip name o x)
  with_broker-AddsUp name none x h = h
  with_broker-AddsUp name (some url) x h = h

  with_active-AddsUp :
      (name : String) (o : Option Integer) (x : OtelExporter F)
      → AddsUp x
      → AddsUp (with_active upper lower strip name o x)
  unfolding set_active_count
  with_active-AddsUp name none x h = h
  with_active-AddsUp name (some n) x h = put_active-AddsUp upper lower strip name (shifted 0 n) x h

  with_pool-AddsUp :
      (name : String) (o : Option Integer) (x : OtelExporter F)
      → AddsUp x
      → AddsUp (with_pool upper lower strip name o x)
  with_pool-AddsUp name none x h = h
  with_pool-AddsUp name (some n) x h = h

  note_info-AddsUp :
      (name : String) (o : Option Fields) (x : OtelExporter F)
      → AddsUp x
      → AddsUp (note_info upper lower strip name o x)
  unfolding note_info
  note_info-AddsUp name none x h = h
  note_info-AddsUp name (some info) x h =
      with_pool-AddsUp name (parse_pool_size (get "pool" info)) _
        (with_active-AddsUp name (parse_active_tasks (get "active" info)) x h)

  status-AddsUp :
      (online offline : Bool) (name : String) (t : Datetime) (x : OtelExporter F)
      → AddsUp x
      → AddsUp (status_as upper lower strip online offline name t x)
  status-AddsUp true offline name t x h = h
  status-AddsUp false true name t x h = h
  status-AddsUp false false name t x h = h

  note_status-AddsUp :
      (e : WorkerEvent) (x : OtelExporter F) → AddsUp x → AddsUp (note_status upper lower strip e x)
  unfolding note_status
  note_status-AddsUp e x h = status-AddsUp _ _ e.hostname e.timestamp x h

  pub on_worker_event-AddsUp :
      (e : WorkerEvent) (x : OtelExporter F)
      → AddsUp x
      → AddsUp (on_worker_event upper lower strip e x)
  unfolding on_worker_event
  on_worker_event-AddsUp e x h =
      note_status-AddsUp e _
        (note_info-AddsUp e.hostname e.info _ (with_broker-AddsUp e.hostname e.broker_url x h))
