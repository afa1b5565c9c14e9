-- ===== src/Metrics/Runs.antt =====
-- Runs of task events: the exporter's counts of running tasks stay exact, and how they can drift.
use celery_cnc.Base.{◌≡◌, ◌≢◌, String, some, List, [], ◌∷◌}
use celery_cnc.Base.{string_eq, option_eq}
use celery_cnc.Base.Dict.{lookup}
use celery_cnc.Schemas.{TaskEvent}
use celery_cnc.Metrics.{Tracker, Exporter, or_unknown, count_event, on_task_event}
use celery_cnc.Metrics.Steps.{Frame, count_event-Frame}
use celery_cnc.Metrics.Counts.{Stays, IsExact, track_task_state-IsExact, track_task_state_drifts}

module _ {F : Type 0} (upper lower strip : String → String) where
  -- A run of task events.
  unfoldable pub on_task_events : List (TaskEvent F) → Exporter F → Exporter F
  on_task_events [] x = x
  on_task_events (e ∷ rest) x = on_task_events rest (on_task_event upper lower strip e x)

  -- No event of the run reports a running task as running on another worker.
  abbrev pub AllStay : List (TaskEvent F) → Exporter F → Type 0
  AllStay [] x = Unit {0}
  AllStay (e ∷ rest) x =
      Stays (lookup e.task_id x.trackers) (or_unknown e.worker) (upper e.state)
      × AllStay rest (on_task_event upper lower strip e x)

  IsExact-Frame : {x y : Exporter F} → Frame upper lower strip x y → IsExact x → IsExact y
  IsExact-Frame f h = record {
    single = rw f.trackers h.single;
    exact = λ j. rw (f.active, f.trackers) (h.exact j);
  }

  on_task_event-IsExact :
      (e : TaskEvent F) (x : Exporter F)
      → IsExact x
      → Stays (lookup e.task_id x.trackers) (or_unknown e.worker) (upper e.state)
      → IsExact (on_task_event upper lower strip e x)
  unfolding on_task_event
  on_task_event-IsExact e x h stays =
      let n = or_unknown e.name in
      let w = or_unknown e.worker in
      let s = upper e.state in
      let f = count_event-Frame upper lower strip e n w s x in
      track_task_state-IsExact upper lower strip e n w s (count_event upper lower strip e n w s x)
        (IsExact-Frame f h) (rw f.trackers stays)

  -- Over a run of task events alone, with no worker event between them, that starts where the counts
  -- are exact and in which no running task is reported as running on another worker: the count that
  -- is kept for every worker is, at the end, the number of tasks that are followed as running on it.
  pub on_task_events-IsExact :
      (events : List (TaskEvent F)) (x : Exporter F)
      → IsExact x
      → AllStay events x
      → IsExact (on_task_events events x)
  unfolding on_task_events
  on_task_events-IsExact [] x h stays = h
  on_task_events-IsExact (e ∷ rest) x h (stay, stays) =
      on_task_events-IsExact rest (on_task_event upper lower strip e x)
        (on_task_event-IsExact e x h stay) stays

  -- An event that reports a running task as running on another worker leaves counts that are no
  -- longer exact where they were exact before.
  pub moved_task_drifts :
      (e : TaskEvent F) (x : Exporter F) (t : Tracker)
      → IsExact x
      → lookup e.task_id x.trackers ≡ some t
      → t.state ≡ "STARTED"
      → upper e.state ≡ "STARTED"
      → t.worker ≢ or_unknown e.worker
      → ¬ IsExact (on_task_event upper lower strip e x)
  unfolding on_task_event
  moved_task_drifts e x t h found running starts moves =
      let n = or_unknown e.name in
      let w = or_unknown e.worker in
      let s = upper e.state in
      let f = count_event-Frame upper lower strip e n w s x in
      track_task_state_drifts upper lower strip e n w s (count_event upper lower strip e n w s x) t
        (IsExact-Frame f h) (rw f.trackers found) running starts moves
