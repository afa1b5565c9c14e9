-- ===== src/Metrics/Steps.antt =====
-- What the steps of `track_task_state` change: two of them the counts of running tasks, the last
-- the trackers.
use celery_cnc.Base.{◌+◌, ◌-◌, ◌≡◌, refl, String, not, ◌&&◌, Option, none, some, arith}
use celery_cnc.Base.{◌==◌, string_eq, option_eq, if◌then◌else◌}
use celery_cnc.Schemas.{Datetime, TaskEvent}
use celery_cnc.Value.{pos, negsuc}
use celery_cnc.Metrics.{
  Tracker, Exporter, count_of, prev_state, prev_worker, update_active, update_prefetched,
  leave_received, leave_started, enter_received, enter_started, observe_prefetch, count_event,
}
use celery_cnc.Metrics.Census.{count_of-shift_count}

module _ {F : Type 0} (upper lower strip : String → String) where
  -- Only two of the steps touch the counts of active tasks, and only the last the trackers.
  pub record Frame (x y : Exporter F) : Type 0 where
    pub trackers : y.trackers ≡ x.trackers
    pub active : y.active_counts ≡ x.active_counts

  pub leave_received-Frame :
      (p : Option Tracker) (n w s : String) (x : Exporter F)
      → Frame x (leave_received upper lower strip p n w s x)
  unfolding leave_received update_prefetched
  leave_received-Frame p n w s x = ground arith

  pub enter_received-Frame :
      (p : Option Tracker) (n w s : String) (x : Exporter F)
      → Frame x (enter_received upper lower strip p n w s x)
  unfolding enter_received update_prefetched
  enter_received-Frame p n w s x = ground arith

  pub observe_prefetch-Frame :
      (p : Option Tracker) (t : Datetime) (n w s : String) (x : Exporter F)
      → Frame x (observe_prefetch upper lower strip p t n w s x)
  unfolding observe_prefetch
  observe_prefetch-Frame none t n w s x = record { trackers = refl; active = refl }
  observe_prefetch-Frame (some p) t n w s x = ground arith

  pub count_event-Frame :
      (e : TaskEvent F) (n w s : String) (x : Exporter F)
      → Frame x (count_event upper lower strip e n w s x)
  unfolding count_event
  count_event-Frame e n w s x = ground arith

  pub leave_started-trackers :
      (p : Option Tracker) (w s : String) (x : Exporter F)
      → (leave_started upper lower strip p w s x).trackers ≡ x.trackers
  unfolding leave_started update_active
  leave_started-trackers p w s x = ground arith

  pub enter_started-trackers :
      (p : Option Tracker) (w s : String) (x : Exporter F)
      → (enter_started upper lower strip p w s x).trackers ≡ x.trackers
  unfolding enter_started update_active
  enter_started-trackers p w s x = ground arith

  -- The counts after the departure and the arrival.
  pub leave_started-count :
      (p : Option Tracker) (w s j : String) (x : Exporter F)
      → count_of j (leave_started upper lower strip p w s x).active_counts ≡ (
          if prev_state p == some "STARTED" && not (s == "STARTED")
          then (if j == prev_worker p w
              then count_of j x.active_counts - 1
              else count_of j x.active_counts)
          else count_of j x.active_counts)
  unfolding leave_started update_active
  leave_started-count p w s j x =
      ground (arith, count_of-shift_count j (prev_worker p w) (negsuc 0) x.active_counts)

  pub enter_started-count :
      (p : Option Tracker) (w s j : String) (x : Exporter F)
      → count_of j (enter_started upper lower strip p w s x).active_counts ≡ (
          if s == "STARTED" && not (prev_state p == some "STARTED")
          then (if j == w then count_of j x.active_counts + 1 else count_of j x.active_counts)
          else count_of j x.active_counts)
  unfolding enter_started update_active
  enter_started-count p w s j x = ground (arith, count_of-shift_count j w (pos 1) x.active_counts)
