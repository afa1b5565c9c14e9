-- ===== src/Beat.antt =====
-- celery_root/components/beat/db_scheduler.py: the class DatabaseScheduler. What Celery's scheduler does
-- to its entries in a tick is a parameter, as are the readers of a schedule's texts and the database.
pub mod Writeback
mod Examples
use celery_cnc.Base.{
  ℕ, zero, ◌+◌, ◌-◌, String, Bool, true, false, ◌&&◌, not, Option, none, some, List, [], ◌∷◌,
  keep_if, ltb, ◌==◌, string_eq, nat_eq, option_eq, if◌then◌else◌,
}
use celery_cnc.Base.Dict.{Dict, lookup, insert}
use celery_cnc.Schemas.{Datetime, Schedule}

-- `parse_schedule`, `parse_args` and `parse_kwargs` of celery_root/components/beat/controller.py;
-- `none`: Celery's crontab refuses the text by an exception.
pub record Readers : Type 1 where
  pub Timing : Type 0
  pub Args : Type 0
  pub Kwargs : Type 0
  pub parse_schedule : String → Option Timing
  pub parse_args : Option String → Args
  pub parse_kwargs : Option String → Kwargs

-- The remote calls; `none`: the call raises. A store that raises leaves what it leaves.
pub record Database (N : Type 0) : Type 0 where
  pub get_schedules : N → Option (List Schedule) × N
  pub store_schedule : Schedule → N → N

module _ (P : Readers) where
  open P use {Timing, Args, Kwargs, parse_schedule, parse_args, parse_kwargs}

  -- `ScheduleEntry`
  pub record Entry : Type 0 where
    pub name : String
    pub task : String
    pub schedule : Timing
    pub args : Args
    pub kwargs : Kwargs
    pub enabled : Bool
    pub last_run_at : Option Datetime
    pub total_run_count : ℕ

  abbrev pub RunState : Type 0
  RunState = Option Datetime × ℕ

  abbrev pub run_state : Entry → RunState
  run_state entry = (entry.last_run_at, entry.total_run_count)

  pub record DatabaseScheduler : Type 0 where
    pub refresh_interval : ℕ
    pub last_refresh_at : ℕ
    pub schedule_cache : Dict String Schedule
    pub run_state_cache : Dict String RunState
    pub app_label : String
    pub schedule : Dict String Entry

  abbrev pub or_now : Datetime → Option Datetime → Datetime
  or_now now none = now
  or_now now (some at) = at

  abbrev pub or_zero : Option ℕ → ℕ
  or_zero none = 0
  or_zero (some n) = n

  unfoldable pub build_entry : Datetime → Schedule → Option Entry
  build_entry now schedule = elim (parse_schedule schedule.schedule) [
    | none ↦ none
    | some timing ↦ some (record {
      name = schedule.schedule_id;
      task = schedule.task;
      schedule = timing;
      args = parse_args schedule.args;
      kwargs = parse_kwargs schedule.kwargs;
      enabled = schedule.enabled;
      last_run_at = some (or_now now schedule.last_run_at);
      total_run_count = or_zero schedule.total_run_count;
    })
  ]

  abbrev pub put_entry : Option Entry → Schedule → DatabaseScheduler → Option DatabaseScheduler
  unfolding insert
  put_entry none schedule s = none
  put_entry (some entry) schedule s =
      let id = schedule.schedule_id in
      some (record s {
        schedule = insert id entry s.schedule;
        schedule_cache = insert id schedule s.schedule_cache;
        run_state_cache = insert id (run_state entry) s.run_state_cache;
      })

  -- The loop of `_load_schedules`.
  unfoldable pub load_all : Datetime → List Schedule → DatabaseScheduler → Option DatabaseScheduler
  unfolding put_entry build_entry
  load_all now [] s = some s
  load_all now (schedule ∷ rest) s =
      let skipped = load_all now rest s in
      let loaded =
        elim (put_entry (build_entry now schedule) schedule s) as (λ _. Option DatabaseScheduler) [
          | none ↦ none
          | some t ↦ load_all now rest t
        ] in
      if not schedule.enabled then skipped else loaded

  unfoldable pub load_schedules :
      Datetime → List Schedule → DatabaseScheduler → Option DatabaseScheduler
  unfolding load_all
  load_schedules now schedules s =
      load_all now schedules (record s { schedule = []; schedule_cache = []; run_state_cache = [] })

  -- `none`: a schedule's text is refused, which is not caught.
  abbrev pub refreshed :
      Datetime → Option (List Schedule) → DatabaseScheduler → Option DatabaseScheduler
  unfolding load_schedules
  refreshed now none s = some s
  refreshed now (some schedules) s =
      load_schedules now (keep_if (λ schedule. schedule.app == some s.app_label) schedules) s

  -- `clock` is the monotonic clock, `now` the app's.
  unfoldable pub refresh :
      {N : Type 0} (db : Database N)
      → Bool
      → ℕ
      → Datetime
      → DatabaseScheduler
      → N
      → Option DatabaseScheduler × N
  unfolding refreshed keep_if
  refresh db force clock now s net =
      let (schedules, after) = db.get_schedules net in
      if not force && ltb (clock - s.last_refresh_at) s.refresh_interval
      then (some s, net)
      else (refreshed now schedules (record s { last_refresh_at = clock }), after)

  abbrev pub is_same : Option RunState → RunState → Bool
  is_same none current = false
  is_same (some (at, n)) (current_at, m) = at == current_at && n == m

  pub record Collected : Type 0 where
    pub cache : Dict String Schedule
    pub run_states : Dict String RunState
    pub dirty : List Schedule

  abbrev pub with_run_state : Schedule → RunState → Schedule
  with_run_state schedule (at, n) = record schedule { last_run_at = at; total_run_count = some n }

  -- A schedule whose entry ran since it was last seen.
  abbrev pub is_dirty : Option Entry → Option RunState → Bool
  is_dirty none cached = false
  is_dirty (some entry) cached = not (is_same cached (run_state entry))

  abbrev pub current_of : Option Entry → Schedule → Schedule
  current_of none schedule = schedule
  current_of (some entry) schedule = with_run_state schedule (run_state entry)

  abbrev pub put_state : String → Option Entry → Dict String RunState → Dict String RunState
  unfolding insert
  put_state id none states = states
  put_state id (some entry) states = insert id (run_state entry) states

  -- The loop of `_writeback_run_state`, which updates the cached schedules in place.
  unfoldable pub collect_dirty :
      Dict String Entry → Dict String Schedule → Dict String RunState → Collected
  unfolding put_state lookup
  collect_dirty entries [] states = record { cache = []; run_states = states; dirty = [] }
  collect_dirty entries ((id, schedule) ∷ rest) states =
      let entry = lookup id entries in
      let changed = is_dirty entry (lookup id states) in
      let c = collect_dirty entries rest (if changed then put_state id entry states else states) in
      record {
        cache = (id, if changed then current_of entry schedule else schedule) ∷ c.cache;
        run_states = c.run_states;
        dirty = if changed then current_of entry schedule ∷ c.dirty else c.dirty;
      }

  -- A store that raises is logged, and the next one is tried.
  unfoldable pub store_each : {N : Type 0} → Database N → List Schedule → N → N
  store_each db [] net = net
  store_each db (schedule ∷ rest) net = store_each db rest (db.store_schedule schedule net)

  unfoldable pub writeback_run_state :
      {N : Type 0} → Database N → DatabaseScheduler → N → DatabaseScheduler × N
  unfolding collect_dirty store_each
  writeback_run_state db s net =
      let c = collect_dirty s.schedule s.schedule_cache s.run_state_cache in
      (
        record s { schedule_cache = c.cache; run_state_cache = c.run_states },
        store_each db c.dirty net,
      )

  -- `tick`, over what Celery's own tick does to the entries; `none`: the refresh raises.
  unfoldable pub tick :
      {N : Type 0} (db : Database N)
      → (Dict String Entry → Dict String Entry)
      → ℕ
      → Datetime
      → DatabaseScheduler
      → N
      → Option DatabaseScheduler × N
  unfolding refresh writeback_run_state
  tick db run_due clock now s net =
      let (ready, after) = refresh db false clock now s net in
      elim ready [
        | none ↦ (none, after)
        | some t ↦
            let (u, stored) =
              writeback_run_state db (record t { schedule = run_due t.schedule }) after in
            (some u, stored)
      ]
