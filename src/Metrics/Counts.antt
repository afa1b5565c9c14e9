-- ===== src/Metrics/Counts.antt =====
-- The number of tasks that a worker executes, as the exporter reports it, against the tasks that it
-- follows.
use celery_cnc.Base.{
  ℕ, ◌+◌, ◌-◌, ◌≤◌, ◌≡◌, ◌≢◌, refl, String, Bool, true, false, not, ◌&&◌, Option, none, some, arith,
  inl, inr, ap, ◌∙◌, sym,
}
use celery_cnc.Base.{
  ◌==◌, string_eq, option_eq, if◌then◌else◌, contains, Distinct, ==_cases, Bool-cases,
}
use celery_cnc.Base.Dict.{Dict, keys, lookup, insert, erase, insert-Distinct}
use mathlib.Core.Bool.{false≢true}
use mathlib.Core.Option.{none-ne-some, some-injective}
use celery_cnc.Schemas.{Datetime, TaskEvent}
use celery_cnc.Metrics.{
  Tracker, Exporter, terminal_states, count_of, prev_state, prev_worker, leave_received,
  leave_started, enter_received, enter_started, observe_prefetch, keep_tracker, track_task_state,
}
use celery_cnc.Metrics.Census.{weight, census, census-insert, census-erase, erase-Distinct}
use celery_cnc.Metrics.Steps.{
  leave_received-Frame, enter_received-Frame, observe_prefetch-Frame, leave_started-trackers,
  enter_started-trackers, leave_started-count, enter_started-count,
}

abbrev pub started_on : String → Tracker → Bool
started_on worker t = t.state == "STARTED" && t.worker == worker

started_not_terminal : contains terminal_states "STARTED" ≡ false
unfolding string_eq
started_not_terminal = refl

-- The task has a running tracker for one worker and is not reported as running on another.
abbrev pub Stays : Option Tracker → String → String → Type 0
Stays none worker state = Unit {0}
Stays (some t) worker state = t.state ≡ "STARTED" → state ≡ "STARTED" → t.worker ≡ worker

-- The tracker that an event leaves counts for the worker that it names.
abbrev arrival : String → String → String → ℕ
arrival worker state j = if state == "STARTED" && worker == j then 1 else 0

-- The count of a worker after a departure and an arrival, as the two steps compute it.
abbrev departed : Option Tracker → String → String → String → ℕ → ℕ
departed p w s j c =
    if prev_state p == some "STARTED" && not (s == "STARTED")
    then (if j == prev_worker p w then c - 1 else c)
    else c

abbrev arrived : Option Tracker → String → String → String → ℕ → ℕ
arrived p w s j c =
    if s == "STARTED" && not (prev_state p == some "STARTED")
    then (if j == w then c + 1 else c)
    else c

balance :
    (p : Option Tracker) (w s j : String) (c : ℕ)
    → Stays p w s
    → weight (started_on j) p ≤ c
    → arrived p w s j (departed p w s j c) + weight (started_on j) p ≡ c + arrival w s j
unfolding option_eq
balance none w s j c stays h = ground arith
balance (some t) w s j c stays h = ground arith

kept : Datetime → String → String → String → Tracker
kept at n w s = record {
  name = n;
  worker = w;
  state = s;
  received_at = if s == "RECEIVED" then some at else none;
}

-- The trackers after an event.
trackers_after :
    {F : Type 0}
    → TaskEvent F
    → String
    → String
    → String
    → Dict String Tracker
    → Dict String Tracker
unfolding kept
trackers_after e n w s d =
    if contains terminal_states s
    then erase e.task_id d
    else insert e.task_id (kept e.timestamp n w s) d

no_arrival :
    (worker state j : String) → contains terminal_states state ≡ true → arrival worker state j ≡ 0
no_arrival worker state j t = elim (==_cases state "STARTED") [
  | inl (p, e) ↦
      absurd (false≢true (sym started_not_terminal ∙ ap (contains terminal_states) (sym p) ∙ t))
  | inr (n, e) ↦ rw e
]

-- A move of a running task changes no count, though one worker has a task less.
imbalance :
    (p : Option Tracker) (t : Tracker) (w s : String) (c : ℕ)
    → p ≡ some t
    → t.state ≡ "STARTED"
    → s ≡ "STARTED"
    → t.worker ≢ w
    → (arrived p w s t.worker (departed p w s t.worker c) ≡ c)
      × (weight (started_on t.worker) p ≡ 1)
      × (arrival w s t.worker ≡ 0)
unfolding option_eq
imbalance none t w s c found running starts moves = absurd (none-ne-some t found)
imbalance (some u) t w s c found running starts moves = (
  ground (arith, some-injective u t found),
  ground (arith, some-injective u t found),
  ground arith,
)

module _ {F : Type 0} where
  -- Every task has one tracker, and the reported counts are those of the running trackers.
  pub record IsExact (x : Exporter F) : Type 0 where
    pub single : Distinct (keys x.trackers)
    pub exact : (j : String) → count_of j x.active_counts ≡ census (started_on j) x.trackers

module _ {F : Type 0} (upper lower strip : String → String) where
  keep_tracker-active :
      (at : Datetime) (id n w s : String) (x : Exporter F)
      → (keep_tracker upper lower strip at id n w s x).active_counts ≡ x.active_counts
  unfolding keep_tracker
  keep_tracker-active at id n w s x = ground arith

  active-track_task_state :
      (e : TaskEvent F) (n w s : String) (x : Exporter F) (j : String)
      → count_of j (track_task_state upper lower strip e n w s x).active_counts
        ≡ arrived
            (lookup e.task_id x.trackers)
            w
            s
            j
            (departed (lookup e.task_id x.trackers) w s j (count_of j x.active_counts))
  unfolding track_task_state
  active-track_task_state e n w s x j =
      let p = lookup e.task_id x.trackers in
      let x1 = leave_received upper lower strip p n w s x in
      let x2 = leave_started upper lower strip p w s x1 in
      let x3 = enter_received upper lower strip p n w s x2 in
      let x4 = enter_started upper lower strip p w s x3 in
      let x5 = observe_prefetch upper lower strip p e.timestamp n w s x4 in
      let tally = λ (d : Dict String ℕ). count_of j d in
      ap tally (keep_tracker-active e.timestamp e.task_id n w s x5)
      ∙ ap tally (observe_prefetch-Frame upper lower strip p e.timestamp n w s x4).active
      ∙ enter_started-count upper lower strip p w s j x3
      ∙ ap (arrived p w s j) (
          ap tally (enter_received-Frame upper lower strip p n w s x2).active
          ∙ leave_started-count upper lower strip p w s j x1
          ∙ ap (departed p w s j)
              (ap tally (leave_received-Frame upper lower strip p n w s x).active))

  keep_tracker-trackers :
      (e : TaskEvent F) (n w s : String) (x : Exporter F)
      → (keep_tracker upper lower strip e.timestamp e.task_id n w s x).trackers
        ≡ trackers_after e n w s x.trackers
  unfolding keep_tracker trackers_after
  keep_tracker-trackers e n w s x = ground arith

  trackers-track_task_state :
      (e : TaskEvent F) (n w s : String) (x : Exporter F)
      → (track_task_state upper lower strip e n w s x).trackers ≡ trackers_after e n w s x.trackers
  unfolding track_task_state trackers_after
  trackers-track_task_state e n w s x =
      let p = lookup e.task_id x.trackers in
      let x1 = leave_received upper lower strip p n w s x in
      let x2 = leave_started upper lower strip p w s x1 in
      let x3 = enter_received upper lower strip p n w s x2 in
      let x4 = enter_started upper lower strip p w s x3 in
      let x5 = observe_prefetch upper lower strip p e.timestamp n w s x4 in
      keep_tracker-trackers e n w s x5
      ∙ ap (trackers_after e n w s) (
          (observe_prefetch-Frame upper lower strip p e.timestamp n w s x4).trackers
          ∙ enter_started-trackers upper lower strip p w s x3
          ∙ (enter_received-Frame upper lower strip p n w s x2).trackers
          ∙ leave_started-trackers upper lower strip p w s x1
          ∙ (leave_received-Frame upper lower strip p n w s x).trackers)

  trackers_after-Distinct :
      (e : TaskEvent F) (n w s : String) (d : Dict String Tracker)
      → Distinct (keys d)
      → Distinct (keys (trackers_after e n w s d))
  unfolding trackers_after
  trackers_after-Distinct e n w s d u = elim (Bool-cases (contains terminal_states s)) [
    | inl t ↦ rw t (erase-Distinct (started_on w) e.task_id d u)
    | inr t ↦ rw t (insert-Distinct e.task_id (kept e.timestamp n w s) d u)
  ]

  census-trackers_after :
      (e : TaskEvent F) (n w s : String) (d : Dict String Tracker) (j : String)
      → Distinct (keys d)
      → census (started_on j) (trackers_after e n w s d)
          + weight (started_on j) (lookup e.task_id d)
        ≡ census (started_on j) d + arrival w s j
  unfolding trackers_after
  census-trackers_after e n w s d j u = elim (Bool-cases (contains terminal_states s)) [
    | inl t ↦ rw t (omega (arith, census-erase (started_on j) e.task_id d u, no_arrival w s j t))
    | inr t ↦ rw t (census-insert (started_on j) e.task_id (kept e.timestamp n w s) d)
  ]

  -- An event that does not move a running task to another worker keeps the counts exact.
  pub track_task_state-IsExact :
      (e : TaskEvent F) (n w s : String) (x : Exporter F)
      → IsExact x
      → Stays (lookup e.task_id x.trackers) w s
      → IsExact (track_task_state upper lower strip e n w s x)
  track_task_state-IsExact e n w s x h stays = record {
    single = rw trackers-track_task_state (trackers_after-Distinct e n w s x.trackers h.single);
    exact = λ j.
        let p = lookup e.task_id x.trackers in
        let below = census-erase (started_on j) e.task_id x.trackers h.single in
        rw (active-track_task_state, trackers-track_task_state)
          (omega (
            arith,
            balance p w s j (count_of j x.active_counts) stays (omega (arith, below, h.exact j)),
            census-trackers_after e n w s x.trackers j h.single,
            h.exact j,
          ));
  }

  pub track_task_state_drifts :
      (e : TaskEvent F) (n w s : String) (x : Exporter F) (t : Tracker)
      → IsExact x
      → lookup e.task_id x.trackers ≡ some t
      → t.state ≡ "STARTED"
      → s ≡ "STARTED"
      → t.worker ≢ w
      → ¬ IsExact (track_task_state upper lower strip e n w s x)
  track_task_state_drifts e n w s x t h found running starts moves after =
      let j = t.worker in
      let (same, one, zero_more) =
        imbalance (lookup e.task_id x.trackers) t w s (count_of j x.active_counts) found running
          starts moves in
      omega (
        arith,
        same,
        one,
        zero_more,
        active-track_task_state e n w s x j,
        census-trackers_after e n w s x.trackers j h.single,
        h.exact j,
        after.exact j,
        ap (census (started_on j)) (trackers-track_task_state e n w s x),
      )
