-- ===== src/Store/Cleanup.antt =====
-- celery_root/core/db/adapters/sqlite/__init__.py: `cleanup`. A deletion removes the rows that its
-- condition is true of, and says how many these were.
use celery_cnc.Base.{
  ℕ, ◌+◌, ◌-◌, ◌*◌, ◌<◌, ◌≡◌, refl, sym, ap, ◌∙◌, subst, Bool, true, false, not, Option, none, some,
  List, [], ◌∷◌, keep_if, length, ltb, arith, Bool-cases, inl, inr,
}
use mathlib.Core.Option.{or_else}
use celery_cnc.Schemas.{Datetime, Task, TaskEvent, BrokerQueueEvent}
use celery_cnc.Store.Throughput.{second, task_timestamp}
use celery_cnc.Store.Workers.{Json, WorkerRow, EventRow}

pub record SweptTable (Row : Type 0) : Type 1 where
  pub State : Type 0
  pub rows : State → List Row
  pub delete_where : State → (Row → Bool) → State × ℕ
  pub rows-delete_where :
      (s : State) (p : Row → Bool) → rows (delete_where s p).0 ≡ keep_if (λ r. not (p r)) (rows s)
  pub count-delete_where :
      (s : State) (p : Row → Bool) → (delete_where s p).1 ≡ length (keep_if p (rows s))

-- A comparison with NULL is not true.
abbrev pub is_before : Datetime → Option Datetime → Bool
is_before cutoff none = false
is_before cutoff (some at) = ltb at cutoff

-- `datetime.now(UTC) - timedelta(days=older_than_days)`; the years before the epoch are not looked at.
unfoldable pub cutoff_of : Datetime → ℕ → Datetime
cutoff_of now older_than_days = now - older_than_days * 86400 * second

module _ {F : Type 0} (json : Json) (E : SweptTable (TaskEvent F)) (T : SweptTable (Task F))
    (V : SweptTable (EventRow json)) (Q : SweptTable BrokerQueueEvent)
    (W : SweptTable (WorkerRow json)) where
  pub record Database : Type 0 where
    pub task_events : E.State
    pub tasks : T.State
    pub worker_events : V.State
    pub broker_queue_events : Q.State
    pub workers : W.State

  unfoldable pub cleanup : Datetime → Database → ℕ → Database × ℕ
  unfolding cutoff_of
  cleanup now db older_than_days =
      let cutoff = cutoff_of now older_than_days in
      let (task_events, a) = E.delete_where db.task_events (λ r. ltb r.timestamp cutoff) in
      let (tasks, b) = T.delete_where db.tasks (λ r. is_before cutoff (task_timestamp r)) in
      let (worker_events, c) = V.delete_where db.worker_events (λ r. ltb r.timestamp cutoff) in
      let (broker_queue_events, d) =
        Q.delete_where db.broker_queue_events (λ r. ltb r.timestamp cutoff) in
      let (workers, e) = W.delete_where db.workers (λ r. is_before cutoff r.last_heartbeat) in
      (
        record {
          task_events = task_events;
          tasks = tasks;
          worker_events = worker_events;
          broker_queue_events = broker_queue_events;
          workers = workers;
        },
        a + b + c + d + e,
      )

  -- The number of rows of a database.
  abbrev pub size : Database → ℕ
  size db =
      length (E.rows db.task_events)
      + length (T.rows db.tasks)
      + length (V.rows db.worker_events)
      + length (Q.rows db.broker_queue_events)
      + length (W.rows db.workers)

-- A row is old if its instant lies more than so many days, of 86400 seconds of 1000000 microseconds,
-- before now; a row without an instant is not.
abbrev pub IsOld : Datetime → ℕ → Option Datetime → Type 0
IsOld now days none = ⊥
IsOld now days (some at) = at + days * 86400 * 1000000 < now

-- What is left of a table: the rows that are not old, in their order.
pub data Swept {Row : Type 0} (at : Row → Option Datetime) (now : Datetime) (days : ℕ)
    : List Row → List Row → Type 0 where
  nothing : Swept at now days [] []
  removed :
      {row : Row} {before after : List Row}
      → IsOld now days (at row)
      → Swept at now days before after
      → Swept at now days (row ∷ before) after
  kept :
      {row : Row} {before after : List Row}
      → ¬ IsOld now days (at row)
      → Swept at now days before after
      → Swept at now days (row ∷ before) (row ∷ after)

-- When a task ended, else when it started, else when it was received.
abbrev pub latest_instant : Option Datetime → Option Datetime → Option Datetime → Option Datetime
latest_instant (some finished) started received = some finished
latest_instant none (some started) received = some started
latest_instant none none received = received

module _ {F : Type 0} (json : Json) (E : SweptTable (TaskEvent F)) (T : SweptTable (Task F))
    (V : SweptTable (EventRow json)) (Q : SweptTable BrokerQueueEvent)
    (W : SweptTable (WorkerRow json)) where
  pub record IsSwept (now : Datetime) (days : ℕ) (before after : Database json E T V Q W)
      : Type 0 where
    pub task_events :
        Swept
          (λ r. some r.timestamp)
          now
          days
          (E.rows before.task_events)
          (E.rows after.task_events)
    pub tasks :
        Swept
          (λ r. latest_instant r.finished r.started r.received)
          now
          days
          (T.rows before.tasks)
          (T.rows after.tasks)
    pub worker_events :
        Swept
          (λ r. some r.timestamp)
          now
          days
          (V.rows before.worker_events)
          (V.rows after.worker_events)
    pub broker_queue_events :
        Swept
          (λ r. some r.timestamp)
          now
          days
          (Q.rows before.broker_queue_events)
          (Q.rows after.broker_queue_events)
    pub workers :
        Swept (λ r. r.last_heartbeat) now days (W.rows before.workers) (W.rows after.workers)

is_before-IsOld :
    (now : Datetime) (days : ℕ) (o : Option Datetime)
    → is_before (cutoff_of now days) o ≡ true
    → IsOld now days o
unfolding cutoff_of
is_before-IsOld now days none h = cc
is_before-IsOld now days (some at) h = ground arith

IsOld-is_before :
    (now : Datetime) (days : ℕ) (o : Option Datetime)
    → IsOld now days o
    → is_before (cutoff_of now days) o ≡ true
unfolding cutoff_of
IsOld-is_before now days none h = absurd h
IsOld-is_before now days (some at) h = ground arith

keep_if-Swept :
    {Row : Type 0} (at : Row → Option Datetime) (p : Row → Bool) (now : Datetime) (days : ℕ)
    → ((r : Row) → p r ≡ is_before (cutoff_of now days) (at r))
    → (rs : List Row) → Swept at now days rs (keep_if (λ r. not (p r)) rs)
unfolding keep_if
keep_if-Swept at p now days same [] = nothing
keep_if-Swept at p now days same (r ∷ rs) = elim (Bool-cases (p r)) [
  | inl t ↦ rw t (
      removed (is_before-IsOld now days (at r) (sym (same r) ∙ t))
        (keep_if-Swept at p now days same rs))
  | inr t ↦ rw t (
      kept (λ old. (let q = IsOld-is_before now days (at r) old in cc (sym t ∙ same r ∙ q)))
        (keep_if-Swept at p now days same rs))
]

delete_where-Swept :
    {Row : Type 0} (T : SweptTable Row) (s : T.State) (at : Row → Option Datetime) (p : Row → Bool)
    (now : Datetime) (days : ℕ)
    → ((r : Row) → p r ≡ is_before (cutoff_of now days) (at r))
    → Swept at now days (T.rows s) (T.rows (T.delete_where s p).0)
delete_where-Swept T s at p now days same =
    subst (Swept at now days (T.rows s)) (sym (T.rows-delete_where s p))
      (keep_if-Swept at p now days same (T.rows s))

chosen :
    (finished started received : Option Datetime)
    → or_else finished (or_else started received) ≡ latest_instant finished started received
unfolding or_else
chosen (some t) started received = refl
chosen none (some t) received = refl
chosen none none received = refl

task_timestamp-eq :
    {F : Type 0} (task : Task F)
    → task_timestamp task ≡ latest_instant task.finished task.started task.received
task_timestamp-eq task = chosen task.finished task.started task.received

keep_if-not :
    {Row : Type 0} (p : Row → Bool) (rs : List Row)
    → length (keep_if (λ r. not (p r)) rs) + length (keep_if p rs) ≡ length rs
unfolding keep_if
keep_if-not p [] = refl
keep_if-not p (r ∷ rs) = elim (Bool-cases (p r)) [
  | inl e ↦ rw e (omega (arith, keep_if-not p rs))
  | inr e ↦ rw e (omega (arith, keep_if-not p rs))
]

-- A deletion takes out as many rows as it says.
delete_where-length :
    {Row : Type 0} (T : SweptTable Row) (s : T.State) (p : Row → Bool)
    → length (T.rows (T.delete_where s p).0) + (T.delete_where s p).1 ≡ length (T.rows s)
delete_where-length T s p =
    rw (T.rows-delete_where s p, T.count-delete_where s p) (keep_if-not p (T.rows s))

module _ {F : Type 0} (json : Json) (E : SweptTable (TaskEvent F)) (T : SweptTable (Task F))
    (V : SweptTable (EventRow json)) (Q : SweptTable BrokerQueueEvent)
    (W : SweptTable (WorkerRow json)) where
  -- A cleanup leaves of each table exactly the rows whose instant does not lie more than the given
  -- number of days before now, in their order, and those without an instant: of the events the
  -- timestamp counts, of a task the instant it ended, else started, else was received, of a worker the
  -- last heartbeat. It answers with the number of rows that are gone.
  pub cleanup-IsSwept :
      (now : Datetime) (db : Database json E T V Q W) (days : ℕ)
      → IsSwept json E T V Q W now days db (cleanup json E T V Q W now db days).0
        × (size json E T V Q W (cleanup json E T V Q W now db days).0
              + (cleanup json E T V Q W now db days).1
            ≡ size json E T V Q W db)
  unfolding cleanup
  cleanup-IsSwept now db days =
      let cutoff : ℕ = cutoff_of now days in
      (
        record {
          task_events = delete_where-Swept E db.task_events _ _ now days (λ r. refl);
          tasks =
              delete_where-Swept T db.tasks _ _ now days
                (λ r. ap (is_before cutoff) (task_timestamp-eq r));
          worker_events = delete_where-Swept V db.worker_events _ _ now days (λ r. refl);
          broker_queue_events =
              delete_where-Swept Q db.broker_queue_events _ _ now days (λ r. refl);
          workers = delete_where-Swept W db.workers _ _ now days (λ r. refl);
        },
        omega (
          arith,
          delete_where-length E db.task_events (λ r. ltb r.timestamp cutoff),
          delete_where-length T db.tasks (λ r. is_before cutoff (task_timestamp r)),
          delete_where-length V db.worker_events (λ r. ltb r.timestamp cutoff),
          delete_where-length Q db.broker_queue_events (λ r. ltb r.timestamp cutoff),
          delete_where-length W db.workers (λ r. is_before cutoff r.last_heartbeat),
        ),
      )
