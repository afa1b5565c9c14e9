-- ===== src/Store/Tasks.antt =====
-- `store_task_event` and what it calls: the merge of a stream of task events, which may arrive late
-- or twice, into one row for each task.
pub mod Merge
pub mod Final
pub mod Lifecycle
pub mod Columns
pub mod Log
pub mod Examples
use mathlib.Core.Option.{or_else}
use celery_cnc.Base.{
  ◌≡◌, ℕ, String, Bool, true, false, ◌&&◌, ◌||◌, not, Option, none, some, List, [], ◌∷◌,
}
use celery_cnc.Base.{◌==◌, string_eq, nat_eq, option_eq, contains, if◌then◌else◌, max}
use celery_cnc.Schemas.{Datetime, TaskEvent, Task}
use celery_cnc.Store.Table.{KeyedTable, LogTable}

abbrev pub final_states : List String
final_states = "SUCCESS" ∷ "FAILURE" ∷ "REVOKED" ∷ []

unfoldable pub is_final : String → Bool
is_final s = contains final_states s

unfoldable pub should_preserve_state : String → String → Bool
should_preserve_state existing incoming =
    if is_final existing && not (is_final incoming)
    then true
    else if existing == "STARTED" && contains ("PENDING" ∷ "RECEIVED" ∷ []) incoming
    then true
    else (existing == "RECEIVED" && incoming == "PENDING")

unfoldable pub merge_retries : Option ℕ → Option ℕ → Option ℕ
merge_retries existing none = existing
merge_retries none (some n) = some n
merge_retries (some m) (some n) = some (max m n)

-- The dictionary of column values of a statement: `none` is a column that it does not name.
pub record TaskValues (F : Type 0) : Type 0 where
  pub task_id : String
  pub state : String
  pub name : Option String
  pub worker : Option String
  pub args : Option String
  pub kwargs : Option String
  pub result : Option String
  pub traceback : Option String
  pub stamps : Option String
  pub runtime : Option F
  pub retries : Option ℕ
  pub parent_id : Option String
  pub root_id : Option String
  pub group_id : Option String
  pub chord_id : Option String
  pub received : Option Datetime
  pub started : Option Datetime
  pub finished : Option Datetime

-- Which time column the event's state sets.
pub record Times : Type 0 where
  pub received : Option Datetime
  pub started : Option Datetime
  pub finished : Option Datetime

unfoldable pub event_times : String → Datetime → Times
event_times state at =
    if contains ("RECEIVED" ∷ "PENDING" ∷ []) state
    then record { received = some at; started = none; finished = none }
    else if state == "STARTED"
    then record { received = none; started = some at; finished = none }
    else if is_final state
    then record { received = none; started = none; finished = some at }
    else record { received = none; started = none; finished = none }

module _ {F : Type 0} where
  -- The branch that keeps the stored state: only the retries may change.
  unfoldable pub preserved_values : TaskEvent F → String → Option ℕ → TaskValues F
  unfolding merge_retries
  preserved_values event existing_state existing_retries =
      let merged = merge_retries existing_retries event.retries in
      record {
        task_id = event.task_id;
        state = existing_state;
        name = none;
        worker = none;
        args = none;
        kwargs = none;
        result = none;
        traceback = none;
        stamps = none;
        runtime = none;
        retries = if not (merged == none) && not (merged == existing_retries) then merged else none;
        parent_id = none;
        root_id = none;
        group_id = none;
        chord_id = none;
        received = none;
        started = none;
        finished = none;
      }

  -- The branch that takes the event: its columns that are not `None`, and its time.
  unfoldable pub updated_values : TaskEvent F → Option ℕ → TaskValues F
  unfolding merge_retries event_times
  updated_values event existing_retries =
      let times = event_times event.state event.timestamp in
      record {
        task_id = event.task_id;
        state = event.state;
        name = event.name;
        worker = event.worker;
        args = event.args;
        kwargs = event.kwargs;
        result = event.result;
        traceback = event.traceback;
        stamps = event.stamps;
        runtime = event.runtime;
        retries = merge_retries existing_retries event.retries;
        parent_id = event.parent_id;
        root_id = event.root_id;
        group_id = event.group_id;
        chord_id = event.chord_id;
        received = times.received;
        started = times.started;
        finished = times.finished;
      }

  unfoldable pub task_values_from_event : TaskEvent F → Option String → Option ℕ → TaskValues F
  unfolding should_preserve_state preserved_values updated_values
  task_values_from_event event none existing_retries = updated_values event existing_retries
  task_values_from_event event (some existing_state) existing_retries =
      if should_preserve_state existing_state event.state
      then preserved_values event existing_state existing_retries
      else updated_values event existing_retries

  -- The row that INSERT makes: a column that is not named is NULL.
  unfoldable pub insert_row : TaskValues F → Task F
  insert_row v = record {
    task_id = v.task_id;
    name = v.name;
    state = v.state;
    worker = v.worker;
    received = v.received;
    started = v.started;
    finished = v.finished;
    runtime = v.runtime;
    args = v.args;
    kwargs = v.kwargs;
    result = v.result;
    traceback = v.traceback;
    stamps = v.stamps;
    retries = v.retries;
    parent_id = v.parent_id;
    root_id = v.root_id;
    group_id = v.group_id;
    chord_id = v.chord_id;
  }

  -- The row that DO UPDATE SET leaves: a column that is not named keeps its value.
  unfoldable pub update_row : TaskValues F → Task F → Task F
  unfolding or_else
  update_row v old = record {
    task_id = old.task_id;
    name = or_else v.name old.name;
    state = v.state;
    worker = or_else v.worker old.worker;
    received = or_else v.received old.received;
    started = or_else v.started old.started;
    finished = or_else v.finished old.finished;
    runtime = or_else v.runtime old.runtime;
    args = or_else v.args old.args;
    kwargs = or_else v.kwargs old.kwargs;
    result = or_else v.result old.result;
    traceback = or_else v.traceback old.traceback;
    stamps = or_else v.stamps old.stamps;
    retries = or_else v.retries old.retries;
    parent_id = or_else v.parent_id old.parent_id;
    root_id = or_else v.root_id old.root_id;
    group_id = or_else v.group_id old.group_id;
    chord_id = or_else v.chord_id old.chord_id;
  }

module _ {F : Type 0} (T : KeyedTable (Task F)) (L : LogTable (TaskEvent F)) where
  -- The two tables that a task event is written to.
  pub record Db : Type 0 where
    pub tasks : T.State
    pub task_events : L.State

  unfoldable pub get_task : Db → String → Option (Task F)
  get_task db task_id = T.select_row db.tasks task_id

  unfoldable pub get_task_state_and_retries : Db → String → Option String × Option ℕ
  unfolding get_task
  get_task_state_and_retries db task_id = elim (get_task db task_id) [
    | none ↦ (none, none)
    | some row ↦ (some row.state, row.retries)
  ]

  unfoldable pub store_task_event : Db → TaskEvent F → Db
  unfolding get_task_state_and_retries task_values_from_event insert_row update_row
  store_task_event db event =
      let (existing_state, existing_retries) = get_task_state_and_retries db event.task_id in
      let values = task_values_from_event event existing_state existing_retries in
      record {
        tasks = T.upsert db.tasks event.task_id (insert_row values) (update_row values);
        task_events = L.append_row db.task_events event;
      }

  -- The events of a run, in the order in which they arrive.
  unfoldable pub store_all : Db → List (TaskEvent F) → Db
  store_all db [] = db
  store_all db (event ∷ rest) = store_all (store_task_event db event) rest
