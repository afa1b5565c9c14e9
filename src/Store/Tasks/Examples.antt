-- ===== src/Store/Tasks/Examples.antt =====
-- Runs over tables in memory, and the theorems at concrete data.
use celery_cnc.Base.{
  ℕ, ◌≡◌, refl, String, true, Option, none, some, List, [], ◌∷◌, string_eq, nat_eq, option_eq,
}
use celery_cnc.Base.Dict.{lookup, insert}
use celery_cnc.Schemas.{TaskEvent, Task}
use celery_cnc.Store.Table.{KeyedTable, LogTable, memory_table, memory_log}
use celery_cnc.Store.Tasks.{Db, get_task, store_all, store_task_event, is_final}
use celery_cnc.Store.Tasks.Merge.{replay, get_task-store_all}
use celery_cnc.Store.Tasks.Final.{last_final, last_final_wins}
use celery_cnc.Store.Tasks.Lifecycle.{stage, furthest, stage-store_all}
use celery_cnc.Store.Tasks.Columns.{reported, row_retries, greatest, retries-store_all}

abbrev tasks : KeyedTable (Task ℕ)
tasks = memory_table (Task ℕ)

abbrev log : LogTable (TaskEvent ℕ)
log = memory_log (TaskEvent ℕ)

abbrev empty : Db tasks log
empty = record { tasks = []; task_events = [] }

abbrev event : String → String → ℕ → Option ℕ → TaskEvent ℕ
event id state at retries = record {
  task_id = id;
  name = some "app.add";
  state = state;
  timestamp = at;
  worker = none;
  args = none;
  kwargs = none;
  result = none;
  traceback = none;
  stamps = none;
  runtime = none;
  retries = retries;
  eta = none;
  expires = none;
  parent_id = none;
  root_id = none;
  group_id = none;
  chord_id = none;
}

-- The start of the task is reported after its end.
abbrev late : List (TaskEvent ℕ)
late =
    event "a" "RECEIVED" 1 none
    ∷ event "a" "SUCCESS" 3 (some 2)
    ∷ event "a" "STARTED" 2 (some 1)
    ∷ []

abbrev one_more : List (TaskEvent ℕ)
one_more = event "a" "RETRY" 9 (some 5) ∷ event "b" "STARTED" 9 none ∷ []

abbrev row : Task ℕ
row = record {
  task_id = "a";
  name = some "app.add";
  state = "SUCCESS";
  worker = none;
  received = some 1;
  started = none;
  finished = some 3;
  runtime = none;
  args = none;
  kwargs = none;
  result = none;
  traceback = none;
  stamps = none;
  retries = some 2;
  parent_id = none;
  root_id = none;
  group_id = none;
  chord_id = none;
}

stored : get_task tasks log (store_all tasks log empty late) "a" ≡ some row
unfolding store_all store_task_event get_task lookup insert is_final string_eq nat_eq option_eq
stored = refl

get_task-store_all_example :
    get_task tasks log (store_all tasks log empty late) "a"
    ≡ replay "a" (get_task tasks log empty "a") late
get_task-store_all_example = get_task-store_all tasks log empty late "a"

last_final-late : last_final "a" none late ≡ some "SUCCESS"
unfolding last_final is_final string_eq
last_final-late = refl

last_final_wins_example :
    (r : Task ℕ) × (get_task tasks log (store_all tasks log empty late) "a" ≡ some r)
    × (r.state ≡ "SUCCESS")
last_final_wins_example = last_final_wins tasks log empty late "a" "SUCCESS" last_final-late

is_final_row : is_final row.state ≡ true
unfolding is_final string_eq
is_final_row = refl

empty_row : get_task tasks log empty "a" ≡ none
unfolding get_task lookup
empty_row = refl

stage-store_all_example :
    stage (get_task tasks log (store_all tasks log empty late) "a")
    ≡ furthest "a" (stage (get_task tasks log empty "a")) late
unfolding get_task lookup string_eq
stage-store_all_example =
    stage-store_all tasks log empty late "a" tt ((λ e. refl), ((λ e. refl), ((λ e. refl), tt)))

retries-store_all_example :
    reported (row_retries (get_task tasks log (store_all tasks log empty late) "a"))
    ≡ greatest "a" (reported (row_retries (get_task tasks log empty "a"))) late
retries-store_all_example = retries-store_all tasks log empty late "a"
