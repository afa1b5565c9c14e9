-- ===== src/Store/Throughput.antt =====
-- celery_root/core/db/adapters/sqlite/__init__.py: `get_throughput` and what it calls, on the rows of
-- the task table. An instant counts microseconds.
pub mod Loop
pub mod Totals
use mathlib.Core.Option.{or_else}
use celery_cnc.Base.{
  ℕ, zero, suc, ◌+◌, ◌-◌, ◌*◌, ◌/◌, String, Bool, true, false, ◌&&◌, Option, none, some, List, [],
  ◌∷◌, keep_if, ltb, leb, ◌==◌, string_eq, nat_eq, option_eq, if◌then◌else◌,
}
use celery_cnc.Base.Dict.{Dict, lookup, insert}
use celery_cnc.Schemas.{Datetime, TimeRange, Task, ThroughputBucket}

abbrev pub second : ℕ
second = 1000000

-- `coalesce(finished, started, received)`, which `_task_timestamp` computes of a row.
abbrev pub task_timestamp : {F : Type 0} → Task F → Option Datetime
task_timestamp task = or_else task.finished (or_else task.started task.received)

-- `ts_col.between(start, end)`; of a row without an instant it is not true.
abbrev pub is_between : TimeRange → Option Datetime → Bool
is_between time_range none = false
is_between time_range (some at) = leb time_range.start at && leb at time_range.finish

abbrev pub in_range : Option TimeRange → Option Datetime → Bool
in_range none at = true
in_range (some time_range) at = is_between time_range at

abbrev pub has_name : Option String → Option String → Bool
has_name none name = true
has_name (some task_name) name = name == some task_name

module _ {F : Type 0} where
  unfoldable pub filter_tasks : Option String → Option TimeRange → List (Task F) → List (Task F)
  filter_tasks task_name time_range rows =
      keep_if (λ task. has_name task_name task.name && in_range time_range (task_timestamp task))
        rows

-- The loop of `_init_buckets`; `none` when the fuel runs out.
unfoldable pub bucket_loop :
    ℕ → Datetime → Datetime → ℕ → Dict Datetime ℕ → Option (Dict Datetime ℕ)
unfolding insert
bucket_loop zero cursor end step buckets = none
bucket_loop (suc fuel) cursor end step buckets =
    let rest = bucket_loop fuel (cursor + step) end step (insert cursor 0 buckets) in
    if leb cursor end then rest else some buckets

unfoldable pub init_buckets : ℕ → TimeRange → ℕ → Option (Dict Datetime ℕ)
unfolding bucket_loop
init_buckets fuel time_range bucket_seconds =
    bucket_loop fuel time_range.start time_range.finish (bucket_seconds * second) []

-- An instant before the start is in the first bucket.
unfoldable pub bucket_start : Datetime → Datetime → ℕ → Datetime
bucket_start start timestamp bucket_seconds =
    let delta_seconds = (timestamp - start) / second in
    let bucket_index = delta_seconds / bucket_seconds in
    start + bucket_index * bucket_seconds * second

abbrev pub count_at : Datetime → Option ℕ → Dict Datetime ℕ → Dict Datetime ℕ
unfolding insert
count_at key none buckets = buckets
count_at key (some n) buckets = insert key (suc n) buckets

abbrev pub count_instant : TimeRange → ℕ → Option Datetime → Dict Datetime ℕ → Dict Datetime ℕ
unfolding count_at bucket_start lookup
count_instant time_range bucket_seconds none buckets = buckets
count_instant time_range bucket_seconds (some timestamp) buckets =
    let key = bucket_start time_range.start timestamp bucket_seconds in
    count_at key (lookup key buckets) buckets

module _ {F : Type 0} where
  unfoldable pub count_tasks : TimeRange → ℕ → List (Task F) → Dict Datetime ℕ → Dict Datetime ℕ
  unfolding count_instant
  count_tasks time_range bucket_seconds [] buckets = buckets
  count_tasks time_range bucket_seconds (task ∷ rest) buckets =
      count_tasks time_range bucket_seconds rest
        (count_instant time_range bucket_seconds (task_timestamp task) buckets)

abbrev pub bucket_list : Dict Datetime ℕ → List ThroughputBucket
bucket_list [] = []
bucket_list ((key, value) ∷ rest) = record { bucket_start = key; count = value } ∷ bucket_list rest

module _ {F : Type 0} where
  unfoldable pub get_throughput : ℕ → List (Task F) → TimeRange → ℕ → Option (List ThroughputBucket)
  unfolding init_buckets count_tasks filter_tasks
  get_throughput fuel rows time_range bucket_seconds =
      elim (init_buckets fuel time_range bucket_seconds) [
        | none ↦ none
        | some buckets ↦ some (
            bucket_list (
              count_tasks time_range bucket_seconds (filter_tasks none (some time_range) rows)
                buckets))
      ]
