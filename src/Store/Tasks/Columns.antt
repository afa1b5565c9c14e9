-- ===== src/Store/Tasks/Columns.antt =====
-- What is known of a task is not forgotten: no event clears a column, and the retries never fall.
use mathlib.Core.Option.{or_else}
use celery_cnc.Base.{
  ℕ, suc, ◌≡◌, refl, ◌∙◌, ap, String, Bool, true, false, Option, none, some, List, [], ◌∷◌, arith,
  max,
}
use celery_cnc.Base.{
  ◌==◌, string_eq, nat_eq, option_eq, if◌then◌else◌, Bool-cases, inl, inr, ◌&&◌, not,
}
use celery_cnc.Schemas.{TaskEvent, Task}
use celery_cnc.Store.Table.{KeyedTable, LogTable}
use celery_cnc.Store.Tasks.{should_preserve_state, merge_retries, Db, get_task, store_all}
use celery_cnc.Store.Tasks.Merge.{merge_event, replay, get_task-store_all}

-- The columns that may be NULL.
pub data Column : Type 0 where
  name worker received started finished runtime args kwargs result traceback stamps : Column
  retries parent_id root_id group_id chord_id : Column

abbrev is_set : {A : Type 0} → Option A → Bool
is_set none = false
is_set (some v) = true

set_or_else :
    {A : Type 0} (new old : Option A) → is_set old ≡ true → is_set (or_else new old) ≡ true
unfolding or_else
set_or_else none old h = h
set_or_else (some v) old h = refl

-- A count of retries, 0 where none is known.
abbrev pub reported : Option ℕ → ℕ
reported none = 0
reported (some n) = suc n

reported-merge_retries :
    (a b : Option ℕ) → reported (merge_retries a b) ≡ max (reported a) (reported b)
unfolding merge_retries
reported-merge_retries none none = omega arith
reported-merge_retries (some m) none = omega arith
reported-merge_retries none (some n) = omega arith
reported-merge_retries (some m) (some n) = omega arith

-- The merged count that the two branches write, over a row with the count `old`.
kept_retries :
    (old new : Option ℕ)
    → or_else
        (if not (merge_retries old new == none) && not (merge_retries old new == old)
          then merge_retries old new
          else none)
        old
      ≡ merge_retries old new
unfolding or_else merge_retries
kept_retries none none = ground arith
kept_retries none (some n) = ground arith
kept_retries (some m) none = ground arith
kept_retries (some m) (some n) = ground arith

updated_retries : (old new : Option ℕ) → or_else (merge_retries old new) old ≡ merge_retries old new
unfolding or_else merge_retries
updated_retries none none = refl
updated_retries none (some n) = refl
updated_retries (some m) none = refl
updated_retries (some m) (some n) = refl

module _ {F : Type 0} where
  abbrev pub has : Column → Task F → Bool
  has name row = is_set row.name
  has worker row = is_set row.worker
  has received row = is_set row.received
  has started row = is_set row.started
  has finished row = is_set row.finished
  has runtime row = is_set row.runtime
  has args row = is_set row.args
  has kwargs row = is_set row.kwargs
  has result row = is_set row.result
  has traceback row = is_set row.traceback
  has stamps row = is_set row.stamps
  has retries row = is_set row.retries
  has parent_id row = is_set row.parent_id
  has root_id row = is_set row.root_id
  has group_id row = is_set row.group_id
  has chord_id row = is_set row.chord_id

  has-merge_event :
      (c : Column) (row : Task F) (event : TaskEvent F)
      → has c row ≡ true
      → has c (merge_event (some row) event) ≡ true
  unfolding merge_event
  has-merge_event name row event h = set_or_else _ row.name h
  has-merge_event worker row event h = set_or_else _ row.worker h
  has-merge_event received row event h = set_or_else _ row.received h
  has-merge_event started row event h = set_or_else _ row.started h
  has-merge_event finished row event h = set_or_else _ row.finished h
  has-merge_event runtime row event h = set_or_else _ row.runtime h
  has-merge_event args row event h = set_or_else _ row.args h
  has-merge_event kwargs row event h = set_or_else _ row.kwargs h
  has-merge_event result row event h = set_or_else _ row.result h
  has-merge_event traceback row event h = set_or_else _ row.traceback h
  has-merge_event stamps row event h = set_or_else _ row.stamps h
  has-merge_event retries row event h = set_or_else _ row.retries h
  has-merge_event parent_id row event h = set_or_else _ row.parent_id h
  has-merge_event root_id row event h = set_or_else _ row.root_id h
  has-merge_event group_id row event h = set_or_else _ row.group_id h
  has-merge_event chord_id row event h = set_or_else _ row.chord_id h

  has-replay :
      (c : Column) (task_id : String) (events : List (TaskEvent F)) (row : Task F)
      → has c row ≡ true
      → (row' : Task F) × (replay task_id (some row) events ≡ some row') × (has c row' ≡ true)
  unfolding replay
  has-replay c task_id [] row h = (row, refl, h)
  has-replay c task_id (event ∷ rest) row h = elim (Bool-cases (task_id == event.task_id)) [
    | inl t ↦
        rw t
          (has-replay c task_id rest (merge_event (some row) event) (has-merge_event c row event h))
    | inr t ↦ rw t (has-replay c task_id rest row h)
  ]

  abbrev pub row_retries : Option (Task F) → Option ℕ
  row_retries none = none
  row_retries (some row) = row.retries

  retries-merge_event :
      (row : Option (Task F)) (event : TaskEvent F)
      → (merge_event row event).retries ≡ merge_retries (row_retries row) event.retries
  unfolding merge_event
  retries-merge_event none event = refl
  retries-merge_event (some row) event =
      elim (Bool-cases (should_preserve_state row.state event.state)) [
        | inl p ↦ rw p (kept_retries row.retries event.retries)
        | inr p ↦ rw p (updated_retries row.retries event.retries)
      ]

  -- The greatest count among the events of the task, from the count `n` on.
  unfoldable pub greatest : String → ℕ → List (TaskEvent F) → ℕ
  greatest task_id n [] = n
  greatest task_id n (event ∷ rest) =
      greatest task_id (if task_id == event.task_id then max n (reported event.retries) else n) rest

  retries-replay :
      (task_id : String) (events : List (TaskEvent F)) (row : Option (Task F))
      → reported (row_retries (replay task_id row events))
        ≡ greatest task_id (reported (row_retries row)) events
  unfolding replay greatest
  retries-replay task_id [] row = refl
  retries-replay task_id (event ∷ rest) row = elim (Bool-cases (task_id == event.task_id)) [
    | inl t ↦ rw t (
        retries-replay task_id rest (some (merge_event row event))
        ∙ rw (retries-merge_event, reported-merge_retries))
    | inr t ↦ rw t (retries-replay task_id rest row)
  ]

module _ {F : Type 0} (T : KeyedTable (Task F)) (L : LogTable (TaskEvent F)) where
  -- A column of a stored task that holds a value holds one after any further events.
  pub columns_keep :
      (db : Db T L) (events : List (TaskEvent F)) (task_id : String) (row : Task F) (c : Column)
      → get_task T L db task_id ≡ some row
      → has c row ≡ true
      → (row' : Task F) × (get_task T L (store_all T L db events) task_id ≡ some row')
        × (has c row' ≡ true)
  columns_keep db events task_id row c stored h =
      let (row', e, still) = has-replay c task_id events row h in
      (row', get_task-store_all T L db events task_id ∙ rw stored e, still)

  -- The stored count of retries is the greatest that any event of the task, or the row before,
  -- reported; events whose state was refused count too.
  pub retries-store_all :
      (db : Db T L) (events : List (TaskEvent F)) (task_id : String)
      → reported (row_retries (get_task T L (store_all T L db events) task_id))
        ≡ greatest task_id (reported (row_retries (get_task T L db task_id))) events
  retries-store_all db events task_id =
      ap (λ row. reported (row_retries row)) (get_task-store_all T L db events task_id)
      ∙ retries-replay task_id events (get_task T L db task_id)
