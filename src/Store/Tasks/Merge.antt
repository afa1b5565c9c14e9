-- ===== src/Store/Tasks/Merge.antt =====
-- The row of a task is a fold of its own events: what the two tables of the controller do, seen
-- from one task.
use celery_cnc.Base.{
  ◌≡◌, refl, ◌∙◌, ap, String, Option, none, some, List, [], ◌∷◌, arith, inl, inr, false,
}
use celery_cnc.Base.{◌==◌, string_eq, if◌then◌else◌, ==_cases}
use celery_cnc.Schemas.{TaskEvent, Task}
use celery_cnc.Store.Table.{KeyedTable, LogTable}
use celery_cnc.Store.Tasks.{
  task_values_from_event, insert_row, update_row, Db, get_task, store_task_event, store_all,
}

module _ {F : Type 0} where
  -- The row after one event of the task.
  unfoldable pub merge_event : Option (Task F) → TaskEvent F → Task F
  unfolding task_values_from_event insert_row update_row
  merge_event none event = insert_row (task_values_from_event event none none)
  merge_event (some row) event =
      update_row (task_values_from_event event (some row.state) row.retries) row

  -- The row after a run of events: those of other tasks leave it alone.
  unfoldable pub replay : String → Option (Task F) → List (TaskEvent F) → Option (Task F)
  replay task_id row [] = row
  replay task_id row (event ∷ rest) =
      replay task_id (if task_id == event.task_id then some (merge_event row event) else row) rest

module _ {F : Type 0} (T : KeyedTable (Task F)) (L : LogTable (TaskEvent F)) where
  merged-values :
      (db : Db T L) (event : TaskEvent F) (row : Option (Task F))
      → get_task T L db event.task_id ≡ row
      → get_task T L (store_task_event T L db event) event.task_id ≡ some (merge_event row event)
  unfolding store_task_event get_task merge_event
  merged-values db event none h = ground (
    arith,
    T.select-upsert db.tasks event.task_id event.task_id
        (insert_row (task_values_from_event event none none))
        (update_row (task_values_from_event event none none)),
  )
  merged-values db event (some row) h = ground (
    arith,
    T.select-upsert db.tasks event.task_id event.task_id
        (insert_row (task_values_from_event event (some row.state) row.retries))
        (update_row (task_values_from_event event (some row.state) row.retries)),
  )

  get_task_of_other :
      (db : Db T L) (event : TaskEvent F) (task_id : String)
      → (task_id == event.task_id) ≡ false
      → get_task T L (store_task_event T L db event) task_id ≡ get_task T L db task_id
  unfolding store_task_event get_task
  get_task_of_other db event task_id h = T.select-upsert db.tasks task_id event.task_id _ _ ∙ rw h

  -- A task event merges into the row of its task, and no other task's row changes.
  pub get_task-store_task_event :
      (db : Db T L) (event : TaskEvent F) (task_id : String)
      → get_task T L (store_task_event T L db event) task_id ≡ (
          if task_id == event.task_id
          then some (merge_event (get_task T L db task_id) event)
          else get_task T L db task_id)
  get_task-store_task_event db event task_id = elim (==_cases task_id event.task_id) [
    | inl (p, t) ↦ rw t (rw p (merged-values db event _ refl))
    | inr (n, t) ↦ rw t (get_task_of_other db event task_id t)
  ]

  -- After any events, the stored row of a task is a fold of its own events over the row before; the
  -- events of other tasks, wherever they come between, do not change it.
  pub get_task-store_all :
      (db : Db T L) (events : List (TaskEvent F)) (task_id : String)
      → get_task T L (store_all T L db events) task_id
        ≡ replay task_id (get_task T L db task_id) events
  unfolding store_all replay
  get_task-store_all db [] task_id = refl
  get_task-store_all db (event ∷ rest) task_id =
      get_task-store_all (store_task_event T L db event) rest task_id
      ∙ ap (λ row. replay task_id row rest) (get_task-store_task_event db event task_id)
