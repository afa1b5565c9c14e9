-- ===== src/Store/Tasks/Log.antt =====
-- The event table keeps every event, also those that the task row refuses.
use mathlib.Core.List.{append-nil, append_assoc}
use celery_cnc.Base.{◌≡◌, ◌∙◌, sym, ap, List, [], ◌∷◌, ◌++◌}
use celery_cnc.Schemas.{TaskEvent, Task}
use celery_cnc.Store.Table.{KeyedTable, LogTable}
use celery_cnc.Store.Tasks.{Db, store_task_event, store_all}

module _ {F : Type 0} (T : KeyedTable (Task F)) (L : LogTable (TaskEvent F)) where
  -- The event table grows by exactly the events that were stored, in the order of arrival.
  pub events-store_all :
      (db : Db T L) (events : List (TaskEvent F))
      → L.rows (store_all T L db events).task_events ≡ L.rows db.task_events ++ events
  unfolding store_all store_task_event
  events-store_all db [] = sym (append-nil _)
  events-store_all db (event ∷ rest) =
      events-store_all (store_task_event T L db event) rest
      ∙ ap (λ old. old ++ rest) (L.rows-append_row db.task_events event)
      ∙ append_assoc (L.rows db.task_events) (event ∷ []) rest
