-- ===== src/Rpc/Controller.antt =====
-- celery_root/core/db/adapters/base.py: what a database controller offers, over a state `S`;
-- `close`, which gives back the engine or the connection, is left out.
use celery_cnc.Base.{ℕ, String, Option, List}
use celery_cnc.Base.Dict.{Dict}
use celery_cnc.Schemas.{
  TimeRange, TaskEvent, WorkerEvent, BrokerQueueEvent, Task, Worker, Schedule, TaskRelation,
  TaskFilter, TaskStats, ThroughputBucket,
}
use celery_cnc.Rpc.Action.{Action}

pub record BaseDbController (F S : Type 0) : Type 0 where
  pub initialize : Action S (Unit {0})
  pub get_schema_version : Action S ℕ
  pub ensure_schema : Action S (Unit {0})
  pub migrate : ℕ → ℕ → Action S (Unit {0})
  pub store_task_event : TaskEvent F → Action S (Unit {0})
  pub get_tasks : Option TaskFilter → Action S (List (Task F))
  pub get_tasks_page :
      Option TaskFilter → Option String → Option String → ℕ → ℕ → Action S (List (Task F) × ℕ)
  pub list_task_names : Action S (List String)
  pub get_task : String → Action S (Option (Task F))
  pub store_task_relation : TaskRelation → Action S (Unit {0})
  pub get_task_relations : String → Action S (List TaskRelation)
  pub store_worker_event : WorkerEvent → Action S (Unit {0})
  pub store_broker_queue_event : BrokerQueueEvent → Action S (Unit {0})
  pub get_broker_queue_snapshot : String → Action S (List BrokerQueueEvent)
  pub get_workers : Action S (List Worker)
  pub get_worker : String → Action S (Option Worker)
  pub get_worker_event_snapshot : String → Action S (Option WorkerEvent)
  pub get_task_stats : Option String → Option TimeRange → Action S (TaskStats F)
  pub get_throughput : TimeRange → ℕ → Action S (List ThroughputBucket)
  pub get_state_distribution : Action S (Dict String ℕ)
  pub get_heatmap : Option TimeRange → Action S (List (List ℕ))
  pub get_schedules : Action S (List Schedule)
  pub store_schedule : Schedule → Action S (Unit {0})
  pub delete_schedule : String → Action S (Unit {0})
  pub cleanup : ℕ → Action S ℕ
