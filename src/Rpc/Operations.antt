-- ===== src/Rpc/Operations.antt =====
-- celery_root/core/db/dispatch.py: the operations by name, with the models of their requests and
-- responses.
use celery_cnc.Base.{String, [], ◌∷◌}
use celery_cnc.Base.Dict.{Dict}
use celery_cnc.Rpc.Messages.{
  BrokerQueueSnapshotRequest, CleanupRequest, DbInfoRequest, DeleteScheduleRequest, GetTaskRequest,
  GetWorkerRequest, HeatmapRequest, IngestBrokerQueueEventRequest, IngestTaskEventRequest,
  IngestWorkerEventRequest, ListSchedulesRequest, ListTaskNamesRequest, ListTaskRelationsRequest,
  ListTasksPageRequest, ListTasksRequest, ListWorkersRequest, PingRequest, RawQueryRequest,
  SchemaRequest, SchemaVersionRequest, StateDistributionRequest, StoreScheduleRequest,
  StoreTaskRelationRequest, TaskStatsRequest, ThroughputRequest, WorkerEventSnapshotRequest,
  BrokerQueueSnapshotResponse, CleanupResponse, DbInfoResponse, GetTaskResponse, GetWorkerResponse,
  HeatmapResponse, ListSchedulesResponse, ListTaskNamesResponse, ListTaskRelationsResponse,
  ListTasksPageResponse, ListTasksResponse, ListWorkersResponse, Ok, PingResponse, RawQueryResponse,
  SchemaResponse, SchemaVersionResponse, StateDistributionResponse, TaskStatsResponse,
  ThroughputResponse, WorkerEventSnapshotResponse,
}

pub data Op : Type 0 where
  ping_op : Op
  schema_version_op : Op
  schema_op : Op
  info_op : Op
  raw_query_op : Op
  ingest_task_event_op : Op
  ingest_worker_event_op : Op
  ingest_broker_queue_event_op : Op
  broker_queue_snapshot_op : Op
  worker_event_snapshot_op : Op
  store_relation_op : Op
  list_tasks_op : Op
  list_tasks_page_op : Op
  list_task_names_op : Op
  get_task_op : Op
  list_relations_op : Op
  list_workers_op : Op
  get_worker_op : Op
  task_stats_op : Op
  throughput_op : Op
  state_distribution_op : Op
  heatmap_op : Op
  list_schedules_op : Op
  store_schedule_op : Op
  delete_schedule_op : Op
  cleanup_op : Op

-- The first column of `RPC_OPERATIONS`.
abbrev pub rpc_operations : Dict String Op
rpc_operations =
    ("db.ping", ping_op)
    ∷ ("db.schema_version", schema_version_op)
    ∷ ("db.schema", schema_op)
    ∷ ("db.info", info_op)
    ∷ ("db.raw_query", raw_query_op)
    ∷ ("events.task.ingest", ingest_task_event_op)
    ∷ ("events.worker.ingest", ingest_worker_event_op)
    ∷ ("events.broker_queue.ingest", ingest_broker_queue_event_op)
    ∷ ("broker.queues.snapshot", broker_queue_snapshot_op)
    ∷ ("workers.events.snapshot", worker_event_snapshot_op)
    ∷ ("relations.store", store_relation_op)
    ∷ ("tasks.list", list_tasks_op)
    ∷ ("tasks.page", list_tasks_page_op)
    ∷ ("tasks.names", list_task_names_op)
    ∷ ("tasks.get", get_task_op)
    ∷ ("relations.list", list_relations_op)
    ∷ ("workers.list", list_workers_op)
    ∷ ("workers.get", get_worker_op)
    ∷ ("stats.task", task_stats_op)
    ∷ ("stats.throughput", throughput_op)
    ∷ ("stats.state_distribution", state_distribution_op)
    ∷ ("stats.heatmap", heatmap_op)
    ∷ ("schedules.list", list_schedules_op)
    ∷ ("schedules.store", store_schedule_op)
    ∷ ("schedules.delete", delete_schedule_op)
    ∷ ("db.cleanup", cleanup_op)
    ∷ []

-- The name that stands in an operation's entry and in the client's call.
abbrev pub op_name : Op → String
op_name ping_op = "db.ping"
op_name schema_version_op = "db.schema_version"
op_name schema_op = "db.schema"
op_name info_op = "db.info"
op_name raw_query_op = "db.raw_query"
op_name ingest_task_event_op = "events.task.ingest"
op_name ingest_worker_event_op = "events.worker.ingest"
op_name ingest_broker_queue_event_op = "events.broker_queue.ingest"
op_name broker_queue_snapshot_op = "broker.queues.snapshot"
op_name worker_event_snapshot_op = "workers.events.snapshot"
op_name store_relation_op = "relations.store"
op_name list_tasks_op = "tasks.list"
op_name list_tasks_page_op = "tasks.page"
op_name list_task_names_op = "tasks.names"
op_name get_task_op = "tasks.get"
op_name list_relations_op = "relations.list"
op_name list_workers_op = "workers.list"
op_name get_worker_op = "workers.get"
op_name task_stats_op = "stats.task"
op_name throughput_op = "stats.throughput"
op_name state_distribution_op = "stats.state_distribution"
op_name heatmap_op = "stats.heatmap"
op_name list_schedules_op = "schedules.list"
op_name store_schedule_op = "schedules.store"
op_name delete_schedule_op = "schedules.delete"
op_name cleanup_op = "db.cleanup"

module _ (F : Type 0) where
  -- `request_model`
  abbrev pub RequestOf : Op → Type 0
  RequestOf ping_op = PingRequest
  RequestOf schema_version_op = SchemaVersionRequest
  RequestOf schema_op = SchemaRequest
  RequestOf info_op = DbInfoRequest
  RequestOf raw_query_op = RawQueryRequest
  RequestOf ingest_task_event_op = IngestTaskEventRequest F
  RequestOf ingest_worker_event_op = IngestWorkerEventRequest
  RequestOf ingest_broker_queue_event_op = IngestBrokerQueueEventRequest
  RequestOf broker_queue_snapshot_op = BrokerQueueSnapshotRequest
  RequestOf worker_event_snapshot_op = WorkerEventSnapshotRequest
  RequestOf store_relation_op = StoreTaskRelationRequest
  RequestOf list_tasks_op = ListTasksRequest
  RequestOf list_tasks_page_op = ListTasksPageRequest
  RequestOf list_task_names_op = ListTaskNamesRequest
  RequestOf get_task_op = GetTaskRequest
  RequestOf list_relations_op = ListTaskRelationsRequest
  RequestOf list_workers_op = ListWorkersRequest
  RequestOf get_worker_op = GetWorkerRequest
  RequestOf task_stats_op = TaskStatsRequest
  RequestOf throughput_op = ThroughputRequest
  RequestOf state_distribution_op = StateDistributionRequest
  RequestOf heatmap_op = HeatmapRequest
  RequestOf list_schedules_op = ListSchedulesRequest
  RequestOf store_schedule_op = StoreScheduleRequest
  RequestOf delete_schedule_op = DeleteScheduleRequest
  RequestOf cleanup_op = CleanupRequest

  -- `response_model`
  abbrev pub ResponseOf : Op → Type 0
  ResponseOf ping_op = PingResponse
  ResponseOf schema_version_op = SchemaVersionResponse
  ResponseOf schema_op = SchemaResponse
  ResponseOf info_op = DbInfoResponse
  ResponseOf raw_query_op = RawQueryResponse
  ResponseOf ingest_task_event_op = Ok
  ResponseOf ingest_worker_event_op = Ok
  ResponseOf ingest_broker_queue_event_op = Ok
  ResponseOf broker_queue_snapshot_op = BrokerQueueSnapshotResponse
  ResponseOf worker_event_snapshot_op = WorkerEventSnapshotResponse
  ResponseOf store_relation_op = Ok
  ResponseOf list_tasks_op = ListTasksResponse F
  ResponseOf list_tasks_page_op = ListTasksPageResponse F
  ResponseOf list_task_names_op = ListTaskNamesResponse
  ResponseOf get_task_op = GetTaskResponse F
  ResponseOf list_relations_op = ListTaskRelationsResponse
  ResponseOf list_workers_op = ListWorkersResponse
  ResponseOf get_worker_op = GetWorkerResponse
  ResponseOf task_stats_op = TaskStatsResponse F
  ResponseOf throughput_op = ThroughputResponse
  ResponseOf state_distribution_op = StateDistributionResponse
  ResponseOf heatmap_op = HeatmapResponse
  ResponseOf list_schedules_op = ListSchedulesResponse
  ResponseOf store_schedule_op = Ok
  ResponseOf delete_schedule_op = Ok
  ResponseOf cleanup_op = CleanupResponse
