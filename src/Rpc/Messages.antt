-- ===== src/Rpc/Messages.antt =====
-- celery_root/shared/schemas/rpc.py: the messages between a client and the database manager. The
-- codes, limits and counts of a message are natural numbers.
use celery_cnc.Base.{ℕ, String, Bool, Option, List}
use celery_cnc.Base.Dict.{Dict}
use celery_cnc.Value.{Value, Fields}
use celery_cnc.Schemas.{
  Datetime, TimeRange, TaskEvent, WorkerEvent, BrokerQueueEvent, Task, Worker, Schedule,
  TaskRelation, TaskFilter, TaskStats, ThroughputBucket,
}

abbrev pub rpc_schema_version : ℕ
rpc_schema_version = 1

pub record RpcError : Type 0 where
  pub code : String
  pub message : String
  pub details : Option Fields

-- `P`: a JSON object or list.
pub record RpcRequestEnvelope (P : Type 0) : Type 0 where
  pub request_id : String
  pub op : String
  pub payload : Option P
  pub schema_version : ℕ
  pub timestamp : Option Datetime
  pub client : Option String
  pub trace : Option (Dict String String)

pub record RpcResponseEnvelope (P : Type 0) : Type 0 where
  pub request_id : String
  pub ok : Bool
  pub payload : Option P
  pub error : Option RpcError
  pub schema_version : ℕ
  pub timestamp : Option Datetime

pub record Ok : Type 0 where
  pub ok : Bool

pub data PingRequest : Type 0 where
  ping_request : PingRequest

pub record PingResponse : Type 0 where
  pub status : String

pub record IngestTaskEventRequest (F : Type 0) : Type 0 where
  pub event : TaskEvent F
  pub idempotency_key : Option String

pub record IngestWorkerEventRequest : Type 0 where
  pub event : WorkerEvent
  pub idempotency_key : Option String

pub record IngestBrokerQueueEventRequest : Type 0 where
  pub event : BrokerQueueEvent
  pub idempotency_key : Option String

pub record BrokerQueueSnapshotRequest : Type 0 where
  pub broker_url : String

pub record BrokerQueueSnapshotResponse : Type 0 where
  pub events : List BrokerQueueEvent

pub record WorkerEventSnapshotRequest : Type 0 where
  pub hostname : String

pub record WorkerEventSnapshotResponse : Type 0 where
  pub event : Option WorkerEvent

pub record StoreTaskRelationRequest : Type 0 where
  pub relation : TaskRelation
  pub idempotency_key : Option String

pub record ListTasksRequest : Type 0 where
  pub filters : Option TaskFilter

pub record ListTasksResponse (F : Type 0) : Type 0 where
  pub tasks : List (Task F)

pub record ListTasksPageRequest : Type 0 where
  pub filters : Option TaskFilter
  pub sort_key : Option String
  pub sort_dir : Option String
  pub limit : ℕ
  pub offset : ℕ

pub record ListTasksPageResponse (F : Type 0) : Type 0 where
  pub tasks : List (Task F)
  pub total : ℕ

pub data ListTaskNamesRequest : Type 0 where
  list_task_names_request : ListTaskNamesRequest

pub record ListTaskNamesResponse : Type 0 where
  pub names : List String

pub record GetTaskRequest : Type 0 where
  pub task_id : String

pub record GetTaskResponse (F : Type 0) : Type 0 where
  pub task : Option (Task F)

pub record ListTaskRelationsRequest : Type 0 where
  pub root_id : String

pub record ListTaskRelationsResponse : Type 0 where
  pub relations : List TaskRelation

pub data ListWorkersRequest : Type 0 where
  list_workers_request : ListWorkersRequest

pub record ListWorkersResponse : Type 0 where
  pub workers : List Worker

pub record GetWorkerRequest : Type 0 where
  pub hostname : String

pub record GetWorkerResponse : Type 0 where
  pub worker : Option Worker

pub record TaskStatsRequest : Type 0 where
  pub task_name : Option String
  pub time_range : Option TimeRange

pub record TaskStatsResponse (F : Type 0) : Type 0 where
  pub stats : TaskStats F

pub record ThroughputRequest : Type 0 where
  pub time_range : TimeRange
  pub bucket_seconds : ℕ

pub record ThroughputResponse : Type 0 where
  pub buckets : List ThroughputBucket

pub data StateDistributionRequest : Type 0 where
  state_distribution_request : StateDistributionRequest

pub record StateDistributionResponse : Type 0 where
  pub counts : Dict String ℕ

pub record HeatmapRequest : Type 0 where
  pub time_range : Option TimeRange

pub record HeatmapResponse : Type 0 where
  pub heatmap : List (List ℕ)

pub data ListSchedulesRequest : Type 0 where
  list_schedules_request : ListSchedulesRequest

pub record ListSchedulesResponse : Type 0 where
  pub schedules : List Schedule

pub record StoreScheduleRequest : Type 0 where
  pub schedule : Schedule

pub record DeleteScheduleRequest : Type 0 where
  pub schedule_id : String

pub record CleanupRequest : Type 0 where
  pub older_than_days : ℕ

pub record CleanupResponse : Type 0 where
  pub removed : ℕ

pub data SchemaVersionRequest : Type 0 where
  schema_version_request : SchemaVersionRequest

pub record SchemaVersionResponse : Type 0 where
  pub version : ℕ

pub data SchemaRequest : Type 0 where
  schema_request : SchemaRequest

pub record SchemaColumn : Type 0 where
  pub name : String
  pub type : String
  pub nullable : Bool
  pub default : Option Value
  pub primary_key : Bool

pub record SchemaIndex : Type 0 where
  pub name : Option String
  pub column_names : List String
  pub unique : Option Bool

pub record SchemaTable : Type 0 where
  pub columns : List SchemaColumn
  pub indexes : List SchemaIndex

pub record SchemaResponse : Type 0 where
  pub dialect : String
  pub tables : Dict String SchemaTable

pub data DbInfoRequest : Type 0 where
  db_info_request : DbInfoRequest

pub record DbInfoResponse : Type 0 where
  pub backend : String
  pub dialect : String
  pub version : Option String
  pub language : String
  pub schema_version : ℕ
  pub driver : Option String
  pub storage : Option String
  pub path : Option String

-- `query`: by its code points.
pub record RawQueryRequest : Type 0 where
  pub query : List ℕ
  pub params : Option Fields
  pub max_rows : ℕ

pub record RawQueryResponse : Type 0 where
  pub columns : List String
  pub rows : List (List Value)
  pub row_count : ℕ
  pub truncated : Bool
