-- ===== src/Rpc/Dispatch.antt =====
-- celery_root/core/db/dispatch.py: the handler of each operation. The inspection of the database and
-- the run of a query are those of the SQL library, for controllers that have an SQLite engine.
pub mod Relations
pub mod Rows
use celery_cnc.Base.{
  ℕ, suc, ◌+◌, String, Bool, true, false, Option, none, some, List, [], ◌∷◌, ◌++◌, length, map,
}
use celery_cnc.Base.{◌==◌, string_eq, if◌then◌else◌, ltb}
use celery_cnc.Base.Dict.{Dict}
use celery_cnc.Value.{Value, Fields, end}
use celery_cnc.Schemas.{TaskEvent, TaskRelation}
use celery_cnc.Rpc.Action.{
  Action, Result, ok, raised, Exception, type_error, pure, raise, continue, ◌>>=◌, ◌>>◌,
}
use celery_cnc.Rpc.Controller.{BaseDbController}
use celery_cnc.Rpc.Messages.{
  SchemaColumn, SchemaIndex, SchemaTable, BrokerQueueSnapshotRequest, CleanupRequest, DbInfoRequest,
  DeleteScheduleRequest, GetTaskRequest, GetWorkerRequest, HeatmapRequest,
  IngestBrokerQueueEventRequest, IngestTaskEventRequest, IngestWorkerEventRequest,
  ListSchedulesRequest, ListTaskNamesRequest, ListTaskRelationsRequest, ListTasksPageRequest,
  ListTasksRequest, ListWorkersRequest, PingRequest, RawQueryRequest, SchemaRequest,
  SchemaVersionRequest, StateDistributionRequest, StoreScheduleRequest, StoreTaskRelationRequest,
  TaskStatsRequest, ThroughputRequest, WorkerEventSnapshotRequest, BrokerQueueSnapshotResponse,
  CleanupResponse, DbInfoResponse, GetTaskResponse, GetWorkerResponse, HeatmapResponse,
  ListSchedulesResponse, ListTaskNamesResponse, ListTaskRelationsResponse, ListTasksPageResponse,
  ListTasksResponse, ListWorkersResponse, Ok, PingResponse, RawQueryResponse, SchemaResponse,
  SchemaVersionResponse, StateDistributionResponse, TaskStatsResponse, ThroughputResponse,
  WorkerEventSnapshotResponse,
}
use celery_cnc.Rpc.Operations.{
  Op, RequestOf, ResponseOf, ping_op, schema_version_op, schema_op, info_op, raw_query_op,
  ingest_task_event_op, ingest_worker_event_op, ingest_broker_queue_event_op,
  broker_queue_snapshot_op, worker_event_snapshot_op, store_relation_op, list_tasks_op,
  list_tasks_page_op, list_task_names_op, get_task_op, list_relations_op, list_workers_op,
  get_worker_op, task_stats_op, throughput_op, state_distribution_op, heatmap_op, list_schedules_op,
  store_schedule_op, delete_schedule_op, cleanup_op,
}

-- What the inspector says of a column and an index; `none` where its dict has no such key.
pub record InspectedColumn : Type 0 where
  pub name : String
  pub type_text : String
  pub nullable : Option Bool
  pub default : Option Value
  pub primary_key : Option Bool

pub record InspectedIndex : Type 0 where
  pub name : Option String
  pub column_names : Option (List String)
  pub unique : Option Bool

-- `none`, for the three last: the statement raises.
pub record SqliteEngine (S : Type 0) : Type 0 where
  pub dialect : String
  pub driver : String
  pub path : Option String
  pub get_table_names : S → List String
  pub get_columns : S → String → List InspectedColumn
  pub get_indexes : S → String → List InspectedIndex
  pub sqlite_version : S → Option String
  -- The columns, and the rows that `fetchmany` can take.
  pub execute : List ℕ → Fields → Action S (List String × List (List Value))
  pub str : Value → Value

abbrev pub or_bool : Option Bool → Bool → Bool
or_bool none b = b
or_bool (some a) b = a

abbrev pub or_list : {A : Type 0} → Option (List A) → List A
or_list none = []
or_list (some xs) = xs

abbrev pub take : {A : Type 0} → ℕ → List A → List A
take ℕ.zero xs = []
take (suc n) [] = []
take (suc n) (x ∷ xs) = x ∷ take n xs

-- `value or other` on optional texts, and its truth.
abbrev pub text_or : Option String → String → String
text_or none other = other
text_or (some t) other = if t == "" then other else t

-- One row more than is wanted is fetched, to see whether there are more.
unfoldable pub limited_rows : ℕ → List String → List (List Value) → RawQueryResponse
limited_rows max_rows columns found =
    let rows = take (suc max_rows) found in
    let truncated = ltb max_rows (length rows) in
    let kept = if truncated then take max_rows rows else rows in
    record { columns = columns; rows = kept; row_count = length kept; truncated = truncated }

abbrev pub or_no_params : Option Fields → Fields
or_no_params none = end
or_no_params (some params) = params

abbrev pub done : Ok
done = record { ok = true }

module _ {F S : Type 0} (controller : BaseDbController F S) (sqlite : Option (SqliteEngine S)) where
  open controller use {
    get_schema_version, store_task_event, get_tasks, get_tasks_page, store_task_relation,
    get_task_relations, store_worker_event, store_broker_queue_event, get_broker_queue_snapshot,
    get_workers, get_worker_event_snapshot, get_task_stats, get_throughput, get_state_distribution,
    get_heatmap, get_schedules,
  }

  -- One `if` of `_store_relations`.
  unfoldable pub store_link : String → String → Option String → String → Action S (Unit {0})
  store_link root_id child_id none relation = pure tt
  store_link root_id child_id (some id) relation =
      if id == ""
      then pure tt
      else store_task_relation (record {
        root_id = root_id;
        parent_id = some id;
        child_id = child_id;
        relation = relation;
      })

  unfoldable pub store_relations : TaskEvent F → Action S (Unit {0})
  unfolding store_link
  store_relations event = do
    let root_id = text_or event.root_id event.task_id
    store_link root_id event.task_id event.parent_id "parent"
    store_link root_id event.task_id event.group_id "group"
    store_link root_id event.task_id event.chord_id "chord"

  abbrev pub ping : PingRequest → Action S PingResponse
  ping request = pure (record { status = "ok" })

  abbrev pub schema_version : SchemaVersionRequest → Action S SchemaVersionResponse
  schema_version request = do version ← get_schema_version; pure (record { version = version })

  abbrev pub schema_column : SqliteEngine S → InspectedColumn → SchemaColumn
  schema_column engine column = record {
    name = column.name;
    type = column.type_text;
    nullable = or_bool column.nullable true;
    default = elim column.default [ none ↦ none | some value ↦ some (engine.str value) ];
    primary_key = or_bool column.primary_key false;
  }

  abbrev pub schema_index : InspectedIndex → SchemaIndex
  schema_index index = record {
    name = index.name;
    column_names = or_list index.column_names;
    unique = index.unique;
  }

  abbrev pub schema_tables : SqliteEngine S → S → List String → Dict String SchemaTable
  schema_tables engine s [] = []
  schema_tables engine s (table ∷ rest) =
      (
        table,
        record {
          columns = map (schema_column engine) (engine.get_columns s table);
          indexes = map schema_index (engine.get_indexes s table);
        },
      )
      ∷ schema_tables engine s rest

  abbrev pub schema : SchemaRequest → Action S SchemaResponse
  schema request s = elim sqlite [
    | none ↦ raise type_error s
    | some engine ↦
        pure
          (record {
            dialect = engine.dialect;
            tables = schema_tables engine s (engine.get_table_names s);
          })
          s
  ]

  abbrev pub info : DbInfoRequest → Action S DbInfoResponse
  info request s = elim sqlite [
    | none ↦ raise type_error s
    | some engine ↦
        (do
          version ← get_schema_version
          pure (record {
            backend = "sqlite";
            dialect = engine.dialect;
            version = engine.sqlite_version s;
            language = "SQL";
            schema_version = version;
            driver = some engine.driver;
            storage = some (elim engine.path [ none ↦ "memory" | some path ↦ "file" ]);
            path = engine.path;
          }))
          s
  ]

  unfoldable pub raw_query : RawQueryRequest → Action S RawQueryResponse
  unfolding limited_rows
  raw_query request = elim sqlite [
    | none ↦ raise type_error
    | some engine ↦ do
      (columns, found) ← engine.execute request.query (or_no_params request.params)
      pure (limited_rows request.max_rows columns found)
  ]

  unfoldable pub ingest_task_event : IngestTaskEventRequest F → Action S Ok
  unfolding store_relations
  ingest_task_event request = do
    store_task_event request.event
    store_relations request.event
    pure done

  abbrev pub ingest_worker_event : IngestWorkerEventRequest → Action S Ok
  ingest_worker_event request = do store_worker_event request.event; pure done

  abbrev pub ingest_broker_queue_event : IngestBrokerQueueEventRequest → Action S Ok
  ingest_broker_queue_event request = do store_broker_queue_event request.event; pure done

  abbrev pub broker_queue_snapshot :
      BrokerQueueSnapshotRequest → Action S BrokerQueueSnapshotResponse
  broker_queue_snapshot request = do
    events ← get_broker_queue_snapshot request.broker_url
    pure (record { events = events })

  abbrev pub worker_event_snapshot :
      WorkerEventSnapshotRequest → Action S WorkerEventSnapshotResponse
  worker_event_snapshot request = do
    event ← get_worker_event_snapshot request.hostname
    pure (record { event = event })

  abbrev pub store_relation : StoreTaskRelationRequest → Action S Ok
  store_relation request = do store_task_relation request.relation; pure done

  abbrev pub list_tasks : ListTasksRequest → Action S (ListTasksResponse F)
  list_tasks request = do tasks ← get_tasks request.filters; pure (record { tasks = tasks })

  abbrev pub list_tasks_page : ListTasksPageRequest → Action S (ListTasksPageResponse F)
  list_tasks_page request = do
    (tasks, total) ←
        get_tasks_page request.filters request.sort_key request.sort_dir request.limit
          request.offset
    pure (record { tasks = tasks; total = total })

  abbrev pub list_task_names : ListTaskNamesRequest → Action S ListTaskNamesResponse
  list_task_names request = do names ← controller.list_task_names; pure (record { names = names })

  abbrev pub get_task : GetTaskRequest → Action S (GetTaskResponse F)
  get_task request = do task ← controller.get_task request.task_id; pure (record { task = task })

  abbrev pub list_relations : ListTaskRelationsRequest → Action S ListTaskRelationsResponse
  list_relations request = do
    relations ← get_task_relations request.root_id
    pure (record { relations = relations })

  abbrev pub list_workers : ListWorkersRequest → Action S ListWorkersResponse
  list_workers request = do workers ← get_workers; pure (record { workers = workers })

  abbrev pub get_worker : GetWorkerRequest → Action S GetWorkerResponse
  get_worker request = do
    worker ← controller.get_worker request.hostname
    pure (record { worker = worker })

  abbrev pub task_stats : TaskStatsRequest → Action S (TaskStatsResponse F)
  task_stats request = do
    stats ← get_task_stats request.task_name request.time_range
    pure (record { stats = stats })

  abbrev pub throughput : ThroughputRequest → Action S ThroughputResponse
  throughput request = do
    buckets ← get_throughput request.time_range request.bucket_seconds
    pure (record { buckets = buckets })

  abbrev pub state_distribution : StateDistributionRequest → Action S StateDistributionResponse
  state_distribution request = do counts ← get_state_distribution; pure (record { counts = counts })

  abbrev pub heatmap : HeatmapRequest → Action S HeatmapResponse
  heatmap request = do heatmap ← get_heatmap request.time_range; pure (record { heatmap = heatmap })

  abbrev pub list_schedules : ListSchedulesRequest → Action S ListSchedulesResponse
  list_schedules request = do schedules ← get_schedules; pure (record { schedules = schedules })

  abbrev pub store_schedule : StoreScheduleRequest → Action S Ok
  store_schedule request = do controller.store_schedule request.schedule; pure done

  abbrev pub delete_schedule : DeleteScheduleRequest → Action S Ok
  delete_schedule request = do controller.delete_schedule request.schedule_id; pure done

  abbrev pub cleanup : CleanupRequest → Action S CleanupResponse
  cleanup request = do
    removed ← controller.cleanup request.older_than_days
    pure (record { removed = removed })

  -- The last column of `RPC_OPERATIONS`.
  unfoldable pub handler : (op : Op) → RequestOf F op → Action S (ResponseOf F op)
  unfolding raw_query ingest_task_event
  handler ping_op = ping
  handler schema_version_op = schema_version
  handler schema_op = schema
  handler info_op = info
  handler raw_query_op = raw_query
  handler ingest_task_event_op = ingest_task_event
  handler ingest_worker_event_op = ingest_worker_event
  handler ingest_broker_queue_event_op = ingest_broker_queue_event
  handler broker_queue_snapshot_op = broker_queue_snapshot
  handler worker_event_snapshot_op = worker_event_snapshot
  handler store_relation_op = store_relation
  handler list_tasks_op = list_tasks
  handler list_tasks_page_op = list_tasks_page
  handler list_task_names_op = list_task_names
  handler get_task_op = get_task
  handler list_relations_op = list_relations
  handler list_workers_op = list_workers
  handler get_worker_op = get_worker
  handler task_stats_op = task_stats
  handler throughput_op = throughput
  handler state_distribution_op = state_distribution
  handler heatmap_op = heatmap
  handler list_schedules_op = list_schedules
  handler store_schedule_op = store_schedule
  handler delete_schedule_op = delete_schedule
  handler cleanup_op = cleanup
