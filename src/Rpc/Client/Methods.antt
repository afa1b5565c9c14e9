-- ===== src/Rpc/Client/Methods.antt =====
-- celery_root/core/db/rpc_client.py: the client as a database controller.
use celery_cnc.Base.{ℕ, ◌≡◌, refl, ap, ◌∙◌, String, Option, none, some, List}
use celery_cnc.Value.{Fields}
use celery_cnc.Schemas.{TaskEvent}
use celery_cnc.Rpc.Action.{
  Action, Result, ok, raised, runtime_error, validation_error, pure, raise, continue, ◌>>=◌, ◌>>◌,
}
use celery_cnc.Rpc.Controller.{BaseDbController}
use celery_cnc.Rpc.Messages
use celery_cnc.Rpc.Operations.{
  Op, RequestOf, ResponseOf, ping_op, schema_version_op, schema_op, info_op, raw_query_op,
  ingest_task_event_op, ingest_worker_event_op, ingest_broker_queue_event_op,
  broker_queue_snapshot_op, worker_event_snapshot_op, store_relation_op, list_tasks_op,
  list_tasks_page_op, list_task_names_op, get_task_op, list_relations_op, list_workers_op,
  get_worker_op, task_stats_op, throughput_op, state_distribution_op, heatmap_op, list_schedules_op,
  store_schedule_op, delete_schedule_op, cleanup_op,
}
use celery_cnc.Rpc.Dispatch.{handler, SqliteEngine, store_relations, done, ingest_task_event}
use celery_cnc.Rpc.Wire.{Wire}
use celery_cnc.Rpc.Query.{check_request}
use celery_cnc.Rpc.Server.{Settings}
use celery_cnc.Rpc.Client.{Transport, call}
use celery_cnc.Rpc.Client.Exchange.{Fits, linked, seen, call-handler}

-- `max_rows`, or the model's default.
abbrev pub or_default : Option ℕ → ℕ
or_default none = 200
or_default (some max_rows) = max_rows

module _ {F N : Type 0} (W : Wire F) (t : Transport F N W) where
  abbrev pub ping : Action N Messages.PingResponse
  unfolding call
  ping = call W t ping_op Messages.ping_request

  abbrev pub get_schema : Action N Messages.SchemaResponse
  unfolding call
  get_schema = call W t schema_op Messages.schema_request

  abbrev pub get_db_info : Action N Messages.DbInfoResponse
  unfolding call
  get_db_info = call W t info_op Messages.db_info_request

  abbrev pub query_checked : Option Messages.RawQueryRequest → Action N Messages.RawQueryResponse
  unfolding call
  query_checked none = raise validation_error
  query_checked (some request) = call W t raw_query_op request

  -- A query that its model refuses is not sent.
  unfoldable pub raw_query : List ℕ → Option Fields → Option ℕ → Action N Messages.RawQueryResponse
  unfolding query_checked check_request
  raw_query query params max_rows = query_checked (
      check_request F raw_query_op
        (record { query = query; params = params; max_rows = or_default max_rows }))

  unfoldable pub db_rpc_client : BaseDbController F N
  unfolding call ping
  db_rpc_client = record {
    initialize = (do _ ← ping; pure tt);
    ensure_schema = (do _ ← call W t schema_version_op Messages.schema_version_request; pure tt);
    migrate = λ from_version to_version. raise runtime_error;
    get_schema_version = (do
      response ← call W t schema_version_op Messages.schema_version_request
      pure response.version);
    store_task_event = λ event. (do
      _ ← call W t ingest_task_event_op (record { event = event; idempotency_key = none })
      pure tt);
    get_tasks = λ filters. (do
      response ← call W t list_tasks_op (record { filters = filters })
      pure response.tasks);
    get_tasks_page = λ filters sort_key sort_dir limit offset. (do
      response ← call W t list_tasks_page_op (record {
        filters = filters;
        sort_key = sort_key;
        sort_dir = sort_dir;
        limit = limit;
        offset = offset;
      })
      pure (response.tasks, response.total));
    list_task_names = (do
      response ← call W t list_task_names_op Messages.list_task_names_request
      pure response.names);
    get_task = λ task_id. (do
      response ← call W t get_task_op (record { task_id = task_id })
      pure response.task);
    store_task_relation = λ relation. (do
      _ ← call W t store_relation_op (record { relation = relation; idempotency_key = none })
      pure tt);
    get_task_relations = λ root_id. (do
      response ← call W t list_relations_op (record { root_id = root_id })
      pure response.relations);
    store_worker_event = λ event. (do
      _ ← call W t ingest_worker_event_op (record { event = event; idempotency_key = none })
      pure tt);
    store_broker_queue_event = λ event. (do
      _ ← call W t ingest_broker_queue_event_op (record { event = event; idempotency_key = none })
      pure tt);
    get_broker_queue_snapshot = λ broker_url. (do
      response ← call W t broker_queue_snapshot_op (record { broker_url = broker_url })
      pure response.events);
    get_workers = (do
      response ← call W t list_workers_op Messages.list_workers_request
      pure response.workers);
    get_worker = λ hostname. (do
      response ← call W t get_worker_op (record { hostname = hostname })
      pure response.worker);
    get_worker_event_snapshot = λ hostname. (do
      response ← call W t worker_event_snapshot_op (record { hostname = hostname })
      pure response.event);
    get_task_stats = λ task_name time_range. (do
      response ← call W t task_stats_op (record { task_name = task_name; time_range = time_range })
      pure response.stats);
    get_throughput = λ time_range bucket_seconds. (do
      response ←
          call W t throughput_op
            (record { time_range = time_range; bucket_seconds = bucket_seconds })
      pure response.buckets);
    get_state_distribution = (do
      response ← call W t state_distribution_op Messages.state_distribution_request
      pure response.counts);
    get_heatmap = λ time_range. (do
      response ← call W t heatmap_op (record { time_range = time_range })
      pure response.heatmap);
    get_schedules = (do
      response ← call W t list_schedules_op Messages.list_schedules_request
      pure response.schedules);
    store_schedule =
        λ schedule. (do _ ← call W t store_schedule_op (record { schedule = schedule }); pure tt);
    delete_schedule = λ schedule_id. (do
      _ ← call W t delete_schedule_op (record { schedule_id = schedule_id })
      pure tt);
    cleanup = λ older_than_days. (do
      response ← call W t cleanup_op (record { older_than_days = older_than_days })
      pure response.removed);
  }

module _ {F S : Type 0} (controller : BaseDbController F S) where
  -- A method of the server's controller, its exceptions as the client raises them.
  abbrev pub remotely : {A : Type 0} → Action S A → Action S A
  remotely m db = let (result, stored) = m db in (seen result, stored)

then_pair :
    {S A B C : Type 0} (x : Result A × S) (n : Action S B) (k : Action S C)
    → continue x.0 (λ _. n >> k) x.1
      ≡ continue (continue x.0 (λ _. n) x.1).0 (λ _. k) (continue x.0 (λ _. n) x.1).1
then_pair (ok a, s) n k = refl
then_pair (raised e, s) n k = refl

andthen :
    {S A B C : Type 0} (m : Action S A) (n : Action S B) (k : Action S C) (s : S)
    → (m >> (n >> k)) s ≡ ((m >> n) >> k) s
andthen m n k s = then_pair (m s) n k

-- A response that wraps a result is unwrapped.
unwrapped :
    {S A B : Type 0} (wrap : A → B) (unwrap : B → A) (inv : (a : A) → unwrap (wrap a) ≡ a)
    (x : Result A × S)
    → continue
        (seen (continue x.0 (λ a. pure {S = S} (wrap a)) x.1).0)
        (λ b. pure {S = S} (unwrap b))
        (continue x.0 (λ a. pure {S = S} (wrap a)) x.1).1
      ≡ (seen x.0, x.1)
unwrapped wrap unwrap inv (ok a, s) = ap (λ a'. (ok a', s)) (inv a)
unwrapped wrap unwrap inv (raised e, s) = refl

module _ {F S : Type 0} (W : Wire F) (controller : BaseDbController F S)
    (sqlite : Option (SqliteEngine S)) (c : Settings W controller sqlite) (server_id : String)
    (t : Transport F S W) where
  reached :
      {A : Type 0} (op : Op) (r : RequestOf F op) (wrap : A → ResponseOf F op)
      → (unwrap : ResponseOf F op → A) → ((a : A) → unwrap (wrap a) ≡ a)
      → (m : Action S A) (db : S) → Fits W controller sqlite c t op r db
      → handler controller sqlite op r db ≡ (m >>= λ a. pure (wrap a)) db
      → (call W (linked W controller sqlite c server_id t) op r >>= λ b. pure (unwrap b)) db
        ≡ remotely controller m db
  reached {A} op r wrap unwrap inv m db fits e =
      ap {A = Result (ResponseOf F op) × S} (λ x. continue x.0 (λ b. pure {S = S} (unwrap b)) x.1)
        (call-handler W controller sqlite c server_id t op r db fits)
      ∙ ap {A = Result (ResponseOf F op) × S}
          (λ x. continue (seen x.0) (λ b. pure {S = S} (unwrap b)) x.1) e
      ∙ unwrapped wrap unwrap inv (m db)

  -- Storing a task event by the client, where this one call fits and what it carries has a JSON that
  -- keeps it, is the server's controller storing the event and then its relations: the same writes, the
  -- end of the first that raises, and its exception as an `RpcCallError` with its code.
  pub db_rpc_client-store_task_event :
      (event : TaskEvent F) (db : S)
      → Fits W controller sqlite c t ingest_task_event_op
          (record { event = event; idempotency_key = none })
          db
      → (db_rpc_client W (linked W controller sqlite c server_id t)).store_task_event event db
        ≡ remotely controller
            (do controller.store_task_event event; store_relations controller sqlite event)
            db
  unfolding db_rpc_client handler ingest_task_event
  db_rpc_client-store_task_event event db fits =
      reached ingest_task_event_op (record { event = event; idempotency_key = none }) (λ _. done)
        (λ _. tt) (λ a. refl)
        (do controller.store_task_event event; store_relations controller sqlite event) db fits
        (andthen (controller.store_task_event event) (store_relations controller sqlite event)
          (pure done) db)
