-- ===== src/Rpc/Examples.antt =====
-- The database manager and a client on a small wire, whose messages are the models themselves.
use mathlib.Core.Path.{subst_refl}
use celery_cnc.Base.{
  ℕ, suc, ◌≡◌, ◌≢◌, refl, subst, ap, ◌∙◌, String, true, false, Option, none, some, List, [], ◌∷◌,
  arith, string_eq, nat_eq, contains,
}
use celery_cnc.Base.Dict.{lookup}
use celery_cnc.Base.Text.{codes}
use celery_cnc.Value.{Value, text, null, end}
use celery_cnc.Schemas.{TaskEvent, TaskRelation}
use celery_cnc.Rpc.Action.{ok, raised, runtime_error, type_error, value_error, pure, raise, ◌>>◌}
use celery_cnc.Rpc.Controller.{BaseDbController}
use celery_cnc.Rpc.Messages.{RpcRequestEnvelope, RpcResponseEnvelope}
use celery_cnc.Rpc.Operations.{
  Op, RequestOf, ResponseOf, rpc_operations, ingest_task_event_op, store_relation_op,
}
use celery_cnc.Rpc.Dispatch.{
  SqliteEngine, handler, take, limited_rows, ingest_task_event, store_relations,
}
use celery_cnc.Rpc.Dispatch.Rows.{limited_rows_bounds}
use celery_cnc.Rpc.Wire.{Wire}
use celery_cnc.Rpc.Query.{check_request, validate_query, is_readonly}
use celery_cnc.Rpc.Query.Accepted.{validate_query-is_readonly}
use celery_cnc.Rpc.Server.{Settings, respond, answer, dispatch, busy}
use celery_cnc.Rpc.Server.Replies.{reply_id, Replies, IsInvalid, dispatch-IsReply}
use celery_cnc.Rpc.Server.Refusals.{IsRefusal, dispatch-Refused, unknown_op}
use celery_cnc.Rpc.Client.{Transport, received, failed, call}
use celery_cnc.Rpc.Client.Exchange.{Fits, linked, seen, call-handler}
use celery_cnc.Rpc.Client.Methods.{db_rpc_client, remotely, db_rpc_client-store_task_event}
use celery_cnc.Rpc.Client.Attempts.{call-busy}

Op-discrete : Discrete Op
Op-discrete = hlevel

Op-set : IsSet Op
Op-set = hlevel

pub data Payload : Type 0 where
  nothing : Payload
  request_payload : (op : Op) → RequestOf ℕ op → Payload
  response_payload : (op : Op) → ResponseOf ℕ op → Payload

pub data Bytes : Type 0 where
  request_bytes : RpcRequestEnvelope Payload → Bytes
  response_bytes : RpcResponseEnvelope Payload → Bytes

module _ (P : Op → Type 0) where
  abbrev cast_by : {o op : Op} → Dec (o ≡ op) → P o → Option (P op)
  cast_by (yes p) x = some (subst P p x)
  cast_by (no n) x = none

  cast : (o op : Op) → P o → Option (P op)
  unfolding Op-discrete
  cast o op x = cast_by (Op-discrete o op) x

  cast_self : (op : Op) (x : P op) → cast op op x ≡ some x
  unfolding cast
  cast_self op x = elim (Op-discrete op op) as (λ d. cast_by d x ≡ some x) [
    | yes p ↦ ap some (ap (λ q. subst P q x) (Op-set op op p refl) ∙ subst_refl P x)
    | no n ↦ absurd (n refl)
  ]

abbrev request_of : (op : Op) → Payload → Option (RequestOf ℕ op)
unfolding cast
request_of op nothing = none
request_of op (request_payload o r) = cast (RequestOf ℕ) o op r
request_of op (response_payload o r) = none

abbrev response_of : (op : Op) → Payload → Option (ResponseOf ℕ op)
unfolding cast
response_of op nothing = none
response_of op (request_payload o r) = none
response_of op (response_payload o r) = cast (ResponseOf ℕ) o op r

abbrev checked_request : (op : Op) → Option (RequestOf ℕ op) → Option (RequestOf ℕ op)
unfolding check_request
checked_request op none = none
checked_request op (some r) = check_request ℕ op r

validate : (op : Op) → Payload → Option (RequestOf ℕ op)
unfolding checked_request request_of
validate op p = checked_request op (request_of op p)

validate_lem :
    (op : Op) (r : RequestOf ℕ op)
    → check_request ℕ op r ≡ some r
    → validate op (request_payload op r) ≡ some r
unfolding validate checked_request request_of
validate_lem op r h = ap (checked_request op) (cast_self (RequestOf ℕ) op r) ∙ h

response_of_lem : (op : Op) (r : ResponseOf ℕ op) → response_of op (response_payload op r) ≡ some r
unfolding response_of
response_of_lem op r = cast_self (ResponseOf ℕ) op r

abbrev read_request_bytes : Bytes → Option (RpcRequestEnvelope Payload)
read_request_bytes (request_bytes e) = some e
read_request_bytes (response_bytes e) = none

abbrev read_response_bytes : Bytes → Option (RpcResponseEnvelope Payload)
read_response_bytes (request_bytes e) = none
read_response_bytes (response_bytes e) = some e

abbrev or_nothing : Option Payload → Payload
or_nothing none = nothing
or_nothing (some p) = p

abbrev wire : Wire ℕ
wire = record {
  Bytes = Bytes;
  size = λ bytes. 10;
  Payload = Payload;
  as_dict = or_nothing;
  dump_request = request_payload;
  validate_request = validate;
  dump_response = λ op r. some (response_payload op r);
  validate_response = response_of;
  default_response = λ op. none;
  write_request = request_bytes;
  read_request = read_request_bytes;
  write_response = response_bytes;
  read_response = read_response_bytes;
  can_write = λ details. true;
  reread_details = λ details. details;
  reread = λ p. p;
  no_details = refl;
  read-write_request = λ e p sent. ap (λ o. some (record e { payload = o })) sent;
  read-write_error =
      λ r e empty failed can i. some (record r { payload = empty i; error = failed i });
  read-write_payload = λ r p sent fine i. some (record r { payload = sent i; error = fine i });
}

-- A database of edges.
abbrev edges_db : BaseDbController ℕ (List TaskRelation)
edges_db = record {
  initialize = pure tt;
  get_schema_version = pure 2;
  ensure_schema = pure tt;
  migrate = λ m n. raise runtime_error;
  store_task_event = λ e. pure tt;
  get_tasks = λ f. pure [];
  get_tasks_page = λ f k d l o. pure ([], 0);
  list_task_names = pure [];
  get_task = λ id. raise type_error;
  store_task_relation = λ r db. (ok tt, r ∷ db);
  get_task_relations = λ id db. (ok db, db);
  store_worker_event = λ e. pure tt;
  store_broker_queue_event = λ e. pure tt;
  get_broker_queue_snapshot = λ u. pure [];
  get_workers = pure [];
  get_worker = λ h. pure none;
  get_worker_event_snapshot = λ h. pure none;
  get_task_stats = λ n r. raise value_error;
  get_throughput = λ r n. pure [];
  get_state_distribution = pure [];
  get_heatmap = λ r. pure [];
  get_schedules = pure [];
  store_schedule = λ s. pure tt;
  delete_schedule = λ id. pure tt;
  cleanup = λ n. pure 0;
}

abbrev no_engine : Option (SqliteEngine (List TaskRelation))
no_engine = none

abbrev settings : Settings wire edges_db no_engine
settings = record { rpc_max_message_bytes = 100; rpc_max_inflight = 1; now = 5; errors = end }

abbrev strict : Settings wire edges_db no_engine
strict = record { rpc_max_message_bytes = 9; rpc_max_inflight = 1; now = 5; errors = end }

-- The client's part of a transport; the exchange is the link's.
abbrev transport : Transport ℕ (List TaskRelation) wire
transport = record {
  max_message_bytes = 100;
  client_name = some "web";
  new_request_id = λ db. "r1";
  now = λ db. 4;
  exchange = λ bytes db. (failed, db);
}

abbrev edge : TaskRelation
edge = record { root_id = "a"; parent_id = some "a"; child_id = "b"; relation = "chain" }

abbrev store_edge : RequestOf ℕ store_relation_op
store_edge = record { relation = edge; idempotency_key = none }

edge-Fits : Fits wire edges_db no_engine settings transport store_relation_op store_edge []
unfolding respond answer handler validate checked_request request_of response_of check_request
edge-Fits = record {
  request_kept = validate_lem store_relation_op store_edge refl;
  result_kept = (_, refl, response_of_lem store_relation_op _);
  sent = omega arith;
  accepted = omega arith;
  answered = omega arith;
}

call-handler_example :
    call wire
      (linked wire edges_db no_engine settings "s1" transport)
      store_relation_op
      store_edge
      []
    ≡ (
      seen (handler edges_db no_engine store_relation_op store_edge []).0,
      (handler edges_db no_engine store_relation_op store_edge []).1,
    )
call-handler_example =
    call-handler wire edges_db no_engine settings "s1" transport store_relation_op store_edge []
      edge-Fits

stored : (handler edges_db no_engine store_relation_op store_edge []).1 ≡ edge ∷ []
unfolding handler
stored = refl

abbrev rows : List (List Value)
rows = (text "a" ∷ []) ∷ (text "b" ∷ []) ∷ (null ∷ []) ∷ []

limited_rows_bounds_example :
    ((limited_rows 2 ("x" ∷ []) rows).rows ≡ take 2 rows)
    × ((limited_rows 2 ("x" ∷ []) rows).row_count ≡ 2)
    × ((limited_rows 2 ("x" ∷ []) rows).truncated ≡ true)
limited_rows_bounds_example = limited_rows_bounds 2 ("x" ∷ []) rows

abbrev child_event : TaskEvent ℕ
child_event = record {
  task_id = "b";
  name = none;
  state = "PENDING";
  timestamp = 1;
  worker = none;
  args = none;
  kwargs = none;
  result = none;
  traceback = none;
  stamps = none;
  runtime = none;
  retries = none;
  eta = none;
  expires = none;
  parent_id = some "p";
  root_id = some "a";
  group_id = some "";
  chord_id = some "c";
}

event-Fits :
    Fits wire edges_db no_engine settings transport ingest_task_event_op
      (record { event = child_event; idempotency_key = none })
      []
unfolding respond answer handler ingest_task_event store_relations string_eq validate
    checked_request request_of response_of check_request
event-Fits = record {
  request_kept = validate_lem ingest_task_event_op _ refl;
  result_kept = (_, refl, response_of_lem ingest_task_event_op _);
  sent = omega arith;
  accepted = omega arith;
  answered = omega arith;
}

db_rpc_client-store_task_event_example :
    (db_rpc_client wire (linked wire edges_db no_engine settings "s1" transport)).store_task_event
      child_event []
    ≡ remotely edges_db
        (do edges_db.store_task_event child_event; store_relations edges_db no_engine child_event)
        []
db_rpc_client-store_task_event_example =
    db_rpc_client-store_task_event wire edges_db no_engine settings "s1" transport child_event []
      event-Fits

abbrev ping_envelope : RpcRequestEnvelope Payload
ping_envelope = record {
  request_id = "r7";
  op = "db.pong";
  payload = none;
  schema_version = 1;
  timestamp = none;
  client = none;
  trace = none;
}

abbrev pong : Bytes
pong = request_bytes ping_envelope

dispatch-IsReply_example :
    Replies wire edges_db no_engine settings
      (IsInvalid wire edges_db no_engine settings pong [])
      (reply_id wire edges_db no_engine settings "s1" pong)
      (dispatch wire edges_db no_engine settings "s1" pong []).0
dispatch-IsReply_example = dispatch-IsReply wire edges_db no_engine settings "s1" pong []

pong_unknown : lookup "db.pong" rpc_operations ≡ none
unfolding lookup string_eq
pong_unknown = refl

dispatch-Refused_example :
    IsRefusal wire edges_db no_engine settings true
      (reply_id wire edges_db no_engine settings "s1" pong)
      "OP_NOT_FOUND"
      []
      (dispatch wire edges_db no_engine settings "s1" pong [])
dispatch-Refused_example =
    dispatch-Refused wire edges_db no_engine settings "s1" pong []
      (unknown_op ping_envelope (omega arith) refl refl pong_unknown)

-- A link to a server whose semaphore is used up.
abbrev busy_transport : Transport ℕ ℕ wire
busy_transport = record {
  max_message_bytes = 100;
  client_name = none;
  new_request_id = λ n. "r1";
  now = λ n. 4;
  exchange = λ bytes n. (received (busy wire edges_db no_engine settings "s1"), suc n);
}

first_code : List ℕ → ℕ
first_code [] = 0
first_code (c ∷ cs) = c

other_ids : ◌≢◌ {A = String} "s1" "r1"
unfolding first_code
other_ids h = absurd (omega (arith, ap (λ t. first_code (codes t)) h))

call-busy_example :
    call wire busy_transport store_relation_op store_edge 0 ≡ (raised runtime_error, 1)
call-busy_example =
    call-busy wire edges_db no_engine settings busy_transport "s1" store_relation_op store_edge 0 1
      (omega arith) (omega arith) other_ids refl

select_accepted : validate_query (codes " select 1; ; ") ≡ some (codes "select 1")
unfolding validate_query nat_eq
select_accepted = refl

validate_query-is_readonly_example :
    (contains (codes "select 1") b';' ≡ false) × (is_readonly (codes "select 1") ≡ true)
validate_query-is_readonly_example =
    validate_query-is_readonly (codes " select 1; ; ") select_accepted

pragma_refused : validate_query (codes "PRAGMA table_info(tasks)") ≡ none
unfolding validate_query nat_eq
pragma_refused = refl

explain_accepted : validate_query (codes "ExPlain select 1;") ≡ some (codes "ExPlain select 1")
unfolding validate_query nat_eq
explain_accepted = refl

two_refused : validate_query (codes "select 1; drop table tasks") ≡ none
unfolding validate_query nat_eq
two_refused = refl
