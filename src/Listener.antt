-- ===== src/Listener.antt =====
-- celery_root/core/event_listener.py: a raw event becomes a record, which goes to the database and
-- then to every metrics queue. An RPC error is logged, another one leaves the handler; a full queue
-- drops the record.
pub mod Parse
pub mod Queues
pub mod Routes
pub mod Reading
pub mod Examples
use Prim.Native.String
use package.text.Mathlib.Text.{starts_with}
use celery_cnc.Base.{
  ℕ, suc, ◌<◌, String, Bool, true, false, not, ◌&&◌, ◌||◌, Option, none, some, List, [], ◌∷◌, ◌++◌,
  length,
}
use celery_cnc.Base.{◌==◌, string_eq, if◌then◌else◌, ltb}
use celery_cnc.Base.Dict.{Dict, lookup}
use celery_cnc.Value.{
  Value, Integer, Fields, null, text, mapping, end, field, get, has_key, truthy, or_value,
}
use celery_cnc.Schemas.{Datetime, TaskEvent, WorkerEvent, TaskRelation}
use celery_cnc.Redaction.{redact_mapping, redact_access_data}
use Parse.{
  Objects, event_field, event_id, extract_stamps, event_timestamp, event_received_timestamp,
  parse_iso_datetime, stringify, to_float, to_int,
}

-- `_TASK_STATE_MAP`
abbrev pub task_state_map : Dict String String
task_state_map =
    ("task-received", "RECEIVED")
    ∷ ("task-started", "STARTED")
    ∷ ("task-succeeded", "SUCCESS")
    ∷ ("task-failed", "FAILURE")
    ∷ ("task-retried", "RETRY")
    ∷ ("task-revoked", "REVOKED")
    ∷ ("task-rejected", "REJECTED")
    ∷ ("task-sent", "PENDING")
    ∷ []

-- `text.replace(part, "")`: `skip` characters of the part are still to be passed over, and `last`
-- is the number of its characters less one.
unfoldable pub remove_text : String → ℕ → ℕ → String → String
remove_text part last skip String.[] = String.[]
remove_text part last ℕ.zero (String.◌∷◌ c rest) =
    let skipped = remove_text part last last rest in
    let kept = remove_text part last 0 rest in
    if starts_with (String.◌∷◌ c rest) part then skipped else String.◌∷◌ c kept
remove_text part last (suc skip) (String.◌∷◌ c rest) = remove_text part last skip rest

-- What the listener emits.
pub data Item (F : Type 0) : Type 0 where
  task_event : TaskEvent F → Item F
  worker_event : WorkerEvent → Item F
  task_relation : TaskRelation → Item F

-- A metrics queue: `put_nowait` raises `Full` when it holds `maxsize` records.
pub record MetricsQueue (F : Type 0) : Type 0 where
  pub maxsize : ℕ
  pub items : List (Item F)

-- `Db`: what stands behind the client; there is no client where no configuration is given.
pub record EventListener (F Db : Type 0) : Type 0 where
  pub broker_url_redacted : String
  pub db_client : Option Db
  pub metrics_queues : List (MetricsQueue F)

module _ {F : Type 0} where
  unfoldable pub put_nowait : Item F → MetricsQueue F → MetricsQueue F
  put_nowait item queue =
      if ltb (length queue.items) queue.maxsize
      then record queue { items = queue.items ++ (item ∷ []) }
      else queue

  unfoldable pub put_all : Item F → List (MetricsQueue F) → List (MetricsQueue F)
  unfolding put_nowait
  put_all item [] = []
  put_all item (queue ∷ rest) = put_nowait item queue ∷ put_all item rest

-- How a remote call ends: it returns, it raises RpcCallError or RuntimeError, or it raises anything
-- else, as the client's ValueError for a request that is too large.
pub data StoreCall : Type 0 where
  stored rpc_failed escaped : StoreCall

-- Whether `_send_to_db` returns: it catches the first two errors only.
abbrev pub is_caught : StoreCall → Bool
is_caught stored = true
is_caught rpc_failed = true
is_caught escaped = false

-- `store`: the remote call for a record, and what it leaves behind the client.
module _ {F Db : Type 0} (store : Item F → Db → StoreCall × Db) where
  abbrev pub called : Item F → Option Db → StoreCall × Option Db
  called item none = (stored, none)
  called item (some db) = let (call, after) = store item db in (call, some after)

  -- A handler comes back with whether it returned, `false` where an exception leaves it.
  unfoldable pub send_to_db : Item F → EventListener F Db → Bool × EventListener F Db
  send_to_db item l =
      let (call, db) = called item l.db_client in (is_caught call, record l { db_client = db })

  unfoldable pub emit : Bool → Item F → EventListener F Db → Bool × EventListener F Db
  unfolding send_to_db put_all
  emit fanout item l =
      let (returned, sent) = send_to_db item l in
      (
        returned,
        record sent {
          metrics_queues =
              if returned && fanout then put_all item sent.metrics_queues else sent.metrics_queues;
        },
      )

  -- A handler that returns early emits nothing.
  unfoldable pub emit_read : Bool → Option (Item F) → EventListener F Db → Bool × EventListener F Db
  unfolding emit
  emit_read fanout none l = (true, l)
  emit_read fanout (some item) l = emit fanout item l

-- `raw_info`: the event without its type and its timestamp.
unfoldable pub raw_info : Fields → Fields
raw_info end = end
raw_info (field key value rest) =
    let kept = raw_info rest in
    if key == "type" || key == "timestamp" then kept else field key value kept

module _ {F : Type 0} (O : Objects F) (count : Integer → ℕ) where
  open O use {str, upper, json_safe, redact_url}

  -- `str(value)`, which leaves a text as it is.
  abbrev pub str_of : Value → String
  str_of (text t) = t
  str_of v = str v

  abbrev pub count_of_retries : Option Integer → Option ℕ
  count_of_retries none = none
  count_of_retries (some n) = some (count n)

  unfoldable pub state_of : String → String
  unfolding lookup remove_text
  state_of event_type = elim (lookup event_type task_state_map) [
    | some state ↦ state
    | none ↦ upper (remove_text "task-" 4 0 event_type)
  ]

  -- The event's type, the empty text where it has none.
  unfoldable pub event_type_of : Fields → String
  unfolding get has_key
  event_type_of event = if has_key "type" event then str_of (get "type" event) else ""

  unfoldable pub read_task_event : Datetime → String → Fields → Option (Item F)
  unfolding get truthy event_field event_id extract_stamps event_timestamp parse_iso_datetime
      stringify to_float to_int state_of
  read_task_event now event_type event =
      let task_id = or_value (get "uuid" event) (get "id" event) in
      if not (truthy task_id)
      then none
      else some (
          task_event (record {
            task_id = str_of task_id;
            name = stringify O (event_field ("name" ∷ "task" ∷ "task_name" ∷ []) event);
            state = state_of event_type;
            timestamp = event_timestamp O now event;
            worker = stringify O (get "hostname" event);
            args = stringify O (event_field ("args" ∷ "argsrepr" ∷ []) event);
            kwargs = stringify O (event_field ("kwargs" ∷ "kwargsrepr" ∷ []) event);
            result = stringify O (event_field ("result" ∷ "exception" ∷ []) event);
            traceback = stringify O (get "traceback" event);
            stamps = stringify O (extract_stamps event);
            runtime = to_float O (get "runtime" event);
            retries = count_of_retries (to_int O (get "retries" event));
            eta = parse_iso_datetime O (get "eta" event);
            expires = parse_iso_datetime O (get "expires" event);
            parent_id = stringify O (event_id ("parent_id" ∷ "parent" ∷ []) event);
            root_id = stringify O (event_id ("root_id" ∷ "root" ∷ []) event);
            group_id = stringify O (event_id ("group_id" ∷ "group" ∷ []) event);
            chord_id = stringify O (event_id ("chord_id" ∷ "chord" ∷ []) event);
          }))

  unfoldable pub read_worker_event : Datetime → String → String → Fields → Option (Item F)
  unfolding get truthy raw_info redact_access_data event_received_timestamp
  read_worker_event now broker_url event_type event =
      let hostname = get "hostname" event in
      if not (truthy hostname)
      then none
      else some (
          worker_event (record {
            hostname = str_of hostname;
            event = event_type;
            timestamp = event_received_timestamp O now event;
            info = some (json_safe (redact_mapping redact_url (raw_info event)));
            broker_url = some broker_url;
          }))

  -- `not value` of an optional text.
  abbrev pub blank : Option String → Bool
  blank none = true
  blank (some t) = t == ""

  abbrev pub text_of : Option String → String
  text_of none = ""
  text_of (some t) = t

  unfoldable pub read_task_relation : Fields → Option (Item F)
  unfolding get stringify
  read_task_relation event =
      let root_id = stringify O (get "root_id" event) in
      let child_id = stringify O (get "child_id" event) in
      let relation = stringify O (get "relation" event) in
      if blank root_id || blank child_id || blank relation
      then none
      else some (
          task_relation (record {
            root_id = text_of root_id;
            parent_id = stringify O (get "parent_id" event);
            child_id = text_of child_id;
            relation = text_of relation;
          }))

  -- What an event of a type is read as, and whether the metrics queues see it.
  unfoldable pub route : Datetime → String → Fields → Option (Item F) × Bool
  unfolding event_type_of read_task_event read_worker_event read_task_relation
  route now broker_url event =
      let event_type = event_type_of event in
      if event_type == "task-relation"
      then (read_task_relation event, false)
      else if starts_with event_type "task-"
      then (read_task_event now event_type event, true)
      else if starts_with event_type "worker-"
      then (read_worker_event now broker_url event_type event, true)
      else (none, true)

  module _ {Db : Type 0} (store : Item F → Db → StoreCall × Db) where
    unfoldable pub handle_event : Datetime → Fields → EventListener F Db → Bool × EventListener F Db
    unfolding route emit_read
    handle_event now event l =
        let (item, fanout) = route now l.broker_url_redacted event in emit_read store fanout item l
