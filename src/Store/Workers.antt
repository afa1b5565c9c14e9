-- ===== src/Store/Workers.antt =====
-- celery_root/core/db/adapters/sqlite/__init__.py: `store_worker_event`, `get_worker` and what they
-- call. The table of worker events, which is written alongside, is a log.
pub mod Fold
use mathlib.Core.Option
use mathlib.Core.Option.{or_else}
use celery_cnc.Base.{
  ℕ, ◌≡◌, String, Bool, true, false, Option, none, some, List, [], ◌∷◌, map, ◌==◌, string_eq,
  if◌then◌else◌,
}
use celery_cnc.Value.{
  Value, Items, Fields, Integer, pos, null, boolean, integer, text, list, tuple, set, mapping,
  object, nil, cons, end, get, has_key, items_length, or_value,
}
use celery_cnc.Schemas.{Datetime, WorkerEvent, Worker}
use celery_cnc.Store.Table.{KeyedTable, LogTable}

abbrev pub texts : List String → Items
texts [] = nil
texts (t ∷ ts) = cons (text t) (texts ts)

-- `json.dumps` of a list of texts, `json.loads`, and `str`; a list that was written is read again.
pub record Json : Type 0 where
  pub dumps : List String → String
  pub dumps_info : Fields → String
  pub loads : String → Option Value
  pub str : Value → String
  pub loads-dumps : (ts : List String) → loads (dumps ts) ≡ some (list (texts ts))
  pub str-text : (t : String) → str (text t) ≡ t

-- A `bool` is an `int`.
abbrev pub as_int : Value → Option Integer
as_int (integer n) = some n
as_int (boolean b) = some (pos (if b then 1 else 0))
as_int v = none

unfoldable pub parse_active_tasks : Value → Option Integer
parse_active_tasks (list items) = some (pos (items_length items))
parse_active_tasks v = as_int v

unfoldable pub parse_pool_size : Value → Option Integer
unfolding get
parse_pool_size (mapping info) =
    as_int (or_value (get "max-concurrency" info) (get "max_concurrency" info))
parse_pool_size v = none

abbrev pub or_none : List String → Option (List String)
or_none [] = none
or_none (t ∷ ts) = some (t ∷ ts)

abbrev pub or_end : Option Fields → Fields
or_end none = end
or_end (some info) = info

module _ (json : Json) where
  open json use {str, dumps, dumps_info, loads}

  abbrev pub str_items : Items → List String
  str_items nil = []
  str_items (cons v vs) = str v ∷ str_items vs

  unfoldable pub parse_registered_tasks : Value → Option (List String)
  parse_registered_tasks (list items) = some (str_items items)
  parse_registered_tasks v = none

  abbrev pub put_name : Value → List String → List String
  unfolding has_key get
  put_name (mapping entry) names =
      if has_key "name" entry then str (get "name" entry) ∷ names else names
  put_name (text t) names = t ∷ names
  put_name v names = names

  abbrev pub queue_names : Items → List String
  unfolding put_name
  queue_names nil = []
  queue_names (cons entry rest) = put_name entry (queue_names rest)

  unfoldable pub parse_queue_names : Value → Option (List String)
  unfolding queue_names
  parse_queue_names (list items) = or_none (queue_names items)
  parse_queue_names v = none

  -- `_parse_json_list`
  abbrev pub list_of : Option Value → Option (List String)
  list_of none = none
  list_of (some (list items)) = some (str_items items)
  list_of (some v) = none

  unfoldable pub parse_json_list : Option String → Option (List String)
  parse_json_list none = none
  parse_json_list (some value) = list_of (loads value)

  pub record WorkerRow : Type 0 where
    pub hostname : String
    pub status : String
    pub last_heartbeat : Option Datetime
    pub pool_size : Option Integer
    pub active_tasks : Option Integer
    pub registered_tasks : Option String
    pub queues : Option String
    pub broker_url : Option String

  abbrev pub is_offline : WorkerEvent → Bool
  is_offline event = event.event == "worker-offline"

  unfoldable pub worker_from_event : WorkerEvent → WorkerRow
  unfolding parse_active_tasks parse_pool_size parse_registered_tasks parse_queue_names get
  worker_from_event event =
      let info = or_end event.info in
      record {
        hostname = event.hostname;
        status = if is_offline event then "OFFLINE" else "ONLINE";
        last_heartbeat = if is_offline event then none else some event.timestamp;
        pool_size = parse_pool_size (get "pool" info);
        active_tasks = parse_active_tasks (get "active" info);
        registered_tasks = Option.map dumps (parse_registered_tasks (get "registered" info));
        queues = Option.map dumps (parse_queue_names (get "queues" info));
        broker_url = event.broker_url;
      }

  -- What DO UPDATE SET leaves of a row.
  unfoldable pub update_worker : WorkerEvent → WorkerRow → WorkerRow
  unfolding worker_from_event or_else
  update_worker event old =
      let worker = worker_from_event event in
      record worker {
        hostname = old.hostname;
        last_heartbeat =
            if is_offline event
            then or_else old.last_heartbeat (some event.timestamp)
            else worker.last_heartbeat;
      }

  unfoldable pub row_to_worker : WorkerRow → Worker
  unfolding parse_json_list
  row_to_worker row = record {
    hostname = row.hostname;
    status = row.status;
    last_heartbeat = row.last_heartbeat;
    pool_size = row.pool_size;
    active_tasks = row.active_tasks;
    registered_tasks = parse_json_list row.registered_tasks;
    queues = parse_json_list row.queues;
    broker_url = row.broker_url;
  }

  pub record EventRow : Type 0 where
    pub hostname : String
    pub event : String
    pub timestamp : Datetime
    pub info : Option String
    pub broker_url : Option String

  module _ (T : KeyedTable WorkerRow) (L : LogTable EventRow) where
    pub record Workers : Type 0 where
      pub workers : T.State
      pub worker_events : L.State

    unfoldable pub store_worker_event : Workers → WorkerEvent → Workers
    unfolding worker_from_event update_worker
    store_worker_event db event = record {
      workers = T.upsert db.workers event.hostname (worker_from_event event) (update_worker event);
      worker_events = L.append_row db.worker_events (record {
        hostname = event.hostname;
        event = event.event;
        timestamp = event.timestamp;
        info = Option.map dumps_info event.info;
        broker_url = event.broker_url;
      });
    }

    unfoldable pub get_worker : Workers → String → Option Worker
    unfolding row_to_worker
    get_worker db hostname = Option.map row_to_worker (T.select_row db.workers hostname)
