-- ===== src/Reconciler.antt =====
-- celery_root/core/reconciler.py: a process that looks at one worker, one broker or one task at a
-- time, in turns, and writes what it finds to the store. What it asks of the running apps and of the
-- database are the fields of `Cluster`; time is in seconds of the monotonic clock.
pub mod Process
pub mod Turns
pub mod Backfill
pub mod Examples
use celery_cnc.Base.{
  ℕ, suc, ◌+◌, ◌-◌, ◌≤◌, ◌%◌, String, ◌<>◌, Bool, true, false, not, ◌&&◌, ◌||◌, Option, none, some,
  List, [], ◌∷◌, ◌++◌, length, map,
}
use celery_cnc.Base.{◌==◌, string_eq, contains, if◌then◌else◌, leb, get_elem?, is_empty}
use celery_cnc.Base.Dict.{Dict, lookup, insert, values}
use celery_cnc.Value.{
  Value, Integer, pos, Items, Fields, null, boolean, integer, text, list, tuple, mapping, end,
  field, get, truthy, is_null, items_length,
}
use celery_cnc.Schemas.{Datetime, Task, TaskEvent, WorkerEvent, BrokerQueueEvent}
use celery_cnc.Redaction.{redact_mapping}
use celery_cnc.Listener.Parse.{
  Objects, set_key, stringify, to_float, to_int, number, instant, parse_iso_datetime,
}

-- `_FINAL_STATES` and `_NON_FINAL_STATES`
abbrev pub reconciled_states : List String
reconciled_states = "SUCCESS" ∷ "FAILURE" ∷ "REVOKED" ∷ []

abbrev pub non_final_states : List String
non_final_states = "PENDING" ∷ "RECEIVED" ∷ "STARTED" ∷ "RETRY" ∷ "REJECTED" ∷ []

abbrev pub worker_refresh_seconds : ℕ
worker_refresh_seconds = 30

abbrev pub task_refresh_seconds : ℕ
task_refresh_seconds = 30

-- What an inspection of a worker yields.
pub record WorkerSnapshot : Type 0 where
  pub stats : Option Fields
  pub conf : Option Fields
  pub queues : Value
  pub registered : Value
  pub active : Value
  pub broker_url : Option String
  pub app_name : Option String

abbrev pub nothing_seen : WorkerSnapshot
nothing_seen = record {
  stats = none;
  conf = none;
  queues = null;
  registered = null;
  active = null;
  broker_url = none;
  app_name = none;
}

-- `_extract_host_payload`; a call that raised yields no payload.
unfoldable pub extract_host_payload : Option Value → String → Value
unfolding get
extract_host_payload (some (mapping hosts)) hostname = get hostname hosts
extract_host_payload payload hostname = null

-- `isinstance(value, Mapping)`
abbrev pub fields_of : Value → Option Fields
fields_of (mapping fields) = some fields
fields_of v = none

-- An app's inspector for one worker: its five calls, `none` where one raised.
pub record Inspector : Type 0 where
  pub stats : Option Value
  pub conf : Option Value
  pub active_queues : Option Value
  pub active : Option Value
  pub registered : Option Value

-- A queue of a broker, as `list_queues` reports it.
pub record QueueInfo : Type 0 where
  pub name : String
  pub messages : Option ℕ
  pub consumers : Option ℕ

-- What a backend says about a task.
pub data Reply : Type 0 where
  -- No callable `get_task_meta`, or it raised.
  no_reply : Reply
  reply : Value → Reply

-- A worker app as the reconciler sees it.
pub record App : Type 0 where
  pub name : String
  pub broker_url : String
  -- `none`: no inspector.
  pub inspect : String → Option Inspector
  pub get_task_meta : String → Reply
  -- `none`: `list_queues` raised.
  pub list_queues : Option (List QueueInfo)

-- `_inspect_worker`: the first app that knows anything of the worker.
unfoldable pub inspect_worker : List App → String → WorkerSnapshot
unfolding extract_host_payload
inspect_worker [] hostname = nothing_seen
inspect_worker (app ∷ apps) hostname =
    let others = inspect_worker apps hostname in
    elim (app.inspect hostname) [
      | none ↦ others
      | some inspector ↦
          let stats = extract_host_payload inspector.stats hostname in
          let conf = extract_host_payload inspector.conf hostname in
          let queues = extract_host_payload inspector.active_queues hostname in
          let active = extract_host_payload inspector.active hostname in
          let registered = extract_host_payload inspector.registered hostname in
          if not (is_null stats)
            || not (is_null conf)
            || not (is_null queues)
            || not (is_null registered)
            || not (is_null active)
          then (record {
            stats = fields_of stats;
            conf = fields_of conf;
            queues = queues;
            registered = registered;
            active = active;
            broker_url = some app.broker_url;
            app_name = some app.name;
          })
          else others
    ]

-- `_active_count`; bytes and other sequences are not among the modelled values.
unfoldable pub active_count : Value → Option Integer
active_count (list items) = some (pos (items_length items))
active_count (tuple items) = some (pos (items_length items))
active_count (boolean b) = some (pos (if b then 1 else 0))
active_count (integer n) = some n
active_count v = none

-- `info[key] = value` where there is one.
abbrev pub set_present : String → Value → Fields → Fields
set_present key value info = if is_null value then info else set_key key value info

-- `if stats: ...`, which also copies the pool.
unfoldable pub put_stats : Option Fields → Fields → Fields
unfolding get set_key
put_stats none info = info
put_stats (some end) info = info
put_stats (some (field k v rest)) info =
    set_present "pool" (get "pool" (field k v rest))
      (set_key "stats" (mapping (field k v rest)) info)

unfoldable pub put_conf : Option Fields → Fields → Fields
unfolding set_key
put_conf none info = info
put_conf (some end) info = info
put_conf (some (field k v rest)) info = set_key "conf" (mapping (field k v rest)) info

unfoldable pub put_active : Value → Fields → Fields
unfolding active_count set_key
put_active active info = elim (active_count active) [
  | some n ↦ set_key "active" (integer n) info
  | none ↦ set_present "active" active info
]

abbrev pub put_app : Option String → Fields → Fields
put_app none info = info
put_app (some name) info = set_key "app" (text name) info

unfoldable pub snapshot_info : WorkerSnapshot → Fields
unfolding put_stats put_conf put_active set_key
snapshot_info snapshot =
    let info = put_stats snapshot.stats end in
    let info = put_conf snapshot.conf info in
    let info = set_present "queues" snapshot.queues info in
    let info = set_present "registered" snapshot.registered info in
    let info = put_active snapshot.active info in put_app snapshot.app_name info

abbrev pub is_some : {A : Type 0} → Option A → Bool
is_some none = false
is_some (some a) = true

module _ {F : Type 0} (O : Objects F) where
  open O use {str, json_safe, redact_url}

  unfoldable pub build_worker_info : WorkerSnapshot → Fields
  unfolding snapshot_info redact_mapping
  build_worker_info snapshot = json_safe (redact_mapping redact_url (snapshot_info snapshot))

  unfoldable pub build_worker_event : Datetime → String → WorkerSnapshot → Option WorkerEvent
  unfolding build_worker_info
  build_worker_event now hostname snapshot =
      if not (is_some snapshot.stats)
        && not (is_some snapshot.conf)
        && is_null snapshot.queues
        && is_null snapshot.registered
        && is_null snapshot.active
      then none
      else some (record {
        hostname = hostname;
        event = "worker-snapshot";
        timestamp = now;
        info = some (build_worker_info snapshot);
        broker_url = elim snapshot.broker_url [ none ↦ none | some url ↦ some (redact_url url) ];
      })

  -- `str(status)`
  abbrev pub status_text : Value → String
  status_text (text t) = t
  status_text v = str v

  unfoldable pub final_state : Fields → Option String
  unfolding get
  final_state meta =
      let status = get "status" meta in
      if is_null status
      then none
      else if contains reconciled_states (status_text status)
      then some (status_text status)
      else none

  -- `_parse_datetime(...) or now`
  unfoldable pub done_at : Datetime → Fields → Datetime
  unfolding get parse_iso_datetime
  done_at now meta = elim (parse_iso_datetime O (get "date_done" meta)) [
    | none ↦ now
    | some at ↦ at
  ]

  unfoldable pub task_event_from_meta :
      (Option Integer → Option ℕ) → Datetime → Task F → String → Fields → TaskEvent F
  unfolding get done_at stringify to_float to_int
  task_event_from_meta count now task status meta = record {
    task_id = task.task_id;
    name = task.name;
    state = status;
    timestamp = done_at now meta;
    worker = task.worker;
    args = none;
    kwargs = none;
    result = stringify O (get "result" meta);
    traceback = stringify O (get "traceback" meta);
    stamps = none;
    runtime = to_float O (get "runtime" meta);
    retries = count (to_int O (get "retries" meta));
    eta = none;
    expires = none;
    parent_id = task.parent_id;
    root_id = task.root_id;
    group_id = task.group_id;
    chord_id = task.chord_id;
  }

  -- A reply that is no mapping, or names no final state, leaves the task to the other apps.
  unfoldable pub taken_reply : Reply → Option (Fields × String) → Option (Fields × String)
  unfolding final_state
  taken_reply no_reply others = others
  taken_reply (reply (mapping meta)) others = elim (final_state meta) [
    | none ↦ others
    | some status ↦ some (meta, status)
  ]
  taken_reply (reply v) others = others

  -- `_find_final_meta`: the first app whose backend knows a final state.
  unfoldable pub find_final_meta : List App → String → Option (Fields × String)
  unfolding taken_reply
  find_final_meta [] task_id = none
  find_final_meta (app ∷ apps) task_id =
      taken_reply (app.get_task_meta task_id) (find_final_meta apps task_id)
