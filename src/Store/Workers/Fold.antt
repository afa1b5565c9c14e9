-- ===== src/Store/Workers/Fold.antt =====
-- The worker that is read is a fold of the events of its host.
use mathlib.Core.Option
use mathlib.Core.Option.{or_else}
use celery_cnc.Base.{
  ◌≡◌, refl, sym, ap, ◌∙◌, String, Bool, true, false, Option, none, some, List, [], ◌∷◌, ◌==◌,
  ==_cases, string_eq, if◌then◌else◌, inl, inr,
}
use celery_cnc.Value.{get}
use celery_cnc.Schemas.{Datetime, WorkerEvent, Worker}
use celery_cnc.Store.Table.{KeyedTable, LogTable, merged}
use celery_cnc.Store.Workers.{
  Json, texts, str_items, parse_active_tasks, parse_pool_size, parse_registered_tasks,
  parse_queue_names, parse_json_list, or_end, is_offline, WorkerRow, EventRow, worker_from_event,
  update_worker, row_to_worker, Workers, store_worker_event, get_worker,
}

heartbeat-same :
    (b : Bool) (old : Option Datetime) (at : Datetime)
    → (if b then or_else old (some at) else (if b then none else some at))
      ≡ (if b then or_else old (some at) else some at)
heartbeat-same true old at = refl
heartbeat-same false old at = refl

module _ (json : Json) where
  open json use {str, dumps, loads, loads-dumps, str-text}

  -- What an event says of its worker.
  pub reported : WorkerEvent → Option Datetime → Worker
  unfolding get
  reported event heartbeat =
      let info = or_end event.info in
      record {
        hostname = event.hostname;
        status = if is_offline json event then "OFFLINE" else "ONLINE";
        last_heartbeat = heartbeat;
        pool_size = parse_pool_size (get "pool" info);
        active_tasks = parse_active_tasks (get "active" info);
        registered_tasks = parse_registered_tasks json (get "registered" info);
        queues = parse_queue_names json (get "queues" info);
        broker_url = event.broker_url;
      }

  -- The worker after one more event of its host: all is as the event says, but that an offline event keeps
  -- the heartbeat there is, or gives its own time where a row has none.
  pub after_event : WorkerEvent → Option Worker → Worker
  unfolding reported
  after_event event none =
      reported event (if is_offline json event then none else some event.timestamp)
  after_event event (some old) =
      let heartbeat =
        if is_offline json event
        then or_else old.last_heartbeat (some event.timestamp)
        else some event.timestamp in
      record (reported event heartbeat) { hostname = old.hostname }

  pub after_events : String → List WorkerEvent → Option Worker → Option Worker
  after_events hostname [] worker = worker
  after_events hostname (event ∷ events) worker =
      after_events hostname events
        (if hostname == event.hostname then some (after_event event worker) else worker)

  str_items-texts : (ts : List String) → str_items json (texts ts) ≡ ts
  str_items-texts [] = refl
  str_items-texts (t ∷ ts) =
      ap (λ u. u ∷ str_items json (texts ts)) (str-text t) ∙ ap (λ us. t ∷ us) (str_items-texts ts)

  parse_json_list-dumps : (o : Option (List String)) → parse_json_list json (Option.map dumps o) ≡ o
  unfolding parse_json_list
  parse_json_list-dumps none = refl
  parse_json_list-dumps (some ts) = rw (loads-dumps ts) (ap some (str_items-texts ts))

  row_to_worker-merged :
      (event : WorkerEvent) (row : Option (WorkerRow json))
      → row_to_worker json (merged (worker_from_event json event) (update_worker json event) row)
        ≡ after_event event (Option.map (row_to_worker json) row)
  unfolding row_to_worker worker_from_event update_worker after_event reported
  row_to_worker-merged event none = λ i. record {
    hostname = event.hostname;
    status = if is_offline json event then "OFFLINE" else "ONLINE";
    last_heartbeat = if is_offline json event then none else some event.timestamp;
    pool_size = parse_pool_size (get "pool" (or_end event.info));
    active_tasks = parse_active_tasks (get "active" (or_end event.info));
    registered_tasks =
        parse_json_list-dumps (parse_registered_tasks json (get "registered" (or_end event.info)))
          i;
    queues = parse_json_list-dumps (parse_queue_names json (get "queues" (or_end event.info))) i;
    broker_url = event.broker_url;
  }
  row_to_worker-merged event (some old) = λ i. record {
    hostname = old.hostname;
    status = if is_offline json event then "OFFLINE" else "ONLINE";
    last_heartbeat = heartbeat-same (is_offline json event) old.last_heartbeat event.timestamp i;
    pool_size = parse_pool_size (get "pool" (or_end event.info));
    active_tasks = parse_active_tasks (get "active" (or_end event.info));
    registered_tasks =
        parse_json_list-dumps (parse_registered_tasks json (get "registered" (or_end event.info)))
          i;
    queues = parse_json_list-dumps (parse_queue_names json (get "queues" (or_end event.info))) i;
    broker_url = event.broker_url;
  }

  module _ (T : KeyedTable (WorkerRow json)) (L : LogTable (EventRow json)) where
    pub store_worker_events : Workers json T L → List WorkerEvent → Workers json T L
    store_worker_events db [] = db
    store_worker_events db (e ∷ es) = store_worker_events (store_worker_event json T L db e) es

    get_worker-store_worker_event :
        (db : Workers json T L) (event : WorkerEvent) (hostname : String)
        → get_worker json T L (store_worker_event json T L db event) hostname ≡ (
            if hostname == event.hostname
            then some (after_event event (get_worker json T L db hostname))
            else get_worker json T L db hostname)
    unfolding get_worker store_worker_event
    get_worker-store_worker_event db event hostname =
        ap (Option.map (row_to_worker json)) (
          T.select-upsert db.workers hostname event.hostname (worker_from_event json event)
            (update_worker json event))
        ∙ elim (==_cases hostname event.hostname)
            as (λ _.
              Option.map (row_to_worker json) (
                if hostname == event.hostname
                then some (
                    merged (worker_from_event json event) (update_worker json event)
                      (T.select_row db.workers event.hostname))
                else T.select_row db.workers hostname)
              ≡ (if hostname == event.hostname
                  then some (
                      after_event event
                        (Option.map (row_to_worker json) (T.select_row db.workers hostname)))
                  else Option.map (row_to_worker json) (T.select_row db.workers hostname))) [
                    | inl (same, e) ↦ rw e (
                        ap some (
                          row_to_worker-merged event (T.select_row db.workers event.hostname)
                          ∙ ap
                              (λ h.
                                after_event event
                                  (Option.map (row_to_worker json) (T.select_row db.workers h)))
                              (sym same)))
                    | inr (_, e) ↦ rw e refl
                  ]

    -- After any events, the worker that is read for a host is a fold of the events of this host over the
    -- worker before: status, sizes, tasks and queues are those of the last event, read back from their
    -- JSON as they were, and the heartbeat is never lost.
    pub get_worker-after_events :
        (db : Workers json T L) (events : List WorkerEvent) (hostname : String)
        → get_worker json T L (store_worker_events db events) hostname
          ≡ after_events hostname events (get_worker json T L db hostname)
    unfolding store_worker_events after_events
    get_worker-after_events db [] hostname = refl
    get_worker-after_events db (e ∷ es) hostname =
        get_worker-after_events (store_worker_event json T L db e) es hostname
        ∙ ap (after_events hostname es) (get_worker-store_worker_event db e hostname)
