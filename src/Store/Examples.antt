-- ===== src/Store/Examples.antt =====
-- The tables of the store on concrete rows.
use Prim.Native.Char.{Char, code}
use mathlib.Core.Option
use celery_cnc.Base.{
  ℕ, ◌+◌, ◌≡◌, refl, ap, ◌∙◌, String, not, Option, none, some, List, [], ◌∷◌, ◌++◌, keep_if, length,
  ◌==◌, nat_eq, string_eq, if◌then◌else◌, arith, Distinct,
}
use celery_cnc.Value.{Value, Fields, list, text, field, end, nil, cons}
use celery_cnc.Schemas.{Task, TaskEvent, TimeRange, ThroughputBucket, BrokerQueueEvent, WorkerEvent}
use celery_cnc.Store.Table.{memory_table, memory_log}
use celery_cnc.Store.Throughput.{get_throughput, filter_tasks, bucket_start}
use celery_cnc.Store.Throughput.Totals.{get_throughput-total, sum_counts}
use celery_cnc.Store.Queues.{get_broker_queue_snapshot}
use celery_cnc.Store.Queues.Latest.{
  find_queue, last_event, queues, store_queue_events, get_broker_queue_snapshot-last_event,
}
use celery_cnc.Store.Workers.{Json, texts, WorkerRow, EventRow, Workers, get_worker}
use celery_cnc.Store.Workers.Fold.{after_events, store_worker_events, get_worker-after_events}
use celery_cnc.Store.Cleanup.{
  SweptTable, Database, cleanup, cutoff_of, size, IsSwept, cleanup-IsSwept,
}

abbrev task_at : String → Option ℕ → Task ℕ
task_at task_id finished = record {
  task_id = task_id;
  name = none;
  state = "SUCCESS";
  worker = none;
  received = none;
  started = none;
  finished = finished;
  runtime = none;
  args = none;
  kwargs = none;
  result = none;
  traceback = none;
  stamps = none;
  retries = none;
  parent_id = none;
  root_id = none;
  group_id = none;
  chord_id = none;
}

abbrev tasks : List (Task ℕ)
tasks = task_at "a" (some 4) ∷ task_at "b" (some 9) ∷ task_at "c" none ∷ []

abbrev range : TimeRange
range = record { start = 3; finish = 5 }

get_throughput-total_example :
    (buckets : List ThroughputBucket) × (get_throughput 4 tasks range 1 ≡ some buckets)
    × (sum_counts buckets ≡ length (filter_tasks none (some range) tasks))
get_throughput-total_example =
    get_throughput-total range 1 4 tasks (omega arith) (omega arith) (omega arith)

one_in_range : length (filter_tasks none (some range) tasks) ≡ 1
unfolding filter_tasks keep_if Option.or_else
one_in_range = refl

third_second : bucket_start 0 2500000 1 ≡ 2000000
unfolding bucket_start
third_second = refl

abbrev queue_event : String → ℕ → BrokerQueueEvent
queue_event queue messages = record {
  broker_url = "redis://";
  queue = queue;
  messages = some messages;
  consumers = none;
  timestamp = messages;
}

abbrev queue_events : List BrokerQueueEvent
queue_events = queue_event "b" 1 ∷ queue_event "a" 2 ∷ queue_event "b" 3 ∷ []

get_broker_queue_snapshot-last_event_example :
    (find_queue "b" (
        get_broker_queue_snapshot
          (memory_log BrokerQueueEvent)
          (store_queue_events (memory_log BrokerQueueEvent) [] queue_events)
          "redis://")
      ≡ last_event "redis://" "b" ([] ++ queue_events))
    × Distinct (
        queues (
          get_broker_queue_snapshot
            (memory_log BrokerQueueEvent)
            (store_queue_events (memory_log BrokerQueueEvent) [] queue_events)
            "redis://"))
get_broker_queue_snapshot-last_event_example =
    get_broker_queue_snapshot-last_event (memory_log BrokerQueueEvent) [] queue_events "redis://"
      "b"

snapshot :
    get_broker_queue_snapshot (memory_log BrokerQueueEvent) queue_events "redis://"
    ≡ queue_event "a" 2 ∷ queue_event "b" 3 ∷ []
unfolding get_broker_queue_snapshot string_eq nat_eq
snapshot = refl

-- A list of texts as one text: an `a` before every character, and `bb` after every text.
enclose : String → String → String
enclose String.[] rest = String.◌∷◌ "b" (String.◌∷◌ "b" rest)
enclose (String.◌∷◌ c t) rest = String.◌∷◌ "a" (String.◌∷◌ c (enclose t rest))

dump_texts : List String → String
unfolding enclose
dump_texts [] = String.[]
dump_texts (t ∷ ts) = enclose t (dump_texts ts)

abbrev put_char : Char → List String → List String
put_char c [] = String.◌∷◌ c String.[] ∷ []
put_char c (t ∷ ts) = String.◌∷◌ c t ∷ ts

load_texts : String → List String
load_texts String.[] = []
load_texts (String.◌∷◌ c String.[]) = []
load_texts (String.◌∷◌ c (String.◌∷◌ d s)) =
    let rest = load_texts s in if code c == b'a' then put_char d rest else String.[] ∷ rest

load_texts-enclose : (t rest : String) → load_texts (enclose t rest) ≡ t ∷ load_texts rest
unfolding load_texts enclose nat_eq
load_texts-enclose String.[] rest = refl
load_texts-enclose (String.◌∷◌ c t) rest = ap (put_char c) (load_texts-enclose t rest)

load_texts-dump_texts : (ts : List String) → load_texts (dump_texts ts) ≡ ts
unfolding load_texts dump_texts
load_texts-dump_texts [] = refl
load_texts-dump_texts (t ∷ ts) =
    load_texts-enclose t (dump_texts ts) ∙ ap (λ us. t ∷ us) (load_texts-dump_texts ts)

abbrev text_of : Value → String
text_of (text t) = t
text_of v = "?"

loads_texts :
    (ts : List String) → some (list (texts (load_texts (dump_texts ts)))) ≡ some (list (texts ts))
loads_texts ts = ap (λ us. some (list (texts us))) (load_texts-dump_texts ts)

abbrev json : Json
json = record {
  dumps = dump_texts;
  dumps_info = λ info. "{}";
  loads = λ t. some (list (texts (load_texts t)));
  str = text_of;
  loads-dumps = loads_texts;
  str-text = λ t. refl;
}

abbrev worker_event : String → ℕ → Option Fields → WorkerEvent
worker_event event timestamp info = record {
  hostname = "w1";
  event = event;
  timestamp = timestamp;
  info = info;
  broker_url = none;
}

abbrev worker_events : List WorkerEvent
worker_events =
    worker_event "worker-online" 1 none
    ∷ worker_event "worker-heartbeat" 5
        (some (field "registered" (list (cons (text "add") (cons (text "mul") nil))) end))
    ∷ worker_event "worker-offline" 9 none
    ∷ []

abbrev no_workers : Workers json (memory_table (WorkerRow json)) (memory_log (EventRow json))
no_workers = record { workers = []; worker_events = [] }

get_worker-after_events_example :
    get_worker json
      (memory_table (WorkerRow json))
      (memory_log (EventRow json))
      (store_worker_events json
        (memory_table (WorkerRow json))
        (memory_log (EventRow json))
        no_workers
        worker_events)
      "w1"
    ≡ after_events json "w1" worker_events (
        get_worker json
          (memory_table (WorkerRow json))
          (memory_log (EventRow json))
          no_workers
          "w1")
get_worker-after_events_example =
    get_worker-after_events json (memory_table (WorkerRow json)) (memory_log (EventRow json))
      no_workers worker_events "w1"

abbrev memory_swept : (Row : Type 0) → SweptTable Row
memory_swept Row = record {
  State = List Row;
  rows = λ s. s;
  delete_where = λ s p. (keep_if (λ r. not (p r)) s, length (keep_if p s));
  rows-delete_where = λ s p. refl;
  count-delete_where = λ s p. refl;
}

abbrev full :
    Database json
      (memory_swept (TaskEvent ℕ))
      (memory_swept (Task ℕ))
      (memory_swept (EventRow json))
      (memory_swept BrokerQueueEvent)
      (memory_swept (WorkerRow json))
full = record {
  task_events = [];
  tasks = tasks;
  worker_events = [];
  broker_queue_events = queue_events;
  workers = [];
}

abbrev swept :
    Database json
      (memory_swept (TaskEvent ℕ))
      (memory_swept (Task ℕ))
      (memory_swept (EventRow json))
      (memory_swept BrokerQueueEvent)
      (memory_swept (WorkerRow json))
    × ℕ
unfolding cleanup
swept =
    cleanup json (memory_swept (TaskEvent ℕ)) (memory_swept (Task ℕ)) (memory_swept (EventRow json))
      (memory_swept BrokerQueueEvent) (memory_swept (WorkerRow json)) 5 full 0

cleanup-IsSwept_example :
    IsSwept json
      (memory_swept (TaskEvent ℕ))
      (memory_swept (Task ℕ))
      (memory_swept (EventRow json))
      (memory_swept BrokerQueueEvent)
      (memory_swept (WorkerRow json))
      5
      0
      full
      swept.0
    × (size json
            (memory_swept (TaskEvent ℕ))
            (memory_swept (Task ℕ))
            (memory_swept (EventRow json))
            (memory_swept BrokerQueueEvent)
            (memory_swept (WorkerRow json))
            swept.0
          + swept.1
        ≡ size json
            (memory_swept (TaskEvent ℕ))
            (memory_swept (Task ℕ))
            (memory_swept (EventRow json))
            (memory_swept BrokerQueueEvent)
            (memory_swept (WorkerRow json))
            full)
unfolding swept
cleanup-IsSwept_example =
    cleanup-IsSwept json (memory_swept (TaskEvent ℕ)) (memory_swept (Task ℕ))
      (memory_swept (EventRow json)) (memory_swept BrokerQueueEvent) (memory_swept (WorkerRow json))
      5 full 0

four_removed : swept.1 ≡ 4
unfolding swept keep_if cutoff_of Option.or_else
four_removed = refl
