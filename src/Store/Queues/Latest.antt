-- ===== src/Store/Queues/Latest.antt =====
-- A snapshot has the last event of each queue of its broker.
use mathlib.Core.List.{append-nil, append_assoc}
use celery_cnc.Base.{
  ◌≡◌, refl, sym, ap, ◌∙◌, String, false, ◌||◌, Option, none, some, List, [], ◌∷◌, ◌++◌, ◌==◌,
  string_eq, if◌then◌else◌, contains, Distinct, arith,
}
use celery_cnc.Schemas.{BrokerQueueEvent}
use celery_cnc.Store.Table.{LogTable}
use celery_cnc.Store.Queues.{
  insert_event, sort_events, is_of, any_of, latest_rows, store_broker_queue_event,
  get_broker_queue_snapshot,
}

abbrev pub queues : List BrokerQueueEvent → List String
queues [] = []
queues (e ∷ es) = e.queue ∷ queues es

-- What a list says of a queue.
pub find_queue : String → List BrokerQueueEvent → Option BrokerQueueEvent
find_queue queue [] = none
find_queue queue (e ∷ es) = if queue == e.queue then some e else find_queue queue es

-- The last event of a queue of a broker.
pub last_event : String → String → List BrokerQueueEvent → Option BrokerQueueEvent
last_event broker_url queue [] = none
last_event broker_url queue (e ∷ es) =
    if any_of broker_url queue es
    then last_event broker_url queue es
    else if is_of broker_url queue e
    then some e
    else none

contains-insert_event :
    (q : String) (e : BrokerQueueEvent) (es : List BrokerQueueEvent)
    → contains (queues (insert_event e es)) q ≡ (q == e.queue || contains (queues es) q)
unfolding insert_event
contains-insert_event q e [] = refl
contains-insert_event q e (f ∷ es) = ground (arith, contains-insert_event q e es)

find_queue-insert_event :
    (q : String) (e : BrokerQueueEvent) (es : List BrokerQueueEvent)
    → contains (queues es) e.queue ≡ false
    → find_queue q (insert_event e es) ≡ (if q == e.queue then some e else find_queue q es)
unfolding insert_event find_queue
find_queue-insert_event q e [] fresh = refl
find_queue-insert_event q e (f ∷ es) fresh = ground (arith, find_queue-insert_event q e es)

insert_event-Distinct :
    (e : BrokerQueueEvent) (es : List BrokerQueueEvent)
    → contains (queues es) e.queue ≡ false
    → Distinct (queues es)
    → Distinct (queues (insert_event e es))
unfolding insert_event
insert_event-Distinct e [] fresh h = (refl, tt)
insert_event-Distinct e (f ∷ es) fresh (g, h) =
    ground (arith, insert_event-Distinct e es, contains-insert_event f.queue e es)

contains-sort_events :
    (q : String) (es : List BrokerQueueEvent)
    → contains (queues (sort_events es)) q ≡ contains (queues es) q
unfolding sort_events
contains-sort_events q [] = refl
contains-sort_events q (e ∷ es) =
    ground (arith, contains-insert_event q e (sort_events es), contains-sort_events q es)

find_queue-sort_events :
    (q : String) (es : List BrokerQueueEvent)
    → Distinct (queues es)
    → (find_queue q (sort_events es) ≡ find_queue q es) × Distinct (queues (sort_events es))
unfolding sort_events find_queue
find_queue-sort_events q [] h = (refl, tt)
find_queue-sort_events q (e ∷ es) (fresh, h) = ground (
  arith,
  find_queue-insert_event q e (sort_events es),
  insert_event-Distinct e (sort_events es),
  contains-sort_events e.queue es,
  find_queue-sort_events q es h,
)

contains-latest_rows :
    (url q : String) (rows : List BrokerQueueEvent)
    → contains (queues (latest_rows url rows)) q ≡ any_of url q rows
unfolding latest_rows
contains-latest_rows url q [] = refl
contains-latest_rows url q (r ∷ rows) = ground (arith, contains-latest_rows url q rows)

latest_rows-Distinct :
    (url : String) (rows : List BrokerQueueEvent) → Distinct (queues (latest_rows url rows))
unfolding latest_rows
latest_rows-Distinct url [] = tt
latest_rows-Distinct url (r ∷ rows) =
    ground (arith, latest_rows-Distinct url rows, contains-latest_rows url r.queue rows)

last_event-none :
    (url q : String) (rows : List BrokerQueueEvent)
    → any_of url q rows ≡ false
    → last_event url q rows ≡ none
unfolding last_event
last_event-none url q [] h = refl
last_event-none url q (r ∷ rows) h = ground (arith, last_event-none url q rows)

find_queue-latest_rows :
    (url q : String) (rows : List BrokerQueueEvent)
    → find_queue q (latest_rows url rows) ≡ last_event url q rows
unfolding latest_rows find_queue last_event
find_queue-latest_rows url q [] = refl
find_queue-latest_rows url q (r ∷ rows) =
    ground (arith, find_queue-latest_rows url q rows, last_event-none url q rows)

module _ (L : LogTable BrokerQueueEvent) where
  pub store_queue_events : L.State → List BrokerQueueEvent → L.State
  store_queue_events db [] = db
  store_queue_events db (e ∷ es) = store_queue_events (store_broker_queue_event L db e) es

  rows-store_queue_events :
      (db : L.State) (es : List BrokerQueueEvent)
      → L.rows (store_queue_events db es) ≡ L.rows db ++ es
  unfolding store_queue_events store_broker_queue_event
  rows-store_queue_events db [] = sym (append-nil (L.rows db))
  rows-store_queue_events db (e ∷ es) =
      rows-store_queue_events (L.append_row db e) es
      ∙ ap (λ rs. rs ++ es) (L.rows-append_row db e)
      ∙ append_assoc (L.rows db) (e ∷ []) es

  -- After any events, a snapshot of a broker holds for every queue the last event that was stored for it,
  -- and names no queue twice.
  pub get_broker_queue_snapshot-last_event :
      (db : L.State) (es : List BrokerQueueEvent) (broker_url queue : String)
      → (find_queue queue (get_broker_queue_snapshot L (store_queue_events db es) broker_url)
          ≡ last_event broker_url queue (L.rows db ++ es))
        × Distinct (queues (get_broker_queue_snapshot L (store_queue_events db es) broker_url))
  unfolding get_broker_queue_snapshot
  get_broker_queue_snapshot-last_event db es broker_url queue =
      let rows = L.rows (store_queue_events db es) in
      let (same, once) =
        find_queue-sort_events queue (latest_rows broker_url rows)
          (latest_rows-Distinct broker_url rows) in
      (
        same
            ∙ find_queue-latest_rows broker_url queue rows
            ∙ ap (last_event broker_url queue) (rows-store_queue_events db es),
        once,
      )
