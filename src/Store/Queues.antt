-- ===== src/Store/Queues.antt =====
-- celery_root/core/db/adapters/sqlite/__init__.py: the snapshots of broker queues.
pub mod Latest
use celery_cnc.Base.{
  ℕ, String, Bool, true, false, ◌&&◌, ◌||◌, not, List, [], ◌∷◌, ltb, ◌==◌, string_eq, nat_eq,
  if◌then◌else◌,
}
use celery_cnc.Base.Text.{codes}
use celery_cnc.Schemas.{BrokerQueueEvent}
use celery_cnc.Store.Table.{LogTable}

-- `<=` on texts, by their code points.
unfoldable pub codes_leb : List ℕ → List ℕ → Bool
codes_leb [] t = true
codes_leb (a ∷ s) [] = false
codes_leb (a ∷ s) (b ∷ t) = ltb a b || (a == b && codes_leb s t)

abbrev pub queue_leb : BrokerQueueEvent → BrokerQueueEvent → Bool
unfolding codes_leb
queue_leb e f = codes_leb (codes e.queue) (codes f.queue)

-- `events.sort(key=lambda event: event.queue)`
unfoldable pub insert_event : BrokerQueueEvent → List BrokerQueueEvent → List BrokerQueueEvent
unfolding queue_leb
insert_event e [] = e ∷ []
insert_event e (f ∷ rest) =
    let inserted = insert_event e rest in if queue_leb e f then e ∷ f ∷ rest else f ∷ inserted

unfoldable pub sort_events : List BrokerQueueEvent → List BrokerQueueEvent
unfolding insert_event
sort_events [] = []
sort_events (e ∷ rest) = insert_event e (sort_events rest)

-- `where(broker_url == broker_url)`, and the group of `group_by(queue)`.
abbrev pub is_of : String → String → BrokerQueueEvent → Bool
is_of broker_url queue row = row.broker_url == broker_url && row.queue == queue

abbrev pub any_of : String → String → List BrokerQueueEvent → Bool
any_of broker_url queue [] = false
any_of broker_url queue (row ∷ rows) = is_of broker_url queue row || any_of broker_url queue rows

-- The rows whose id is the greatest of the broker's rows with their queue: the rows stand in the order of
-- their ids, so none of that queue comes after.
unfoldable pub latest_rows : String → List BrokerQueueEvent → List BrokerQueueEvent
latest_rows broker_url [] = []
latest_rows broker_url (row ∷ rows) =
    let rest = latest_rows broker_url rows in
    if row.broker_url == broker_url && not (any_of broker_url row.queue rows)
    then row ∷ rest
    else rest

module _ (L : LogTable BrokerQueueEvent) where
  unfoldable pub store_broker_queue_event : L.State → BrokerQueueEvent → L.State
  store_broker_queue_event db event = L.append_row db event

  unfoldable pub get_broker_queue_snapshot : L.State → String → List BrokerQueueEvent
  unfolding latest_rows sort_events
  get_broker_queue_snapshot db broker_url = sort_events (latest_rows broker_url (L.rows db))
