-- ===== src/Listener/Queues.antt =====
-- Runs of the listener: events arrive and the exporters take records from their queues, in any
-- order. Each queue goes its own way beside the database.
use celery_cnc.Base.{
  ℕ, zero, suc, ◌≡◌, refl, ◌∙◌, sym, subst, ◌&&◌, Bool, true, false, Option, none, some, List, [],
  ◌∷◌,
}
use celery_cnc.Base.{if◌then◌else◌, get_elem?, String}
use celery_cnc.Value.{Fields, Integer}
use celery_cnc.Schemas.{Datetime}
use celery_cnc.Listener.{
  Item, MetricsQueue, EventListener, StoreCall, stored, rpc_failed, escaped, is_caught, called,
  put_nowait, put_all, send_to_db, emit, emit_read, route, handle_event,
}
use celery_cnc.Listener.Parse.{Objects}

-- An event arrives at an instant, or the exporter behind a queue takes the oldest record.
pub data Step : Type 0 where
  arrive : Datetime → Fields → Step
  take : ℕ → Step

abbrev same_place : ℕ → ℕ → Bool
same_place zero zero = true
same_place zero (suc j) = false
same_place (suc i) zero = false
same_place (suc i) (suc j) = same_place i j

module _ {F : Type 0} where
  abbrev pub drop_first : List (Item F) → List (Item F)
  drop_first [] = []
  drop_first (item ∷ rest) = rest

  abbrev take_one : MetricsQueue F → MetricsQueue F
  take_one queue = record queue { items = drop_first queue.items }

  abbrev pub take_at : ℕ → List (MetricsQueue F) → List (MetricsQueue F)
  take_at i [] = []
  take_at zero (queue ∷ rest) = take_one queue ∷ rest
  take_at (suc i) (queue ∷ rest) = queue ∷ take_at i rest

  abbrev pub mapped :
      (MetricsQueue F → MetricsQueue F) → Option (MetricsQueue F) → Option (MetricsQueue F)
  mapped f none = none
  mapped f (some queue) = some (f queue)

  put_all-get :
      (item : Item F) (qs : List (MetricsQueue F)) (i : ℕ)
      → get_elem? (put_all item qs) i ≡ mapped (put_nowait item) (get_elem? qs i)
  unfolding put_all
  put_all-get item [] i = refl
  put_all-get item (q ∷ qs) zero = refl
  put_all-get item (q ∷ qs) (suc i) = put_all-get item qs i

  mapped_id : (q : Option (MetricsQueue F)) → mapped (λ x. x) q ≡ q
  mapped_id none = refl
  mapped_id (some q) = refl

  taken : Bool → MetricsQueue F → MetricsQueue F
  taken own queue = if own then take_one queue else queue

  take_at-get :
      (i : ℕ) (qs : List (MetricsQueue F)) (j : ℕ)
      → get_elem? (take_at i qs) j ≡ mapped (taken (same_place i j)) (get_elem? qs j)
  unfolding taken
  take_at-get i [] j = refl
  take_at-get zero (q ∷ qs) zero = refl
  take_at-get zero (q ∷ qs) (suc j) = sym (mapped_id (get_elem? qs j))
  take_at-get (suc i) (q ∷ qs) zero = refl
  take_at-get (suc i) (q ∷ qs) (suc j) = take_at-get i qs j

  mapped-mapped :
      (f g : MetricsQueue F → MetricsQueue F) (q : Option (MetricsQueue F))
      → mapped f (mapped g q) ≡ mapped (λ x. f (g x)) q
  mapped-mapped f g none = refl
  mapped-mapped f g (some q) = refl

module _ {F Db : Type 0} (store : Item F → Db → StoreCall × Db) where
  -- What is behind the client after the call for a record.
  abbrev pub db_after : Option (Item F) → Option Db → Option Db
  db_after none db = db
  db_after (some item) none = none
  db_after (some item) (some db) = some (store item db).1

  -- A record gets past the database unless its call ends in an error that is not caught.
  abbrev pub passes : Item F → Option Db → Bool
  passes item none = true
  passes item (some db) = elim (store item db).0 [
    | stored ↦ true
    | rpc_failed ↦ true
    | escaped ↦ false
  ]

  -- What one queue is offered of an event.
  abbrev pub offered : Option (Item F) × Bool → Option Db → MetricsQueue F → MetricsQueue F
  offered (none, fanout) db queue = queue
  offered (some item, fanout) db queue =
      if passes item db && fanout then put_nowait item queue else queue

  is_caught-passes :
      (c : StoreCall) → is_caught c ≡ elim c [ stored ↦ true | rpc_failed ↦ true | escaped ↦ false ]
  is_caught-passes stored = refl
  is_caught-passes rpc_failed = refl
  is_caught-passes escaped = refl

  called-passes :
      (item : Item F) (db : Option Db) → is_caught (called store item db).0 ≡ passes item db
  called-passes item none = refl
  called-passes item (some db) = is_caught-passes (store item db).0

  called-db_after :
      (item : Item F) (db : Option Db) → (called store item db).1 ≡ db_after (some item) db
  called-db_after item none = refl
  called-db_after item (some db) = refl

  fanned :
      (b : Bool) (item : Item F) (qs : List (MetricsQueue F)) (j : ℕ)
      → get_elem? (if b then put_all item qs else qs) j
        ≡ mapped (λ queue. if b then put_nowait item queue else queue) (get_elem? qs j)
  fanned true item qs j = put_all-get item qs j
  fanned false item qs j = sym (mapped_id (get_elem? qs j))

  emit_read-queue :
      (fanout : Bool) (item : Option (Item F)) (l : EventListener F Db) (j : ℕ)
      → get_elem? (emit_read store fanout item l).1.metrics_queues j
        ≡ mapped (offered (item, fanout) l.db_client) (get_elem? l.metrics_queues j)
  unfolding emit_read emit send_to_db
  emit_read-queue fanout none l j = sym (mapped_id (get_elem? l.metrics_queues j))
  emit_read-queue fanout (some item) l j =
      subst
        (λ b.
          get_elem? (if b && fanout then put_all item l.metrics_queues else l.metrics_queues) j
          ≡ mapped (offered (some item, fanout) l.db_client) (get_elem? l.metrics_queues j))
        (sym (called-passes item l.db_client))
        (fanned (passes item l.db_client && fanout) item l.metrics_queues j)

  emit_read-db :
      (fanout : Bool) (item : Option (Item F)) (l : EventListener F Db)
      → (emit_read store fanout item l).1.db_client ≡ db_after item l.db_client
  unfolding emit_read emit send_to_db
  emit_read-db fanout none l = refl
  emit_read-db fanout (some item) l = called-db_after item l.db_client

  emit_read_keeps_url :
      (fanout : Bool) (item : Option (Item F)) (l : EventListener F Db)
      → (emit_read store fanout item l).1.broker_url_redacted ≡ l.broker_url_redacted
  unfolding emit_read emit send_to_db
  emit_read_keeps_url fanout none l = refl
  emit_read_keeps_url fanout (some item) l = refl

module _ {F Db : Type 0} (O : Objects F) (count : Integer → ℕ)
    (store : Item F → Db → StoreCall × Db) where
  -- After an exception that leaves the handler the listener connects anew; its queues stay.
  unfoldable pub step : Step → EventListener F Db → EventListener F Db
  unfolding handle_event
  step (arrive now event) l = (handle_event O count store now event l).1
  step (take i) l = record l { metrics_queues = take_at i l.metrics_queues }

  unfoldable pub run : List Step → EventListener F Db → EventListener F Db
  unfolding step
  run [] l = l
  run (s ∷ rest) l = run rest (step s l)

  -- What the database and one queue do in a run, the other queues left out.
  unfoldable pub own_db : String → Step → Option Db → Option Db
  own_db url (arrive now event) db = db_after store (route O count now url event).0 db
  own_db url (take i) db = db

  unfoldable pub own_step : String → ℕ → Step → Option Db → MetricsQueue F → MetricsQueue F
  unfolding taken
  own_step url j (arrive now event) db = offered store (route O count now url event) db
  own_step url j (take i) db = taken (same_place i j)

  unfoldable pub own_run : String → ℕ → List Step → Option Db → MetricsQueue F → MetricsQueue F
  unfolding own_step own_db
  own_run url j [] db queue = queue
  own_run url j (s ∷ rest) db queue =
      own_run url j rest (own_db url s db) (own_step url j s db queue)

  step-queue :
      (s : Step) (l : EventListener F Db) (j : ℕ)
      → get_elem? (step s l).metrics_queues j
        ≡ mapped (own_step l.broker_url_redacted j s l.db_client) (get_elem? l.metrics_queues j)
  unfolding step own_step handle_event
  step-queue (take i) l j = take_at-get i l.metrics_queues j
  step-queue (arrive now event) l j =
      let r = route O count now l.broker_url_redacted event in emit_read-queue store r.1 r.0 l j

  step-db :
      (s : Step) (l : EventListener F Db)
      → (step s l).db_client ≡ own_db l.broker_url_redacted s l.db_client
  unfolding step own_db handle_event
  step-db (take i) l = refl
  step-db (arrive now event) l =
      let r = route O count now l.broker_url_redacted event in emit_read-db store r.1 r.0 l

  step_keeps_url :
      (s : Step) (l : EventListener F Db) → (step s l).broker_url_redacted ≡ l.broker_url_redacted
  unfolding step handle_event
  step_keeps_url (take i) l = refl
  step_keeps_url (arrive now event) l =
      let r = route O count now l.broker_url_redacted event in emit_read_keeps_url store r.1 r.0 l

  -- In any run a queue holds what it holds when it runs alone with the database: it is offered each
  -- record for the queues whose call of the database returns or ends in an RPC error, and none whose call
  -- ends in another error; neither a full queue nor a slow exporter changes what another queue receives.
  pub run-queue :
      (steps : List Step) (l : EventListener F Db) (j : ℕ)
      → get_elem? (run steps l).metrics_queues j
        ≡ mapped (own_run l.broker_url_redacted j steps l.db_client) (get_elem? l.metrics_queues j)
  unfolding run own_run
  run-queue [] l j = sym (mapped_id (get_elem? l.metrics_queues j))
  run-queue (s ∷ rest) l j =
      run-queue rest (step s l) j
      ∙ rw (step_keeps_url s l, step-db s l, step-queue s l j)
          (mapped-mapped
            (own_run l.broker_url_redacted j rest (own_db l.broker_url_redacted s l.db_client))
            (own_step l.broker_url_redacted j s l.db_client) (get_elem? l.metrics_queues j))
