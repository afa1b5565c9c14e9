-- ===== src/Listener/Routes.antt =====
-- Which records reach the queues, and how full they get.
use celery_cnc.Base.{
  ℕ, suc, ◌≤◌, Bool, true, false, Option, none, some, List, [], ◌∷◌, ◌++◌, length, length-append,
  arith, All,
}
use celery_cnc.Base.{ltb, ◌==◌, string_eq, Bool-cases, inl, inr, String}
use package.text.Mathlib.Text.{starts_with}
use celery_cnc.Value.{Fields, Integer, truthy, or_value, get}
use celery_cnc.Schemas.{Datetime}
use celery_cnc.Listener.{
  Item, task_relation, task_event, worker_event, MetricsQueue, EventListener, put_nowait, put_all,
  StoreCall, is_caught, called, send_to_db, emit, emit_read, route, handle_event, read_task_event,
  read_worker_event, read_task_relation, event_type_of,
}
use celery_cnc.Listener.Parse.{Objects}
use celery_cnc.Listener.Queues.{Step, arrive, take, step, run, drop_first, take_at}

module _ {F : Type 0} where
  -- A relation between tasks is for the database alone.
  abbrev pub IsMetric : Item F → Type 0
  IsMetric (task_event e) = Unit {0}
  IsMetric (worker_event e) = Unit {0}
  IsMetric (task_relation r) = ⊥

  -- A queue holds at most `maxsize` records, and none of them is a relation.
  pub record IsValidQueue (queue : MetricsQueue F) : Type 0 where
    pub bounded : length queue.items ≤ queue.maxsize
    pub metric : All IsMetric queue.items

  abbrev pub AllValid : List (MetricsQueue F) → Type 0
  AllValid = All IsValidQueue

  All-append_one :
      (xs : List (Item F)) (x : Item F)
      → All IsMetric xs
      → IsMetric x
      → All IsMetric (xs ++ (x ∷ []))
  All-append_one [] x h m = (m, tt)
  All-append_one (y ∷ xs) x (a, h) m = (a, All-append_one xs x h m)

  put_nowait-IsValidQueue :
      (item : Item F) (q : MetricsQueue F)
      → IsMetric item
      → IsValidQueue q
      → IsValidQueue (put_nowait item q)
  unfolding put_nowait
  put_nowait-IsValidQueue item q m h = elim (Bool-cases (ltb (length q.items) q.maxsize)) [
    | inl t ↦ rw t (record {
      bounded = ground (arith, length-append q.items (item ∷ []));
      metric = All-append_one q.items item h.metric m;
    })
    | inr t ↦ rw t h
  ]

  put_all-AllValid :
      (item : Item F) (qs : List (MetricsQueue F))
      → IsMetric item
      → AllValid qs
      → AllValid (put_all item qs)
  unfolding put_all
  put_all-AllValid item [] m h = tt
  put_all-AllValid item (q ∷ qs) m (a, h) =
      (put_nowait-IsValidQueue item q m a, put_all-AllValid item qs m h)

  drop_first_valid :
      (xs : List (Item F)) (n : ℕ)
      → length xs ≤ n
      → All IsMetric xs
      → (length (drop_first xs) ≤ n) × All IsMetric (drop_first xs)
  drop_first_valid [] n b m = (b, m)
  drop_first_valid (x ∷ xs) n b (a, m) = (omega (arith, b), m)

  take_at-AllValid : (i : ℕ) (qs : List (MetricsQueue F)) → AllValid qs → AllValid (take_at i qs)
  take_at-AllValid i [] h = tt
  take_at-AllValid ℕ.zero (q ∷ qs) (a, h) =
      let (b, m) = drop_first_valid q.items q.maxsize a.bounded a.metric in
      (record { bounded = b; metric = m }, h)
  take_at-AllValid (suc i) (q ∷ qs) (a, h) = (a, take_at-AllValid i qs h)

  -- What may be offered to the queues.
  abbrev IsRouted : Option (Item F) → Bool → Type 0
  IsRouted none fanout = Unit {0}
  IsRouted (some item) true = IsMetric item
  IsRouted (some item) false = Unit {0}

  IsRouted-not_fanned : (item : Option (Item F)) → IsRouted item false
  IsRouted-not_fanned none = tt
  IsRouted-not_fanned (some item) = tt

module _ {F Db : Type 0} (O : Objects F) (count : Integer → ℕ)
    (store : Item F → Db → StoreCall × Db) where
  read_task_event-IsRouted :
      (now : Datetime) (t : String) (event : Fields)
      → IsRouted (read_task_event O count now t event) true
  unfolding read_task_event
  read_task_event-IsRouted now t event =
      elim (Bool-cases (truthy (or_value (get "uuid" event) (get "id" event)))) [
        | inl h ↦ rw h tt
        | inr h ↦ rw h tt
      ]

  read_worker_event-IsRouted :
      (now : Datetime) (url t : String) (event : Fields)
      → IsRouted (read_worker_event O count now url t event) true
  unfolding read_worker_event
  read_worker_event-IsRouted now url t event = elim (Bool-cases (truthy (get "hostname" event))) [
    | inl h ↦ rw h tt
    | inr h ↦ rw h tt
  ]

  route-IsRouted :
      (now : Datetime) (url : String) (event : Fields)
      → IsRouted (route O count now url event).0 (route O count now url event).1
  unfolding route
  route-IsRouted now url event =
      let t = event_type_of O count event in
      elim (Bool-cases (t == "task-relation")) [
        | inl h ↦ rw h (IsRouted-not_fanned (read_task_relation O count event))
        | inr h ↦ elim (Bool-cases (starts_with t "task-")) [
          | inl g ↦ rw (h, g) (read_task_event-IsRouted now t event)
          | inr g ↦ elim (Bool-cases (starts_with t "worker-")) [
            | inl k ↦ rw (h, g, k) (read_worker_event-IsRouted now url t event)
            | inr k ↦ rw (h, g, k) tt
          ]
        ]
      ]

  emit_read-AllValid :
      (fanout : Bool) (item : Option (Item F)) (l : EventListener F Db)
      → IsRouted item fanout
      → AllValid l.metrics_queues
      → AllValid (emit_read store fanout item l).1.metrics_queues
  unfolding emit_read emit send_to_db
  emit_read-AllValid fanout none l r h = h
  emit_read-AllValid true (some item) l r h =
      elim (Bool-cases (is_caught (called store item l.db_client).0)) [
        | inl t ↦ rw t (put_all-AllValid item l.metrics_queues r h)
        | inr t ↦ rw t h
      ]
  emit_read-AllValid false (some item) l r h =
      elim (Bool-cases (is_caught (called store item l.db_client).0)) [
        | inl t ↦ rw t h
        | inr t ↦ rw t h
      ]

  step-AllValid :
      (s : Step) (l : EventListener F Db)
      → AllValid l.metrics_queues
      → AllValid (step O count store s l).metrics_queues
  unfolding step handle_event
  step-AllValid (arrive now event) l h =
      let r = route O count now l.broker_url_redacted event in
      emit_read-AllValid r.1 r.0 l (route-IsRouted now l.broker_url_redacted event) h
  step-AllValid (take i) l h = take_at-AllValid i l.metrics_queues h

  -- Where it holds at the start, then after any run no queue holds more records than its size, and
  -- no queue holds a relation between tasks.
  pub run-AllValid :
      (steps : List Step) (l : EventListener F Db)
      → AllValid l.metrics_queues
      → AllValid (run O count store steps l).metrics_queues
  unfolding run
  run-AllValid [] l h = h
  run-AllValid (s ∷ rest) l h = run-AllValid rest (step O count store s l) (step-AllValid s l h)
