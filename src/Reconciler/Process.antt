-- ===== src/Reconciler/Process.antt =====
-- celery_root/core/reconciler.py, the class Reconciler: its state and the three kinds of turn. The
-- database is a state `S` with the remote calls as functions, `none` where a call raised.
use celery_cnc.Base.{
  ℕ, suc, ◌-◌, ◌%◌, String, Bool, ◌||◌, Option, none, some, List, [], ◌∷◌, length, map,
}
use celery_cnc.Base.{◌==◌, string_eq, if◌then◌else◌, leb, get_elem?, is_empty}
use celery_cnc.Base.Dict.{Dict, insert, values}
use celery_cnc.Value.{Integer}
use celery_cnc.Schemas.{Datetime, Task, TaskEvent, WorkerEvent, BrokerQueueEvent}
use celery_cnc.Listener.Parse.{Objects}
use celery_cnc.Reconciler.{
  App, QueueInfo, inspect_worker, build_worker_event, find_final_meta, task_event_from_meta,
  non_final_states, worker_refresh_seconds, task_refresh_seconds,
}

pub record Database (F S : Type 0) : Type 0 where
  -- The hostnames of the workers.
  pub get_workers : S → Option (List String)
  pub get_tasks : String → S → Option (List (Task F))
  pub store_worker_event : WorkerEvent → S → Option S
  pub store_broker_queue_event : BrokerQueueEvent → S → Option S
  pub store_task_event : TaskEvent F → S → Option S

pub record Reconciler (F : Type 0) : Type 0 where
  pub worker_names : List String
  pub worker_index : ℕ
  pub broker_index : ℕ
  pub task_queue : List (Task F)
  pub task_refresh_at : ℕ
  pub worker_refresh_at : ℕ
  pub round_robin_index : ℕ

abbrev pub or_else : {A : Type 0} → Option A → A → A
or_else none a = a
or_else (some b) a = b

-- `xs[i % len(xs)]`
unfoldable pub pick : {A : Type 0} → List A → ℕ → Option A
pick [] i = none
pick (x ∷ xs) i = get_elem? (x ∷ xs) (i % length (x ∷ xs))

-- `registry.get_app`
unfoldable pub find_app : String → List App → Option App
find_app name [] = none
find_app name (app ∷ apps) =
    let found = find_app name apps in if name == app.name then some app else found

module _ {F : Type 0} where
  unfoldable pub should_refresh_workers : ℕ → Reconciler F → Bool
  should_refresh_workers now r =
      leb worker_refresh_seconds (now - r.worker_refresh_at) || is_empty r.worker_names

  -- `_next_worker_name`; the index is counted up where there is a worker.
  unfoldable pub next_worker_name : Reconciler F → Option String × Reconciler F
  unfolding pick
  next_worker_name r =
      if is_empty r.worker_names
      then (none, r)
      else (pick r.worker_names r.worker_index, record r { worker_index = suc r.worker_index })

  -- The dict of tasks by their ids, a later one in the place of an earlier one.
  unfoldable pub collect_batch : List (Task F) → Dict String (Task F) → Dict String (Task F)
  unfolding insert
  collect_batch [] tasks = tasks
  collect_batch (task ∷ rest) tasks = collect_batch rest (insert task.task_id task tasks)

module _ {F S : Type 0} (D : Database F S) where
  open D use {
    get_workers, get_tasks, store_worker_event, store_broker_queue_event, store_task_event,
  }

  -- `later` is the clock after the call.
  unfoldable pub refresh_workers : ℕ → S → Reconciler F → Reconciler F
  refresh_workers later db r = elim (get_workers db) [
    | none ↦ r
    | some hostnames ↦ record r {
      worker_names = hostnames;
      worker_refresh_at = later;
      worker_index = 0;
    }
  ]

  unfoldable pub collect_tasks : List String → S → Dict String (Task F) → Dict String (Task F)
  unfolding collect_batch
  collect_tasks [] db tasks = tasks
  collect_tasks (state ∷ states) db tasks =
      collect_tasks states db
        (elim (get_tasks state db) [ none ↦ tasks | some batch ↦ collect_batch batch tasks ])

  unfoldable pub refresh_tasks : ℕ → S → Reconciler F → Reconciler F
  unfolding collect_tasks values
  refresh_tasks later db r = record r {
    task_queue = values (collect_tasks non_final_states db []);
    task_refresh_at = later;
  }

  -- The worker that a turn looks at, after a refresh where one is due.
  unfoldable pub choose_worker : ℕ → ℕ → S → Reconciler F → Option String × Reconciler F
  unfolding should_refresh_workers refresh_workers next_worker_name
  choose_worker now later db r =
      next_worker_name (if should_refresh_workers now r then refresh_workers later db r else r)

  unfoldable pub store_queues : Datetime → String → List QueueInfo → S → S
  store_queues at broker_url [] db = db
  store_queues at broker_url (queue ∷ rest) db = store_queues at broker_url rest (
      or_else
        (store_broker_queue_event
          (record {
            broker_url = broker_url;
            queue = queue.name;
            messages = queue.messages;
            consumers = queue.consumers;
            timestamp = at;
          })
          db)
        db)

  module _ (O : Objects F) (count : Option Integer → Option ℕ) (apps : List App) where
    unfoldable pub poll_worker_stats : ℕ → ℕ → Datetime → Reconciler F × S → Reconciler F × S
    unfolding choose_worker inspect_worker build_worker_event
    poll_worker_stats now later at (r, db) =
        let (chosen, s) = choose_worker now later db r in
        if is_empty apps then (r, db) else elim chosen [
          | none ↦ (s, db)
          | some hostname ↦ elim (build_worker_event O at hostname (inspect_worker apps hostname)) [
            | none ↦ (s, db)
            | some event ↦ (s, or_else (store_worker_event event db) db)
          ]
        ]

    unfoldable pub poll_broker_stats : Datetime → Reconciler F × S → Reconciler F × S
    unfolding pick find_app store_queues
    poll_broker_stats at (r, db) = elim (pick (map (λ a. a.name) apps) r.broker_index) [
      | none ↦ (r, db)
      | some app_name ↦
          let s = record r { broker_index = suc r.broker_index } in
          elim (find_app app_name apps) [
            | none ↦ (s, db)
            | some app ↦ elim app.list_queues [
              | none ↦ (s, db)
              | some queues ↦ (
                s,
                store_queues at
                    (if app.broker_url == "" then app.broker_url else O.redact_url app.broker_url)
                    queues db,
              )
            ]
          ]
    ]

    unfoldable pub due_tasks : ℕ → ℕ → S → Reconciler F → Reconciler F
    unfolding refresh_tasks
    due_tasks now later db r =
        if leb task_refresh_seconds (now - r.task_refresh_at) || is_empty r.task_queue
        then refresh_tasks later db r
        else r

    unfoldable pub reconcile_task_states : ℕ → ℕ → Datetime → Reconciler F × S → Reconciler F × S
    unfolding due_tasks find_final_meta task_event_from_meta
    reconcile_task_states now later at (r, db) =
        let due = due_tasks now later db r in
        if is_empty apps then (r, db) else elim due.task_queue [
          | [] ↦ (due, db)
          | task ∷ rest ↦
              let popped = record due { task_queue = rest } in
              elim (find_final_meta O apps task.task_id) [
                | none ↦ (popped, db)
                | some (meta, status) ↦ (
                  popped,
                  or_else (store_task_event (task_event_from_meta O count at task status meta) db)
                      db,
                )
              ]
        ]

    -- One round of the loop in `run`.
    unfoldable pub turn : ℕ → ℕ → Datetime → Reconciler F × S → Reconciler F × S
    unfolding poll_worker_stats poll_broker_stats reconcile_task_states
    turn now later at (r, db) =
        let next : Reconciler F = record r { round_robin_index = suc r.round_robin_index % 3 } in
        if leb 2 r.round_robin_index
        then reconcile_task_states now later at (next, db)
        else if leb 1 r.round_robin_index
        then poll_broker_stats at (next, db)
        else poll_worker_stats now later at (next, db)
