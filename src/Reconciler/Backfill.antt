-- ===== src/Reconciler/Backfill.antt =====
-- What the reconciler takes up and writes back of the tasks.
use celery_cnc.Base.{
  ℕ, ◌≡◌, refl, sym, subst, ap, true, Option, none, some, List, [], ◌∷◌, String, Distinct, contains,
  ◌⊎◌, inl, inr,
}
use celery_cnc.Base.{if◌then◌else◌, ◌==◌, string_eq, Bool-cases, Option-cases}
use mathlib.Core.Option.{none-ne-some, some-injective}
use celery_cnc.Base.Dict.{Dict, keys, values, insert, insert-Distinct}
use celery_cnc.Schemas.{Task}
use celery_cnc.Value.{
  Fields, null, boolean, integer, text, list, tuple, set, mapping, object, get, is_null,
}
use celery_cnc.Listener.Parse.{Objects}
use celery_cnc.Reconciler.{
  App, Reply, no_reply, reply, reconciled_states, final_state, status_text, find_final_meta,
  taken_reply, non_final_states,
}
use celery_cnc.Reconciler.Process.{
  Database, Reconciler, collect_batch, collect_tasks, refresh_tasks,
}

abbrev pub task_ids : {F : Type 0} → List (Task F) → List String
task_ids [] = []
task_ids (task ∷ rest) = task.task_id ∷ task_ids rest

module _ {F : Type 0} where
  -- Every task stands under its own id.
  abbrev IsFiled : Dict String (Task F) → Type 0
  IsFiled [] = Unit
  IsFiled ((k, t) ∷ rest) = (k ≡ t.task_id) × IsFiled rest

  keys-IsFiled :
      (tasks : Dict String (Task F)) → IsFiled tasks → keys tasks ≡ task_ids (values tasks)
  unfolding keys values
  keys-IsFiled [] h = refl
  keys-IsFiled ((k, t) ∷ rest) (e, h) = λ i. e i ∷ keys-IsFiled rest h i

  insert-IsFiled :
      (t : Task F) (tasks : Dict String (Task F))
      → IsFiled tasks
      → IsFiled (insert t.task_id t tasks)
  unfolding insert
  insert-IsFiled t [] h = (refl, tt)
  insert-IsFiled t ((k, u) ∷ rest) (e, h) = elim (Bool-cases (t.task_id == k)) [
    | inl y ↦
        subst (λ b. IsFiled (if b then (t.task_id, t) ∷ rest else (k, u) ∷ insert t.task_id t rest))
          (sym y) (refl, h)
    | inr n ↦
        subst (λ b. IsFiled (if b then (t.task_id, t) ∷ rest else (k, u) ∷ insert t.task_id t rest))
          (sym n) (e, insert-IsFiled t rest h)
  ]

  record IsIndexed (tasks : Dict String (Task F)) : Type 0 where
    single : Distinct (keys tasks)
    filed : IsFiled tasks

  collect_batch-IsIndexed :
      (batch : List (Task F)) (tasks : Dict String (Task F))
      → IsIndexed tasks
      → IsIndexed (collect_batch batch tasks)
  unfolding collect_batch
  collect_batch-IsIndexed [] tasks h = h
  collect_batch-IsIndexed (t ∷ rest) tasks h =
      collect_batch-IsIndexed rest (insert t.task_id t tasks) (record {
        single = insert-Distinct t.task_id t tasks h.single;
        filed = insert-IsFiled t tasks h.filed;
      })

module _ {F S : Type 0} (D : Database F S) where
  collect_tasks-IsIndexed :
      (states : List String) (db : S) (tasks : Dict String (Task F))
      → IsIndexed tasks
      → IsIndexed (collect_tasks D states db tasks)
  unfolding collect_tasks
  collect_tasks-IsIndexed [] db tasks h = h
  collect_tasks-IsIndexed (s ∷ states) db tasks h =
      collect_tasks-IsIndexed states db
        (elim (D.get_tasks s db) [ none ↦ tasks | some batch ↦ collect_batch batch tasks ])
        (elim (D.get_tasks s db)
          as (λ o.
            IsIndexed {F = F} (elim o [ none ↦ tasks | some batch ↦ collect_batch batch tasks ])) [
              | none ↦ h
              | some batch ↦ collect_batch-IsIndexed batch tasks h
            ])

  -- A refresh takes up every task at most once, even one that changed its state between the calls.
  pub refresh_tasks-Distinct :
      (later : ℕ) (db : S) (r : Reconciler F)
      → Distinct (task_ids (refresh_tasks D later db r).task_queue)
  unfolding refresh_tasks keys
  refresh_tasks-Distinct later db r =
      let h = collect_tasks-IsIndexed non_final_states db [] (record { single = tt; filed = tt }) in
      subst Distinct (keys-IsFiled (collect_tasks D non_final_states db []) h.filed) h.single

-- Some app's backend answers so for the task.
abbrev pub IsReported : List App → String → Fields → Type 0
IsReported [] task_id meta = ⊥
IsReported (app ∷ apps) task_id meta =
    (app.get_task_meta task_id ≡ reply (mapping meta)) ⊎ IsReported apps task_id meta

module _ {F : Type 0} (O : Objects F) where
  final_state-status :
      (meta : Fields) (status : String)
      → final_state O meta ≡ some status
      → (contains reconciled_states status ≡ true) × (status_text O (get "status" meta) ≡ status)
  unfolding final_state
  final_state-status meta status h = elim (Bool-cases (is_null (get "status" meta))) [
    | inl t ↦ elim (none-ne-some status (rw t at h)) [ ]
    | inr t ↦ elim (Bool-cases (contains reconciled_states (status_text O (get "status" meta)))) [
      | inl m ↦
          let e = some-injective (status_text O (get "status" meta)) status (rw (t, m) at h) in
          (subst (λ s. contains reconciled_states s ≡ true) e m, e)
      | inr m ↦ elim (none-ne-some status (rw (t, m) at h)) [ ]
    ]
  ]

  found_in :
      (answer : Reply) (others : Option (Fields × String)) (meta : Fields) (status : String)
      → taken_reply O answer others ≡ some (meta, status)
      → ((answer ≡ reply (mapping meta)) × (final_state O meta ≡ some status))
        ⊎ (others ≡ some (meta, status))
  unfolding taken_reply
  found_in no_reply others meta status h = inr h
  found_in (reply (mapping m)) others meta status h = elim (Option-cases (final_state O m)) [
    | inl e ↦ inr (rw (taken_reply, e) at h)
    | inr (s, e) ↦
        let p = some-injective (m, s) (meta, status) (rw (taken_reply, e) at h) in
        inl (ap (λ q. reply (mapping (q.0))) p, subst (λ q. final_state O q.0 ≡ some q.1) p e)
  ]
  found_in (reply null) others meta status h = inr h
  found_in (reply (boolean b)) others meta status h = inr h
  found_in (reply (integer b)) others meta status h = inr h
  found_in (reply (text b)) others meta status h = inr h
  found_in (reply (list b)) others meta status h = inr h
  found_in (reply (tuple b)) others meta status h = inr h
  found_in (reply (set b)) others meta status h = inr h
  found_in (reply (object b)) others meta status h = inr h

  -- What the reconciler writes back for a task is what some app's backend says of it, and is final.
  pub find_final_meta-IsReported :
      (apps : List App) (task_id : String) (meta : Fields) (status : String)
      → find_final_meta O apps task_id ≡ some (meta, status)
      → IsReported apps task_id meta
        × (contains reconciled_states status ≡ true)
        × (status_text O (get "status" meta) ≡ status)
  unfolding find_final_meta
  find_final_meta-IsReported [] task_id meta status h = elim (none-ne-some (meta, status) h) [ ]
  find_final_meta-IsReported (app ∷ apps) task_id meta status h =
      elim (found_in (app.get_task_meta task_id) (find_final_meta O apps task_id) meta status h) [
        | inl (told, final) ↦
            let (reconciled, same) = final_state-status meta status final in
            (inl told, reconciled, same)
        | inr later ↦
            let (told, reconciled, same) =
              find_final_meta-IsReported apps task_id meta status later in
            (inr told, reconciled, same)
      ]
