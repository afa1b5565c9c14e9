-- ===== src/Store/Tasks/Final.antt =====
-- A stored state that is final stays final, and the last final event decides it.
use celery_cnc.Base.{
  ◌≡◌, refl, ◌∙◌, sym, ap, String, true, false, Option, none, some, List, [], ◌∷◌, arith,
}
use celery_cnc.Base.{◌==◌, string_eq, if◌then◌else◌, ==_cases, Bool-cases, inl, inr}
use mathlib.Core.Bool.{false≢true}
use mathlib.Core.Option.{none-ne-some, some-injective}
use celery_cnc.Schemas.{TaskEvent, Task}
use celery_cnc.Store.Table.{KeyedTable, LogTable}
use celery_cnc.Store.Tasks.{is_final, should_preserve_state, Db, get_task, store_all}
use celery_cnc.Store.Tasks.Merge.{merge_event, replay, get_task-store_all}

pending_not_final : (is_final "PENDING" ≡ false) × (is_final "RECEIVED" ≡ false)
unfolding is_final string_eq
pending_not_final = (refl, refl)

-- A final state is kept against an event that is not final.
pub preserve_final :
    (existing incoming : String)
    → is_final existing ≡ true
    → is_final incoming ≡ false
    → should_preserve_state existing incoming ≡ true
unfolding should_preserve_state
preserve_final existing incoming e i = ground arith

ne_of_final : (s t : String) → is_final t ≡ false → is_final s ≡ true → (s == t) ≡ false
ne_of_final s t ht hs = elim (==_cases s t) [
  | inl (p, e) ↦ absurd (false≢true (sym ht ∙ ap is_final (sym p) ∙ hs))
  | inr (n, e) ↦ e
]

-- An event that is final is never refused.
pub preserve_not_of_final :
    (existing incoming : String)
    → is_final incoming ≡ true
    → should_preserve_state existing incoming ≡ false
unfolding should_preserve_state
preserve_not_of_final existing incoming i = ground (
  arith,
  ne_of_final incoming "PENDING" pending_not_final.0 i,
  ne_of_final incoming "RECEIVED" pending_not_final.1 i,
)

module _ {F : Type 0} where
  pub state-merge_event :
      (row : Task F) (event : TaskEvent F)
      → (merge_event (some row) event).state
        ≡ (if should_preserve_state row.state event.state then row.state else event.state)
  unfolding merge_event
  state-merge_event row event = ground arith

  pub state-merge_event-none : (event : TaskEvent F) → (merge_event none event).state ≡ event.state
  unfolding merge_event
  state-merge_event-none event = refl

module _ {F : Type 0} (task_id : String) where
  -- The state of the last event of the task that is final.
  unfoldable pub last_final : Option String → List (TaskEvent F) → Option String
  last_final found [] = found
  last_final found (event ∷ rest) =
      last_final
        (if task_id == event.task_id
          then (if is_final event.state then some event.state else found)
          else found)
        rest

-- What is known of the row while `found` is the last final state so far.
abbrev Agrees : {F : Type 0} → Option String → Option (Task F) → Type 0
Agrees none row = Unit {0}
Agrees (some s) none = ⊥
Agrees (some s) (some row) = (row.state ≡ s) × (is_final s ≡ true)

module _ {F : Type 0} where
  merge_event-Agrees :
      (row : Option (Task F)) (event : TaskEvent F) (found : Option String)
      → Agrees found row
      → Agrees
          (if is_final event.state then some event.state else found)
          (some (merge_event row event))
  merge_event-Agrees none event none h = ground (arith, state-merge_event-none event)
  merge_event-Agrees none event (some s) h = absurd h
  merge_event-Agrees (some row) event none h =
      ground (arith, state-merge_event row event, preserve_not_of_final row.state event.state)
  merge_event-Agrees (some row) event (some s) h = ground (
    arith,
    state-merge_event row event,
    preserve_not_of_final row.state event.state,
    preserve_final row.state event.state,
    ap is_final h.0,
  )

  replay-Agrees :
      (task_id : String) (events : List (TaskEvent F)) (row : Option (Task F))
      (found : Option String)
      → Agrees found row
      → Agrees (last_final task_id found events) (replay task_id row events)
  unfolding last_final replay
  replay-Agrees task_id [] row found h = h
  replay-Agrees task_id (event ∷ rest) row found h = elim (Bool-cases (task_id == event.task_id)) [
    | inl t ↦ rw t (replay-Agrees task_id rest _ _ (merge_event-Agrees row event found h))
    | inr t ↦ rw t (replay-Agrees task_id rest row found h)
  ]

  last_final_known :
      (task_id : String) (events : List (TaskEvent F)) (s : String)
      → (t : String) × (last_final task_id (some s) events ≡ some t)
  unfolding last_final
  last_final_known task_id [] s = (s, refl)
  last_final_known task_id (event ∷ rest) s = elim (Bool-cases (task_id == event.task_id)) [
    | inl t ↦ elim (Bool-cases (is_final event.state)) [
      | inl f ↦ rw (t, f) (last_final_known task_id rest event.state)
      | inr f ↦ rw (t, f) (last_final_known task_id rest s)
    ]
    | inr t ↦ rw t (last_final_known task_id rest s)
  ]

  Agrees-row :
      (found : Option String) (row : Option (Task F)) (s : String)
      → Agrees found row
      → found ≡ some s
      → (r : Task F) × (row ≡ some r) × (r.state ≡ s) × (is_final r.state ≡ true)
  Agrees-row none row s h e = absurd (none-ne-some s e)
  Agrees-row (some t) none s h e = absurd h
  Agrees-row (some t) (some r) s h e = (r, refl, h.0 ∙ some-injective t s e, ap is_final h.0 ∙ h.1)

module _ {F : Type 0} (T : KeyedTable (Task F)) (L : LogTable (TaskEvent F)) where
  -- When some event of the task was final, the stored state is that of the last such event,
  -- whatever came before, between and after.
  pub last_final_wins :
      (db : Db T L) (events : List (TaskEvent F)) (task_id s : String)
      → last_final task_id none events ≡ some s
      → (row : Task F) × (get_task T L (store_all T L db events) task_id ≡ some row)
        × (row.state ≡ s)
  last_final_wins db events task_id s h =
      let before = get_task T L db task_id in
      let (row, e, state, final) =
        Agrees-row _ _ s (replay-Agrees task_id events before none tt) h in
      (row, get_task-store_all T L db events task_id ∙ e, state)

  -- A task whose stored state is final has a final state after any further events.
  pub final_absorbs :
      (db : Db T L) (events : List (TaskEvent F)) (task_id : String) (row : Task F)
      → get_task T L db task_id ≡ some row
      → is_final row.state ≡ true
      → (row' : Task F) × (get_task T L (store_all T L db events) task_id ≡ some row')
        × (is_final row'.state ≡ true)
  final_absorbs db events task_id row stored final =
      let (t, known) = last_final_known task_id events row.state in
      let (row', e, state, still) =
        Agrees-row _ _ t (replay-Agrees task_id events (some row) (some row.state) (refl, final))
          known in
      (row', get_task-store_all T L db events task_id ∙ rw stored e, still)
