-- ===== src/Store/Tasks/Lifecycle.antt =====
-- Within the normal life of a task (sent, received, started, ended) the order in which its events
-- arrive does not matter for how far the stored state has come.
use celery_cnc.Base.{
  ℕ, ◌≡◌, refl, ◌∙◌, ap, String, Bool, true, false, Option, none, some, List, [], ◌∷◌, arith, max,
}
use celery_cnc.Base.{
  ◌==◌, string_eq, nat_eq, if◌then◌else◌, Bool-cases, contains, inl, inr, All, all_of,
  all_of-contains, ltb,
}
use celery_cnc.Schemas.{TaskEvent, Task}
use celery_cnc.Store.Table.{KeyedTable, LogTable}
use celery_cnc.Store.Tasks.{is_final, should_preserve_state, Db, get_task, store_all}
use celery_cnc.Store.Tasks.Merge.{merge_event, replay, get_task-store_all}
use celery_cnc.Store.Tasks.Final.{state-merge_event, state-merge_event-none}

-- The states of that life; RETRY, REJECTED and custom states stand outside it.
abbrev pub lifecycle : List String
lifecycle = "PENDING" ∷ "RECEIVED" ∷ "STARTED" ∷ "SUCCESS" ∷ "FAILURE" ∷ "REVOKED" ∷ []

-- How far a state is in it.
unfoldable pub rank : String → ℕ
unfolding is_final
rank s =
    if s == "PENDING"
    then 1
    else if s == "RECEIVED"
    then 2
    else if s == "STARTED"
    then 3
    else if is_final s
    then 4
    else 0

abbrev bool_eq : Bool → Bool → Bool
bool_eq true b = b
bool_eq false true = false
bool_eq false false = true

bool_eq_sound : (a b : Bool) → bool_eq a b ≡ true → a ≡ b
bool_eq_sound a b h = ground arith

preserve_table :
    all_of
      (λ e. all_of (λ i. bool_eq (should_preserve_state e i) (ltb (rank i) (rank e))) lifecycle)
      lifecycle
    ≡ true
unfolding all_of should_preserve_state is_final rank string_eq
preserve_table = refl

-- Between two states of the life, the stored one is kept exactly if it is further.
pub preserve_by_rank :
    (existing incoming : String)
    → contains lifecycle existing ≡ true
    → contains lifecycle incoming ≡ true
    → should_preserve_state existing incoming ≡ ltb (rank incoming) (rank existing)
preserve_by_rank existing incoming e i =
    bool_eq_sound _ _ (
      all_of-contains _ lifecycle incoming (all_of-contains _ lifecycle existing preserve_table e)
        i)

module _ {F : Type 0} where
  -- The stage of a row, 0 if there is none.
  abbrev pub stage : Option (Task F) → ℕ
  stage none = 0
  stage (some row) = rank row.state

  abbrev pub IsRegular : Option (Task F) → Type 0
  IsRegular none = Unit {0}
  IsRegular (some row) = contains lifecycle row.state ≡ true

  -- The furthest stage among the events of the task, from the stage `n` on.
  unfoldable pub furthest : String → ℕ → List (TaskEvent F) → ℕ
  furthest task_id n [] = n
  furthest task_id n (event ∷ rest) =
      furthest task_id (if task_id == event.task_id then max n (rank event.state) else n) rest

  -- The events of the task report states of the normal life.
  abbrev pub StaysRegular : String → List (TaskEvent F) → Type 0
  StaysRegular task_id events =
      All (λ event. (task_id == event.task_id) ≡ true → contains lifecycle event.state ≡ true)
        events

  stage-merge_event :
      (row : Option (Task F)) (event : TaskEvent F)
      → IsRegular row
      → contains lifecycle event.state ≡ true
      → (rank (merge_event row event).state ≡ max (stage row) (rank event.state))
        × (contains lifecycle (merge_event row event).state ≡ true)
  stage-merge_event none event r i = rw state-merge_event-none (omega arith, i)
  stage-merge_event (some row) event r i =
      rw (state-merge_event, preserve_by_rank row.state event.state r i)
        (elim (Bool-cases (ltb (rank event.state) (rank row.state))) [
          | inl less ↦ rw less (ground arith, r)
          | inr more ↦ rw more (ground arith, i)
        ])

  stage-replay :
      (task_id : String) (events : List (TaskEvent F)) (row : Option (Task F))
      → IsRegular row
      → StaysRegular task_id events
      → stage (replay task_id row events) ≡ furthest task_id (stage row) events
  unfolding replay furthest
  stage-replay task_id [] row r h = refl
  stage-replay task_id (event ∷ rest) row r (i, h) = elim (Bool-cases (task_id == event.task_id)) [
    | inl t ↦
        let (e, keep) = stage-merge_event row event r (i t) in
        rw t (stage-replay task_id rest (some (merge_event row event)) keep h ∙ rw e)
    | inr t ↦ rw t (stage-replay task_id rest row r h)
  ]

-- Where the stored state of a task, if any, and the states of its own events in a run lie in the
-- normal life, whatever events of other tasks lie between them: the stored state has come exactly as
-- far as the furthest of these, in whatever order the events arrive.
pub stage-store_all :
    {F : Type 0} (T : KeyedTable (Task F)) (L : LogTable (TaskEvent F)) (db : Db T L)
    (events : List (TaskEvent F)) (task_id : String)
    → IsRegular (get_task T L db task_id)
    → StaysRegular task_id events
    → stage (get_task T L (store_all T L db events) task_id)
      ≡ furthest task_id (stage (get_task T L db task_id)) events
stage-store_all T L db events task_id r h =
    ap stage (get_task-store_all T L db events task_id)
    ∙ stage-replay task_id events (get_task T L db task_id) r h
