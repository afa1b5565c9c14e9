-- ===== src/Rpc/Dispatch/Relations.antt =====
-- The edges that are stored with a task event.
use celery_cnc.Base.{
  ◌≡◌, refl, String, Option, none, some, List, [], ◌∷◌, ◌++◌, ◌==◌, string_eq, if◌then◌else◌,
  Bool-cases, inl, inr, sym,
}
use celery_cnc.Schemas.{TaskEvent, TaskRelation}
use celery_cnc.Rpc.Action.{Action, Result, ok, raised, pure, continue, ◌>>◌}
use celery_cnc.Rpc.Controller.{BaseDbController}
use celery_cnc.Rpc.Dispatch.{SqliteEngine, text_or, store_link, store_relations}

-- The edge from a parent, group or chord, if the event names one.
pub edges : String → String → Option String → String → List TaskRelation
edges root_id child_id none relation = []
edges root_id child_id (some id) relation =
    if id == ""
    then []
    else record { root_id = root_id; parent_id = some id; child_id = child_id; relation = relation }
      ∷ []

module _ {F : Type 0} where
  pub event_relations : TaskEvent F → List TaskRelation
  unfolding edges
  event_relations event =
      let root_id = text_or event.root_id event.task_id in
      edges root_id event.task_id event.parent_id "parent"
      ++ (edges root_id event.task_id event.group_id "group"
          ++ edges root_id event.task_id event.chord_id "chord")

module _ {F S : Type 0} (controller : BaseDbController F S) (sqlite : Option (SqliteEngine S)) where
  -- The edges one after another, up to the first exception.
  pub store_each : List TaskRelation → Action S (Unit {0})
  store_each [] = pure tt
  store_each (r ∷ rs) = do controller.store_task_relation r; store_each rs

  alone : (x : Result (Unit {0}) × S) → continue x.0 (λ _. pure {S = S} (tt {0})) x.1 ≡ x
  alone (ok tt, s) = refl
  alone (raised e, s) = refl

  then_each :
      (x : Result (Unit {0}) × S) (ys : List TaskRelation) (n : Action S (Unit {0}))
      → ((s : S) → n s ≡ store_each ys s)
      → continue x.0 (λ _. n) x.1 ≡ continue x.0 (λ _. store_each ys) x.1
  then_each (ok tt, s) ys n h = h s
  then_each (raised e, s) ys n h = refl

  store_link-edges :
      (root_id child_id : String) (id : Option String) (relation : String) (ys : List TaskRelation)
      (n : Action S (Unit {0}))
      → ((s : S) → n s ≡ store_each ys s)
      → (s : S)
      → (store_link controller sqlite root_id child_id id relation >> n) s
        ≡ store_each (edges root_id child_id id relation ++ ys) s
  unfolding store_link edges store_each
  store_link-edges root_id child_id none relation ys n h s = h s
  store_link-edges root_id child_id (some id) relation ys n h s = elim (Bool-cases (id == "")) [
    | inl e ↦ rw e (h s)
    | inr e ↦ rw e (
        then_each
          (controller.store_task_relation
            (record {
              root_id = root_id;
              parent_id = some id;
              child_id = child_id;
              relation = relation;
            })
            s)
          ys n h)
  ]

  last_link :
      (root_id child_id : String) (id : Option String) (relation : String) (s : S)
      → store_link controller sqlite root_id child_id id relation s
        ≡ store_each (edges root_id child_id id relation) s
  unfolding store_link edges store_each
  last_link root_id child_id none relation s = refl
  last_link root_id child_id (some id) relation s = elim (Bool-cases (id == "")) [
    | inl e ↦ rw e refl
    | inr e ↦ rw e (
        sym (
          alone (
            controller.store_task_relation
              (record {
                root_id = root_id;
                parent_id = some id;
                child_id = child_id;
                relation = relation;
              })
              s)))
  ]

  -- The edges that are stored with an event are those of its parent, group and chord, in this order, from
  -- its root, or itself where it has none; a name that is empty gives no edge.
  pub store_relations-event_relations :
      (event : TaskEvent F) (db : S)
      → store_relations controller sqlite event db ≡ store_each (event_relations event) db
  unfolding store_relations event_relations
  store_relations-event_relations event db =
      let root_id = text_or event.root_id event.task_id in
      let chord = edges root_id event.task_id event.chord_id "chord" in
      store_link-edges root_id event.task_id event.parent_id "parent"
        (edges root_id event.task_id event.group_id "group" ++ chord)
        (store_link controller sqlite root_id event.task_id event.group_id "group"
          >> store_link controller sqlite root_id event.task_id event.chord_id "chord")
        (store_link-edges root_id event.task_id event.group_id "group" chord
          (store_link controller sqlite root_id event.task_id event.chord_id "chord")
          (last_link root_id event.task_id event.chord_id "chord"))
        db
