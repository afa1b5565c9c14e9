-- ===== src/Retry/Send.antt =====
-- From the stored relations to the requests that are sent.
use mathlib.Core.List.{append-nil, append_assoc}
use celery_cnc.Base.{
  ◌≡◌, refl, ◌∙◌, sym, ap, String, Option, none, some, List, [], ◌∷◌, ◌++◌, map, inl, inr,
}
use celery_cnc.Base.{◌==◌, string_eq, if◌then◌else◌, Option-cases, Bool-cases, ==_cases}
use celery_cnc.Base.Dict.{lookup, insert, lookup-insert}
use celery_cnc.Schemas.{Task, TaskRelation}
use celery_cnc.Value.{Value}
use celery_cnc.Retry.{
  Adjacency, children, add_relation, add_relations, build_adjacency, descendants_bfs, Request, done,
  request_of, send_all, root_of, smart_retry,
}
use celery_cnc.Retry.Requests.{IsRoot, Sent, requests, root_of-IsRoot, requests-Sent}
use celery_cnc.Retry.Loop.{descendants_bfs_returns}

-- The child that a relation names for a task, and those that the relations name, in their order.
unfoldable pub own_child : String → TaskRelation → List String
own_child u relation = elim relation.parent_id [
  | none ↦ []
  | some parent ↦ if u == parent then relation.child_id ∷ [] else []
]

unfoldable pub children_of : String → List TaskRelation → List String
unfolding own_child
children_of u [] = []
children_of u (relation ∷ rest) = own_child u relation ++ children_of u rest

children-insert :
    (u parent : String) (targets : List String) (adjacency : Adjacency)
    → children (insert parent targets adjacency) u
      ≡ (if u == parent then targets else children adjacency u)
unfolding children
children-insert u parent targets adjacency = elim (Bool-cases (u == parent)) [
  | inl t ↦ rw (lookup-insert, t)
  | inr t ↦ rw (lookup-insert, t)
]

children-append_child :
    (u parent child : String) (adjacency : Adjacency)
    → children (insert parent (children adjacency parent ++ child ∷ []) adjacency) u
      ≡ children adjacency u ++ (if u == parent then child ∷ [] else [])
children-append_child u parent child adjacency = elim (==_cases u parent) [
  | inl (p, t) ↦ rw (children-insert, t, p)
  | inr (n, t) ↦ rw (children-insert, t) (sym (append-nil _))
]

children-add_relation :
    (u : String) (relation : TaskRelation) (adjacency : Adjacency)
    → children (add_relation adjacency relation) u ≡ children adjacency u ++ own_child u relation
unfolding add_relation own_child
children-add_relation u relation adjacency = elim (Option-cases relation.parent_id) [
  | inl e ↦ rw (e, add_relation, own_child) (sym (append-nil _))
  | inr (parent, e) ↦
      rw (e, add_relation, own_child) (children-append_child u parent relation.child_id adjacency)
]

children-add_relations :
    (u : String) (relations : List TaskRelation) (adjacency : Adjacency)
    → children (add_relations adjacency relations) u
      ≡ children adjacency u ++ children_of u relations
unfolding add_relations children_of
children-add_relations u [] adjacency = sym (append-nil _)
children-add_relations u (relation ∷ rest) adjacency =
    children-add_relations u rest (add_relation adjacency relation)
    ∙ ap (λ old. old ++ children_of u rest) (children-add_relation u relation adjacency)
    ∙ append_assoc (children adjacency u) (own_child u relation) (children_of u rest)

-- The adjacency lists of a task hold the children that the relations name for it, in the order of
-- the relations; relations without a parent add nothing.
pub build_adjacency-children :
    (u : String) (relations : List TaskRelation)
    → children (build_adjacency relations) u ≡ children_of u relations
unfolding build_adjacency
build_adjacency-children u relations =
    children-add_relations u relations [] ∙ unfold children lookup in refl

module _ (loads : String → Option Value) {F : Type 0} (get_task : String → Option (Task F)) where
  module _ {R : Type 0} (send : Request → Option R) (answer : Request → R) where
    send_all-done :
        ((r : Request) → send r ≡ some (answer r))
        → (results : List R) (order : List String)
        → send_all loads get_task send results order
          ≡ done (results ++ map answer (requests loads get_task order))
    unfolding send_all requests
    send_all-done ok results [] = rw append-nil
    send_all-done ok results (task_id ∷ rest) =
        elim (Option-cases (request_of loads (get_task task_id))) [
          | inl e ↦ rw (e, send_all, requests) (send_all-done ok results rest)
          | inr (request, e) ↦
              rw (e, send_all, requests, ok request)
                (send_all-done ok (results ++ answer request ∷ []) rest
                  ∙ ap done (
                      append_assoc results (answer request ∷ [])
                        (map answer (requests loads get_task rest))))
        ]

    smart_retry_of_order :
        (relations : String → List TaskRelation) (task_id : String) (task : Task F)
        (order : List String)
        → get_task task_id ≡ some task
        → descendants_bfs (build_adjacency (relations (root_of task))) task_id ≡ some order
        → ((r : Request) → send r ≡ some (answer r))
        → smart_retry loads get_task send relations task_id
          ≡ done (map answer (requests loads get_task order))
    unfolding smart_retry
    smart_retry_of_order relations task_id task order stored found ok =
        rw (stored, smart_retry, found) (send_all-done ok [] order)

    -- When the failed task is stored and no call of the sender raises: the relations of the task's root
    -- id, or of its own id where that is missing or empty, are searched from the task on, and the retry
    -- returns the answers to one request for each task of that order which is stored with a name and a
    -- worker, in this order. A request has the worker, the name, the arguments and the keyword arguments
    -- of the stored task, read from its texts.
    pub smart_retry_sends :
        (relations : String → List TaskRelation) (task_id : String) (task : Task F)
        → get_task task_id ≡ some task
        → ((r : Request) → send r ≡ some (answer r))
        → (root : String) × IsRoot task root
          × (order : List String) × (descendants_bfs (build_adjacency (relations root)) task_id
              ≡ some order)
          × (sent : List Request) × Sent loads get_task order sent
          × (smart_retry loads get_task send relations task_id ≡ done (map answer sent))
    unfolding smart_retry
    smart_retry_sends relations task_id task stored ok =
        let (order, found) =
          descendants_bfs_returns (build_adjacency (relations (root_of task))) task_id in
        (
          root_of task,
          root_of-IsRoot task,
          order,
          found,
          requests loads get_task order,
          requests-Sent loads get_task order,
          smart_retry_of_order relations task_id task order stored found ok,
        )
