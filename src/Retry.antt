-- ===== src/Retry.antt =====
-- celery_root/core/engine/retry.py: a failed task and its descendants are sent again, in the order
-- of a breadth-first search of the stored relations.
pub mod Loop
pub mod Order
pub mod Requests
pub mod Send
pub mod Examples
use mathlib.Core.Option.{get_or}
use celery_cnc.Base.{
  ℕ, zero, suc, ◌+◌, ◌≡◌, String, Bool, true, false, not, Option, none, some, List, [], ◌∷◌, ◌++◌,
}
use celery_cnc.Base.{◌==◌, string_eq, if◌then◌else◌, contains, keep_if, length}
use celery_cnc.Base.Dict.{Dict, lookup, insert}
use celery_cnc.Schemas.{Task, TaskRelation}
use celery_cnc.Value.{Value, Items, Fields, nil, cons, end, text, list, mapping}

abbrev pub Adjacency : Type 0
Adjacency = Dict String (List String)

-- `adjacency.get(node, [])`
unfoldable pub children : Adjacency → String → List String
unfolding lookup
children adjacency node = get_or (lookup node adjacency) []

-- One relation: `adjacency[parent].append(child)` on a dict whose default is the empty list.
unfoldable pub add_relation : Adjacency → TaskRelation → Adjacency
unfolding children insert
add_relation adjacency relation = elim relation.parent_id [
  | none ↦ adjacency
  | some parent ↦ insert parent (children adjacency parent ++ relation.child_id ∷ []) adjacency
]

unfoldable pub add_relations : Adjacency → List TaskRelation → Adjacency
unfolding add_relation
add_relations adjacency [] = adjacency
add_relations adjacency (relation ∷ rest) = add_relations (add_relation adjacency relation) rest

unfoldable pub build_adjacency : List TaskRelation → Adjacency
unfolding add_relations
build_adjacency relations = add_relations [] relations

-- The variables of the search: the set of visited nodes, the queue, and the order so far.
pub record Search : Type 0 where
  pub visited : List String
  pub queue : List String
  pub order : List String

-- The number of edges out of nodes that are not visited.
unfoldable pub edges_left : List String → Adjacency → ℕ
edges_left visited [] = 0
edges_left visited ((node, targets) ∷ rest) =
    let n = edges_left visited rest in if contains visited node then n else length targets + n

abbrev pub first : String → Search
first start = record { visited = []; queue = start ∷ []; order = [] }

module _ (adjacency : Adjacency) where
  -- The body of the loop, for the node taken from the queue.
  unfoldable pub visit : Search → String → List String → Search
  unfolding children keep_if
  visit s node rest = if contains s.visited node then record s { queue = rest } else record {
    visited = node ∷ s.visited;
    queue =
        rest
        ++ keep_if (λ child. not (contains (node ∷ s.visited) child)) (children adjacency node);
    order = s.order ++ node ∷ [];
  }

  -- `while queue`; `none` means that the fuel ran out.
  unfoldable pub loop : ℕ → Search → Option (List String)
  unfolding visit
  loop zero s = elim s.queue [ [] ↦ some s.order | _ ∷ _ ↦ none ]
  loop (suc fuel) s = elim s.queue [
    | [] ↦ some s.order
    | node ∷ rest ↦ loop fuel (visit s node rest)
  ]

  -- The fuel is one round for the start and one for each edge.
  unfoldable pub descendants_bfs : String → Option (List String)
  unfolding loop edges_left
  descendants_bfs start = loop (suc (edges_left [] adjacency)) (first start)

  -- The walks along the stored relations.
  pub data Reach (start : String) : String → Type 0 where
    here : Reach start start
    step : {u v : String} → Reach start u → contains (children adjacency u) v ≡ true → Reach start v

-- What `smart_retry` takes from outside: the JSON parser, the store and the sender.
pub record Request : Type 0 where
  pub worker : String
  pub name : String
  pub args : Items
  pub kwargs : Fields

pub data Outcome (R : Type 0) : Type 0 where
  -- `ValueError`: the task is not stored.
  not_found : Outcome R
  -- The sender raised, after these results.
  send_failed : List R → Outcome R
  done : List R → Outcome R
  out_of_fuel : Outcome R

-- `task.root_id or task.task_id`: an empty root id counts as none.
unfoldable pub root_of : {F : Type 0} → Task F → String
root_of task = elim task.root_id [
  | none ↦ task.task_id
  | some root_id ↦ if root_id == "" then task.task_id else root_id
]

module _ (loads : String → Option Value) where
  unfoldable pub parse_args : Option String → Items
  parse_args none = nil
  parse_args (some value) = if value == "" then nil else elim (loads value) [
    | none ↦ cons (text value) nil
    | some parsed ↦ elim parsed [ list items ↦ items | other ↦ cons other nil ]
  ]

  unfoldable pub parse_kwargs : Option String → Fields
  parse_kwargs none = end
  parse_kwargs (some value) = if value == "" then end else elim (loads value) [
    | none ↦ end
    | some parsed ↦ elim parsed [ mapping fields ↦ fields | _ ↦ end ]
  ]

  -- The request for a stored task; `none` where it is skipped.
  unfoldable pub request_of : {F : Type 0} → Option (Task F) → Option Request
  unfolding parse_args parse_kwargs
  request_of none = none
  request_of (some task) = elim task.name [
    | none ↦ none
    | some name ↦ elim task.worker [
      | none ↦ none
      | some worker ↦ some (record {
        worker = worker;
        name = name;
        args = parse_args task.args;
        kwargs = parse_kwargs task.kwargs;
      })
    ]
  ]

  module _ {F R : Type 0} (get_task : String → Option (Task F)) (send : Request → Option R) where
    -- The loop over the order; a sender that raises ends it.
    unfoldable pub send_all : List R → List String → Outcome R
    unfolding request_of
    send_all results [] = done results
    send_all results (task_id ∷ rest) = elim (request_of (get_task task_id)) [
      | none ↦ send_all results rest
      | some request ↦ elim (send request) [
        | none ↦ send_failed results
        | some result ↦ send_all (results ++ result ∷ []) rest
      ]
    ]

    unfoldable pub smart_retry : (String → List TaskRelation) → String → Outcome R
    smart_retry get_task_relations failed_task_id = elim (get_task failed_task_id) [
      | none ↦ not_found
      | some task ↦
          elim (descendants_bfs (build_adjacency (get_task_relations (root_of task)))
            failed_task_id) [ none ↦ out_of_fuel | some order ↦ send_all [] order ]
    ]
