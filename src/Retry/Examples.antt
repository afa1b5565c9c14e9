-- ===== src/Retry/Examples.antt =====
-- A small graph of relations: runs of the search, and the theorems at it.
use celery_cnc.Base.{
  ℕ, ◌≡◌, refl, String, true, Option, none, some, List, [], ◌∷◌, map, contains, string_eq, Distinct,
  ◌↔◌,
}
use celery_cnc.Base.{◌==◌, if◌then◌else◌}
use celery_cnc.Schemas.{Task, TaskRelation}
use celery_cnc.Value.{Value}
use celery_cnc.Retry.{build_adjacency, descendants_bfs, Reach, Request, done, smart_retry}
use celery_cnc.Retry.Loop.{descendants_bfs_returns}
use celery_cnc.Retry.Order.{Parented, bfs_reaches, bfs_order}
use celery_cnc.Retry.Requests.{IsRoot, Sent}
use celery_cnc.Retry.Send.{smart_retry_sends}

abbrev edge : String → String → TaskRelation
edge parent child = record {
  root_id = "a";
  parent_id = some parent;
  child_id = child;
  relation = "chain";
}

-- a → d, a → b, b → d: two walks of different length lead from a to d.
abbrev relations : List TaskRelation
relations = edge "a" "d" ∷ edge "a" "b" ∷ edge "b" "d" ∷ edge "x" "y" ∷ []

-- The task d comes before b, which is one of its parents.
search_a : descendants_bfs (build_adjacency relations) "a" ≡ some ("a" ∷ "d" ∷ "b" ∷ [])
unfolding descendants_bfs build_adjacency string_eq
search_a = refl

descendants_bfs_returns_example :
    (order : List String) × (descendants_bfs (build_adjacency relations) "a" ≡ some order)
descendants_bfs_returns_example = descendants_bfs_returns (build_adjacency relations) "a"

bfs_reaches_example :
    (contains {A = String} ("a" ∷ "d" ∷ "b" ∷ []) "y" ≡ true)
    ↔ Reach (build_adjacency relations) "a" "y"
bfs_reaches_example =
    bfs_reaches (build_adjacency relations) "a" ("a" ∷ "d" ∷ "b" ∷ []) "y" search_a

bfs_order_example :
    Distinct {A = String} ("a" ∷ "d" ∷ "b" ∷ [])
    × Parented (build_adjacency relations) "a" [] ("a" ∷ "d" ∷ "b" ∷ [])
bfs_order_example = bfs_order (build_adjacency relations) "a" ("a" ∷ "d" ∷ "b" ∷ []) search_a

abbrev failed : Task ℕ
failed = record {
  task_id = "a";
  name = some "app.add";
  state = "FAILURE";
  worker = some "w1";
  received = none;
  started = none;
  finished = none;
  runtime = none;
  args = some "[1]";
  kwargs = none;
  result = none;
  traceback = none;
  stamps = none;
  retries = none;
  parent_id = none;
  root_id = none;
  group_id = none;
  chord_id = none;
}

abbrev get_task : String → Option (Task ℕ)
get_task task_id = if task_id == "a" then some failed else none

abbrev loads : String → Option Value
loads value = none

stored : get_task "a" ≡ some failed
unfolding string_eq
stored = refl

smart_retry_sends_example :
    (root : String) × IsRoot failed root
    × (order : List String) × (descendants_bfs
          (build_adjacency (if root == "a" then relations else []))
          "a"
        ≡ some order)
    × (sent : List Request) × Sent loads get_task order sent
    × (smart_retry loads get_task
          (λ r. some r.name)
          (λ root. if root == "a" then relations else [])
          "a"
        ≡ done (map (λ r. r.name) sent))
smart_retry_sends_example =
    smart_retry_sends loads get_task (λ r. some r.name) (λ r. r.name)
      (λ root. if root == "a" then relations else []) "a" failed stored (λ r. refl)
