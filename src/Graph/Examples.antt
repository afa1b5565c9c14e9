-- ===== src/Graph/Examples.antt =====
-- The graph of a chain with a group.
use celery_cnc.Base.{ℕ, ◌≡◌, refl, String, none, some, [], ◌∷◌, All, string_eq}
use celery_cnc.Schemas.{Task, TaskRelation}
use celery_cnc.Graph.{
  build_edges, build_edges_from, edge_of, collect_nodes_and_edges, serialize_edges,
}
use celery_cnc.Graph.Joined.{IsShown, edges_join_nodes}

abbrev relation : String → TaskRelation
relation kind = record { root_id = "r"; parent_id = none; child_id = "a"; relation = kind }

abbrev grouped : Task ℕ
grouped = record {
  task_id = "a";
  name = none;
  state = "STARTED";
  worker = none;
  received = none;
  started = none;
  finished = none;
  runtime = none;
  args = none;
  kwargs = none;
  result = none;
  traceback = none;
  stamps = none;
  retries = none;
  parent_id = some "r";
  root_id = some "r";
  group_id = some "g";
  chord_id = none;
}

-- A relation "parent" is a chain, and is kept once.
edge_once :
    build_edges (relation "parent" ∷ relation "chain" ∷ [])
    ≡ record { parent = "r"; child = "a"; relation = "chain" } ∷ []
unfolding build_edges build_edges_from edge_of string_eq
edge_once = refl

edges_join_nodes_example :
    All
      (IsShown (collect_nodes_and_edges "r" (relation "parent" ∷ []) (grouped ∷ [])).node_ids)
      (serialize_edges (collect_nodes_and_edges "r" (relation "parent" ∷ []) (grouped ∷ [])).edges)
edges_join_nodes_example = edges_join_nodes "r" (relation "parent" ∷ []) (grouped ∷ [])
