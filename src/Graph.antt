-- ===== src/Graph.antt =====
-- celery_root/components/web/views/graphs.py: the nodes, edges and counts of the graph that is shown
-- for a task, from the stored relations and tasks. Python's sets are lists without repetition.
pub mod Joined
pub mod Counts
pub mod Examples
use celery_cnc.Base.{
  ℕ, suc, String, ◌<>◌, Bool, true, false, not, ◌&&◌, ◌||◌, Option, none, some, List, [], ◌∷◌, ◌++◌,
}
use celery_cnc.Base.{◌==◌, string_eq, if◌then◌else◌, contains}
use celery_cnc.Base.Dict.{Dict, lookup, insert}
use celery_cnc.Schemas.{Task, TaskRelation}

-- The dict of an edge.
pub record Edge : Type 0 where
  pub parent : String
  pub child : String
  pub relation : String

abbrev pub same_edge : Edge → Edge → Bool
same_edge e f = e.parent == f.parent && e.child == f.child && e.relation == f.relation

abbrev pub has_edge : List Edge → Edge → Bool
has_edge [] e = false
has_edge (f ∷ rest) e = same_edge e f || has_edge rest e

-- `value or other`
abbrev pub text_or : Option String → String → String
text_or none other = other
text_or (some t) other = if t == "" then other else t

unfoldable pub edge_of : TaskRelation → Edge
edge_of r = record {
  parent = text_or r.parent_id r.root_id;
  child = r.child_id;
  relation = if r.relation == "parent" then "chain" else r.relation;
}

-- The loop of `_build_edges`, with the keys seen so far.
unfoldable pub build_edges_from : List Edge → List Edge → List TaskRelation → List Edge
unfolding edge_of
build_edges_from seen edges [] = edges
build_edges_from seen edges (r ∷ rest) =
    if has_edge seen (edge_of r)
    then build_edges_from seen edges rest
    else build_edges_from (edge_of r ∷ seen) (edges ++ (edge_of r ∷ [])) rest

unfoldable pub build_edges : List TaskRelation → List Edge
unfolding build_edges_from
build_edges relations = build_edges_from [] [] relations

abbrev pub kinds_of_parents : List String
kinds_of_parents = "group" ∷ "chord" ∷ "map" ∷ "starmap" ∷ "chunks" ∷ []

-- `_node_kind_map`: the last edge of a parent decides.
unfoldable pub node_kind_map : List Edge → Dict String String → Dict String String
unfolding insert
node_kind_map [] kinds = kinds
node_kind_map (e ∷ rest) kinds = node_kind_map rest (
    if not (e.parent == "") && contains kinds_of_parents e.relation
    then insert e.parent e.relation kinds
    else kinds)

abbrev pub canvas_task_kind : Dict String String
canvas_task_kind =
    ("celery.chain", "chain")
    ∷ ("celery.group", "group")
    ∷ ("celery.chord", "chord")
    ∷ ("celery.chord_unlock", "chord")
    ∷ ("celery.map", "map")
    ∷ ("celery.starmap", "starmap")
    ∷ ("celery.chunks", "chunks")
    ∷ []

unfoldable pub canvas_kind : {F : Type 0} → Option (Task F) → Option String
unfolding lookup
canvas_kind none = none
canvas_kind (some task) = elim task.name [
  | none ↦ none
  | some name ↦ if name == "" then none else lookup name canvas_task_kind
]

-- The payload of an edge.
pub record GraphEdge : Type 0 where
  pub id : String
  pub source : String
  pub target : String
  pub kind : String

abbrev pub edge_kinds : List String
edge_kinds =
    "chain" ∷ "group" ∷ "chord" ∷ "link_error" ∷ "retry" ∷ "map" ∷ "starmap" ∷ "chunks" ∷ []

abbrev pub edge_kind : String → String
edge_kind relation = if contains edge_kinds relation then relation else "chain"

abbrev pub payload_of : Edge → GraphEdge
payload_of e = record {
  id = e.parent <> ("->" <> (e.child <> (":" <> edge_kind e.relation)));
  source = e.parent;
  target = e.child;
  kind = edge_kind e.relation;
}

unfoldable pub serialize_edge : Edge → Option GraphEdge
serialize_edge e = if e.parent == "" || e.child == "" then none else some (payload_of e)

abbrev pub put_payload : Option GraphEdge → List GraphEdge → List GraphEdge
put_payload none others = others
put_payload (some payload) others = payload ∷ others

-- `[edge for edge in (...) if edge is not None]`
unfoldable pub serialize_edges : List Edge → List GraphEdge
unfolding serialize_edge
serialize_edges [] = []
serialize_edges (e ∷ rest) = put_payload (serialize_edge e) (serialize_edges rest)

-- `node_ids`, `edges` and `edge_keys`
pub record Collected : Type 0 where
  pub node_ids : List String
  pub edges : List Edge
  pub edge_keys : List Edge

-- `node_ids.add(id)`
unfoldable pub add_node : String → List String → List String
add_node id ids = if contains ids id then ids else ids ++ (id ∷ [])

unfoldable pub add_text : String → List String → List String
unfolding add_node
add_text id ids = if id == "" then ids else add_node id ids

-- The loop over the edges of the relations, and its body.
unfoldable pub take_ends : Edge → Collected → Collected
unfolding add_text
take_ends e c = record c {
  node_ids = add_text e.child (add_text e.parent c.node_ids);
  edge_keys =
      if e.parent == "" || e.child == ""
      then c.edge_keys
      else record e { relation = if e.relation == "" then "chain" else e.relation } ∷ c.edge_keys;
}

unfoldable pub add_ends : List Edge → Collected → Collected
unfolding take_ends
add_ends [] c = c
add_ends (e ∷ rest) c = add_ends rest (take_ends e c)

-- `_append_edge`
unfoldable pub append_edge : Edge → Collected → Collected
append_edge e c =
    if e.parent == "" || e.child == "" || has_edge c.edge_keys e
    then c
    else record c { edges = c.edges ++ (e ∷ []); edge_keys = e ∷ c.edge_keys }

-- The edge from a parent, group or chord that a task names, and its node.
unfoldable pub link_to : String → String → String → Collected → Collected
unfolding append_edge add_node
link_to id task_id relation c =
    let linked = append_edge (record { parent = id; child = task_id; relation = relation }) c in
    record linked { node_ids = add_node id linked.node_ids }

unfoldable pub add_link : Option String → String → String → Collected → Collected
unfolding link_to
add_link none task_id relation c = c
add_link (some id) task_id relation c = if id == "" then c else link_to id task_id relation c

module _ {F : Type 0} where
  unfoldable pub add_tasks : List (Task F) → Collected → Collected
  unfolding add_link add_node
  add_tasks [] c = c
  add_tasks (item ∷ rest) c = add_tasks rest (
      add_link item.chord_id item.task_id "chord" (
        add_link item.group_id item.task_id "group" (
          add_link item.parent_id item.task_id "chain"
            (record c { node_ids = add_node item.task_id c.node_ids }))))

  -- `tasks` are those with the root's id.
  unfoldable pub collect_nodes_and_edges : String → List TaskRelation → List (Task F) → Collected
  unfolding build_edges add_ends add_tasks
  collect_nodes_and_edges root_id relations tasks =
      let edges = build_edges relations in
      add_tasks tasks
        (add_ends edges (record { node_ids = root_id ∷ []; edges = edges; edge_keys = [] }))

-- `GraphCounts`
pub record GraphCounts : Type 0 where
  pub total : ℕ
  pub pending : ℕ
  pub running : ℕ
  pub retry : ℕ
  pub success : ℕ
  pub failure : ℕ
  pub revoked : ℕ

abbrev pub no_counts : GraphCounts
no_counts = record {
  total = 0;
  pending = 0;
  running = 0;
  retry = 0;
  success = 0;
  failure = 0;
  revoked = 0;
}

-- One node's state, counted.
unfoldable pub count_state : String → GraphCounts → GraphCounts
count_state state counts =
    let c : GraphCounts = record counts { total = suc counts.total } in
    if state == ""
    then counts
    else if state == "PENDING" || state == "RECEIVED"
    then record c { pending = suc c.pending }
    else if state == "STARTED"
    then record c { running = suc c.running }
    else if state == "RETRY"
    then record c { retry = suc c.retry }
    else if state == "SUCCESS"
    then record c { success = suc c.success }
    else if state == "FAILURE"
    then record c { failure = suc c.failure }
    else if state == "REVOKED"
    then record c { revoked = suc c.revoked }
    else c

-- The loop of `_build_state_counts` over the states of the nodes.
unfoldable pub count_states : List (Option String) → GraphCounts → GraphCounts
unfolding count_state
count_states [] counts = counts
count_states (none ∷ rest) counts = count_states rest counts
count_states (some state ∷ rest) counts = count_states rest (count_state state counts)

unfoldable pub build_state_counts : List (Option String) → GraphCounts
unfolding count_states
build_state_counts states = count_states states no_counts
