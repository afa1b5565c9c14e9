-- ===== src/Graph/Joined.antt =====
-- The edges that are shown join nodes that are shown.
use celery_cnc.Base.{
  ◌≡◌, ◌≢◌, refl, sym, subst, String, Bool, true, false, ◌||◌, Option, none, some, List, [], ◌∷◌,
  ◌++◌, contains, All, inl, inr, arith, contains-append,
}
use celery_cnc.Base.{◌==◌, ==_refl, string_eq, if◌then◌else◌, Bool-cases}
use celery_cnc.Schemas.{Task, TaskRelation}
use celery_cnc.Graph.{
  Edge, GraphEdge, Collected, has_edge, serialize_edge, serialize_edges, build_edges, add_node,
  add_text, take_ends, add_ends, append_edge, link_to, payload_of, put_payload, add_link, add_tasks,
  collect_nodes_and_edges,
}

-- A node, or the empty text.
abbrev IsNode : List String → String → Type 0
IsNode ids id = (id == "" ≡ false) → contains ids id ≡ true

abbrev IsJoined : List String → Edge → Type 0
IsJoined ids e = IsNode ids e.parent × IsNode ids e.child

-- One set of nodes lies in another.
abbrev IsWithin : List String → List String → Type 0
IsWithin ids more = (id : String) → contains ids id ≡ true → contains more id ≡ true

add_node-IsWithin : (x : String) (ids : List String) → IsWithin ids (add_node x ids)
unfolding add_node
add_node-IsWithin x ids id h = ground (arith, contains-append ids (x ∷ []) id)

add_node-contains : (x : String) (ids : List String) → contains (add_node x ids) x ≡ true
unfolding add_node
add_node-contains x ids = ground (arith, contains-append ids (x ∷ []) x, ==_refl x)

add_text-IsWithin : (x : String) (ids : List String) → IsWithin ids (add_text x ids)
unfolding add_text
add_text-IsWithin x ids id h = elim (Bool-cases (x == "")) [
  | inl t ↦ rw t h
  | inr t ↦ rw t (add_node-IsWithin x ids id h)
]

add_text-IsNode : (x : String) (ids : List String) → IsNode (add_text x ids) x
unfolding add_text
add_text-IsNode x ids full = rw full (add_node-contains x ids)

IsJoined-IsWithin :
    (ids more : List String) (e : Edge) → IsWithin ids more → IsJoined ids e → IsJoined more e
IsJoined-IsWithin ids more e sub (p, c) =
    (λ full. sub e.parent (p full), λ full. sub e.child (c full))

All-IsWithin :
    (ids more : List String) (es : List Edge)
    → IsWithin ids more
    → All (IsJoined ids) es
    → All (IsJoined more) es
All-IsWithin ids more [] sub h = tt
All-IsWithin ids more (e ∷ es) sub (j, h) =
    (IsJoined-IsWithin ids more e sub j, All-IsWithin ids more es sub h)

All-append_one :
    (ids : List String) (es : List Edge) (e : Edge)
    → All (IsJoined ids) es
    → IsJoined ids e
    → All (IsJoined ids) (es ++ (e ∷ []))
All-append_one ids [] e h j = (j, tt)
All-append_one ids (f ∷ es) e (k, h) j = (k, All-append_one ids es e h j)

-- The loop over the edges adds their ends and keeps the list.
add_ends-IsWithin : (es : List Edge) (c : Collected) → IsWithin c.node_ids (add_ends es c).node_ids
unfolding add_ends take_ends
add_ends-IsWithin [] c id h = h
add_ends-IsWithin (e ∷ es) c id h = add_ends-IsWithin es (take_ends e c) id (
    add_text-IsWithin e.child (add_text e.parent c.node_ids) id
      (add_text-IsWithin e.parent c.node_ids id h))

take_ends-IsJoined : (e : Edge) (c : Collected) → IsJoined (take_ends e c).node_ids e
unfolding take_ends
take_ends-IsJoined e c = (
  λ full.
      add_text-IsWithin e.child (add_text e.parent c.node_ids) e.parent
        (add_text-IsNode e.parent c.node_ids full),
  add_text-IsNode e.child (add_text e.parent c.node_ids),
)

add_ends-IsJoined : (es : List Edge) (c : Collected) → All (IsJoined (add_ends es c).node_ids) es
unfolding add_ends
add_ends-IsJoined [] c = tt
add_ends-IsJoined (e ∷ es) c = (
  IsJoined-IsWithin (take_ends e c).node_ids (add_ends es (take_ends e c)).node_ids e
      (add_ends-IsWithin es (take_ends e c)) (take_ends-IsJoined e c),
  add_ends-IsJoined es (take_ends e c),
)

add_ends_keeps_edges : (es : List Edge) (c : Collected) → (add_ends es c).edges ≡ c.edges
unfolding add_ends take_ends
add_ends_keeps_edges [] c = refl
add_ends_keeps_edges (e ∷ es) c = add_ends_keeps_edges es (take_ends e c)

-- The edges are joined, and a task's own node is there.
abbrev AllJoined : Collected → Type 0
AllJoined c = All (IsJoined c.node_ids) c.edges

append_edge-nodes : (e : Edge) (c : Collected) → (append_edge e c).node_ids ≡ c.node_ids
unfolding append_edge
append_edge-nodes e c =
    elim (Bool-cases (e.parent == "" || e.child == "" || has_edge c.edge_keys e)) [
      | inl t ↦ rw t refl
      | inr t ↦ rw t refl
    ]

append_edge-All :
    (e : Edge) (c : Collected) (ids : List String)
    → All (IsJoined ids) c.edges
    → IsJoined ids e
    → All (IsJoined ids) (append_edge e c).edges
unfolding append_edge
append_edge-All e c ids h j =
    elim (Bool-cases (e.parent == "" || e.child == "" || has_edge c.edge_keys e)) [
      | inl t ↦ rw t h
      | inr t ↦ rw t (All-append_one ids c.edges e h j)
    ]

-- Joined edges, and a node that is there.
abbrev IsGood : String → Collected → Type 0
IsGood id c = AllJoined c × (contains c.node_ids id ≡ true)

link_to-IsGood :
    (id task_id relation : String) (c : Collected)
    → IsGood task_id c
    → IsGood task_id (link_to id task_id relation c)
unfolding link_to
link_to-IsGood id task_id relation c (h, m) =
    let e : Edge = record { parent = id; child = task_id; relation = relation } in
    let linked = append_edge e c in
    let more = add_node id linked.node_ids in
    let sub : IsWithin c.node_ids more = λ x p.
      add_node-IsWithin id linked.node_ids x
        (subst (λ ns. contains ns x ≡ true) (sym (append_edge-nodes e c)) p) in
    (
      append_edge-All e c more (All-IsWithin c.node_ids more c.edges sub h)
          (λ _. add_node-contains id linked.node_ids, λ _. sub task_id m),
      sub task_id m,
    )

-- A link joins the task's node to one that is added.
add_link-IsGood :
    (link : Option String) (task_id relation : String) (c : Collected)
    → IsGood task_id c
    → IsGood task_id (add_link link task_id relation c)
unfolding add_link
add_link-IsGood none task_id relation c h = h
add_link-IsGood (some id) task_id relation c h = elim (Bool-cases (id == "")) [
  | inl t ↦ subst (λ b. IsGood task_id (if b then c else link_to id task_id relation c)) (sym t) h
  | inr t ↦
      subst (λ b. IsGood task_id (if b then c else link_to id task_id relation c)) (sym t)
        (link_to-IsGood id task_id relation c h)
]

module _ {F : Type 0} where
  add_tasks-AllJoined :
      (tasks : List (Task F)) (c : Collected) → AllJoined c → AllJoined (add_tasks tasks c)
  unfolding add_tasks
  add_tasks-AllJoined [] c h = h
  add_tasks-AllJoined (t ∷ rest) c h =
      let c1 : Collected = record c { node_ids = add_node t.task_id c.node_ids } in
      let h1 =
        All-IsWithin c.node_ids c1.node_ids c.edges (add_node-IsWithin t.task_id c.node_ids) h in
      let with_parent = add_link t.parent_id t.task_id "chain" c1 in
      let with_group = add_link t.group_id t.task_id "group" with_parent in
      let good = add_link-IsGood t.chord_id t.task_id "chord" with_group (
        add_link-IsGood t.group_id t.task_id "group" with_parent (
          add_link-IsGood t.parent_id t.task_id "chain" c1
            (h1, add_node-contains t.task_id c.node_ids))) in
      add_tasks-AllJoined rest (add_link t.chord_id t.task_id "chord" with_group) good.0

  collect-AllJoined :
      (root : String) (relations : List TaskRelation) (tasks : List (Task F))
      → AllJoined (collect_nodes_and_edges root relations tasks)
  unfolding collect_nodes_and_edges
  collect-AllJoined root relations tasks =
      let edges = build_edges relations in
      let start : Collected = record { node_ids = root ∷ []; edges = edges; edge_keys = [] } in
      add_tasks-AllJoined tasks (add_ends edges start) (
        subst (All (IsJoined (add_ends edges start).node_ids))
          (sym (add_ends_keeps_edges edges start)) (add_ends-IsJoined edges start))

-- Both ends of a payload are nodes.
abbrev pub IsShown : List String → GraphEdge → Type 0
IsShown ids e = (contains ids e.source ≡ true) × (contains ids e.target ≡ true)

true_ne_false : true ≢ false
true_ne_false h = cc

or_false : (a b : Bool) → (a || b) ≡ false → (a ≡ false) × (b ≡ false)
or_false true b h = elim (true_ne_false h) [ ]
or_false false b h = (refl, h)

serialize_edges-IsShown :
    (ids : List String) (es : List Edge)
    → All (IsJoined ids) es
    → All (IsShown ids) (serialize_edges es)
unfolding serialize_edges serialize_edge
serialize_edges-IsShown ids [] h = tt
serialize_edges-IsShown ids (e ∷ es) ((p, c), h) =
    elim (Bool-cases (e.parent == "" || e.child == "")) [
      | inl t ↦
          subst
            (λ b.
              All (IsShown ids)
                (put_payload (if b then none else some (payload_of e)) (serialize_edges es)))
            (sym t) (serialize_edges-IsShown ids es h)
      | inr t ↦
          let (full_parent, full_child) = or_false (e.parent == "") (e.child == "") t in
          subst
            (λ b.
              All (IsShown ids)
                (put_payload (if b then none else some (payload_of e)) (serialize_edges es)))
            (sym t) ((p full_parent, c full_child), serialize_edges-IsShown ids es h)
    ]

-- Every edge of the graph of a task that is shown joins two of the nodes that are shown.
pub edges_join_nodes :
    {F : Type 0} (root_id : String) (relations : List TaskRelation) (tasks : List (Task F))
    → All
        (IsShown (collect_nodes_and_edges root_id relations tasks).node_ids)
        (serialize_edges (collect_nodes_and_edges root_id relations tasks).edges)
edges_join_nodes root_id relations tasks =
    let c = collect_nodes_and_edges root_id relations tasks in
    serialize_edges-IsShown c.node_ids c.edges (collect-AllJoined root_id relations tasks)
