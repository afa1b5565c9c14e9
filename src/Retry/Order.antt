-- ===== src/Retry/Order.antt =====
-- The invariant of the search: what is in the order, what is queued, and why.
use celery_cnc.Base.{
  suc, ◌≡◌, refl, ◌∙◌, sym, ap, subst, String, Bool, true, false, not, ◌&&◌, ◌||◌, some, List, [],
  ◌∷◌, ◌++◌, arith, ◌⊎◌, inl, inr, ◌↔◌,
}
use celery_cnc.Base.{
  string_eq, contains, contains-append, keep_if, Distinct, Bool-cases, ==_cases, ==_refl,
}
use mathlib.Core.List.{append-nil, append_assoc}
use celery_cnc.Retry.{
  Adjacency, children, Search, visit, edges_left, first, descendants_bfs, Reach, here, step,
}
use celery_cnc.Retry.Loop.{loop_rule}

contains-keep_if :
    (keep : String → Bool) (xs : List String) (v : String)
    → contains (keep_if keep xs) v ≡ (contains xs v && keep v)
unfolding keep_if
contains-keep_if keep [] v = refl
contains-keep_if keep (x ∷ xs) v = elim (==_cases v x) [
  | inl (p, t) ↦ ground (arith, contains-keep_if keep xs v, ap keep p)
  | inr (n, t) ↦ ground (arith, contains-keep_if keep xs v)
]

Distinct-concat :
    (xs : List String) (v : String) → Distinct xs → contains xs v ≡ false → Distinct (xs ++ v ∷ [])
Distinct-concat [] v d h = (refl, tt)
Distinct-concat (x ∷ xs) v (fresh, d) h =
    ground (arith, Distinct-concat xs v d, contains-append xs (v ∷ []) x)

module _ (adjacency : Adjacency) where
  -- Some task of the list is a parent of `v`.
  abbrev pub HasParent : List String → String → Type 0
  HasParent before v =
      (u : String) × (contains before u ≡ true) × (contains (children adjacency u) v ≡ true)

  module _ (start : String) where
    -- Every task of the second list is the start or comes after a parent.
    abbrev pub Parented : List String → List String → Type 0
    Parented before [] = Unit {0}
    Parented before (v ∷ rest) =
        (HasParent before v ⊎ (v ≡ start)) × Parented (before ++ v ∷ []) rest

    Parented-concat :
        (before xs : List String) (v : String)
        → Parented before xs
        → HasParent (before ++ xs) v ⊎ (v ≡ start)
        → Parented before (xs ++ v ∷ [])
    Parented-concat before [] v h (inl (u, m, c)) = (inl (u, rw append-nil at m, c), tt)
    Parented-concat before [] v h (inr e) = (inr e, tt)
    Parented-concat before (x ∷ xs) v (p, h) q =
        (p, Parented-concat (before ++ x ∷ []) xs v h (rw append_assoc q))

    record Inv (s : Search) : Type 0 where
      same : (v : String) → contains s.visited v ≡ contains s.order v
      queued : (v : String) → contains s.queue v ≡ true → HasParent s.order v ⊎ (v ≡ start)
      sound : (v : String) → contains s.order v ≡ true → Reach adjacency start v
      closed :
          (u v : String)
          → contains s.order u ≡ true
          → contains (children adjacency u) v ≡ true
          → (contains s.order v || contains s.queue v) ≡ true
      source : (contains s.order start || contains s.queue start) ≡ true
      distinct : Distinct s.order
      parented : Parented [] s.order

    Inv-first : Inv (first start)
    Inv-first = record {
      same = λ v. refl;
      queued = λ v h. ground arith;
      sound = λ v h. cc;
      closed = λ u v h c. cc;
      source = ground arith;
      distinct = tt;
      parented = tt;
    }

    -- A node that was visited before leaves the queue.
    Inv-skip :
        (s : Search) (node : String) (rest : List String)
        → s.queue ≡ node ∷ rest
        → contains s.visited node ≡ true
        → Inv s
        → Inv (record s { queue = rest })
    Inv-skip s node rest e old h = record {
      same = h.same;
      queued = λ v m. h.queued v (ground (arith, ap (λ q. contains q v) e));
      sound = h.sound;
      closed = λ u v m c. ground (arith, h.closed u v m c, ap (λ q. contains q v) e, h.same v);
      source = ground (arith, h.source, ap (λ q. contains q start) e, h.same start);
      distinct = h.distinct;
      parented = h.parented;
    }

    -- The children that are queued behind a node.
    abbrev fresh : Search → String → List String
    fresh s node =
        keep_if (λ child. not (contains (node ∷ s.visited) child)) (children adjacency node)

    reached :
        (s : Search) (node : String) (rest : List String)
        → s.queue ≡ node ∷ rest
        → Inv s
        → HasParent s.order node ⊎ (node ≡ start)
    reached s node rest e h =
        h.queued node (ground (arith, ap (λ q. contains q node) e, ==_refl node))

    Reach-of_parent :
        (s : Search) (node : String)
        → Inv s
        → HasParent s.order node ⊎ (node ≡ start)
        → Reach adjacency start node
    Reach-of_parent s node h (inl (u, m, c)) = step (h.sound u m) c
    Reach-of_parent s node h (inr p) = subst (Reach adjacency start) (sym p) here

    -- A parent stays in the order as it grows.
    HasParent-append :
        (xs ys : List String) (v : String)
        → HasParent xs v ⊎ (v ≡ start)
        → HasParent (xs ++ ys) v ⊎ (v ≡ start)
    HasParent-append xs ys v (inl (u, m, c)) = inl (u, contains-append xs ys u ∙ rw m, c)
    HasParent-append xs ys v (inr p) = inr p

    -- A queued entry after the round is an older one or a child of the node.
    queued_after :
        (s : Search) (node : String) (rest : List String) (v : String)
        → s.queue ≡ node ∷ rest
        → Inv s
        → contains (rest ++ fresh s node) v ≡ true
        → HasParent (s.order ++ node ∷ []) v ⊎ (v ≡ start)
    queued_after s node rest v e h m = elim (Bool-cases (contains rest v)) [
      | inl old ↦
          HasParent-append s.order (node ∷ []) v
            (h.queued v (ground (arith, ap (λ q. contains q v) e)))
      | inr new ↦ inl (
        node,
        contains-append s.order (node ∷ []) node ∙ ground (arith, ==_refl node),
        ground (
          arith,
          contains-append rest (fresh s node) v,
          contains-keep_if (λ child. not (contains (node ∷ s.visited) child))
              (children adjacency node) v,
        ),
      )
    ]

    -- A child of a task in the order is in the order or queued.
    closed_after :
        (s : Search) (node : String) (rest : List String) (u v : String)
        → s.queue ≡ node ∷ rest
        → Inv s
        → contains (s.order ++ node ∷ []) u ≡ true
        → contains (children adjacency u) v ≡ true
        → (contains (s.order ++ node ∷ []) v || contains (rest ++ fresh s node) v) ≡ true
    closed_after s node rest u v e h m c = elim (Bool-cases (contains s.order u)) [
      | inl old ↦ ground (
        arith,
        h.closed u v old c,
        ap (λ q. contains q v) e,
        contains-append s.order (node ∷ []) v,
        contains-append rest (fresh s node) v,
      )
      | inr new ↦ ground (
        arith,
        contains-append s.order (node ∷ []) u,
        ap (λ n. contains (children adjacency n) v) (is_node u m new),
        contains-append s.order (node ∷ []) v,
        contains-append rest (fresh s node) v,
        h.same v,
        contains-keep_if (λ child. not (contains (node ∷ s.visited) child))
            (children adjacency node) v,
      )
    ]
      where
        is_node :
            (w : String)
            → contains (s.order ++ node ∷ []) w ≡ true
            → contains s.order w ≡ false
            → w ≡ node
        is_node w m new = ground (arith, contains-append s.order (node ∷ []) w)

    Inv-take :
        (s : Search) (node : String) (rest : List String)
        → s.queue ≡ node ∷ rest
        → contains s.visited node ≡ false
        → Inv s
        → Inv (record {
          visited = node ∷ s.visited;
          queue = rest ++ fresh s node;
          order = s.order ++ node ∷ [];
        })
    Inv-take s node rest e new h = record {
      same = λ v. ground (arith, h.same v, contains-append s.order (node ∷ []) v);
      queued = λ v m. queued_after s node rest v e h m;
      sound = λ v m. elim (==_cases v node) [
        | inl (p, t) ↦
            subst (Reach adjacency start) (sym p)
              (Reach-of_parent s node h (reached s node rest e h))
        | inr (n, t) ↦ h.sound v (ground (arith, contains-append s.order (node ∷ []) v))
      ];
      closed = λ u v m c. closed_after s node rest u v e h m c;
      source = ground (
        arith,
        h.source,
        ap (λ q. contains q start) e,
        contains-append s.order (node ∷ []) start,
        contains-append rest (fresh s node) start,
      );
      distinct = Distinct-concat s.order node h.distinct (sym (h.same node) ∙ new);
      parented = Parented-concat [] s.order node h.parented (reached s node rest e h);
    }

    Inv-visit :
        (s : Search) (node : String) (rest : List String)
        → s.queue ≡ node ∷ rest
        → Inv s
        → Inv (visit adjacency s node rest)
    unfolding visit
    Inv-visit s node rest e h = elim (Bool-cases (contains s.visited node)) [
      | inl old ↦ rw old (Inv-skip s node rest e old h)
      | inr new ↦ rw new (Inv-take s node rest e new h)
    ]

    ended :
        (order : List String)
        → descendants_bfs adjacency start ≡ some order
        → (t : Search) × Inv t × (t.queue ≡ []) × (t.order ≡ order)
    unfolding descendants_bfs
    ended order h =
        loop_rule adjacency Inv Inv-visit (suc (edges_left [] adjacency)) (first start) order
          Inv-first h

    complete :
        (t : Search)
        → Inv t
        → t.queue ≡ []
        → {v : String} → Reach adjacency start v
        → contains t.order v ≡ true
    complete t h e here = ground (arith, h.source, ap (λ q. contains q start) e)
    complete t h e (step {u} {v} p c) =
        ground (arith, h.closed u v (complete t h e p) c, ap (λ q. contains q v) e)

  -- The order holds exactly the tasks that some walk along the relations leads to from the start.
  pub bfs_reaches :
      (start : String) (order : List String) (v : String)
      → descendants_bfs adjacency start ≡ some order
      → (contains order v ≡ true) ↔ Reach adjacency start v
  bfs_reaches start order v h =
      let (t, inv, empty, same) = ended start order h in
      (λ m. inv.sound v (rw same m), λ p. rw (← same) (complete start t inv empty p))

  -- No task stands twice in the order, and each is the start or comes after one of its parents;
  -- so the first of them is the start.
  pub bfs_order :
      (start : String) (order : List String)
      → descendants_bfs adjacency start ≡ some order
      → Distinct order × Parented start [] order
  bfs_order start order h =
      let (t, inv, empty, same) = ended start order h in
      (subst Distinct same inv.distinct, subst (Parented start []) same inv.parented)
