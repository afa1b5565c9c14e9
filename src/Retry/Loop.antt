-- ===== src/Retry/Loop.antt =====
-- The search ends: each round takes an entry from the queue, and an edge is queued at most once.
use celery_cnc.Base.{
  ℕ, zero, suc, ◌+◌, ◌≤◌, ◌≡◌, ap, String, Bool, false, not, some, List, [], ◌∷◌, arith, inl, inr,
}
use celery_cnc.Base.{
  string_eq, contains, keep_if, length, length-append, List-cases, Bool-cases, ==_cases,
}
use mathlib.Core.Option.{none-ne-some, some-injective}
use celery_cnc.Retry.{Adjacency, children, Search, visit, loop, edges_left, first, descendants_bfs}

length-keep_if {ℓ} :
    {A : Type ℓ} (keep : A → Bool) (xs : List A) → length (keep_if keep xs) ≤ length xs
unfolding keep_if
length-keep_if keep [] = omega arith
length-keep_if keep (x ∷ xs) = ground (arith, length-keep_if keep xs)

edges_left_mono :
    (visited : List String) (node : String) (adjacency : Adjacency)
    → edges_left (node ∷ visited) adjacency ≤ edges_left visited adjacency
unfolding edges_left
edges_left_mono visited node [] = omega arith
edges_left_mono visited node ((k, targets) ∷ rest) =
    ground (arith, edges_left_mono visited node rest)

-- A node that is visited for the first time takes its edges out of the count.
edges_left-visit :
    (visited : List String) (node : String) (adjacency : Adjacency)
    → contains visited node ≡ false
    → length (children adjacency node) + edges_left (node ∷ visited) adjacency
      ≤ edges_left visited adjacency
unfolding edges_left children
edges_left-visit visited node [] h = omega arith
edges_left-visit visited node ((k, targets) ∷ rest) h = elim (==_cases node k) [
  | inl (p, t) ↦
      rw t (ground (arith, edges_left_mono visited node rest, ap (contains visited) p, p))
  | inr (n, t) ↦ rw t (ground (arith, edges_left-visit visited node rest))
]

-- A bound on the rounds that are left.
abbrev pub work : Adjacency → Search → ℕ
work adjacency s = length s.queue + edges_left s.visited adjacency

work-visit :
    (adjacency : Adjacency) (s : Search) (node : String) (rest : List String)
    → s.queue ≡ node ∷ rest
    → suc (work adjacency (visit adjacency s node rest)) ≤ work adjacency s
unfolding visit
work-visit adjacency s node rest e = elim (Bool-cases (contains s.visited node)) [
  | inl t ↦ rw t (omega (arith, ap length e))
  | inr t ↦ rw t (
      omega (
        arith,
        ap length e,
        edges_left-visit s.visited node adjacency t,
        length-append rest
            (keep_if (λ child. not (contains (node ∷ s.visited) child)) (children adjacency node)),
        length-keep_if (λ child. not (contains (node ∷ s.visited) child)) (children adjacency node),
      ))
]

loop_returns :
    (adjacency : Adjacency) (fuel : ℕ) (s : Search)
    → work adjacency s ≤ fuel
    → (order : List String) × (loop adjacency fuel s ≡ some order)
unfolding loop
loop_returns adjacency zero s h = elim (List-cases s.queue) [
  | inl empty ↦ (s.order, rw (empty, loop))
  | inr (node, rest, e) ↦ absurd (omega (arith, ap length e))
]
loop_returns adjacency (suc fuel) s h = elim (List-cases s.queue) [
  | inl empty ↦ (s.order, rw (empty, loop))
  | inr (node, rest, e) ↦
      let (order, r) =
        loop_returns adjacency fuel (visit adjacency s node rest)
          (omega (arith, work-visit adjacency s node rest e)) in
      (order, rw (e, loop) r)
]

-- The search ends within one round for its start and one for each edge.
pub descendants_bfs_returns :
    (adjacency : Adjacency) (start : String)
    → (order : List String) × (descendants_bfs adjacency start ≡ some order)
unfolding descendants_bfs
descendants_bfs_returns adjacency start =
    loop_returns adjacency (suc (edges_left [] adjacency)) (first start) (omega arith)

-- What every round keeps holds when the loop returns, and the queue is empty then.
pub loop_rule :
    (adjacency : Adjacency) (P : Search → Type 0)
    → ((s : Search) (node : String) (rest : List String)
        → s.queue ≡ node ∷ rest
        → P s
        → P (visit adjacency s node rest))
    → (fuel : ℕ) (s : Search) (order : List String) → P s
    → loop adjacency fuel s ≡ some order
    → (t : Search) × P t × (t.queue ≡ []) × (t.order ≡ order)
unfolding loop
loop_rule adjacency P keep zero s order p h = elim (List-cases s.queue) [
  | inl empty ↦ (s, p, empty, some-injective s.order order (rw (empty, loop) at h))
  | inr (node, rest, e) ↦ absurd (none-ne-some order (rw (e, loop) at h))
]
loop_rule adjacency P keep (suc fuel) s order p h = elim (List-cases s.queue) [
  | inl empty ↦ (s, p, empty, some-injective s.order order (rw (empty, loop) at h))
  | inr (node, rest, e) ↦
      loop_rule adjacency P keep fuel (visit adjacency s node rest) order (keep s node rest e p)
        (rw (e, loop) at h)
]
