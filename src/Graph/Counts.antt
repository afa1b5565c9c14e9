-- ===== src/Graph/Counts.antt =====
-- The counts of the states.
use celery_cnc.Base.{
  ℕ, ◌+◌, ◌≡◌, refl, ◌∙◌, String, Bool, false, not, ◌&&◌, Option, none, some, List, [], ◌∷◌, arith,
  inl, inr,
}
use celery_cnc.Base.{◌==◌, string_eq, if◌then◌else◌, Bool-cases, count_if, contains}
use celery_cnc.Graph.{GraphCounts, no_counts, count_state, count_states, build_state_counts}

abbrev pub buckets : GraphCounts → ℕ
buckets c = c.pending + c.running + c.retry + c.success + c.failure + c.revoked

-- The states that have a bucket.
abbrev pub bucket_states : List String
bucket_states =
    "PENDING" ∷ "RECEIVED" ∷ "STARTED" ∷ "RETRY" ∷ "SUCCESS" ∷ "FAILURE" ∷ "REVOKED" ∷ []

abbrev pub has_no_bucket : Option String → Bool
has_no_bucket none = false
has_no_bucket (some state) = not (state == "") && not (contains bucket_states state)

abbrev one : Bool → ℕ
one b = if b then 1 else 0

count_state-total :
    (s : String) (c : GraphCounts) (n : ℕ)
    → c.total ≡ buckets c + n
    → (count_state s c).total ≡ buckets (count_state s c) + (one (has_no_bucket (some s)) + n)
unfolding count_state
count_state-total s c n h = elim (Bool-cases (s == "")) [
  | inl t ↦ rw t (omega (arith, h))
  | inr t ↦ ground arith
]

count_states-total :
    (states : List (Option String)) (c : GraphCounts) (n : ℕ)
    → c.total ≡ buckets c + n
    → (count_states states c).total
      ≡ buckets (count_states states c) + (count_if has_no_bucket states + n)
unfolding count_states count_if
count_states-total [] c n h = omega (arith, h)
count_states-total (none ∷ rest) c n h = count_states-total rest c n h
count_states-total (some s ∷ rest) c n h =
    count_states-total rest (count_state s c) (one (has_no_bucket (some s)) + n)
      (count_state-total s c n h)
    ∙ ground arith

-- The total counts the nodes of every bucket and those with a state that has none, such as REJECTED.
pub build_state_counts-total :
    (states : List (Option String))
    → (build_state_counts states).total
      ≡ buckets (build_state_counts states) + count_if has_no_bucket states
unfolding build_state_counts
build_state_counts-total states = count_states-total states no_counts 0 refl ∙ omega arith
