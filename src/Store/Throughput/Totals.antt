-- ===== src/Store/Throughput/Totals.antt =====
-- The buckets together count every task of the range once.
use celery_cnc.Base.{
  ℕ, suc, ◌+◌, ◌-◌, ◌*◌, ◌/◌, ◌≤◌, ◌<◌, ◌≡◌, refl, ap, ◌∙◌, true, ◌&&◌, Option, none, some, List,
  [], ◌∷◌, keep_if, leb, nat_eq, contains, arith, length, Bool-cases, inl, inr,
}
use celery_cnc.Base.Dict.{Dict, lookup, keys, contains-keys-insert}
use celery_cnc.Schemas.{Datetime, TimeRange, Task, ThroughputBucket}
use celery_cnc.Store.Throughput.{
  second, task_timestamp, is_between, filter_tasks, init_buckets, bucket_start, count_at,
  count_instant, count_tasks, bucket_list, get_throughput,
}
use celery_cnc.Store.Throughput.Loop.{
  total, total-insert-suc, lookup-contains, bucket_loop-total, bucket_loop-contains,
  bucket_loop-returns,
}

pub sum_counts : List ThroughputBucket → ℕ
sum_counts [] = 0
sum_counts (b ∷ bs) = b.count + sum_counts bs

sum_counts-bucket_list : (d : Dict Datetime ℕ) → sum_counts (bucket_list d) ≡ total d
unfolding sum_counts total
sum_counts-bucket_list [] = refl
sum_counts-bucket_list ((k, v) ∷ d) = ap (λ n. v + n) (sum_counts-bucket_list d)

times_div_le : (n w : ℕ) → n / w * w ≤ n
times_div_le n w = grind arith

div_bound :
    (delta w timestamp start : ℕ)
    → start ≤ timestamp
    → delta ≡ timestamp - start
    → start + delta / second / w * w * second ≤ timestamp
div_bound delta w timestamp start h e = omega (arith, times_div_le (delta / second) w, e)

bucket_start_bounds :
    (start timestamp bucket_seconds : ℕ)
    → start ≤ timestamp
    → bucket_start start timestamp bucket_seconds ≤ timestamp
unfolding bucket_start
bucket_start_bounds start timestamp bucket_seconds h =
    div_bound (timestamp - start) bucket_seconds timestamp start h refl

-- Where the bucket of every instant is there, every instant is counted, and the buckets stay.
count_instant-total :
    (r : TimeRange) (w : ℕ) (at : ℕ) (d : Dict Datetime ℕ)
    → contains (keys d) (bucket_start r.start at w) ≡ true
    → total (count_instant r w (some at) d) ≡ suc (total d)
unfolding count_instant
count_instant-total r w at d h =
    let (n, found) = lookup-contains (bucket_start r.start at w) d h in
    ap (λ m. total (count_at (bucket_start r.start at w) m d)) found
    ∙ total-insert-suc (bucket_start r.start at w) d n found

count_at-keeps :
    (j : ℕ) (n : Option ℕ) (d : Dict Datetime ℕ) (k : ℕ)
    → contains (keys d) k ≡ true
    → contains (keys (count_at j n d)) k ≡ true
unfolding count_at
count_at-keeps j none d k h = h
count_at-keeps j (some n) d k h = ground (arith, contains-keys-insert k j (suc n) d)

count_instant-keeps :
    (r : TimeRange) (w : ℕ) (at : Option ℕ) (d : Dict Datetime ℕ) (k : ℕ)
    → contains (keys d) k ≡ true
    → contains (keys (count_instant r w at d)) k ≡ true
unfolding count_instant
count_instant-keeps r w none d k h = h
count_instant-keeps r w (some at) d k h =
    count_at-keeps (bucket_start r.start at w) (lookup (bucket_start r.start at w) d) d k h

le_trans : (a b c : ℕ) → a ≤ b → b ≤ c → a ≤ c
le_trans a b c h k = omega arith

between_bounds : (a b c : ℕ) → (leb a b && leb b c) ≡ true → (a ≤ b) × (b ≤ c)
between_bounds a b c h = ground arith

-- Every instant of the range has its bucket.
init_buckets-contains :
    (fuel : ℕ) (r : TimeRange) (w : ℕ) {d : Dict Datetime ℕ}
    → init_buckets fuel r w ≡ some d
    → (at : ℕ) → r.start ≤ at
    → at ≤ r.finish
    → contains (keys d) (bucket_start r.start at w) ≡ true
unfolding init_buckets bucket_start
init_buckets-contains fuel r w {d} h at low high =
    bucket_loop-contains r.finish (w * second) d fuel r.start [] ((at - r.start) / second / w) _
      (omega arith) (le_trans _ _ _ (div_bound (at - r.start) w at r.start low refl) high) h

between-total :
    (r : TimeRange) (w : ℕ) (at : Option ℕ) (d : Dict Datetime ℕ)
    → is_between r at ≡ true
    → ((at : ℕ)
        → r.start ≤ at
        → at ≤ r.finish
        → contains (keys d) (bucket_start r.start at w) ≡ true)
    → total (count_instant r w at d) ≡ suc (total d)
between-total r w none d h has = cc
between-total r w (some at) d h has =
    let (low, high) = between_bounds r.start at r.finish h in
    count_instant-total r w at d (has at low high)

module _ {F : Type 0} (r : TimeRange) (w : ℕ) where
  count_tasks-total :
      (rows : List (Task F)) (d : Dict Datetime ℕ)
      → ((at : ℕ)
          → r.start ≤ at
          → at ≤ r.finish
          → contains (keys d) (bucket_start r.start at w) ≡ true)
      → total (count_tasks r w (filter_tasks none (some r) rows) d)
        ≡ total d + length (filter_tasks none (some r) rows)
  unfolding count_tasks filter_tasks keep_if total
  count_tasks-total [] d has = omega arith
  count_tasks-total (task ∷ rows) d has = elim (Bool-cases (is_between r (task_timestamp task))) [
    | inl e ↦ rw e (
        omega (
          arith,
          between-total r w (task_timestamp task) d e has,
          count_tasks-total rows (count_instant r w (task_timestamp task) d) (λ at low high.
              count_instant-keeps r w (task_timestamp task) d (bucket_start r.start at w)
                (has at low high)),
        ))
    | inr e ↦ rw e (count_tasks-total rows d has)
  ]

  get_throughput-buckets :
      (fuel : ℕ) (rows : List (Task F)) (d : Dict Datetime ℕ)
      → init_buckets fuel r w ≡ some d
      → get_throughput fuel rows r w
        ≡ some (bucket_list (count_tasks r w (filter_tasks none (some r) rows) d))
  unfolding get_throughput
  get_throughput-buckets fuel rows d h = rw (get_throughput, h) refl

  -- With buckets of at least a second, the throughput of a range comes back, with fuel for every
  -- microsecond of it, and its counts add up to the number of tasks whose instant is in the range.
  pub get_throughput-total :
      (fuel : ℕ) (rows : List (Task F))
      → 0 < w
      → 0 < fuel
      → r.finish + 2 ≤ r.start + fuel
      → (buckets : List ThroughputBucket) × (get_throughput fuel rows r w ≡ some buckets)
        × (sum_counts buckets ≡ length (filter_tasks none (some r) rows))
  unfolding init_buckets total
  get_throughput-total fuel rows wide some_fuel enough =
      let (d, h) =
        bucket_loop-returns r.finish (w * second) fuel r.start [] (ground arith) enough some_fuel in
      let selected = filter_tasks none (some r) rows in
      (
        bucket_list (count_tasks r w selected d),
        get_throughput-buckets fuel rows d h,
        sum_counts-bucket_list (count_tasks r w selected d)
            ∙ omega (
              arith,
              count_tasks-total rows d (init_buckets-contains fuel r w h),
              bucket_loop-total r.finish (w * second) d fuel r.start [] h,
            ),
      )
