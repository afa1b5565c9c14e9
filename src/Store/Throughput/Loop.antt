-- ===== src/Store/Throughput/Loop.antt =====
-- The loop that makes the buckets.
use celery_cnc.Base.{
  ℕ, zero, suc, ◌+◌, ◌*◌, ◌≤◌, ◌<◌, ◌≡◌, refl, subst, true, none, some, [], ◌∷◌, leb, ◌==◌, ==_refl,
  nat_eq, contains, arith, Bool-cases, inl, inr,
}
use celery_cnc.Base.Dict.{Dict, lookup, insert, keys, contains-keys-insert}
use celery_cnc.Schemas.{Datetime}
use celery_cnc.Store.Throughput.{bucket_loop}

unfoldable pub total : Dict Datetime ℕ → ℕ
total [] = 0
total ((k, v) ∷ d) = v + total d

total-insert-zero : (k : Datetime) (d : Dict Datetime ℕ) → total (insert k 0 d) ≤ total d
unfolding total insert
total-insert-zero k [] = omega arith
total-insert-zero k ((j, v) ∷ d) = ground (arith, total-insert-zero k d)

pub total-insert-suc :
    (k : Datetime) (d : Dict Datetime ℕ) (n : ℕ)
    → lookup k d ≡ some n
    → total (insert k (suc n) d) ≡ suc (total d)
unfolding total insert lookup
total-insert-suc k [] n h = cc
total-insert-suc k ((j, v) ∷ d) n h = ground (arith, total-insert-suc k d n)

pub lookup-contains :
    (k : Datetime) (d : Dict Datetime ℕ)
    → contains (keys d) k ≡ true
    → (n : ℕ) × (lookup k d ≡ some n)
unfolding keys lookup
lookup-contains k [] h = cc
lookup-contains k ((j, v) ∷ d) h = elim (Bool-cases (k == j)) [
  | inl e ↦ (v, rw e refl)
  | inr e ↦ rw e (lookup-contains k d (ground arith))
]

module _ (end step : ℕ) (d : Dict Datetime ℕ) where
  pub bucket_loop-total :
      (fuel : ℕ) (cursor : Datetime) (buckets : Dict Datetime ℕ)
      → bucket_loop fuel cursor end step buckets ≡ some d
      → total d ≤ total buckets
  unfolding bucket_loop
  bucket_loop-total zero cursor buckets h = cc
  bucket_loop-total (suc fuel) cursor buckets h = ground (
    arith,
    bucket_loop-total fuel (cursor + step) (insert cursor 0 buckets),
    total-insert-zero cursor buckets,
  )

  bucket_loop-keeps :
      (fuel : ℕ) (cursor : Datetime) (buckets : Dict Datetime ℕ) (k : Datetime)
      → contains (keys buckets) k ≡ true
      → bucket_loop fuel cursor end step buckets ≡ some d
      → contains (keys d) k ≡ true
  unfolding bucket_loop
  bucket_loop-keeps zero cursor buckets k p h = cc
  bucket_loop-keeps (suc fuel) cursor buckets k p h = ground (
    arith,
    bucket_loop-keeps fuel (cursor + step) (insert cursor 0 buckets) k,
    contains-keys-insert k cursor 0 buckets,
  )

  bucket_loop-first :
      (fuel : ℕ) (cursor : Datetime) (buckets : Dict Datetime ℕ)
      → cursor ≤ end
      → bucket_loop fuel cursor end step buckets ≡ some d
      → contains (keys d) cursor ≡ true
  unfolding bucket_loop
  bucket_loop-first zero cursor buckets le h = cc
  bucket_loop-first (suc fuel) cursor buckets le h = ground (
    arith,
    bucket_loop-keeps fuel (cursor + step) (insert cursor 0 buckets) cursor,
    contains-keys-insert cursor cursor 0 buckets,
    ==_refl cursor,
  )

  suc_times : (j : ℕ) → suc j * step ≡ step + j * step
  suc_times j = omega arith

  pub bucket_loop-contains :
      (fuel : ℕ) (cursor : Datetime) (buckets : Dict Datetime ℕ) (j k : ℕ)
      → k ≡ cursor + j * step
      → k ≤ end
      → bucket_loop fuel cursor end step buckets ≡ some d
      → contains (keys d) k ≡ true
  unfolding bucket_loop
  bucket_loop-contains zero cursor buckets j k e le h = cc
  bucket_loop-contains (suc fuel) cursor buckets zero k e le h =
      let is : cursor ≡ k = omega (arith, e) in
      subst (λ k. contains (keys d) k ≡ true) is
        (bucket_loop-first (suc fuel) cursor buckets (omega (arith, is)) h)
  bucket_loop-contains (suc fuel) cursor buckets (suc j) k e le h =
      ground (
        arith,
        suc_times j,
        bucket_loop-contains fuel (cursor + step) (insert cursor 0 buckets) j k,
      )

module _ (end step : ℕ) where
  -- Two rounds more than the microseconds of the range are enough, if a bucket has a width.
  pub bucket_loop-returns :
      (fuel : ℕ) (cursor : Datetime) (buckets : Dict Datetime ℕ)
      → 0 < step
      → end + 2 ≤ cursor + fuel
      → 0 < fuel
      → (d : Dict Datetime ℕ) × (bucket_loop fuel cursor end step buckets ≡ some d)
  unfolding bucket_loop
  bucket_loop-returns zero cursor buckets w h p = absurd (omega arith)
  bucket_loop-returns (suc fuel) cursor buckets w h p = elim (Bool-cases (leb cursor end)) [
    | inl le ↦ rw le (
        bucket_loop-returns fuel (cursor + step) (insert cursor 0 buckets) w (omega arith)
          (ground arith))
    | inr gt ↦ (buckets, rw gt refl)
  ]

same_cursor : (n : ℕ) → n + 0 ≡ n
same_cursor n = omega arith

-- Buckets of no width: the loop does not end.
pub bucket_loop-none :
    (fuel : ℕ) (cursor end : Datetime) (buckets : Dict Datetime ℕ)
    → cursor ≤ end
    → bucket_loop fuel cursor end 0 buckets ≡ none
unfolding bucket_loop
bucket_loop-none zero cursor end buckets h = refl
bucket_loop-none (suc fuel) cursor end buckets h =
    ground (arith, bucket_loop-none fuel cursor end (insert cursor 0 buckets), same_cursor cursor)
