-- ===== src/Otel/Totals.antt =====
-- The sums of the changes that the exporter reports for a worker, beside the count that it keeps.
use celery_cnc.Base.{
  ◌≡◌, refl, ℕ, suc, ◌+◌, String, Bool, true, false, Option, some, List, [], ◌∷◌, ◌++◌, arith, inl,
  inr, ap, ◌∙◌, sym, Bool-cases, ==_iff,
}
use celery_cnc.Base.{◌==◌, nat_eq, string_eq, option_eq, if◌then◌else◌}
use celery_cnc.Value.{Integer, pos, negsuc}
use celery_cnc.Metrics.{
  Metric, worker_current, Labels, Reading, signed, Sample, pair_eq, count_of, put_count,
}
use celery_cnc.Metrics.Census.{count_of-put_count}
use celery_cnc.Otel.{OtelExporter, difference, add_delta, put_active, emit, worker_labels}

abbrev pub up : Integer → ℕ
up (pos n) = n
up (negsuc n) = 0

abbrev pub down : Integer → ℕ
down (pos n) = 0
down (negsuc n) = suc n

-- What one sample adds to the number of running tasks of a worker, under whatever broker and backend,
-- and what it takes from it.
module _ {F : Type 0} (side : Integer → ℕ) (worker : String) where
  abbrev pub share : Metric → Option String → Reading F → ℕ
  share worker_current (some w) (signed d) = if worker == w then side d else 0
  share metric w reading = 0

  unfoldable pub total : List (Sample F) → ℕ
  total [] = 0
  total (s ∷ rest) = share s.metric s.labels.worker s.reading + total rest

  total-append :
      (xs : List (Sample F)) (s : Sample F)
      → total (xs ++ s ∷ []) ≡ total xs + share s.metric s.labels.worker s.reading
  unfolding total
  total-append [] s = omega arith
  total-append (x ∷ xs) s = omega (arith, total-append xs s)

-- What goes up and down for a worker comes to the count that is kept for it.
abbrev pub AddsUp : {F : Type 0} → OtelExporter F → Type 0
AddsUp x = (j : String) → total up j x.samples ≡ total down j x.samples + count_of j x.active_counts

difference_parts :
    (current previous : ℕ)
    → up (difference current previous) + previous ≡ down (difference current previous) + current
unfolding difference
difference_parts current previous = ground arith

-- What a reported change of a worker's count adds on one side.
abbrev pub moved : (Integer → ℕ) → Bool → ℕ → ℕ → ℕ
moved side same current previous =
    if current == previous then 0 else if same then side (difference current previous) else 0

moved_balance :
    (same : Bool) (current previous : ℕ)
    → moved up same current previous + (if same then previous else 0)
      ≡ moved down same current previous + (if same then current else 0)
moved_balance same current previous = ground (arith, difference_parts current previous)

-- The step of the invariant, on numbers.
step_numbers :
    (same : Bool) (u v mu md current previous k k' : ℕ)
    → mu + (if same then previous else 0) ≡ md + (if same then current else 0)
    → k' ≡ (if same then current else k)
    → (same ≡ true → k ≡ previous)
    → u ≡ v + k
    → u + mu ≡ v + md + k'
step_numbers true u v mu md current previous k k' a b c d = omega (arith, c refl)
step_numbers false u v mu md current previous k k' a b c d = omega arith

module _ {F : Type 0} (upper lower strip : String → String) where
  -- A call of the client that is not about running tasks.
  pub quiet :
      (m : Metric) (l : Labels) (r : Reading F) (x : OtelExporter F)
      → ((j : String) → (share up j m l.worker r ≡ 0) × (share down j m l.worker r ≡ 0))
      → AddsUp x
      → AddsUp (emit upper lower strip m l r x)
  quiet m l r x still h j = omega (
    arith,
    total-append up j x.samples (record { metric = m; labels = l; reading = r }),
    total-append down j x.samples (record { metric = m; labels = l; reading = r }),
    still j,
    h j,
  )

  total-add_delta :
      (side : Integer → ℕ) (j worker : String) (l : Labels) (current previous : ℕ)
      (x : OtelExporter F)
      → l.worker ≡ some worker
      → total side j (add_delta upper lower strip worker_current l current previous x).samples
        ≡ total side j x.samples + moved side (j == worker) current previous
  unfolding add_delta
  total-add_delta side j worker l current previous x h = elim (Bool-cases (current == previous)) [
    | inl e ↦ rw e (omega arith)
    | inr e ↦ rw e (
        total-append side j x.samples (record {
          metric = worker_current;
          labels = l;
          reading = signed (difference current previous);
        })
        ∙ ap
            (λ w.
              total side j x.samples
              + share {F = F} side j worker_current w (signed (difference current previous)))
            h)
  ]

  active-add_delta :
      (m : Metric) (l : Labels) (current previous : ℕ) (x : OtelExporter F)
      → (add_delta upper lower strip m l current previous x).active_counts ≡ x.active_counts
  unfolding add_delta
  active-add_delta m l current previous x = elim (Bool-cases (current == previous)) [
    | inl e ↦ rw e
    | inr e ↦ rw e
  ]

  pub put_active-AddsUp :
      (worker : String) (current : ℕ) (x : OtelExporter F)
      → AddsUp x
      → AddsUp (put_active upper lower strip worker current x)
  unfolding put_active worker_labels
  put_active-AddsUp worker current x h j =
      let l = worker_labels upper lower strip x worker in
      let c = count_of worker x.active_counts in
      let y : OtelExporter F = record x {
        active_counts = put_count worker current x.active_counts;
      } in
      total-add_delta up j worker l current c y refl
      ∙ step_numbers (j == worker) (total up j x.samples) (total down j x.samples)
          (moved up (j == worker) current c) (moved down (j == worker) current c) current c
          (count_of j x.active_counts)
          (count_of j (put_active upper lower strip worker current x).active_counts)
          (moved_balance (j == worker) current c)
          (ap (count_of j) (active-add_delta worker_current l current c y)
            ∙ count_of-put_count j worker current x.active_counts)
          (λ e. ap (λ k. count_of k x.active_counts) ((==_iff j worker).0 e)) (h j)
      ∙ ap (λ n. n + count_of j (put_active upper lower strip worker current x).active_counts)
          (sym (total-add_delta down j worker l current c y refl))
