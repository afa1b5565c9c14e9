-- ===== src/Reconciler/Turns.antt =====
-- Which workers are looked at: the index starts again with every refresh, which is due after thirty
-- seconds, so that the turns within thirty seconds are all that there are.
use celery_cnc.Base.{
  ℕ, suc, ◌+◌, ◌*◌, ◌-◌, ◌%◌, ◌≤◌, ◌<◌, ◌≡◌, ◌⊎◌, ◌≢◌, Bool, refl, sym, subst, ap, ◌∙◌, String,
  Option, none, some, List, [], ◌∷◌, length, arith, All, Bool-cases, inl, inr, true, false,
}
use celery_cnc.Base.{leb, get_elem?, is_empty, if◌then◌else◌, ◌||◌}
use native.Mathlib.Nat.{mod-le}
use celery_cnc.Reconciler.Process.{
  Database, Reconciler, choose_worker, next_worker_name, refresh_workers, should_refresh_workers,
  pick,
}

-- A worker turn: the clock at its start and after the refresh, if one is made.
pub record Instant : Type 0 where
  pub now : ℕ
  pub later : ℕ

-- Each turn starts at least `gap` seconds after the clock was last read.
abbrev pub Spaced : ℕ → ℕ → List Instant → Type 0
Spaced gap last [] = Unit
Spaced gap last (i ∷ rest) = (last + gap ≤ i.now) × (i.now ≤ i.later) × Spaced gap i.later rest

-- Taken from the first `n` workers, or nothing.
abbrev pub IsAmong : ℕ → List String → Option String → Type 0
IsAmong n names chosen = (chosen ≡ none) ⊎ ((i : ℕ) × (i < n) × (chosen ≡ get_elem? names i))

module _ {F S : Type 0} (D : Database F S) where
  -- The workers that successive turns look at, the database as it is.
  unfoldable pub choose_workers : List Instant → S → Reconciler F → List (Option String)
  unfolding choose_worker
  choose_workers [] db r = []
  choose_workers (i ∷ rest) db r =
      let (chosen, s) = choose_worker D i.now i.later db r in chosen ∷ choose_workers rest db s

pick-IsAmong : (names : List String) (i : ℕ) → i < 10 → IsAmong 10 names (pick names i)
unfolding pick
pick-IsAmong [] i h = inl refl
pick-IsAmong (x ∷ xs) i h =
    inr (i % length (x ∷ xs), omega (arith, mod-le i (length (x ∷ xs)), h), refl)

or_true : (b : Bool) → (b || true) ≡ true
or_true true = refl
or_true false = refl

true-ne-false : true ≢ false
true-ne-false h = cc

not_leb : (a b : ℕ) → leb a b ≡ false → b < a
not_leb a b h = ground arith

is_empty_nil : (xs : List String) → is_empty xs ≡ true → xs ≡ []
is_empty_nil [] h = refl
is_empty_nil (x ∷ xs) h = cc

module _ {F : Type 0} (names : List String) where
  -- Since the last refresh at least three seconds have passed for each turn.
  record InStep (last : ℕ) (r : Reconciler F) : Type 0 where
    same_names : r.worker_names ≡ names
    elapsed : r.worker_refresh_at + 3 * r.worker_index ≤ last + 3

  abbrev Ready : ℕ → Reconciler F → Type 0
  Ready last r = (r.worker_names ≡ []) ⊎ InStep last r

  -- A choice and the state after it.
  abbrev IsGood : ℕ → Option String × Reconciler F → Type 0
  IsGood last (chosen, r) = IsAmong 10 names chosen × Ready last r

  next-IsGood :
      (last : ℕ) (r : Reconciler F)
      → r.worker_names ≡ names
      → r.worker_index < 10
      → r.worker_refresh_at + 3 * r.worker_index ≤ last
      → IsGood last (next_worker_name r)
  unfolding next_worker_name
  next-IsGood last r same below h = elim (Bool-cases (is_empty r.worker_names)) [
    | inl t ↦
        subst
          (λ b. IsGood last (
            if b then (none, r) else (
              pick r.worker_names r.worker_index,
              record r { worker_index = suc r.worker_index },
            )))
          (sym t) (inl refl, inl (is_empty_nil r.worker_names t))
    | inr t ↦
        subst
          (λ b. IsGood last (
            if b then (none, r) else (
              pick r.worker_names r.worker_index,
              record r { worker_index = suc r.worker_index },
            )))
          (sym t)
          (
            subst (λ ns. IsAmong 10 ns (pick r.worker_names r.worker_index)) same
                (pick-IsAmong r.worker_names r.worker_index below),
            inr (record { same_names = same; elapsed = omega (arith, h) }),
          )
  ]

module _ {F S : Type 0} (D : Database F S) (names : List String) (db : S)
    (works : D.get_workers db ≡ some names) where
  refresh-IsGood :
      (last now later : ℕ) (r : Reconciler F)
      → IsGood names later (next_worker_name (refresh_workers D later db r))
  unfolding refresh_workers
  refresh-IsGood last now later r =
      subst
        (λ o. IsGood names later (
          next_worker_name (elim o [
            | none ↦ r
            | some hostnames ↦ record r {
              worker_names = hostnames;
              worker_refresh_at = later;
              worker_index = 0;
            }
          ])))
        (sym works)
        (next-IsGood names later
          (record r { worker_names = names; worker_refresh_at = later; worker_index = 0 }) refl
          (omega arith) (omega arith))

  -- Without a refresh, fewer than thirty seconds have passed.
  still_below :
      (last now : ℕ) (r : Reconciler F)
      → last + 3 ≤ now
      → InStep names last r
      → should_refresh_workers now r ≡ false
      → (r.worker_index < 10) × (r.worker_refresh_at + 3 * r.worker_index ≤ now)
  unfolding should_refresh_workers
  still_below last now r spaced step not_due =
      let e = step.elapsed in
      elim (Bool-cases (leb 30 (now - r.worker_refresh_at))) [
        | inl t ↦ cc
        | inr t ↦ let below = not_leb 30 (now - r.worker_refresh_at) t in (omega arith, omega arith)
      ]

  empty_is_due :
      (now : ℕ) (r : Reconciler F) → r.worker_names ≡ [] → should_refresh_workers now r ≡ true
  unfolding should_refresh_workers
  empty_is_due now r e =
      ap (λ ns. leb 30 (now - r.worker_refresh_at) || is_empty ns) e
      ∙ or_true (leb 30 (now - r.worker_refresh_at))

  settled-IsGood :
      (last now later : ℕ) (r : Reconciler F)
      → last + 3 ≤ now
      → now ≤ later
      → should_refresh_workers now r ≡ false
      → Ready names last r
      → IsGood names later (next_worker_name r)
  settled-IsGood last now later r spaced order not_due (inl e) =
      elim (true-ne-false (sym (empty_is_due now r e) ∙ not_due)) [ ]
  settled-IsGood last now later r spaced order not_due (inr step) =
      let (below, elapsed) = still_below last now r spaced step not_due in
      next-IsGood names later r step.same_names below (omega (arith, elapsed, order))

  choose_worker-IsGood :
      (last now later : ℕ) (r : Reconciler F)
      → last + 3 ≤ now
      → now ≤ later
      → Ready names last r
      → IsGood names later (choose_worker D now later db r)
  unfolding choose_worker
  choose_worker-IsGood last now later r spaced order ready =
      elim (Bool-cases (should_refresh_workers now r)) [
        | inl t ↦
            subst
              (λ b.
                IsGood names later
                  (next_worker_name (if b then refresh_workers D later db r else r)))
              (sym t) (refresh-IsGood last now later r)
        | inr t ↦
            subst
              (λ b.
                IsGood names later
                  (next_worker_name (if b then refresh_workers D later db r else r)))
              (sym t) (settled-IsGood last now later r spaced order t ready)
      ]

  choose_workers-IsAmong :
      (turns : List Instant) (last : ℕ) (r : Reconciler F)
      → Ready names last r
      → Spaced 3 last turns
      → All (IsAmong 10 names) (choose_workers D turns db r)
  unfolding choose_workers
  choose_workers-IsAmong [] last r ready spaced = tt
  choose_workers-IsAmong (i ∷ rest) last r ready (gap, order, spaced) =
      let (good, next) = choose_worker-IsGood last i.now i.later r gap order ready in
      (good, choose_workers-IsAmong rest i.later (choose_worker D i.now i.later db r).1 next spaced)

  -- While the database answers with the same list of workers, the turns of a process that starts
  -- without one, at least three seconds apart, look at none but the first ten of the list, however
  -- long the process runs.
  pub first_ten_only :
      (turns : List Instant) (last : ℕ) (r : Reconciler F)
      → r.worker_names ≡ []
      → Spaced 3 last turns
      → All (IsAmong 10 names) (choose_workers D turns db r)
  first_ten_only turns last r fresh spaced = choose_workers-IsAmong turns last r (inl fresh) spaced
