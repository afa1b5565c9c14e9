-- ===== src/Metrics/Census.antt =====
-- Counting the entries of a dict that pass a test, across writes and removals.
use celery_cnc.Base.{
  ℕ, zero, suc, ◌+◌, ◌≡◌, refl, Bool, false, Option, none, some, [], ◌∷◌, arith, inl, inr, ap, ◌∙◌,
}
use celery_cnc.Base.{Eq, ◌==◌, if◌then◌else◌, contains, Distinct, ==_cases, Bool-cases}
use celery_cnc.Base.Dict.{
  Dict, keys, lookup, insert, erase, lookup-insert, lookup-erase, absent_of_lookup, lookup_absent,
}
use celery_cnc.Value.{Integer}
use celery_cnc.Metrics.{shifted, count_of, put_count, shift_count}

module _ {V : Type 0} (test : V → Bool) where
  -- 1 for an entry that passes the test.
  abbrev pub weight : Option V → ℕ
  weight none = 0
  weight (some v) = if test v then 1 else 0

  unfoldable pub census : {K : Type 0} → Dict K V → ℕ
  census [] = 0
  census ((k, v) ∷ d) = weight (some v) + census d

  module _ {K : Type 0} ⦃e : Eq K⦄ where
    pub census-insert :
        (k : K) (v : V) (d : Dict K V)
        → census (insert k v d) + weight (lookup k d) ≡ census d + weight (some v)
    unfolding census insert lookup
    census-insert k v [] = omega arith
    census-insert k v ((j, w) ∷ d) = elim (Bool-cases (k == j)) [
      | inl t ↦ rw t (omega arith)
      | inr t ↦ rw t (omega (arith, census-insert k v d))
    ]

    erase_absent : (k : K) (d : Dict K V) → contains (keys d) k ≡ false → erase k d ≡ d
    unfolding keys erase
    erase_absent k [] h = refl
    erase_absent k ((j, w) ∷ d) h = ground (arith, erase_absent k d)

    pub census-erase :
        (k : K) (d : Dict K V)
        → Distinct (keys d)
        → census (erase k d) + weight (lookup k d) ≡ census d
    unfolding census keys erase lookup
    census-erase k [] u = omega arith
    census-erase k ((j, w) ∷ d) (fresh, u) = elim (==_cases k j) [
      | inl (p, t) ↦ rw (t, erase_absent k d (ap (contains (keys d)) p ∙ fresh)) (omega arith)
      | inr (n, t) ↦ rw t (omega (arith, census-erase k d u))
    ]

    contains-keys-erase :
        (j k : K) (d : Dict K V)
        → contains (keys d) j ≡ false
        → contains (keys (erase k d)) j ≡ false
    contains-keys-erase j k d h =
        absent_of_lookup j (erase k d) (rw (lookup-erase, lookup_absent j d h) (ground arith))

    pub erase-Distinct : (k : K) (d : Dict K V) → Distinct (keys d) → Distinct (keys (erase k d))
    unfolding keys erase
    erase-Distinct k [] u = tt
    erase-Distinct k ((j, w) ∷ d) (fresh, u) = elim (Bool-cases (k == j)) [
      | inl t ↦ rw t (erase-Distinct k d u)
      | inr t ↦ rw t (contains-keys-erase j k d fresh, erase-Distinct k d u)
    ]

module _ {K : Type 0} ⦃e : Eq K⦄ where
  pub count_of-put_count :
      (j k : K) (n : ℕ) (counts : Dict K ℕ)
      → count_of j (put_count k n counts) ≡ (if j == k then n else count_of j counts)
  unfolding put_count
  count_of-put_count j k zero counts = elim (Bool-cases (j == k)) [
    | inl t ↦ rw (lookup-erase, t)
    | inr t ↦ rw (lookup-erase, t)
  ]
  count_of-put_count j k (suc n) counts = elim (Bool-cases (j == k)) [
    | inl t ↦ rw (lookup-insert, t)
    | inr t ↦ rw (lookup-insert, t)
  ]

  -- A shift changes the count of its key alone, and not below 0.
  pub count_of-shift_count :
      (j k : K) (delta : Integer) (counts : Dict K ℕ)
      → count_of j (shift_count k delta counts)
        ≡ (if j == k then shifted (count_of k counts) delta else count_of j counts)
  unfolding shift_count
  count_of-shift_count j k delta counts = count_of-put_count j k _ counts
