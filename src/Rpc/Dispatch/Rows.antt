-- ===== src/Rpc/Dispatch/Rows.antt =====
-- The rows that a raw query returns.
use celery_cnc.Base.{ℕ, zero, suc, ◌≤◌, ◌≡◌, refl, String, List, [], ◌∷◌, length, min, arith, ltb}
use celery_cnc.Value.{Value}
use celery_cnc.Rpc.Dispatch.{take, limited_rows}

module _ {A : Type 0} where
  take-take-suc : (n : ℕ) (xs : List A) → take n (take (suc n) xs) ≡ take n xs
  take-take-suc zero xs = refl
  take-take-suc (suc n) [] = refl
  take-take-suc (suc n) (x ∷ xs) = ground (arith, take-take-suc n xs)

  take_all : (n : ℕ) (xs : List A) → length xs ≤ n → take (suc n) xs ≡ take n xs
  take_all zero [] h = refl
  take_all zero (x ∷ xs) h = absurd (omega arith)
  take_all (suc n) [] h = refl
  take_all (suc n) (x ∷ xs) h = ground (arith, take_all n xs)

  length-take : (n : ℕ) (xs : List A) → length (take n xs) ≡ min n (length xs)
  length-take zero xs = omega arith
  length-take (suc n) [] = omega arith
  length-take (suc n) (x ∷ xs) = omega (arith, length-take n xs)

-- A raw query returns the first rows that it found, at most `max_rows`, with their number, and says that
-- it was cut short exactly when it found more.
pub limited_rows_bounds :
    (max_rows : ℕ) (columns : List String) (found : List (List Value))
    → ((limited_rows max_rows columns found).rows ≡ take max_rows found)
      × ((limited_rows max_rows columns found).row_count ≡ min max_rows (length found))
      × ((limited_rows max_rows columns found).truncated ≡ ltb max_rows (length found))
unfolding limited_rows
limited_rows_bounds max_rows columns found = ground (
  arith,
  length-take (suc max_rows) found,
  length-take max_rows found,
  take-take-suc max_rows found,
  take_all max_rows found,
)
