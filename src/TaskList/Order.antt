-- ===== src/TaskList/Order.antt =====
-- celery_root/components/web/views/tasks.py: the order that a sort field and a direction ask for, said
-- without the code's comparison.
use celery_cnc.Base.{
  ℕ, ◌<◌, ◌≡◌, refl, sym, String, Bool, true, false, Option, none, some, List, [], ◌∷◌, arith,
  subst,
}
use celery_cnc.Base.{nat_eq, string_eq, inl, inr, ==_refl, ==_cases, contains}
use celery_cnc.Base.Python.{lowered, same_codes}
use celery_cnc.TaskList.{TaskView, words_lt, sortable_fields}

-- The order of texts by their code points, written out.
pub data Precedes : List ℕ → List ℕ → Type 0 where
  shorter : {d : ℕ} {t : List ℕ} → Precedes [] (d ∷ t)
  smaller : {c d : ℕ} {s t : List ℕ} → c < d → Precedes (c ∷ s) (d ∷ t)
  same_first : {c : ℕ} {s t : List ℕ} → Precedes s t → Precedes (c ∷ s) (c ∷ t)

-- Two neighbouring values: without a value the second may follow anything; with one it follows only a
-- value, one that is not greater in the ascending and one that is not less in the descending order.
abbrev pub InDirection : {A : Type 0} → (A → A → Type 0) → Bool → Option A → Option A → Type 0
InDirection Less reverse none none = Unit {0}
InDirection Less reverse (some a) none = Unit {0}
InDirection Less reverse none (some b) = ⊥
InDirection Less false (some a) (some b) = ¬ Less b a
InDirection Less true (some a) (some b) = ¬ Less a b

-- Two neighbouring rows in the order by a field, which names what of the rows is compared.
pub data RowsInOrder {F : Type 0} (float_lt : F → F → Bool) (reverse : Bool) (x y : TaskView F)
    : String → Type 0 where
  by_state :
      InDirection Precedes reverse (some (lowered x.state)) (some (lowered y.state))
      → RowsInOrder float_lt reverse x y "state"
  by_worker :
      InDirection Precedes reverse (some (lowered x.worker)) (some (lowered y.worker))
      → RowsInOrder float_lt reverse x y "worker"
  by_received :
      InDirection (λ a b. a < b) reverse x.received y.received
      → RowsInOrder float_lt reverse x y "received"
  by_started :
      InDirection (λ a b. a < b) reverse x.started y.started
      → RowsInOrder float_lt reverse x y "started"
  by_runtime :
      InDirection (λ a b. float_lt a b ≡ true) reverse x.runtime y.runtime
      → RowsInOrder float_lt reverse x y "runtime"

abbrev pub AllInOrder : {F : Type 0} → (F → F → Bool) → Bool → String → List (TaskView F) → Type 0
AllInOrder float_lt reverse field [] = Unit {0}
AllInOrder float_lt reverse field (x ∷ []) = Unit {0}
AllInOrder float_lt reverse field (x ∷ y ∷ rest) =
    RowsInOrder float_lt reverse x y field × AllInOrder float_lt reverse field (y ∷ rest)

-- What holds of each field that can be sorted by holds of a field that is one of them.
pub sortable_fields-each :
    (P : String → Type 0) (field : String)
    → contains sortable_fields field ≡ true
    → P "state"
    → P "worker"
    → P "received"
    → P "started"
    → P "runtime"
    → P field
sortable_fields-each P field h a b c d e = elim (==_cases field "state") [
  | inl (p, t) ↦ subst P (sym p) a
  | inr (n, t) ↦ elim (==_cases field "worker") [
    | inl (p, t') ↦ subst P (sym p) b
    | inr (n', t') ↦ elim (==_cases field "received") [
      | inl (p, t'') ↦ subst P (sym p) c
      | inr (n'', t'') ↦ elim (==_cases field "started") [
        | inl (p, u) ↦ subst P (sym p) d
        | inr (m, u) ↦ elim (==_cases field "runtime") [
          | inl (p, v) ↦ subst P (sym p) e
          | inr (m', v) ↦ absurd (let q = rw (t, t', t'', u, v) at h in cc)
        ]
      ]
    ]
  ]
]

pub Precedes-words_lt : {s t : List ℕ} → Precedes s t → words_lt s t ≡ true
unfolding words_lt
Precedes-words_lt shorter = refl
Precedes-words_lt (smaller h) = ground arith
Precedes-words_lt (same_first {c} h) = ground (arith, Precedes-words_lt h, ==_refl c)

pub words_lt_irrefl :
    (s t : List ℕ) → same_codes s t ≡ true → (words_lt s t ≡ false) × (words_lt t s ≡ false)
unfolding same_codes words_lt
words_lt_irrefl [] [] h = (refl, refl)
words_lt_irrefl [] (d ∷ t) h = cc
words_lt_irrefl (c ∷ s) [] h = cc
words_lt_irrefl (c ∷ s) (d ∷ t) h = ground (arith, words_lt_irrefl s t)
