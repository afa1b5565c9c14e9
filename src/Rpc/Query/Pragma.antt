-- ===== src/Rpc/Query/Pragma.antt =====
-- No `PRAGMA` is accepted.
use celery_cnc.Base.{
  Bool-cases, ◌⊎◌, inl, inr, sym, subst, ℕ, ◌≡◌, refl, Bool, true, false, ◌||◌, Option, none, some,
  List, [], ◌∷◌, map, arith,
}
use celery_cnc.Base.{◌==◌, nat_eq, contains, if◌then◌else◌}
use celery_cnc.Base.Text.{codes, lower}
use celery_cnc.Rpc.Query.{
  named_pragma, matched, is_s, in_class, is_one_of, readonly_pragmas, class_run, skip_s, group,
  after_s, after, pragma_match, last_part, pragma_query,
}

abbrev All : (ℕ → Bool) → List ℕ → Type 0
All p [] = Unit {0}
All p (c ∷ s) = (p c ≡ true) × All p s

abbrev plain : ℕ → Bool
plain c = c == 92 || c == b'w'

or_false : (a b : Bool) → (a || b) ≡ false → (a ≡ false) × (b ≡ false)
or_false a b h = ground arith

class_run-All : (s : List ℕ) → All in_class (class_run s)
unfolding class_run
class_run-All [] = tt
class_run-All (c ∷ s) = ground (arith, class_run-All s)

in_class-plain : (c : ℕ) → in_class c ≡ true → (b'.' == c) ≡ false → plain (lower c) ≡ true
unfolding lower
in_class-plain c p q = ground arith

plain-All : (s : List ℕ) → All in_class s → contains s b'.' ≡ false → All plain (map lower s)
plain-All [] h none_left = tt
plain-All (c ∷ s) (p, h) none_left =
    (in_class-plain c p (or_false _ _ none_left).0, plain-All s h (or_false _ _ none_left).1)

plain_cases : (c : ℕ) → plain c ≡ true → (c ≡ 92) ⊎ (c ≡ b'w')
plain_cases c p = ground arith

last_part-plain : (s : List ℕ) → All in_class s → All plain (map lower (last_part s))
unfolding last_part
last_part-plain [] h = tt
last_part-plain (c ∷ s) (p, h) = elim (Bool-cases (contains (c ∷ s) b'.')) [
  | inl dot ↦
      subst (λ b. All plain (map lower (if b then last_part s else c ∷ s))) (sym dot)
        (last_part-plain s h)
  | inr none_left ↦
      subst (λ b. All plain (map lower (if b then last_part s else c ∷ s))) (sym none_left)
        (plain-All (c ∷ s) (p, h) none_left)
]

readonly_plain : (s : List ℕ) → All plain s → is_one_of readonly_pragmas s ≡ false
unfolding nat_eq
readonly_plain [] h = refl
readonly_plain (c ∷ s) (p, h) = elim (plain_cases c p) [
  | inl e ↦ subst (λ x. is_one_of readonly_pragmas (x ∷ s) ≡ false) (sym e) refl
  | inr e ↦ subst (λ x. is_one_of readonly_pragmas (x ∷ s) ≡ false) (sym e) refl
]

abbrev Group : Option (List ℕ) → Type 0
Group none = Unit {0}
Group (some name) = All in_class name

group-Group : (s : List ℕ) → All in_class s → Group (group s)
group-Group [] h = tt
group-Group (c ∷ s) h = h

if-Group : (b : Bool) (m : Option (List ℕ)) → Group m → Group (if b then m else none)
if-Group true m h = h
if-Group false m h = tt

after_s-Group : (s : List ℕ) → Group (after_s s)
unfolding after_s
after_s-Group [] = tt
after_s-Group (c ∷ s) =
    if-Group (is_s c) (group (class_run (skip_s s)))
      (group-Group (class_run (skip_s s)) (class_run-All (skip_s s)))

matched-Group : (m : Option (List ℕ)) → Group (matched m)
unfolding matched
matched-Group none = tt
matched-Group (some rest) = after_s-Group rest

pragma_match-Group : (s : List ℕ) → Group (pragma_match s)
unfolding pragma_match
pragma_match-Group s = matched-Group (after (codes "pragma\\") s)

named_pragma-none : (s : List ℕ) (m : Option (List ℕ)) → Group m → named_pragma s m ≡ none
unfolding named_pragma
named_pragma-none s none h = refl
named_pragma-none s (some name) h =
    rw (readonly_plain (map lower (last_part name)) (last_part-plain name h))

pub pragma_query-none : (s : List ℕ) → pragma_query s ≡ none
unfolding pragma_query
pragma_query-none s = named_pragma-none s (pragma_match s) (pragma_match-Group s)
