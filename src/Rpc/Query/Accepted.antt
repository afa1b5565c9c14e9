-- ===== src/Rpc/Query/Accepted.antt =====
-- An accepted query is one statement that reads, and is accepted again as it is.
use mathlib.Core.List.{reverse, reverse-append, reverse-reverse}
use celery_cnc.Base.{
  Bool-cases, inl, inr, sym, subst, ap, ◌∙◌, ℕ, zero, suc, ◌≤◌, ◌≡◌, refl, true, false, some, List,
  [], ◌∷◌, map, arith, length,
}
use celery_cnc.Base.{◌==◌, nat_eq, contains, contains-append, if◌then◌else◌}
use celery_cnc.Base.Text.{codes, lower, strip, strip_left, has_prefix, is_space}
use celery_cnc.Rpc.Query.{
  is_readonly, without_semicolons, validate_stripped, drop_semicolons, one_statement,
  validate_query,
}
use celery_cnc.Rpc.Query.Pragma.{pragma_query-none}

one_statement-accepts :
    (s : List ℕ) {q : List ℕ}
    → one_statement s ≡ some q
    → (s ≡ q) × (contains q b';' ≡ false) × (is_readonly q ≡ true)
unfolding one_statement
one_statement-accepts s h = ground (arith, pragma_query-none s)

-- The text does not begin with a space.
abbrev Trimmed : List ℕ → Type 0
Trimmed [] = Unit {0}
Trimmed (c ∷ s) = is_space c ≡ false

strip_left-Trimmed : (s : List ℕ) → Trimmed (strip_left s)
unfolding strip_left
strip_left-Trimmed [] = tt
strip_left-Trimmed (c ∷ s) = elim (Bool-cases (is_space c)) [
  | inl e ↦ subst (λ b. Trimmed (if b then strip_left s else c ∷ s)) (sym e) (strip_left-Trimmed s)
  | inr e ↦ subst (λ b. Trimmed (if b then strip_left s else c ∷ s)) (sym e) e
]

strip_left-Trimmed_lem : (s : List ℕ) → Trimmed s → strip_left s ≡ s
unfolding strip_left
strip_left-Trimmed_lem [] h = refl
strip_left-Trimmed_lem (c ∷ s) h = ap (λ b. if b then strip_left s else c ∷ s) h

drop_semicolons-Trimmed : (fuel : ℕ) (s : List ℕ) → Trimmed s → Trimmed (drop_semicolons fuel s)
unfolding drop_semicolons
drop_semicolons-Trimmed zero s h = h
drop_semicolons-Trimmed (suc fuel) [] h = tt
drop_semicolons-Trimmed (suc fuel) (c ∷ s) h = elim (Bool-cases (c == b';')) [
  | inl e ↦
      subst (λ b. Trimmed (if b then drop_semicolons fuel (strip_left s) else c ∷ s)) (sym e)
        (drop_semicolons-Trimmed fuel (strip_left s) (strip_left-Trimmed s))
  | inr e ↦
      subst (λ b. Trimmed (if b then drop_semicolons fuel (strip_left s) else c ∷ s)) (sym e) h
]

-- A text that ends with no semicolon is left as it is.
drop_semicolons-absent :
    (fuel : ℕ) (s : List ℕ) → contains s b';' ≡ false → drop_semicolons fuel s ≡ s
unfolding drop_semicolons
drop_semicolons-absent zero s h = refl
drop_semicolons-absent (suc fuel) [] h = refl
drop_semicolons-absent (suc fuel) (c ∷ s) h = ground arith

contains-reverse : (s : List ℕ) (c : ℕ) → contains s c ≡ false → contains (reverse s) c ≡ false
contains-reverse [] c h = refl
contains-reverse (x ∷ s) c h =
    ap (λ t. contains t c) (reverse-append (x ∷ []) s)
    ∙ ground (arith, contains-append (reverse s) (x ∷ []) c, contains-reverse s c)

letter-is_space : (c : ℕ) → b'A' ≤ c → c ≤ b'z' → is_space c ≡ false
letter-is_space c h k = ground arith

lower-letter : (c : ℕ) → b'e' ≤ lower c → lower c ≤ b'w' → (b'A' ≤ c) × (c ≤ b'z')
unfolding lower
lower-letter c h k = ground arith

is_readonly-head :
    (c : ℕ) (s : List ℕ) → is_readonly (c ∷ s) ≡ true → (b'e' ≤ lower c) × (lower c ≤ b'w')
unfolding is_readonly has_prefix
is_readonly-head c s h = ground arith

-- What reads begins with a letter.
is_readonly-Trimmed : (s : List ℕ) → is_readonly s ≡ true → Trimmed s
is_readonly-Trimmed [] h = tt
is_readonly-Trimmed (c ∷ s) h =
    let (low, high) = is_readonly-head c s h in
    let (above, below) = lower-letter c low high in letter-is_space c above below

not_pragma : (s : List ℕ) → is_readonly s ≡ true → has_prefix (codes "pragma") (map lower s) ≡ false
unfolding is_readonly has_prefix
not_pragma [] h = refl
not_pragma (c ∷ s) h = ground arith

one_statement-again :
    (q : List ℕ) → contains q b';' ≡ false → is_readonly q ≡ true → one_statement q ≡ some q
unfolding one_statement
one_statement-again q h r = ground (arith, not_pragma q r)

strip_lem : (q : List ℕ) → Trimmed q → Trimmed (reverse q) → strip q ≡ q
unfolding strip
strip_lem q h k =
    ap (λ t. reverse (strip_left (reverse t))) (strip_left-Trimmed_lem q h)
    ∙ ap reverse (strip_left-Trimmed_lem (reverse q) k)
    ∙ reverse-reverse q

validate_stripped-accepts :
    (s : List ℕ) {q : List ℕ}
    → validate_stripped s ≡ some q
    → one_statement (without_semicolons s) ≡ some q
unfolding validate_stripped
validate_stripped-accepts [] h = cc
validate_stripped-accepts (c ∷ s) h = h

-- An accepted query is free of semicolons and begins, in either case, with select, with or explain.
pub validate_query-is_readonly :
    (value : List ℕ) {q : List ℕ}
    → validate_query value ≡ some q
    → (contains q b';' ≡ false) × (is_readonly q ≡ true)
unfolding validate_query
validate_query-is_readonly value h =
    let (_, single, reads) = one_statement-accepts _ (validate_stripped-accepts (strip value) h) in
    (single, reads)

without_semicolons-reverse-Trimmed :
    (s : List ℕ) → Trimmed (reverse s) → Trimmed (reverse (without_semicolons s))
unfolding without_semicolons
without_semicolons-reverse-Trimmed s h =
    subst Trimmed (sym (reverse-reverse (drop_semicolons (length s) (reverse s))))
      (drop_semicolons-Trimmed (length s) (reverse s) h)

strip-reverse-Trimmed : (s : List ℕ) → Trimmed (reverse (strip s))
unfolding strip
strip-reverse-Trimmed s =
    subst Trimmed (sym (reverse-reverse (strip_left (reverse (strip_left s)))))
      (strip_left-Trimmed (reverse (strip_left s)))

empty_reads : is_readonly [] ≡ true → ⊥
unfolding is_readonly has_prefix
empty_reads h = cc

without_semicolons-absent : (s : List ℕ) → contains s b';' ≡ false → without_semicolons s ≡ s
unfolding without_semicolons
without_semicolons-absent s h =
    ap reverse (drop_semicolons-absent (length s) (reverse s) (contains-reverse s b';' h))
    ∙ reverse-reverse s

validate_stripped-again :
    (q : List ℕ) → contains q b';' ≡ false → is_readonly q ≡ true → validate_stripped q ≡ some q
unfolding validate_stripped
validate_stripped-again [] h r = absurd (empty_reads r)
validate_stripped-again (c ∷ s) h r =
    ap one_statement (without_semicolons-absent (c ∷ s) h) ∙ one_statement-again (c ∷ s) h r

-- An accepted query is accepted again, as it is: what the client's model made of it passes the server's.
pub validate_query-again :
    (value : List ℕ) {q : List ℕ} → validate_query value ≡ some q → validate_query q ≡ some q
unfolding validate_query
validate_query-again value {q} h =
    let accepted = validate_stripped-accepts (strip value) h in
    let (is, single, reads) = one_statement-accepts _ accepted in
    ap validate_stripped (
      strip_lem q (is_readonly-Trimmed q reads) (
        subst (λ t. Trimmed (reverse t)) is
          (without_semicolons-reverse-Trimmed (strip value) (strip-reverse-Trimmed value))))
    ∙ validate_stripped-again q single reads
