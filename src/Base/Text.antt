-- ===== src/Base/Text.antt =====
-- The text methods that the program uses: `in`, `partition`, `rpartition`, `endswith`, `strip` and
-- `lower` (the last on ASCII letters).
use Prim.Native.Char.{Char, code}
use Prim.Native.String.{String, ◌++◌}
use mathlib.Core.List.{List, [], ◌∷◌, reverse}
use text.Mathlib.TextLemmas.{nil-append, cons-append}
use text.Mathlib.Text.{starts_with}
use celery_cnc.Base.{ℕ, ◌+◌, ◌≡◌, Bool, true, false, ◌&&◌, ◌||◌, Option, none, some, arith}
use celery_cnc.Base.{◌==◌, nat_eq, string_eq, contains, if◌then◌else◌, leb, inl, inr, Bool-cases}

-- The code points of a text.
abbrev pub codes : String → List ℕ
codes String.[] = []
codes (String.◌∷◌ c s) = code c ∷ codes s

-- The two sides of the first and of the last occurrence of a code point.
unfoldable pub split_first : ℕ → String → Option (String × String)
split_first sep String.[] = none
split_first sep (String.◌∷◌ c s) =
    if code c == sep
    then some (String.[], s)
    else elim (split_first sep s) [ none ↦ none | some (a, b) ↦ some (String.◌∷◌ c a, b) ]

unfoldable pub split_last : ℕ → String → Option (String × String)
split_last sep String.[] = none
split_last sep (String.◌∷◌ c s) = elim (split_last sep s) [
  | some (a, b) ↦ some (String.◌∷◌ c a, b)
  | none ↦ if code c == sep then some (String.[], s) else none
]

-- `needle in text`
unfoldable pub includes : String → String → Bool
includes needle String.[] = starts_with String.[] needle
includes needle (String.◌∷◌ c s) = starts_with (String.◌∷◌ c s) needle || includes needle s

-- The code points that `str.strip` removes.
abbrev pub is_space : ℕ → Bool
is_space c =
    (leb 9 c && leb c 13)
    || (leb 28 c && leb c 32)
    || (leb 8192 c && leb c 8202)
    || contains (133 ∷ 160 ∷ 5760 ∷ 8232 ∷ 8233 ∷ 8239 ∷ 8287 ∷ 12288 ∷ []) c

unfoldable pub strip_left : List ℕ → List ℕ
strip_left [] = []
strip_left (c ∷ s) = let rest = strip_left s in if is_space c then rest else c ∷ s

unfoldable pub strip : List ℕ → List ℕ
unfolding strip_left
strip s = reverse (strip_left (reverse (strip_left s)))

unfoldable pub lower : ℕ → ℕ
lower c = if leb b'A' c && leb c b'Z' then c + 32 else c

-- `text.startswith(prefix)` on code points.
unfoldable pub has_prefix : List ℕ → List ℕ → Bool
has_prefix [] s = true
has_prefix (p ∷ ps) [] = false
has_prefix (p ∷ ps) (c ∷ s) = p == c && has_prefix ps s

unfoldable pub has_suffix : List ℕ → List ℕ → Bool
unfolding has_prefix
has_suffix suffix s = has_prefix (reverse suffix) (reverse s)

-- A text splits at its first separator, and at its last, whatever stands on the other side.
pub split_first-append :
    (sep : ℕ) (c : Char) (left right : String)
    → code c ≡ sep
    → split_first sep left ≡ none
    → split_first sep (left ++ String.◌∷◌ c right) ≡ some (left, right)
unfolding split_first
split_first-append sep c String.[] right e h = rw nil-append (ground arith)
split_first-append sep c (String.◌∷◌ d left) right e h = elim (Bool-cases (code d == sep)) [
  | inl t ↦ ground arith
  | inr t ↦ rw (cons-append, t) (ground (arith, split_first-append sep c left right e))
]

pub split_last_skip :
    (sep : ℕ) (left right host : String)
    → split_last sep right ≡ some (String.[], host)
    → split_last sep (left ++ right) ≡ some (left, host)
unfolding split_last
split_last_skip sep String.[] right host h = rw nil-append h
split_last_skip sep (String.◌∷◌ d left) right host h =
    rw cons-append (ground (arith, split_last_skip sep left right host h))

pub split_last-append :
    (sep : ℕ) (c : Char) (left right : String)
    → code c ≡ sep
    → split_last sep right ≡ none
    → split_last sep (left ++ String.◌∷◌ c right) ≡ some (left, right)
unfolding split_last
split_last-append sep c left right e h =
    split_last_skip sep left (String.◌∷◌ c right) right (ground arith)
