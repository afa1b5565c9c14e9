-- ===== src/Base/Python.antt =====
-- Methods of Python's `str` on texts: `split`, `strip`, `lstrip`, `rstrip`, `lower` and `join`.
use Prim.Native.Char.{Char, code}
use Prim.Native.String.{String, ◌++◌}
use mathlib.Core.List.{List, [], ◌∷◌}
use celery_cnc.Base.{ℕ, ◌≡◌, refl, Bool, true, false, ◌&&◌, ◌||◌}
use celery_cnc.Base.{◌==◌, nat_eq, string_eq, if◌then◌else◌, leb}
use celery_cnc.Base.Text.{is_space, lower, has_prefix}

-- Puts a character at the front of the first piece.
abbrev push : Char → List String → List String
push c [] = String.◌∷◌ c String.[] ∷ []
push c (piece ∷ pieces) = String.◌∷◌ c piece ∷ pieces

-- `text.split(sep)` for a separator of one character.
unfoldable pub split_on : ℕ → String → List String
split_on sep String.[] = String.[] ∷ []
split_on sep (String.◌∷◌ c s) =
    let pieces = split_on sep s in if code c == sep then String.[] ∷ pieces else push c pieces

-- `text.lstrip(…)` and `text.rstrip(…)`, for a test of the characters that go.
unfoldable pub strip_front : (ℕ → Bool) → String → String
strip_front goes String.[] = String.[]
strip_front goes (String.◌∷◌ c s) =
    let rest = strip_front goes s in if goes (code c) then rest else String.◌∷◌ c s

unfoldable pub strip_back : (ℕ → Bool) → String → String
strip_back goes String.[] = String.[]
strip_back goes (String.◌∷◌ c s) =
    let rest = strip_back goes s in
    if rest == "" && goes (code c) then String.[] else String.◌∷◌ c rest

-- `text.strip()`
unfoldable pub strip_text : String → String
unfolding strip_front strip_back
strip_text s = strip_back is_space (strip_front is_space s)

abbrev pub is_slash : ℕ → Bool
is_slash c = c == b'/'

-- The code points of `text.lower()`, on ASCII letters.
unfoldable pub lowered : String → List ℕ
unfolding lower
lowered String.[] = []
lowered (String.◌∷◌ c s) = lower (code c) ∷ lowered s

-- `text.isascii()`
unfoldable pub is_ascii : String → Bool
is_ascii String.[] = true
is_ascii (String.◌∷◌ c s) = leb (code c) 127 && is_ascii s

-- `sep.join(texts)`
unfoldable pub join : String → List String → String
join sep [] = ""
join sep (t ∷ []) = t
join sep (t ∷ u ∷ rest) = t ++ (sep ++ join sep (u ∷ rest))

-- The stripped pieces of a text between commas that are not empty.
unfoldable pub strip_all : List String → List String
strip_all [] = []
strip_all (piece ∷ pieces) =
    let item = strip_text piece in if item == "" then strip_all pieces else item ∷ strip_all pieces

unfoldable pub csv_items : String → List String
unfolding strip_all split_on
csv_items raw = strip_all (split_on b',' raw)

-- Two texts with the same code points, and `needle in text`, on code points.
unfoldable pub same_codes : List ℕ → List ℕ → Bool
same_codes [] [] = true
same_codes [] (c ∷ s) = false
same_codes (c ∷ s) [] = false
same_codes (c ∷ s) (d ∷ t) = c == d && same_codes s t

unfoldable pub includes_codes : List ℕ → List ℕ → Bool
unfolding has_prefix
includes_codes needle [] = has_prefix needle []
includes_codes needle (c ∷ s) = has_prefix needle (c ∷ s) || includes_codes needle s

split_test : split_on b',' "a,,b" ≡ "a" ∷ "" ∷ "b" ∷ []
unfolding split_on nat_eq
split_test = refl

csv_test : csv_items " a, ,b c " ≡ "a" ∷ "b c" ∷ []
unfolding csv_items strip_all strip_text strip_front strip_back split_on nat_eq string_eq
csv_test = refl

strip_back_test : strip_back is_slash "/a//" ≡ "/a"
unfolding strip_back nat_eq string_eq
strip_back_test = refl
