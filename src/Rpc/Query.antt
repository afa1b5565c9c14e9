-- ===== src/Rpc/Query.antt =====
-- celery_root/shared/schemas/rpc.py: the validator of `RawQueryRequest`, on the code points of a
-- query.
pub mod Pragma
pub mod Accepted
use celery_cnc.Base.{
  ℕ, zero, suc, ◌+◌, String, Bool, true, false, ◌&&◌, ◌||◌, Option, none, some, List, [], ◌∷◌, map,
  length,
}
use celery_cnc.Base.{◌==◌, nat_eq, contains, leb, if◌then◌else◌}
use celery_cnc.Base.Text.{codes, strip, strip_left, lower, has_prefix}
use mathlib.Core.List.{reverse}
use celery_cnc.Rpc.Messages.{RawQueryRequest}
use celery_cnc.Rpc.Operations.{Op, RequestOf, raw_query_op}

abbrev pub same_text : List ℕ → List ℕ → Bool
same_text [] [] = true
same_text [] (b ∷ t) = false
same_text (a ∷ s) [] = false
same_text (a ∷ s) (b ∷ t) = a == b && same_text s t

abbrev pub is_one_of : List (List ℕ) → List ℕ → Bool
is_one_of [] s = false
is_one_of (t ∷ ts) s = same_text t s || is_one_of ts s

abbrev pub readonly_pragmas : List (List ℕ)
readonly_pragmas =
    codes "collation_list"
    ∷ codes "compile_options"
    ∷ codes "database_list"
    ∷ codes "foreign_key_list"
    ∷ codes "function_list"
    ∷ codes "index_info"
    ∷ codes "index_list"
    ∷ codes "index_xinfo"
    ∷ codes "module_list"
    ∷ codes "pragma_list"
    ∷ codes "table_info"
    ∷ codes "table_xinfo"
    ∷ []

-- The pattern is `r"pragma\\s+([\\w.]+)"`. In a raw text a doubled backslash is the pattern of one
-- backslash, so `s+` is the letter, and the class holds the backslash, `w` and the dot. All ignore case,
-- by which 383, the long s, is an `s`.
unfoldable pub after : List ℕ → List ℕ → Option (List ℕ)
after [] s = some s
after (p ∷ ps) [] = none
after (p ∷ ps) (c ∷ s) = let rest = after ps s in if p == lower c then rest else none

abbrev pub is_s : ℕ → Bool
is_s c = lower c == b's' || c == 383

unfoldable pub skip_s : List ℕ → List ℕ
skip_s [] = []
skip_s (c ∷ s) = let rest = skip_s s in if is_s c then rest else c ∷ s

abbrev pub in_class : ℕ → Bool
in_class c = c == 92 || (lower c == b'w' || c == b'.')

unfoldable pub class_run : List ℕ → List ℕ
class_run [] = []
class_run (c ∷ s) = let rest = class_run s in if in_class c then c ∷ rest else []

abbrev pub group : List ℕ → Option (List ℕ)
group [] = none
group (c ∷ s) = some (c ∷ s)

abbrev pub after_s : List ℕ → Option (List ℕ)
unfolding skip_s class_run
after_s [] = none
after_s (c ∷ s) = if is_s c then group (class_run (skip_s s)) else none

-- `match.group(1)`
abbrev pub matched : Option (List ℕ) → Option (List ℕ)
unfolding after_s
matched none = none
matched (some rest) = after_s rest

unfoldable pub pragma_match : List ℕ → Option (List ℕ)
unfolding after matched lower
pragma_match cleaned = matched (after (codes "pragma\\") cleaned)

-- `.split(".")[-1]`
unfoldable pub last_part : List ℕ → List ℕ
last_part [] = []
last_part (c ∷ s) = let rest = last_part s in if contains (c ∷ s) b'.' then rest else c ∷ s

abbrev pub named_pragma : List ℕ → Option (List ℕ) → Option (List ℕ)
unfolding last_part lower
named_pragma cleaned none = none
named_pragma cleaned (some name) =
    if is_one_of readonly_pragmas (map lower (last_part name))
    then (if contains cleaned b'=' then none else some cleaned)
    else none

unfoldable pub pragma_query : List ℕ → Option (List ℕ)
unfolding pragma_match named_pragma
pragma_query cleaned = named_pragma cleaned (pragma_match cleaned)

-- The loop on a text that is read from its end.
unfoldable pub drop_semicolons : ℕ → List ℕ → List ℕ
unfolding strip_left
drop_semicolons zero s = s
drop_semicolons (suc fuel) [] = []
drop_semicolons (suc fuel) (c ∷ s) =
    let rest = drop_semicolons fuel (strip_left s) in if c == b';' then rest else c ∷ s

abbrev pub is_readonly : List ℕ → Bool
unfolding has_prefix lower
is_readonly cleaned =
    has_prefix (codes "select") (map lower cleaned)
    || (has_prefix (codes "with") (map lower cleaned)
        || has_prefix (codes "explain") (map lower cleaned))

unfoldable pub one_statement : List ℕ → Option (List ℕ)
unfolding has_prefix lower pragma_query is_readonly
one_statement cleaned =
    if contains cleaned b';'
    then none
    else if has_prefix (codes "pragma") (map lower cleaned)
    then pragma_query cleaned
    else if is_readonly cleaned
    then some cleaned
    else none

-- Every round drops a code point, so there are no more rounds than these.
unfoldable pub without_semicolons : List ℕ → List ℕ
unfolding drop_semicolons
without_semicolons s = reverse (drop_semicolons (length s) (reverse s))

abbrev pub validate_stripped : List ℕ → Option (List ℕ)
unfolding without_semicolons one_statement
validate_stripped [] = none
validate_stripped (c ∷ s) = one_statement (without_semicolons (c ∷ s))

-- `none`: the query is refused.
unfoldable pub validate_query : List ℕ → Option (List ℕ)
unfolding strip validate_stripped
validate_query value = validate_stripped (strip value)

abbrev pub with_query : RawQueryRequest → Option (List ℕ) → Option RawQueryRequest
with_query request none = none
with_query request (some q) = some (record request { query = q })

-- `RawQueryRequest(...)`, the bounds of `max_rows` included.
unfoldable pub check_raw_query : RawQueryRequest → Option RawQueryRequest
unfolding validate_query
check_raw_query request =
    if leb 1 request.max_rows && leb request.max_rows 1000
    then with_query request (validate_query request.query)
    else none

-- The construction of a request: the other models take any values of their fields' types.
unfoldable pub check_request : (F : Type 0) (op : Op) → RequestOf F op → Option (RequestOf F op)
unfolding check_raw_query
check_request F raw_query_op request = check_raw_query request
check_request F op request = some request
