-- ===== src/Auth/Settings.antt =====
-- celery_root/components/web/auth.py: the configuration, read from the Django settings and from the
-- environment.
use mathlib.Core.Option.{Option}
use celery_cnc.Base.{ℕ, String, Bool, ◌||◌, Option, none, some, List, [], ◌∷◌}
use celery_cnc.Base.{◌==◌, string_eq, nat_eq, contains, if◌then◌else◌, all_of}
use celery_cnc.Base.Text.{split_first, split_last, codes, has_prefix}
use celery_cnc.Base.Python.{
  strip_text, strip_front, split_on, csv_items, lowered, same_codes, includes_codes,
}
use celery_cnc.Value.{Value, null, text, Integer, pos}
use celery_cnc.Auth.Attempt.{Attempt, returned, denied, crashed, custom_handler_not_callable, ◌>>=◌}
use celery_cnc.Auth.{
  ProviderKind, google, github, gitlab, okta, provider_value, CustomAuthHandler, BasicCredential,
  is_some, text_or,
}

-- What the settings are read from: the attributes of `django.conf.settings` (`null` where there is
-- none), the environment, `str` on values that are no text, `int` on a text, `importlib` with
-- `getattr` (no handler where there is none that can be called), and whether `re.compile` takes a
-- pattern.
pub record Surroundings : Type 0 where
  pub settings : String → Value
  pub env : String → Option String
  pub str : Value → String
  pub int : String → Option Integer
  pub import_handler : String → String → Attempt (Option CustomAuthHandler)
  pub compiles : String → Bool

abbrev pub default_gitlab_domain : String
default_gitlab_domain = "https://gitlab.com"

abbrev pub default_gitlab_min_level : Integer
default_gitlab_min_level = pos 20

-- The texts with a colon, cut at the first one.
unfoldable pub credentials : List String → List BasicCredential
unfolding strip_text split_first
credentials [] = []
credentials (raw_item ∷ items) =
    let rest = credentials items in
    elim (split_first b':' (strip_text raw_item)) [
      | none ↦ rest
      | some (username, password) ↦ (record { username = username; password = password }) ∷ rest
    ]

unfoldable pub parse_basic_auth : Option String → List BasicCredential
unfolding credentials split_on
parse_basic_auth none = []
parse_basic_auth (some raw) = if raw == "" then [] else credentials (split_on b',' raw)

-- What follows the words `allowed-emails`, without what `lstrip(":=. ")` removes.
abbrev is_lead : ℕ → Bool
is_lead c = contains (b':' ∷ b'=' ∷ b'.' ∷ b' ' ∷ []) c

unfoldable pub after_words : String → String → String
unfolding strip_front
after_words String.[] value = strip_front is_lead value
after_words (String.◌∷◌ w words) String.[] = String.[]
after_words (String.◌∷◌ w words) (String.◌∷◌ c value) = after_words words value

abbrev email_list : String → String
email_list value =
    if has_prefix (codes "allowed-emails") (codes value)
    then after_words "allowed-emails" value
    else value

abbrev compiled : (String → Bool) → List String → Attempt (List String)
compiled compiles patterns = if all_of compiles patterns then returned patterns else crashed

unfoldable pub parse_allowed_emails : (String → Bool) → Option String → Attempt (List String)
unfolding after_words has_prefix csv_items strip_text
parse_allowed_emails compiles none = returned []
parse_allowed_emails compiles (some raw) =
    let value = strip_text raw in
    if raw == "" || value == ""
    then returned []
    else compiled compiles (csv_items (email_list value))

unfoldable pub split_csv : Option String → List String
unfolding csv_items
split_csv none = []
split_csv (some raw) = if raw == "" then [] else csv_items raw

unfoldable pub parse_int : (String → Option Integer) → Option String → Integer → Integer
parse_int int none default = default
parse_int int (some raw) default = elim (int raw) [ none ↦ default | some n ↦ n ]

abbrev direct : List ProviderKind
direct = google ∷ github ∷ gitlab ∷ okta ∷ []

-- The first provider with a name that passes the test.
unfoldable pub first_provider : (List ℕ → Bool) → List ProviderKind → Option ProviderKind
unfolding provider_value
first_provider test [] = none
first_provider test (p ∷ rest) =
    let later = first_provider test rest in
    if test (codes (provider_value p)) then some p else later

unfoldable pub named_provider : List ℕ → Option ProviderKind
unfolding first_provider same_codes includes_codes has_prefix
named_provider value = elim (first_provider (same_codes value) direct) [
  | some p ↦ some p
  | none ↦
      if has_prefix (codes "flower.views.auth") value || has_prefix (codes "flower.") value
      then first_provider (λ name. includes_codes name value) direct
      else none
]

unfoldable pub resolve_provider : Option String → Option ProviderKind
unfolding named_provider strip_text lowered
resolve_provider none = none
resolve_provider (some raw) = if raw == "" then none else named_provider (lowered (strip_text raw))

-- At the first colon, otherwise at the last dot.
unfoldable pub split_path : String → Option (String × String)
unfolding split_first split_last
split_path path = elim (split_first b':' path) [
  | some parts ↦ some parts
  | none ↦ split_last b'.' path
]

abbrev callable : String → Option CustomAuthHandler → Attempt (Option CustomAuthHandler)
callable raw none = denied (custom_handler_not_callable raw)
callable raw (some handler) = returned (some handler)

unfoldable pub load_handler :
    Surroundings → String → Option (String × String) → Attempt (Option CustomAuthHandler)
load_handler s raw none = returned none
load_handler s raw (some (module_path, attr)) = s.import_handler module_path attr >>= callable raw

unfoldable pub resolve_custom_handler :
    Surroundings → Option String → Attempt (Option CustomAuthHandler)
unfolding load_handler split_path first_provider same_codes strip_text lowered
resolve_custom_handler s none = returned none
resolve_custom_handler s (some raw) =
    if raw == "" || is_some (first_provider (same_codes (lowered (strip_text raw))) direct)
    then returned none
    else load_handler s raw (split_path raw)

-- The first variable with more than blanks.
unfoldable pub from_env : (String → Option String) → List String → Option String
unfolding strip_text
from_env env [] = none
from_env env (key ∷ keys) =
    let rest = from_env env keys in
    let value = strip_text (text_or (env key) "") in if value == "" then rest else some value

abbrev setting_or : (Value → String) → Option String → Value → Option String
setting_or str other null = other
setting_or str other (text t) = let value = strip_text t in some (if value == "" then t else value)
setting_or str other v = some (str v)

unfoldable pub get_setting : Surroundings → String → List String → Option String
unfolding from_env strip_text
get_setting s key env_keys = setting_or s.str (from_env s.env env_keys) (s.settings key)
