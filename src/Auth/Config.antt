-- ===== src/Auth/Config.antt =====
-- celery_root/components/web/auth.py: `load_auth_config`, and when sign-in is asked for at all.
use Prim.Native.Char.{Char}
use text.Mathlib.TextLemmas.{cons-append}
use celery_cnc.Base.{String, Bool, true, false, not, ◌&&◌, ◌||◌, Option, none, some, List, [], ◌∷◌}
use celery_cnc.Base.{◌<>◌, ◌≡◌, refl, sym, ap, ◌∙◌, subst, inl, inr, Bool-cases, arith}
use celery_cnc.Base.{◌==◌, string_eq, if◌then◌else◌, is_empty, ==_cases}
use celery_cnc.Base.Text.{codes}
use celery_cnc.Auth.Attempt.{
  Attempt, returned, denied, crashed, AuthError, message, email_missing, email_not_allowed,
  gitlab_group_denied, okta_base_url_missing, unsupported_provider, token_missing, unexpected_json,
  custom_handler_not_callable, ◌>>=◌, >>=-eq-returned,
}
use celery_cnc.Auth.Settings.{
  Surroundings, get_setting, parse_basic_auth, parse_allowed_emails, split_csv, parse_int,
  resolve_provider, resolve_custom_handler, default_gitlab_domain, default_gitlab_min_level,
}
use celery_cnc.Auth.{
  ProviderKind, CustomAuthHandler, AuthConfig, enabled, is_some, present, text_or,
}

-- The settings that `load_auth_config` reads, and the variables that stand in for them.
unfoldable pub raw_basic : Surroundings → Option String
raw_basic s =
    get_setting s "CELERY_ROOT_BASIC_AUTH"
      ("FLOWER_BASIC_AUTH" ∷ "FLOWER_BASIC_AUTHENTICATION" ∷ "FLOWER_BASIC_AUTHORIZATION" ∷ [])

unfoldable pub raw_provider : Surroundings → Option String
raw_provider s = get_setting s "CELERY_ROOT_AUTH_PROVIDER" ("FLOWER_AUTH_PROVIDER" ∷ [])

unfoldable pub raw_auth : Surroundings → Option String
raw_auth s = get_setting s "CELERY_ROOT_AUTH" ("FLOWER_AUTH" ∷ [])

-- The handler and the error message that the `try` leaves.
abbrev caught :
    Attempt (Option CustomAuthHandler) → Attempt (Option CustomAuthHandler × Option String)
caught (returned handler) = returned (handler, none)
caught (denied e) = returned (none, some (message e))
caught crashed = crashed

unfoldable pub custom_part :
    Surroundings
    → Option String
    → Option ProviderKind
    → Attempt (Option CustomAuthHandler × Option String)
custom_part s raw none = caught (resolve_custom_handler s raw)
custom_part s raw (some p) = returned (none, none)

unfoldable pub with_unsupported :
    Option String → Option ProviderKind → Option CustomAuthHandler → Option String → Option String
with_unsupported none provider handler error = error
with_unsupported (some raw) provider handler error =
    if not (raw == "") && not (is_some provider) && not (is_some handler) && not (is_some error)
    then some ("Unsupported auth provider: " <> raw)
    else error

unfoldable pub auth_config :
    Surroundings → Option CustomAuthHandler × Option String → List String → AuthConfig
auth_config s found patterns = record {
  basic_auth = parse_basic_auth (raw_basic s);
  provider = resolve_provider (raw_provider s);
  custom_handler = found.0;
  allowed_email_patterns = patterns;
  oauth2_key = get_setting s "CELERY_ROOT_OAUTH2_KEY" ("FLOWER_OAUTH2_KEY" ∷ []);
  oauth2_secret = get_setting s "CELERY_ROOT_OAUTH2_SECRET" ("FLOWER_OAUTH2_SECRET" ∷ []);
  oauth2_redirect_uri =
      get_setting s "CELERY_ROOT_OAUTH2_REDIRECT_URI" ("FLOWER_OAUTH2_REDIRECT_URI" ∷ []);
  okta_base_url =
      get_setting s "CELERY_ROOT_OAUTH2_OKTA_BASE_URL" ("FLOWER_OAUTH2_OKTA_BASE_URL" ∷ []);
  gitlab_allowed_groups = split_csv (
      get_setting s "CELERY_ROOT_GITLAB_AUTH_ALLOWED_GROUPS"
        ("FLOWER_GITLAB_AUTH_ALLOWED_GROUPS" ∷ []));
  gitlab_min_access_level =
      parse_int s.int
        (get_setting s "CELERY_ROOT_GITLAB_MIN_ACCESS_LEVEL"
          ("FLOWER_GITLAB_MIN_ACCESS_LEVEL" ∷ []))
        default_gitlab_min_level;
  gitlab_oauth_domain =
      text_or (get_setting s "CELERY_ROOT_GITLAB_OAUTH_DOMAIN" ("FLOWER_GITLAB_OAUTH_DOMAIN" ∷ []))
        default_gitlab_domain;
  error = with_unsupported (raw_provider s) (resolve_provider (raw_provider s)) found.0 found.1;
}

unfoldable pub load_auth_config : Surroundings → Attempt AuthConfig
load_auth_config s = do
  found ← custom_part s (raw_provider s) (resolve_provider (raw_provider s))
  patterns ← parse_allowed_emails s.compiles (raw_auth s)
  returned (auth_config s found patterns)

-- A text that starts with a character is not empty.
started_present : (c : Char) (s t : String) → present (some (String.◌∷◌ c s <> t)) ≡ true
started_present c s t = elim (==_cases (String.◌∷◌ c s <> t) "") [
  | inl (p, e) ↦ let q = ap codes (sym (cons-append c s t) ∙ p) in cc
  | inr (n, e) ↦ rw e
]

unsupported_present : (raw : String) → present (some ("Unsupported auth provider: " <> raw)) ≡ true
unsupported_present raw = started_present "U" "nsupported auth provider: " raw

message_present : (e : AuthError) → present (some (message e)) ≡ true
unfolding message string_eq
message_present (custom_handler_not_callable raw) = started_present _ _ raw
message_present email_missing = refl
message_present email_not_allowed = refl
message_present gitlab_group_denied = refl
message_present okta_base_url_missing = refl
message_present unsupported_provider = refl
message_present token_missing = refl
message_present unexpected_json = refl

-- With no setting there is neither a provider nor a handler; any other setting gives one of the two or
-- an error.
left_something :
    (raw : String) (r : Attempt (Option CustomAuthHandler))
    (found : Option CustomAuthHandler × Option String)
    → raw == "" ≡ false
    → caught r ≡ returned found
    → is_some found.0 || present (with_unsupported (some raw) none found.0 found.1) ≡ true
unfolding with_unsupported
left_something raw (returned (some handler)) found e h = ground arith
left_something raw (returned none) found e h = ground (arith, e, unsupported_present raw)
left_something raw (denied error) found e h = ground (arith, message_present error)
left_something raw crashed found e h = cc

error_of_setting :
    (s : Surroundings) (raw : String) (found : Option CustomAuthHandler × Option String)
    → caught (resolve_custom_handler s (some raw)) ≡ returned found
    → is_some found.0 || present (with_unsupported (some raw) none found.0 found.1)
      ≡ present (some raw)
unfolding resolve_custom_handler with_unsupported
error_of_setting s raw found h = elim (Bool-cases (raw == "")) [
  | inl t ↦ ground (arith, t)
  | inr f ↦ left_something raw _ found f h ∙ ap not (sym f)
]

custom_part_error :
    (s : Surroundings) (raw : Option String) (p : Option ProviderKind)
    (found : Option CustomAuthHandler × Option String)
    → p ≡ resolve_provider raw
    → custom_part s raw p ≡ returned found
    → is_some p || is_some found.0 || present (with_unsupported raw p found.0 found.1) ≡ present raw
unfolding custom_part resolve_provider resolve_custom_handler with_unsupported
custom_part_error s none none found e h = ground arith
custom_part_error s none (some p) found e h = ground arith
custom_part_error s (some raw) none found e h = error_of_setting s raw found h
custom_part_error s (some raw) (some p) found e h = ground arith

or_regroup : (a b c d e : Bool) → b || c || d ≡ e → a || b || c || d ≡ a || e
or_regroup true b c d e h = refl
or_regroup false b c d e h = h

enabled_of :
    (s : Surroundings) (c : AuthConfig) (found : Option CustomAuthHandler × Option String)
    (patterns : List String)
    → is_some (resolve_provider (raw_provider s))
        || is_some found.0
        || present
            (with_unsupported (raw_provider s) (resolve_provider (raw_provider s)) found.0 found.1)
      ≡ present (raw_provider s)
    → returned (auth_config s found patterns) ≡ returned c
    → enabled c ≡ not (is_empty (parse_basic_auth (raw_basic s))) || present (raw_provider s)
unfolding enabled auth_config
enabled_of s c found patterns e h =
    let same : auth_config s found patterns ≡ c = cc in
    subst
      (λ x. enabled x ≡ not (is_empty (parse_basic_auth (raw_basic s))) || present (raw_provider s))
      same (or_regroup (not (is_empty (parse_basic_auth (raw_basic s)))) _ _ _ _ e)

-- Whatever the settings are, sign-in is asked for exactly when a credential could be read from the
-- basic-auth setting or the provider setting is a text that is not empty. So a basic-auth setting
-- without a readable credential, with no provider, leaves every page open.
pub load_auth_config-enabled :
    (s : Surroundings) (c : AuthConfig)
    → load_auth_config s ≡ returned c
    → enabled c ≡ not (is_empty (parse_basic_auth (raw_basic s))) || present (raw_provider s)
unfolding load_auth_config
load_auth_config-enabled s c h =
    let (found, a, b) = >>=-eq-returned _ _ h in
    let (patterns, q, r) =
      >>=-eq-returned (parse_allowed_emails s.compiles (raw_auth s))
        (λ found_patterns. returned (auth_config s found found_patterns)) b in
    enabled_of s c found patterns (custom_part_error s _ _ found refl a) r
