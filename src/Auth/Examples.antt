-- ===== src/Auth/Examples.antt =====
-- Tests of the sign-in model, and its theorems at concrete inputs.
use celery_cnc.Base.{contains, String, Bool, true, false, not, ◌||◌, none, some, [], ◌∷◌}
use celery_cnc.Base.{◌≡◌, ◌⊎◌, ◌↔◌, refl, arith, ◌==◌, string_eq, nat_eq, is_empty, if◌then◌else◌}
use celery_cnc.Base.Dict.{lookup}
use celery_cnc.Base.Python.{is_ascii}
use celery_cnc.Value.{
  Items, Value, null, text, boolean, object, list, mapping, nil, cons, field, end, get, truthy, pos,
}
use celery_cnc.Auth.Attempt.{returned, crashed}
use celery_cnc.Auth.Settings.{
  Surroundings, parse_basic_auth, parse_allowed_emails, parse_int, resolve_provider,
  resolve_custom_handler, get_setting, from_env, split_csv,
}
use celery_cnc.Auth.Config.{
  raw_basic, raw_provider, raw_auth, custom_part, with_unsupported, auth_config, load_auth_config,
  load_auth_config-enabled,
}
use celery_cnc.Auth.Gate.{
  Site, is_exempt_path, compare_digest, matches_any, presented, check_basic_auth, sanitize_next,
  auth_middleware,
}
use celery_cnc.Auth.Provider.{
  Http, HttpReply, primary_of, email_in_list, listed_email, extract_profile_email,
}
use celery_cnc.Auth.Groups.{is_gitlab_group_allowed}
use celery_cnc.Auth.Login.{World, login, complete_oauth_login}
use celery_cnc.Auth.Keys.{entry}
use celery_cnc.Auth.Admission.{Admitted, auth_middleware-Admitted}
use celery_cnc.Auth.Visits.{saved}
use celery_cnc.Auth.State.{Called, login-Called}
use celery_cnc.Auth.RoundTrip.{login-login}
use celery_cnc.Auth.Listed.{
  pages_have, last_page, one_more, no_items, absent, is_gitlab_group_allowed-Listing,
}
use celery_cnc.Auth.Groups
use celery_cnc.Auth.Provider
use celery_cnc.Auth.{
  Session, ProviderKind, google, provider_value, Request, redirect, served, AuthConfig, enabled,
  present, session_auth_key,
}

-- The basic-auth setting has no colon, and nothing else is set.
abbrev no_colon : Surroundings
no_colon = record {
  settings = λ key. if key == "CELERY_ROOT_BASIC_AUTH" then text "admin" else null;
  env = λ key. none;
  str = λ v. "";
  int = λ t. none;
  import_handler = λ path attr. crashed;
  compiles = λ t. true;
}

load_auth_config-enabled_example :
    enabled (auth_config no_colon (none, none) [])
    ≡ not (is_empty (parse_basic_auth (raw_basic no_colon))) || present (raw_provider no_colon)
unfolding load_auth_config custom_part resolve_provider resolve_custom_handler parse_allowed_emails
    raw_provider raw_auth get_setting from_env string_eq
load_auth_config-enabled_example =
    load_auth_config-enabled no_colon (auth_config no_colon (none, none) []) refl

-- Every page is open then.
open_test : enabled (auth_config no_colon (none, none) []) ≡ false
unfolding enabled auth_config parse_basic_auth raw_basic raw_provider raw_auth get_setting from_env
    string_eq nat_eq resolve_provider with_unsupported split_csv parse_int
open_test = refl

credentials_test :
    parse_basic_auth (some "a:b, ,c:d:e")
    ≡ (record { username = "a"; password = "b" })
      ∷ (record { username = "c"; password = "d:e" })
      ∷ []
unfolding parse_basic_auth string_eq nat_eq
credentials_test = refl

provider_test :
    (resolve_provider (some "flower.views.auth.GithubLoginHandler") ≡ some ProviderKind.github)
    × (resolve_provider (some " Okta ") ≡ some ProviderKind.okta)
unfolding resolve_provider string_eq nat_eq
provider_test = (refl, refl)

abbrev any_pattern : String → String → Bool
any_pattern pattern email = true

abbrev site : Site
site = record {
  login_url = "/login";
  static_url = "/static/";
  urlencode = λ q. "";
  b64decode = λ t. some "a:b";
}

abbrev by_google : AuthConfig
by_google = record {
  basic_auth = (record { username = "a"; password = "b" }) ∷ [];
  provider = some google;
  custom_handler = none;
  allowed_email_patterns = "x" ∷ [];
  oauth2_key = some "key";
  oauth2_secret = some "secret";
  oauth2_redirect_uri = none;
  okta_base_url = none;
  gitlab_allowed_groups = "team" ∷ [];
  gitlab_min_access_level = pos 20;
  gitlab_oauth_domain = "https://gitlab.com";
  error = none;
}

abbrev basic_request : Request
basic_request = record {
  path = "/tasks";
  full_path = "/tasks";
  login_uri = "http://localhost/login";
  authorization = some "Basic YTpi";
  query = ("next", "/tasks") ∷ [];
  session = none;
}

auth_middleware-Admitted_example :
    (auth_middleware site (returned by_google) basic_request ≡ returned served)
    ↔ ((present by_google.error ≡ false) × Admitted site basic_request by_google)
unfolding check_basic_auth presented matches_any compare_digest nat_eq string_eq
auth_middleware-Admitted_example = auth_middleware-Admitted site basic_request by_google (λ h. cc)

exempt_test :
    (is_exempt_path "/static/" "/metrics/" ≡ true) × (is_exempt_path "/static/" "/tasks" ≡ false)
unfolding is_exempt_path string_eq nat_eq
exempt_test = (refl, refl)

-- A backslash after the slash passes.
backslash_test : sanitize_next (some "/\\evil.example") ≡ some "/\\evil.example"
unfolding sanitize_next nat_eq
backslash_test = refl

-- A provider that answers every request with one object.
abbrev account : Value
account = mapping (field "access_token" (text "t") (field "email" (text "me@x.org") end))

abbrev provider_http : Http
provider_http = record {
  urlopen = λ r. returned (record { body = "{"; headers = [] });
  loads = λ t. some account;
  parse_qsl = λ t. end;
  urlencode = λ q. "";
  str = λ v. "";
  int = λ t. none;
}

abbrev world : World
world = record { site = site; http = provider_http; token_urlsafe = "s1"; now = object 0; fuel = 5 }

abbrev back_request : Request
back_request = record basic_request { query = ("code", "c") ∷ ("state", "s1") ∷ [] }

login-login_example :
    let done =
      login any_pattern world
        (returned by_google)
        back_request
        (saved [] (login any_pattern world (returned by_google) basic_request [])) in
    (done.0 ≡ returned (redirect "/tasks"))
    × (lookup session_auth_key done.1 ≡ some (entry "me@x.org" (provider_value google) (object 0)))
unfolding lookup sanitize_next complete_oauth_login is_ascii nat_eq string_eq get truthy
    Provider.resolve_endpoints
login-login_example =
    login-login any_pattern by_google google refl refl world world basic_request back_request []
      (record {
        auth_url = "https://accounts.google.com/o/oauth2/v2/auth";
        token_url = "https://oauth2.googleapis.com/token";
        user_info_url = "https://openidconnect.googleapis.com/v1/userinfo";
        scopes = "openid" ∷ "email" ∷ "profile" ∷ [];
      })
      "/tasks" "c" "me@x.org" refl refl refl refl refl refl refl refl refl refl refl refl

login-Called_example :
    (lookup session_auth_key
        (saved [] (login any_pattern world (returned by_google) basic_request []))
      ≡ lookup session_auth_key [])
    ⊎ Called world basic_request []
        (saved [] (login any_pattern world (returned by_google) basic_request []))
login-Called_example = login-Called any_pattern world basic_request by_google [] refl

-- The visit that begins a sign-in and the one that completes it.
abbrev begun : Session
begun = saved [] (login any_pattern world (returned by_google) basic_request [])

-- An account without a verified primary address: the first one in the list is taken.
unverified_test :
    email_in_list provider_http (
      list (
        cons
          (mapping (field "email" (text "ceo@x.org") (field "verified" (boolean false) end)))
          nil))
    ≡ returned (some "ceo@x.org")
unfolding email_in_list string_eq
unverified_test = refl

abbrev group_http : Http
group_http = record provider_http {
  loads = λ t. some (list (cons (mapping (field "full_path" (text "team") end)) nil));
}

-- A page with one group, and no page after it.
abbrev team_page : Items
team_page = cons (mapping (field "full_path" (text "team") end)) nil

is_gitlab_group_allowed-Listing_example :
    (answer : Bool) × (is_gitlab_group_allowed group_http "t" by_google 3 ≡ returned (some answer))
    × ((answer ≡ true) ↔ (
        (g : String) × (contains by_google.gitlab_allowed_groups g ≡ true)
        × (pages_have group_http (team_page ∷ []) g ≡ true)))
unfolding get truthy string_eq Groups.groups_url Provider.http_get_json_with_headers lookup
is_gitlab_group_allowed-Listing_example =
    is_gitlab_group_allowed-Listing group_http "t" by_google 3
      (last_page refl (one_more no_items) (absent refl)) (omega arith)
