-- ===== src/Auth/Gate.antt =====
-- celery_root/components/web/auth.py: the middleware in front of every page.
use celery_cnc.Base.{String, Bool, true, false, not, ◌&&◌, ◌||◌, Option, none, some, List, [], ◌∷◌}
use celery_cnc.Base.{◌<>◌, ◌==◌, string_eq, nat_eq, contains, if◌then◌else◌, is_empty}
use celery_cnc.Base.Dict.{lookup}
use celery_cnc.Base.Text.{codes, has_prefix, split_first}
use celery_cnc.Base.Python.{strip_back, strip_text, is_slash, lowered, is_ascii}
use celery_cnc.Value.{truthy}
use celery_cnc.Auth.Attempt.{Attempt, returned, crashed, ◌>>=◌}
use celery_cnc.Auth.{
  Response, page, redirect, challenge, served, custom, Request, Session, Verdict, allow, deny, fail,
  answer, CustomAuthHandler, BasicCredential, AuthConfig, enabled, custom_enabled, oauth_enabled,
  present, text_or, session_auth_key,
}

-- What Django and the standard library do for the gate: `reverse("login")`, the setting STATIC_URL,
-- `urlencode`, and `base64.b64decode` with the reading as UTF-8 (`none` where either raises).
pub record Site : Type 0 where
  pub login_url : String
  pub static_url : String
  pub urlencode : List (String × String) → String
  pub b64decode : String → Option String

abbrev pub exempt_paths : List String
exempt_paths = "/healthcheck" ∷ "/metrics" ∷ "/login" ∷ "/logout" ∷ "/favicon.ico" ∷ []

unfoldable pub is_exempt_path : String → String → Bool
unfolding strip_back has_prefix
is_exempt_path static_url path =
    contains exempt_paths (text_or (some (strip_back is_slash path)) "/")
    || (not (static_url == "") && has_prefix (codes static_url) (codes path))

-- `secrets.compare_digest` on texts, which raises on a character outside ASCII.
unfoldable pub compare_digest : String → String → Option Bool
unfolding is_ascii
compare_digest a b = if is_ascii a && is_ascii b then some (a == b) else none

-- One round of the loop: both comparisons, the second only if the first succeeds.
abbrev pub either_or : Option Bool → Option Bool → Option Bool → Option Bool
either_or none password rest = none
either_or (some false) password rest = rest
either_or (some true) none rest = none
either_or (some true) (some false) rest = rest
either_or (some true) (some true) rest = some true

unfoldable pub matches_any : String → String → List BasicCredential → Option Bool
unfolding compare_digest
matches_any username password [] = some false
matches_any username password (cred ∷ creds) =
    either_or (compare_digest username cred.username) (compare_digest password cred.password)
      (matches_any username password creds)

-- The name and the password that a header carries, if it can be read.
abbrev second : Option (String × String) → String
second none = ""
second (some (a, b)) = b

abbrev colon_cut : Option String → Option (String × String)
colon_cut none = none
colon_cut (some decoded) = split_first b':' decoded

unfoldable pub presented : Site → Option String → Option (String × String)
unfolding has_prefix lowered strip_text split_first
presented site none = none
presented site (some header) =
    if header == "" || not (has_prefix (codes "basic ") (lowered header))
    then none
    else colon_cut (site.b64decode (strip_text (second (split_first b' ' header))))

abbrev pub checked : Option (String × String) → List BasicCredential → Option Bool
checked none creds = some false
checked (some (username, password)) creds = matches_any username password creds

-- `none` where a comparison raises.
unfoldable pub check_basic_auth : Site → Request → List BasicCredential → Option Bool
check_basic_auth site request creds = checked (presented site request.authorization) creds

abbrev pub basic_realm : String
basic_realm = "Basic realm=\"Celery Root\""

unfoldable pub session_is_authenticated : Option Session → Bool
session_is_authenticated none = false
session_is_authenticated (some session) = elim (lookup session_auth_key session) [
  | none ↦ false
  | some v ↦ truthy v
]

unfoldable pub is_authenticated : Request → Bool
unfolding session_is_authenticated
is_authenticated request = session_is_authenticated request.session

unfoldable pub sanitize_next : Option String → Option String
unfolding has_prefix
sanitize_next none = none
sanitize_next (some candidate) =
    if has_prefix (codes "/") (codes candidate) && not (has_prefix (codes "//") (codes candidate))
    then some candidate
    else none

abbrev login_with : Site → Option String → String
login_with site none = site.login_url
login_with site (some next) = site.login_url <> ("?" <> site.urlencode (("next", next) ∷ []))

unfoldable pub redirect_to_login : Site → Request → Response
unfolding sanitize_next
redirect_to_login site request = redirect (login_with site (sanitize_next (some request.full_path)))

abbrev pub answered : Verdict → Response → Attempt Response
answered allow after = returned after
answered deny after = returned (page 403 "Authentication required.")
answered fail after = crashed
answered (answer n) after = returned (custom n)

unfoldable pub handle_custom_auth : Request → Option CustomAuthHandler → Attempt Response
handle_custom_auth request none = returned (page 500 "Custom auth handler missing.")
handle_custom_auth request (some handler) = answered (handler request) served

-- What follows the check of the credentials.
unfoldable pub after_basic : Site → AuthConfig → Request → Option Bool → Attempt Response
unfolding handle_custom_auth custom_enabled oauth_enabled is_authenticated redirect_to_login
after_basic site config request none = crashed
after_basic site config request (some true) = returned served
after_basic site config request (some false) =
    if custom_enabled config
    then handle_custom_auth request config.custom_handler
    else if oauth_enabled config
    then (if is_authenticated request
        then returned served
        else returned (redirect_to_login site request))
    else returned (challenge basic_realm)

abbrev asked : Site → AuthConfig → Request → Option Bool
asked site config request =
    if is_empty config.basic_auth
    then some false
    else check_basic_auth site request config.basic_auth

unfoldable pub gate : Site → Request → AuthConfig → Attempt Response
unfolding after_basic check_basic_auth
gate site request config =
    if present config.error
    then returned (page 500 (text_or config.error ""))
    else if not (enabled config) || is_exempt_path site.static_url request.path
    then returned served
    else after_basic site config request (asked site config request)

-- `AuthMiddleware.__call__`, with what `load_auth_config` came to.
unfoldable pub auth_middleware : Site → Attempt AuthConfig → Request → Attempt Response
unfolding gate
auth_middleware site loaded request = loaded >>= gate site request
