-- ===== src/Auth/Login.antt =====
-- celery_root/components/web/auth.py: the sign-in and sign-out pages. A page returns its answer and
-- the session that it leaves; `crashed` is an exception other than `AuthError`.
use celery_cnc.Base.{ℕ, String, Bool, true, false, not, ◌||◌, Option, none, some, List, [], ◌∷◌}
use celery_cnc.Base.{◌<>◌, ◌==◌, string_eq, if◌then◌else◌, is_empty}
use celery_cnc.Base.Dict.{lookup, insert, erase}
use celery_cnc.Base.Python.{join}
use celery_cnc.Value.{Value, null, text, mapping, field, end}
use celery_cnc.Auth.Attempt.{
  Attempt, returned, denied, crashed, message, email_missing, email_not_allowed,
  gitlab_group_denied, ◌>>=◌,
}
use celery_cnc.Auth.Gate.{Site, compare_digest, sanitize_next}
use celery_cnc.Auth.Provider.{
  Http, text_of, resolve_endpoints, resolve_redirect_uri, exchange_code_for_token, fetch_user_email,
}
use celery_cnc.Auth.Groups.{is_gitlab_group_allowed}
use celery_cnc.Auth.{
  ProviderKind, gitlab, provider_value, OAuthEndpoints, Response, page, redirect, custom, Request,
  Session, Verdict, allow, deny, fail, answer, CustomAuthHandler, AuthConfig, custom_enabled,
  oauth_enabled, present, text_or, session_auth_key, session_state_key, session_next_key,
}

-- One visit's surroundings: the provider's answers, `pattern.match`, a fresh text of
-- `token_urlsafe`, the time, and the fuel for the pages of groups.
pub record World : Type 0 where
  pub site : Site
  pub http : Http
  pub token_urlsafe : String
  pub now : Value
  pub fuel : ℕ

abbrev pub Page : Type 0
Page = Attempt Response × Session

abbrev pub with_next : Session → Option String → Session
with_next session none = session
with_next session (some next) = insert session_next_key (text next) session

unfoldable pub set_next : Request → Session → Session
unfolding sanitize_next
set_next request session = with_next session (sanitize_next (lookup "next" request.query))

abbrev pub next_target : Option Value → String
next_target (some (text next)) = if next == "" then "/" else next
next_target v = "/"

unfoldable pub redirect_after_login : Session → Page
redirect_after_login session = (
  returned (redirect (next_target (lookup session_next_key session))),
  erase session_next_key session,
)

unfoldable pub store_login : Value → String → String → Session → Session
store_login now email provider session =
    insert session_auth_key
      (mapping (
        field "email" (text email)
          (field "provider" (text provider) (field "authenticated_at" now end))))
      session

unfoldable pub logout : Option Session → Response × Option Session
logout none = (redirect "/", none)
logout (some session) = (redirect "/", some [])

abbrev custom_answered : Session → Verdict → Page
custom_answered session allow = redirect_after_login session
custom_answered session deny = (returned (page 403 "Authentication required."), session)
custom_answered session fail = (crashed, session)
custom_answered session (answer n) = (returned (custom n), session)

unfoldable pub handle_custom_login : Request → Option CustomAuthHandler → Session → Page
unfolding redirect_after_login set_next
handle_custom_login request none session =
    (returned (page 500 "Custom auth handler missing."), session)
handle_custom_login request (some handler) session =
    custom_answered (set_next request session) (handler request)

-- Redirects to the provider with a fresh state, which the session keeps.
unfoldable pub begin_oauth : World → Request → AuthConfig → OAuthEndpoints → Session → Page
unfolding set_next resolve_redirect_uri join
begin_oauth w request config endpoints session = (
  returned (
      redirect (
        endpoints.auth_url
        <> ("?"
            <> w.site.urlencode (
                ("response_type", "code")
                ∷ ("client_id", text_or config.oauth2_key "")
                ∷ ("redirect_uri", resolve_redirect_uri request.login_uri config)
                ∷ ("scope", join " " endpoints.scopes)
                ∷ ("state", w.token_urlsafe)
                ∷ [])))),
  set_next request (insert session_state_key (text w.token_urlsafe) session),
)

abbrev pub with_endpoints : World → Request → AuthConfig → Session → Attempt OAuthEndpoints → Page
with_endpoints w request config session (returned endpoints) =
    begin_oauth w request config endpoints session
with_endpoints w request config session (denied e) = (returned (page 400 (message e)), session)
with_endpoints w request config session crashed = (crashed, session)

unfoldable pub start_oauth : World → Request → AuthConfig → Session → Page
unfolding begin_oauth resolve_endpoints message
start_oauth w request config session =
    if not (present config.oauth2_key) || not (present config.oauth2_secret)
    then (returned (page 400 "OAuth client credentials are not configured."), session)
    else with_endpoints w request config session (resolve_endpoints config)

abbrev pub compared : Session → Option Bool → Attempt Bool × Session
compared session none = (crashed, session)
compared session (some false) = (returned false, session)
compared session (some true) = (returned true, erase session_state_key session)

abbrev pub stored_state : World → Session → String → Option Value → Attempt Bool × Session
stored_state w session state none = (returned false, session)
stored_state w session state (some null) = (returned false, session)
stored_state w session state (some v) = compared session (compare_digest (text_of w.http v) state)

-- The state of the callback against the kept one, which a match uses up.
unfoldable pub validate_state : World → Session → String → Attempt Bool × Session
unfolding compare_digest
validate_state w session state = stored_state w session state (lookup session_state_key session)

abbrev pub wants_group : AuthConfig → Option ProviderKind → Bool
wants_group config (some gitlab) = not (is_empty config.gitlab_allowed_groups)
wants_group config provider = false

-- Running out of the fuel for the pages of groups stops the sign-in, as an exception would.
abbrev pub group_judged : String → Option Bool → Attempt String
group_judged email (some true) = returned email
group_judged email (some false) = denied gitlab_group_denied
group_judged email none = crashed

unfoldable pub group_checked : World → AuthConfig → String → String → Attempt String
group_checked w config token email =
    if wants_group config config.provider
    then is_gitlab_group_allowed w.http token config w.fuel >>= group_judged email
    else returned email

abbrev pub email_found : Option String → Attempt String
email_found none = denied email_missing
email_found (some email) = returned email

abbrev pub name_of : Option ProviderKind → String
name_of none = "oauth"
name_of (some provider) = provider_value provider

-- The page that the `except AuthError` makes, or what a sign-in with an address leads to.
unfoldable pub signed_in : World → AuthConfig → Session → Attempt String → Page
unfolding store_login redirect_after_login provider_value message
signed_in w config session (returned email) =
    redirect_after_login (store_login w.now email (name_of config.provider) session)
signed_in w config session (denied e) = (returned (page 403 (message e)), session)
signed_in w config session crashed = (crashed, session)

abbrev pub invalid_state : Session → Page
invalid_state session = (returned (page 400 "Invalid OAuth state."), session)

module _ (matches : String → String → Bool) where
  -- `any(pattern.match(email) for pattern in patterns)`
  unfoldable pub any_match : String → List String → Bool
  any_match email [] = false
  any_match email (pattern ∷ patterns) =
      if matches pattern email then true else any_match email patterns

  unfoldable pub is_email_allowed : String → List String → Bool
  unfolding any_match
  is_email_allowed email patterns = if is_empty patterns then true else any_match email patterns

  abbrev pub email_judged : AuthConfig → String → Attempt String
  email_judged config email =
      if is_email_allowed email config.allowed_email_patterns
      then returned email
      else denied email_not_allowed

  -- The body of the `try`.
  unfoldable pub complete_oauth_login : World → Request → AuthConfig → String → Attempt String
  unfolding is_email_allowed group_checked exchange_code_for_token fetch_user_email
  complete_oauth_login w request config code = do
    token ← exchange_code_for_token w.http code request.login_uri config
    found ← fetch_user_email w.http token config
    email ← email_found found
    allowed ← email_judged config email
    group_checked w config token allowed

  abbrev pub after_state : World → Request → AuthConfig → String → Attempt Bool × Session → Page
  after_state w request config code (returned true, session) =
      signed_in w config session (complete_oauth_login w request config code)
  after_state w request config code (returned false, session) = invalid_state session
  after_state w request config code (denied e, session) = (crashed, session)
  after_state w request config code (crashed, session) = (crashed, session)

  unfoldable pub callback : World → Request → AuthConfig → Session → String → String → Page
  unfolding validate_state signed_in complete_oauth_login
  callback w request config session code state =
      if state == ""
      then invalid_state session
      else after_state w request config code (validate_state w session state)

  abbrev pub with_code : World → Request → AuthConfig → Session → Option String → Page
  with_code w request config session none = start_oauth w request config session
  with_code w request config session (some code) =
      callback w request config session code (text_or (lookup "state" request.query) "")

  unfoldable pub handle_oauth_login : World → Request → AuthConfig → Session → Page
  unfolding start_oauth callback
  handle_oauth_login w request config session = elim (lookup "error" request.query) [
    | some error ↦ (returned (page 400 ("OAuth error: " <> error)), session)
    | none ↦ with_code w request config session (lookup "code" request.query)
  ]

  unfoldable pub login_configured : World → Request → AuthConfig → Session → Page
  unfolding handle_oauth_login handle_custom_login
  login_configured w request config session =
      if custom_enabled config
      then handle_custom_login request config.custom_handler session
      else if not (oauth_enabled config)
      then (returned (page 404 "OAuth provider is not configured."), session)
      else handle_oauth_login w request config session

  abbrev pub login : World → Attempt AuthConfig → Request → Session → Page
  login w (returned config) request session = login_configured w request config session
  login w (denied e) request session = (crashed, session)
  login w crashed request session = (crashed, session)
