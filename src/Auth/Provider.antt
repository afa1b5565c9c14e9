-- ===== src/Auth/Provider.antt =====
-- celery_root/components/web/auth.py: the requests to the provider that the sign-in makes.
use celery_cnc.Base.{String, Bool, ◌&&◌, ◌||◌, Option, none, some}
use celery_cnc.Base.{List, [], ◌∷◌, ◌<>◌, ◌==◌, string_eq, if◌then◌else◌}
use celery_cnc.Base.Dict.{Dict, lookup}
use celery_cnc.Base.Text.{codes, includes, has_prefix}
use celery_cnc.Base.Python.{strip_back, strip_text, is_slash}
use celery_cnc.Value.{Value, text, list, mapping, Items, nil, cons, Fields, get, truthy, Integer}
use celery_cnc.Auth.Attempt.{
  Attempt, returned, denied, crashed, okta_base_url_missing, unsupported_provider, token_missing,
  unexpected_json, ◌>>=◌,
}
use celery_cnc.Auth.{
  ProviderKind, google, github, gitlab, okta, OAuthEndpoints, AuthConfig, present, text_or,
}

-- A request of `urllib.request`, with a body where it posts, and what comes back.
pub record HttpRequest : Type 0 where
  pub url : String
  pub headers : Dict String String
  pub body : Option String

pub record HttpReply : Type 0 where
  pub body : String
  pub headers : Dict String String

-- `urlopen` with the reading of the body, `json.loads`, `parse_qsl`, `urlencode`, and `str` and `int`.
pub record Http : Type 0 where
  pub urlopen : HttpRequest → Attempt HttpReply
  pub loads : String → Option Value
  pub parse_qsl : String → Fields
  pub urlencode : List (String × Value) → String
  pub str : Value → String
  pub int : String → Option Integer

abbrev pub text_of : Http → Value → String
text_of http (text t) = t
text_of http v = http.str v

-- `a.get`, which raises where `a` is no dict.
abbrev pub fields_of : Value → Attempt Fields
fields_of (mapping fields) = returned fields
fields_of v = crashed

abbrev parsed : Option Value → Attempt Value
parsed none = crashed
parsed (some v) = returned v

unfoldable pub loads_json : Http → String → Attempt Value
loads_json http body = parsed (http.loads body)

unfoldable pub is_json : HttpReply → Bool
unfolding includes has_prefix strip_text
is_json reply =
    includes "application/json" (text_or (lookup "Content-Type" reply.headers) "")
    || has_prefix (codes "{") (codes (strip_text reply.body))

abbrev form_data : Http → HttpReply → Attempt Value
form_data http reply =
    if is_json reply
    then loads_json http reply.body
    else returned (mapping (http.parse_qsl reply.body))

unfoldable pub http_post_form :
    Http → String → List (String × Value) → Dict String String → Attempt Value
unfolding loads_json is_json
http_post_form http url payload headers = do
  reply ← http.urlopen (record {
    url = url;
    headers = ("Content-Type", "application/x-www-form-urlencoded") ∷ headers;
    body = some (http.urlencode payload);
  })
  form_data http reply

unfoldable pub http_get_json_with_headers :
    Http → String → Dict String String → Attempt (Value × Dict String String)
unfolding loads_json
http_get_json_with_headers http url headers = do
  reply ← http.urlopen (record { url = url; headers = headers; body = none })
  payload ← loads_json http reply.body
  returned (payload, reply.headers)

abbrev only_dict : Value × Dict String String → Attempt Fields
only_dict (mapping fields, headers) = returned fields
only_dict (v, headers) = denied unexpected_json

unfoldable pub http_get_json : Http → String → Dict String String → Attempt Fields
unfolding http_get_json_with_headers
http_get_json http url headers = http_get_json_with_headers http url headers >>= only_dict

abbrev based : String → OAuthEndpoints
based base = record {
  auth_url = base <> "/v1/authorize";
  token_url = base <> "/v1/token";
  user_info_url = base <> "/v1/userinfo";
  scopes = "openid" ∷ "email" ∷ "profile" ∷ [];
}

abbrev gitlab_endpoints : String → OAuthEndpoints
gitlab_endpoints domain = record {
  auth_url = domain <> "/oauth/authorize";
  token_url = domain <> "/oauth/token";
  user_info_url = domain <> "/api/v4/user";
  scopes = "read_user" ∷ "read_api" ∷ [];
}

unfoldable pub endpoints_of : AuthConfig → Option ProviderKind → Attempt OAuthEndpoints
unfolding strip_back
endpoints_of config none = denied unsupported_provider
endpoints_of config (some google) = returned (record {
  auth_url = "https://accounts.google.com/o/oauth2/v2/auth";
  token_url = "https://oauth2.googleapis.com/token";
  user_info_url = "https://openidconnect.googleapis.com/v1/userinfo";
  scopes = "openid" ∷ "email" ∷ "profile" ∷ [];
})
endpoints_of config (some github) = returned (record {
  auth_url = "https://github.com/login/oauth/authorize";
  token_url = "https://github.com/login/oauth/access_token";
  user_info_url = "https://api.github.com/user";
  scopes = "read:user" ∷ "user:email" ∷ [];
})
endpoints_of config (some gitlab) =
    returned (gitlab_endpoints (strip_back is_slash config.gitlab_oauth_domain))
endpoints_of config (some okta) =
    if present config.okta_base_url
    then returned (based (strip_back is_slash (text_or config.okta_base_url "")))
    else denied okta_base_url_missing

unfoldable pub resolve_endpoints : AuthConfig → Attempt OAuthEndpoints
unfolding endpoints_of
resolve_endpoints config = endpoints_of config config.provider

-- The uri that is configured, or the absolute one of the sign-in page.
unfoldable pub resolve_redirect_uri : String → AuthConfig → String
resolve_redirect_uri login_uri config = text_or config.oauth2_redirect_uri login_uri

abbrev token_in : Http → Fields → Attempt String
token_in http fields =
    let token = get "access_token" fields in
    if truthy token then returned (text_of http token) else denied token_missing

unfoldable pub exchange_code_for_token : Http → String → String → AuthConfig → Attempt String
unfolding resolve_endpoints resolve_redirect_uri http_post_form
exchange_code_for_token http code login_uri config = do
  endpoints ← resolve_endpoints config
  reply ←
      http_post_form http endpoints.token_url
        (("code", text code)
          ∷ ("client_id", text (text_or config.oauth2_key ""))
          ∷ ("client_secret", text (text_or config.oauth2_secret ""))
          ∷ ("redirect_uri", text (resolve_redirect_uri login_uri config))
          ∷ ("grant_type", text "authorization_code")
          ∷ [])
        (("Accept", "application/json") ∷ [])
  fields ← fields_of reply
  token_in http fields

abbrev pub bearer : String → Dict String String
bearer token = ("Authorization", "Bearer " <> token) ∷ ("Accept", "application/json") ∷ []

abbrev email_of : Http → Value → Option String
email_of http email = if truthy email then some (text_of http email) else none

unfoldable pub extract_profile_email : Http → Fields → Option String
unfolding get truthy
extract_profile_email http profile = email_of http (get "email" profile)

-- The first address that is both primary and verified; an entry that is no dict raises.
unfoldable pub primary_of : Items → Attempt (Option Fields)
unfolding get truthy
primary_of nil = returned none
primary_of (cons (mapping item) items) =
    let rest = primary_of items in
    if truthy (get "primary" item) && truthy (get "verified" item)
    then returned (some item)
    else rest
primary_of (cons v items) = crashed

abbrev first_email : Http → Items → Attempt (Option String)
first_email http nil = returned none
first_email http (cons v items) = fields_of v >>= λ item. returned (extract_profile_email http item)

unfoldable pub listed_email : Http → Items → Option Fields → Attempt (Option String)
unfolding extract_profile_email
listed_email http emails none = first_email http emails
listed_email http emails (some primary) = elim (extract_profile_email http primary) [
  | some email ↦ returned (some email)
  | none ↦ first_email http emails
]

unfoldable pub email_in_list : Http → Value → Attempt (Option String)
unfolding listed_email primary_of
email_in_list http (list emails) = primary_of emails >>= listed_email http emails
email_in_list http v = returned none

unfoldable pub extract_github_email :
    Http → Dict String String → Option String → Attempt (Option String)
unfolding email_in_list http_get_json_with_headers
extract_github_email http headers (some email) =
    if email == ""
    then (http_get_json_with_headers http "https://api.github.com/user/emails" headers >>= λ got.
        email_in_list http got.0)
    else returned (some email)
extract_github_email http headers none =
    http_get_json_with_headers http "https://api.github.com/user/emails" headers >>= λ got.
    email_in_list http got.0

abbrev profile_email :
    Http → Dict String String → Fields → Option ProviderKind → Attempt (Option String)
profile_email http headers profile (some github) =
    extract_github_email http headers (extract_profile_email http profile)
profile_email http headers profile provider = returned (extract_profile_email http profile)

unfoldable pub fetch_user_email : Http → String → AuthConfig → Attempt (Option String)
unfolding resolve_endpoints http_get_json extract_github_email extract_profile_email
fetch_user_email http token config = do
  endpoints ← resolve_endpoints config
  profile ← http_get_json http endpoints.user_info_url (bearer token)
  profile_email http (bearer token) profile config.provider
