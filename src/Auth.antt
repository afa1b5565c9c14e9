-- ===== src/Auth.antt =====
-- celery_root/components/web/auth.py: what the sign-in to the web pages is made of. Texts are
-- `String`; the session is the dict that the session middleware attaches to a request. The children
-- model the settings, the gate in front of every page, the providers and the sign-in itself.
pub mod Attempt
pub mod Settings
pub mod Config
pub mod Gate
pub mod Provider
pub mod Login
pub mod Groups
pub mod Listed
pub mod Credentials
pub mod Admission
pub mod Keys
pub mod Cleared
pub mod Visits
pub mod State
pub mod RoundTrip
mod Examples
use celery_cnc.Base.{ℕ, String, Bool, true, false, not, ◌||◌, Option, none, some, List, []}
use celery_cnc.Base.{◌==◌, string_eq, is_empty, if◌then◌else◌}
use celery_cnc.Base.Dict.{Dict}
use celery_cnc.Value.{Value, Integer}

pub data ProviderKind : Type 0 where
  google github gitlab okta : ProviderKind

unfoldable pub provider_value : ProviderKind → String
provider_value google = "google"
provider_value github = "github"
provider_value gitlab = "gitlab"
provider_value okta = "okta"

-- `request.session`
abbrev pub Session : Type 0
Session = Dict String Value

abbrev pub session_auth_key : String
session_auth_key = "celery_root_auth"

abbrev pub session_state_key : String
session_state_key = "celery_root_oauth_state"

abbrev pub session_next_key : String
session_next_key = "celery_root_oauth_next"

-- What a page or a sign-in answers with. `served` is the answer of the handler behind the gate, and
-- `custom` one that a custom handler built.
pub data Response : Type 0 where
  page : ℕ → String → Response
  redirect : String → Response
  challenge : String → Response
  served : Response
  custom : ℕ → Response

-- What the program reads of a request; `session` is absent where no session middleware ran.
pub record Request : Type 0 where
  pub path : String
  pub full_path : String
  pub login_uri : String
  pub authorization : Option String
  pub query : Dict String String
  pub session : Option Session

-- What a custom handler comes to: a truth value, a response, or an exception.
pub data Verdict : Type 0 where
  allow deny fail : Verdict
  answer : ℕ → Verdict

abbrev pub CustomAuthHandler : Type 0
CustomAuthHandler = Request → Verdict

pub record BasicCredential : Type 0 where
  pub username : String
  pub password : String

pub record OAuthEndpoints : Type 0 where
  pub auth_url : String
  pub token_url : String
  pub user_info_url : String
  pub scopes : List String

pub record AuthConfig : Type 0 where
  pub basic_auth : List BasicCredential
  pub provider : Option ProviderKind
  pub custom_handler : Option CustomAuthHandler
  pub allowed_email_patterns : List String
  pub oauth2_key : Option String
  pub oauth2_secret : Option String
  pub oauth2_redirect_uri : Option String
  pub okta_base_url : Option String
  pub gitlab_allowed_groups : List String
  pub gitlab_min_access_level : Integer
  pub gitlab_oauth_domain : String
  pub error : Option String

abbrev pub is_some {ℓ} : {A : Type ℓ} → Option A → Bool
is_some none = false
is_some (some a) = true

-- The truth value of an optional text, and `text or default`.
abbrev pub present : Option String → Bool
present none = false
present (some t) = not (t == "")

abbrev pub text_or : Option String → String → String
text_or none default = default
text_or (some t) default = if t == "" then default else t

unfoldable pub oauth_enabled : AuthConfig → Bool
oauth_enabled c = is_some c.provider

unfoldable pub custom_enabled : AuthConfig → Bool
custom_enabled c = is_some c.custom_handler

unfoldable pub enabled : AuthConfig → Bool
enabled c =
    not (is_empty c.basic_auth) || is_some c.provider || is_some c.custom_handler || present c.error
