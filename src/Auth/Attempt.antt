-- ===== src/Auth/Attempt.antt =====
-- celery_root/components/web/auth.py: calls that return, raise `AuthError`, or raise anything else.
use celery_cnc.Base.{String, ◌≡◌, ◌<>◌, refl}

pub data AuthError : Type 0 where
  email_missing email_not_allowed gitlab_group_denied okta_base_url_missing : AuthError
  unsupported_provider token_missing unexpected_json : AuthError
  custom_handler_not_callable : String → AuthError

-- `str(exc)`
unfoldable pub message : AuthError → String
message email_missing = "OAuth provider did not return an email."
message email_not_allowed = "Email address is not allowed."
message gitlab_group_denied = "GitLab group membership check failed."
message okta_base_url_missing = "FLOWER_OAUTH2_OKTA_BASE_URL is not configured."
message unsupported_provider = "Unsupported OAuth provider."
message token_missing = "OAuth token response missing access_token."
message unexpected_json = "Unexpected JSON payload."
message (custom_handler_not_callable raw) = "Custom auth handler is not callable: " <> raw

pub data Attempt {ℓ} (A : Type ℓ) : Type ℓ where
  returned : A → Attempt A
  denied : AuthError → Attempt A
  crashed : Attempt A

infixl 5 ◌>>=◌
abbrev pub ◌>>=◌ {ℓ κ} : {A : Type ℓ} {B : Type κ} → Attempt A → (A → Attempt B) → Attempt B
returned a >>= f = f a
denied e >>= f = denied e
crashed >>= f = crashed

pub >>=-eq-returned {ℓ κ} :
    {A : Type ℓ} {B : Type κ} (m : Attempt A) (f : A → Attempt B) {b : B}
    → (m >>= f) ≡ returned b
    → (a : A) × (m ≡ returned a) × (f a ≡ returned b)
>>=-eq-returned (returned a) f h = (a, refl, h)
>>=-eq-returned (denied e) f h = cc
>>=-eq-returned crashed f h = cc
