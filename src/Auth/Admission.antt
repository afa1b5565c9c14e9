-- ===== src/Auth/Admission.antt =====
-- celery_root/components/web/auth.py: whom the gate lets through to a page.
use celery_cnc.Base.{String, Bool, true, false, not, ◌||◌, Option, none, some, List, [], ◌∷◌}
use celery_cnc.Base.{◌≡◌, ◌≢◌, ◌↔◌, inl, inr, refl, sym, ap, ◌∙◌, Bool-cases, Option-cases, arith}
use celery_cnc.Base.{string_eq, if◌then◌else◌, is_empty}
use celery_cnc.Auth.Attempt.{returned}
use celery_cnc.Auth.Gate.{
  Site, is_exempt_path, matches_any, presented, checked, check_basic_auth, is_authenticated,
  answered, handle_custom_auth, redirect_to_login, after_basic, gate, auth_middleware,
}
use celery_cnc.Auth.{
  ProviderKind, served, Request, Verdict, allow, deny, fail, answer, CustomAuthHandler,
  BasicCredential, AuthConfig, enabled, custom_enabled, oauth_enabled, present,
}
use celery_cnc.Auth.Credentials.{Held, matches_any-Held, Held-matches_any}

-- The reasons for which a page may be served.
pub data Admitted (site : Site) (request : Request) (config : AuthConfig) : Type 0 where
  nothing_asked : enabled config ≡ false → Admitted site request config
  exempt : is_exempt_path site.static_url request.path ≡ true → Admitted site request config
  credential :
      (username password : String)
      → presented site request.authorization ≡ some (username, password)
      → Held username password config.basic_auth
      → Admitted site request config
  by_handler :
      (handler : CustomAuthHandler)
      → config.custom_handler ≡ some handler
      → handler request ≡ allow
      → Admitted site request config
  by_session :
      (provider : ProviderKind)
      → config.custom_handler ≡ none
      → config.provider ≡ some provider
      → is_authenticated request ≡ true
      → Admitted site request config

allowed_of : (v : Verdict) → answered v served ≡ returned served → v ≡ allow
allowed_of allow h = refl
allowed_of deny h = cc
allowed_of fail h = cc
allowed_of (answer n) h = cc

-- A list with no credential asks for nothing.
checked_nothing :
    (found : Option (String × String)) (creds : List BasicCredential)
    → (if is_empty creds then some false else checked found creds) ≡ checked found creds
unfolding matches_any
checked_nothing none [] = refl
checked_nothing (some (username, password)) [] = refl
checked_nothing found (cred ∷ creds) = refl

module _ (site : Site) (request : Request) (config : AuthConfig) where
  checked-Admitted :
      (found : Option (String × String))
      → presented site request.authorization ≡ found
      → checked found config.basic_auth ≡ some true
      → Admitted site request config
  checked-Admitted none e h = absurd (cc)
  checked-Admitted (some (username, password)) e h =
      Admitted.credential username password e
        (matches_any-Held username password config.basic_auth h)

  check_basic_auth-Admitted :
      check_basic_auth site request config.basic_auth ≡ some true → Admitted site request config
  unfolding check_basic_auth
  check_basic_auth-Admitted h = checked-Admitted (presented site request.authorization) refl h

  custom-Admitted :
      (handler : Option CustomAuthHandler)
      → config.custom_handler ≡ handler
      → handle_custom_auth request handler ≡ returned served
      → Admitted site request config
  unfolding handle_custom_auth
  custom-Admitted none e h = absurd (cc)
  custom-Admitted (some handler) e h =
      Admitted.by_handler handler e (allowed_of (handler request) h)

  session-Admitted :
      (provider : Option ProviderKind)
      → config.provider ≡ provider
      → config.custom_handler ≡ none
      → after_basic site config request (some false) ≡ returned served
      → Admitted site request config
  unfolding after_basic oauth_enabled custom_enabled redirect_to_login
  session-Admitted none e f h = absurd (ground arith)
  session-Admitted (some p) e f h = elim (Bool-cases (is_authenticated request)) [
    | inl t ↦ Admitted.by_session p f e t
    | inr differ ↦ absurd (ground arith)
  ]

  handler_of :
      (handler : CustomAuthHandler)
      → config.custom_handler ≡ some handler
      → after_basic site config request (some false) ≡ handle_custom_auth request (some handler)
  unfolding after_basic custom_enabled
  handler_of handler e = rw e

  after_basic-Admitted :
      (asked : Option Bool)
      → (asked ≡ some true → Admitted site request config)
      → after_basic site config request asked ≡ returned served
      → Admitted site request config
  after_basic-Admitted none f h = absurd (unfold after_basic in cc)
  after_basic-Admitted (some true) f h = f refl
  after_basic-Admitted (some false) f h = elim (Option-cases config.custom_handler) [
    | inl e ↦ session-Admitted config.provider refl e h
    | inr (handler, e) ↦ custom-Admitted (some handler) e (sym (handler_of handler e) ∙ h)
  ]

  -- What the gate does once the exemptions are decided.
  gate_past :
      present config.error ≡ false
      → not (enabled config) || is_exempt_path site.static_url request.path ≡ false
      → gate site request config
        ≡ after_basic site config request (check_basic_auth site request config.basic_auth)
  unfolding gate check_basic_auth
  gate_past e f =
      rw (f, e)
        (ap (after_basic site config request)
          (checked_nothing (presented site request.authorization) config.basic_auth))

  gate_free :
      present config.error ≡ false
      → not (enabled config) || is_exempt_path site.static_url request.path ≡ true
      → gate site request config ≡ returned served
  unfolding gate
  gate_free e f = rw (f, e)

  free-Admitted :
      not (enabled config) || is_exempt_path site.static_url request.path ≡ true
      → Admitted site request config
  free-Admitted h = elim (Bool-cases (enabled config)) [
    | inl t ↦ Admitted.exempt (rw t at h)
    | inr f ↦ Admitted.nothing_asked f
  ]

  gate_error : present config.error ≡ true → gate site request config ≢ returned served
  unfolding gate
  gate_error e h = let q = rw e at h in cc

  gate-Admitted :
      gate site request config ≡ returned served
      → (present config.error ≡ false) × Admitted site request config
  gate-Admitted h = elim (Bool-cases (present config.error)) [
    | inl e ↦ absurd (gate_error e h)
    | inr e ↦ (
      e,
      elim (Bool-cases (not (enabled config) || is_exempt_path site.static_url request.path)) [
        | inl f ↦ free-Admitted f
        | inr f ↦
            after_basic-Admitted (check_basic_auth site request config.basic_auth)
              check_basic_auth-Admitted (sym (gate_past e f) ∙ h)
      ],
    )
  ]

  -- The converse, past the exemptions.
  after_basic_served :
      (asked : Option Bool)
      → asked ≢ none
      → (asked ≢ some true → after_basic site config request (some false) ≡ returned served)
      → after_basic site config request asked ≡ returned served
  unfolding after_basic
  after_basic_served none h f = absurd (h refl)
  after_basic_served (some true) h f = refl
  after_basic_served (some false) h f = f (λ e. cc)

  session_served :
      (provider : ProviderKind)
      → config.custom_handler ≡ none
      → config.provider ≡ some provider
      → is_authenticated request ≡ true
      → after_basic site config request (some false) ≡ returned served
  unfolding after_basic custom_enabled oauth_enabled
  session_served provider e f h = rw (e, f, h)

  handler_served :
      (handler : CustomAuthHandler)
      → config.custom_handler ≡ some handler
      → handler request ≡ allow
      → after_basic site config request (some false) ≡ returned served
  unfolding handle_custom_auth
  handler_served handler e h = handler_of handler e ∙ ap (λ v. answered v served) h

  credential_served :
      (username password : String)
      → presented site request.authorization ≡ some (username, password)
      → Held username password config.basic_auth
      → check_basic_auth site request config.basic_auth ≢ none
      → check_basic_auth site request config.basic_auth ≡ some true
  unfolding check_basic_auth
  credential_served username password e held h =
      ap (λ found. checked found config.basic_auth) e
      ∙ Held-matches_any username password config.basic_auth held
          (λ q. h (ap (λ found. checked found config.basic_auth) e ∙ q))

  Admitted-past :
      check_basic_auth site request config.basic_auth ≢ none
      → not (enabled config) || is_exempt_path site.static_url request.path ≡ false
      → Admitted site request config
      → after_basic site config request (check_basic_auth site request config.basic_auth)
        ≡ returned served
  Admitted-past h f (Admitted.nothing_asked e) = absurd (ground (arith, e))
  Admitted-past h f (Admitted.exempt e) = absurd (ground (arith, e))
  Admitted-past h f (Admitted.credential username password e held) =
      after_basic_served _ h
        (λ wrong. absurd (wrong (credential_served username password e held h)))
  Admitted-past h f (Admitted.by_handler handler e allowed) =
      after_basic_served _ h (λ _. handler_served handler e allowed)
  Admitted-past h f (Admitted.by_session provider e p a) =
      after_basic_served _ h (λ _. session_served provider e p a)

  -- Where no comparison of a credential raises, a loaded configuration serves a page exactly when it
  -- has no error and one of the reasons holds: sign-in is off, the path is exempt, the request carries
  -- a configured name and password, the custom handler allows it, or, with a provider and no handler,
  -- the session is signed in.
  pub auth_middleware-Admitted :
      check_basic_auth site request config.basic_auth ≢ none
      → (auth_middleware site (returned config) request ≡ returned served)
        ↔ ((present config.error ≡ false) × Admitted site request config)
  unfolding auth_middleware
  auth_middleware-Admitted h = (
    gate-Admitted,
    λ (e, reason).
        elim (Bool-cases (not (enabled config) || is_exempt_path site.static_url request.path)) [
          | inl f ↦ gate_free e f
          | inr f ↦ gate_past e f ∙ Admitted-past h f reason
        ],
  )
