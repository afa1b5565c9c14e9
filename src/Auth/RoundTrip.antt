-- ===== src/Auth/RoundTrip.antt =====
-- celery_root/components/web/auth.py: a sign-in from its start to the page that was asked for.
use celery_cnc.Base.{String, Bool, true, false, Option, none, some}
use celery_cnc.Base.{◌≡◌, ◌≢◌, inl, inr, sym, ap, ◌∙◌, subst, arith}
use celery_cnc.Base.{◌==◌, string_eq, ==_cases, ==_refl}
use celery_cnc.Base.Dict.{lookup, insert, erase}
use celery_cnc.Base.Python.{is_ascii}
use celery_cnc.Value.{text}
use celery_cnc.Auth.Attempt.{returned}
use celery_cnc.Auth.Gate.{compare_digest, sanitize_next}
use celery_cnc.Auth.Provider.{resolve_endpoints}
use celery_cnc.Auth.Login.{
  World, set_next, with_next, next_target, redirect_after_login, store_login, begin_oauth,
  start_oauth, compared, validate_state, stored_state, signed_in, name_of, complete_oauth_login,
  after_state, callback, with_code, handle_oauth_login, login_configured, login,
}
use celery_cnc.Auth.Keys.{
  entry, sanitize_next_self, auth-erase_next, auth_stored, next_stored, next-erase_state,
  next-insert_auth, state-insert_next, state_stored,
}
use celery_cnc.Auth.Visits.{saved, no_handler}
use celery_cnc.Auth.{
  ProviderKind, OAuthEndpoints, redirect, Request, Session, AuthConfig, custom_enabled,
  oauth_enabled, present, is_some, provider_value, text_or, session_auth_key, session_state_key,
  session_next_key,
}

-- The session after the start of a sign-in.
abbrev started : World → Request → Session → Session
started w request s = set_next request (insert session_state_key (text w.token_urlsafe) s)

started-state :
    (w : World) (request : Request) (s : Session)
    → lookup session_state_key (started w request s) ≡ some (text w.token_urlsafe)
unfolding set_next
started-state w request s = kept (sanitize_next (lookup "next" request.query))
  where
    kept :
        (o : Option String)
        → lookup session_state_key (with_next (insert session_state_key (text w.token_urlsafe) s) o)
          ≡ some (text w.token_urlsafe)
    kept none = state_stored (text w.token_urlsafe) s
    kept (some n) = state-insert_next (text n) _ ∙ state_stored (text w.token_urlsafe) s

empty_next : sanitize_next (some "") ≢ some ""
unfolding sanitize_next
empty_next h = cc

-- A local address is not empty, so that a sign-in ends at it.
target_of :
    (o : Option String) (n : String) → sanitize_next o ≡ some n → next_target (some (text n)) ≡ n
target_of o n h = elim (==_cases n "") [
  | inl (p, e) ↦
      absurd
        (empty_next (subst (λ t. sanitize_next (some t) ≡ some t) p (sanitize_next_self o n h)))
  | inr (d, e) ↦ rw e
]

digest_same : (a : String) → is_ascii a ≡ true → compare_digest a a ≡ some true
unfolding compare_digest
digest_same a h = ground (arith, ==_refl a)

text_or_self : (t : String) → text_or (some t) "" ≡ t
text_or_self t = elim (==_cases t "") [ inl (p, e) ↦ rw e (sym p) | inr (d, e) ↦ rw e ]

module _ (matches : String → String → Bool) (config : AuthConfig) (provider : ProviderKind)
    (no_custom : config.custom_handler ≡ none) (by : config.provider ≡ some provider) where
  -- A callback with the kept state, for which the provider gives an address.
  finished : World → String → Session → Session
  finished w email s = store_login w.now email (name_of config.provider) (erase session_state_key s)

  finished-auth :
      (w : World) (email : String) (s : Session)
      → lookup session_auth_key (erase session_next_key (finished w email s))
        ≡ some (entry email (provider_value provider) w.now)
  unfolding finished store_login
  finished-auth w email s =
      auth-erase_next _
      ∙ auth_stored (entry email (name_of config.provider) w.now) (erase session_state_key s)
      ∙ ap (λ p. some (entry email (name_of p) w.now)) by

  finished-target :
      (v w : World) (request : Request) (email : String) (s : Session) (next : String)
      → sanitize_next (lookup "next" request.query) ≡ some next
      → next_target (lookup session_next_key (finished v email (started w request s))) ≡ next
  unfolding finished store_login set_next
  finished-target v w request email s next local =
      ap next_target (
        next-insert_auth _ (erase session_state_key (started w request s))
        ∙ next-erase_state (started w request s)
        ∙ ap
            (λ o.
              lookup session_next_key
                (with_next (insert session_state_key (text w.token_urlsafe) s) o))
            local
        ∙ next_stored (text next) _)
      ∙ target_of (lookup "next" request.query) next local

  login_oauth :
      (w : World) (request : Request) (s : Session)
      → login matches w (returned config) request s ≡ handle_oauth_login matches w request config s
  unfolding login_configured oauth_enabled
  login_oauth w request s =
      let off : custom_enabled config ≡ false = no_handler config no_custom in
      rw (off, ap is_some by)

  -- The two visits of a sign-in.
  login_starts :
      (w : World) (request : Request) (s : Session) (endpoints : OAuthEndpoints)
      → present config.oauth2_key ≡ true
      → present config.oauth2_secret ≡ true
      → resolve_endpoints config ≡ returned endpoints
      → lookup "error" request.query ≡ none
      → lookup "code" request.query ≡ none
      → saved s (login matches w (returned config) request s) ≡ started w request s
  unfolding handle_oauth_login start_oauth begin_oauth
  login_starts w request s endpoints key secret e no_error no_code =
      ap (saved s) (login_oauth w request s)
      ∙ rw (no_error, handle_oauth_login) (rw no_code (rw (key, secret, e)))

  handle_calls_back :
      (w : World) (request : Request) (s : Session) (code state : String)
      → lookup "error" request.query ≡ none
      → lookup "code" request.query ≡ some code
      → lookup "state" request.query ≡ some state
      → handle_oauth_login matches w request config s
        ≡ callback matches w request config s code state
  unfolding handle_oauth_login
  handle_calls_back w request s code state no_error c h =
      rw (no_error, handle_oauth_login)
        (ap (with_code matches w request config s) c
          ∙ ap (callback matches w request config s code)
              (ap (λ o. text_or o "") h ∙ text_or_self state))

  callback_accepts :
      (w : World) (request : Request) (s : Session) (code state email : String)
      → lookup session_state_key s ≡ some (text state)
      → is_ascii state ≡ true
      → state == "" ≡ false
      → complete_oauth_login matches w request config code ≡ returned email
      → callback matches w request config s code state ≡ redirect_after_login (finished w email s)
  unfolding callback signed_in validate_state finished
  callback_accepts w request s code state email kept ascii some_state ok = rw some_state (
      ap (λ o. after_state matches w request config code (stored_state w s state o)) kept
      ∙ ap (λ o. after_state matches w request config code (compared s o)) (digest_same state ascii)
      ∙ ap (signed_in w config (erase session_state_key s)) ok)

  -- Where the provider is known and the client's key and secret are set: a visitor who starts a
  -- sign-in with a local address as `next`, and who comes back with the state of that start and a code
  -- for which the provider gives an allowed address, is sent to `next`, and is signed in with it.
  pub login-login :
      (w v : World) (request back : Request) (s : Session) (endpoints : OAuthEndpoints)
      (next code email : String)
      → present config.oauth2_key ≡ true
      → present config.oauth2_secret ≡ true
      → resolve_endpoints config ≡ returned endpoints
      → lookup "error" request.query ≡ none
      → lookup "code" request.query ≡ none
      → sanitize_next (lookup "next" request.query) ≡ some next
      → is_ascii w.token_urlsafe ≡ true
      → w.token_urlsafe == "" ≡ false
      → lookup "error" back.query ≡ none
      → lookup "code" back.query ≡ some code
      → lookup "state" back.query ≡ some w.token_urlsafe
      → complete_oauth_login matches v back config code ≡ returned email
      → let done =
          login matches v
            (returned config)
            back
            (saved s (login matches w (returned config) request s)) in
        (done.0 ≡ returned (redirect next))
        × (lookup session_auth_key done.1 ≡ some (entry email (provider_value provider) v.now))
  unfolding finished redirect_after_login store_login
  login-login w v request back s endpoints next code email key secret e no_error no_code local ascii
        some_state no_error' c h ok =
      let second : login matches v (returned config) back (started w request s)
          ≡ redirect_after_login (finished v email (started w request s)) =
        login_oauth v back (started w request s)
        ∙ handle_calls_back v back (started w request s) code w.token_urlsafe no_error' c h
        ∙ callback_accepts v back (started w request s) code w.token_urlsafe email
            (started-state w request s) ascii some_state ok in
      let both : login matches v (returned config) back
            (saved s (login matches w (returned config) request s))
          ≡ redirect_after_login (finished v email (started w request s)) =
        ap (login matches v (returned config) back)
          (login_starts w request s endpoints key secret e no_error no_code)
        ∙ second in
      (
        ap (λ p. p.0) both
            ∙ ap (λ t. returned (redirect t)) (finished-target v w request email s next local),
        ap (λ p. lookup session_auth_key p.1) both ∙ finished-auth v email (started w request s),
      )
