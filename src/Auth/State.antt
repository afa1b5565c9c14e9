-- ===== src/Auth/State.antt =====
-- celery_root/components/web/auth.py: the state that a sign-in is started with, and its callback.
use celery_cnc.Base.{String, Bool, true, false, not, ◌||◌, Option, none, some}
use celery_cnc.Base.{◌≡◌, ◌⊎◌, inl, inr, refl, sym, ap, ◌∙◌, subst, Bool-cases, Option-cases, arith}
use celery_cnc.Base.{◌==◌, string_eq}
use celery_cnc.Base.Dict.{lookup, erase}
use celery_cnc.Value.{Value, null, text}
use celery_cnc.Auth.Attempt.{Attempt, returned, denied, crashed}
use celery_cnc.Auth.Gate.{compare_digest, sanitize_next}
use celery_cnc.Auth.Provider.{text_of, resolve_endpoints}
use celery_cnc.Auth.Login.{
  World, set_next, redirect_after_login, store_login, begin_oauth, start_oauth, with_endpoints,
  compared, stored_state, validate_state, signed_in, complete_oauth_login, after_state, callback,
  with_code, handle_oauth_login, login_configured, login,
}
use celery_cnc.Auth.Keys.{
  auth-insert_state, auth-erase_state, with_next-auth, state-insert_auth, state-erase_next,
  state_erased,
}
use celery_cnc.Auth.Visits.{saved, no_handler}
use celery_cnc.Auth.{
  OAuthEndpoints, Request, Session, AuthConfig, custom_enabled, oauth_enabled, present, text_or,
  session_auth_key, session_state_key,
}

-- The request calls back with the state that the session keeps, and the state is used up.
pub record Called (w : World) (request : Request) (s t : Session) : Type 0 where
  pub code : String
  pub state : String
  pub kept : Value
  pub has_code : lookup "code" request.query ≡ some code
  pub has_state : lookup "state" request.query ≡ some state
  pub was_kept : lookup session_state_key s ≡ some kept
  pub same : text_of w.http kept ≡ state
  pub used_up : lookup session_state_key t ≡ none

pub digest_true : (a b : String) → compare_digest a b ≡ some true → a ≡ b
unfolding compare_digest
digest_true a b h = ground arith

compared-true :
    (s t : Session) (o : Option Bool)
    → compared s o ≡ (returned true, t)
    → (o ≡ some true) × (t ≡ erase session_state_key s)
compared-true s t none h = cc
compared-true s t (some false) h = cc
compared-true s t (some true) h = (refl, cc)

stored_state-true :
    (w : World) (s t : Session) (state : String) (o : Option Value)
    → stored_state w s state o ≡ (returned true, t)
    → (v : Value) × (o ≡ some v) × (text_of w.http v ≡ state) × (t ≡ erase session_state_key s)
stored_state-true w s t state none h = cc
stored_state-true w s t state (some null) h = cc
stored_state-true w s t state (some v) h =
    let (a, b) = compared-true s t (compare_digest (text_of w.http v) state) h in
    (v, refl, digest_true (text_of w.http v) state a, b)

stated : (o : Option String) → text_or o "" == "" ≡ false → o ≡ some (text_or o "")
unfolding string_eq
stated none h = cc
stated (some t) h = ground arith

compared-auth :
    (s : Session) (o : Option Bool)
    → lookup session_auth_key (compared s o).1 ≡ lookup session_auth_key s
compared-auth s none = refl
compared-auth s (some false) = refl
compared-auth s (some true) = auth-erase_state s

stored_state-auth :
    (w : World) (s : Session) (state : String) (o : Option Value)
    → lookup session_auth_key (stored_state w s state o).1 ≡ lookup session_auth_key s
stored_state-auth w s state none = refl
stored_state-auth w s state (some null) = refl
stored_state-auth w s state (some v) = compared-auth s _

module _ (matches : String → String → Bool) (w : World) (request : Request)
    (config : AuthConfig) where
  -- What a page did: the sign-in is as before, or the request calls back with the kept state.
  Kept : Session → Session → Type 0
  Kept s t = (lookup session_auth_key t ≡ lookup session_auth_key s) ⊎ Called w request s t

  signed_in-Kept :
      (s : Session) (code state : String) (kept : Value) (r : Attempt String)
      → lookup "code" request.query ≡ some code
      → lookup "state" request.query ≡ some state
      → lookup session_state_key s ≡ some kept
      → text_of w.http kept ≡ state
      → Kept s (saved s (signed_in w config (erase session_state_key s) r))
  unfolding Kept signed_in redirect_after_login store_login
  signed_in-Kept s code state kept (returned email) c h k e = inr (record {
    code = code;
    state = state;
    kept = kept;
    has_code = c;
    has_state = h;
    was_kept = k;
    same = e;
    used_up = state-erase_next _ ∙ state-insert_auth _ (erase session_state_key s) ∙ state_erased s;
  })
  signed_in-Kept s code state kept (denied e) c h k same = inl (auth-erase_state s)
  signed_in-Kept s code state kept crashed c h k same = inl refl

  after_state-Kept :
      (s : Session) (code state : String) (answer : Attempt Bool × Session)
      → lookup "code" request.query ≡ some code
      → lookup "state" request.query ≡ some state
      → stored_state w s state (lookup session_state_key s) ≡ answer
      → Kept s (saved s (after_state matches w request config code answer))
  unfolding Kept
  after_state-Kept s code state (returned true, t) c h e =
      let (v, k, same, gone) = stored_state-true w s t state (lookup session_state_key s) e in
      subst
        (λ u.
          Kept s
            (saved s (signed_in w config u (complete_oauth_login matches w request config code))))
        (sym gone)
        (signed_in-Kept s code state v (complete_oauth_login matches w request config code) c h k
          same)
  after_state-Kept s code state (returned false, t) c h e = inl (
      ap (λ a. lookup session_auth_key a.1) (sym e)
      ∙ stored_state-auth w s state (lookup session_state_key s))
  after_state-Kept s code state (denied e', t) c h e = inl refl
  after_state-Kept s code state (crashed, t) c h e = inl refl

  callback-Kept :
      (s : Session) (code : String)
      → lookup "code" request.query ≡ some code
      → Kept s (
          saved s
            (callback matches w request config s code (text_or (lookup "state" request.query) "")))
  unfolding Kept callback validate_state
  callback-Kept s code c = elim (Bool-cases (text_or (lookup "state" request.query) "" == "")) [
    | inl t ↦ rw t (inl refl)
    | inr f ↦ rw f (
        after_state-Kept s code (text_or (lookup "state" request.query) "") _ c
          (stated (lookup "state" request.query) f) refl)
  ]

  started-Kept :
      (s : Session) (r : Attempt OAuthEndpoints)
      → lookup session_auth_key (saved s (with_endpoints w request config s r))
        ≡ lookup session_auth_key s
  unfolding begin_oauth set_next
  started-Kept s (returned endpoints) =
      with_next-auth _ (sanitize_next (lookup "next" request.query))
      ∙ auth-insert_state (text w.token_urlsafe) s
  started-Kept s (denied e) = refl
  started-Kept s crashed = refl

  with_code-Kept :
      (s : Session) (code : Option String)
      → lookup "code" request.query ≡ code
      → Kept s (saved s (with_code matches w request config s code))
  unfolding Kept start_oauth
  with_code-Kept s none c =
      elim (Bool-cases (not (present config.oauth2_key) || not (present config.oauth2_secret))) [
        | inl t ↦ rw t (inl refl)
        | inr f ↦ rw f (inl (started-Kept s (resolve_endpoints config)))
      ]
  with_code-Kept s (some code) c = callback-Kept s code c

  handle_oauth_login-Kept :
      (s : Session) → Kept s (saved s (handle_oauth_login matches w request config s))
  unfolding Kept handle_oauth_login
  handle_oauth_login-Kept s = elim (Option-cases (lookup "error" request.query)) [
    | inl e ↦ rw (e, handle_oauth_login) (with_code-Kept s (lookup "code" request.query) refl)
    | inr (t, e) ↦ rw (e, handle_oauth_login) (inl refl)
  ]

  -- Where no custom handler is configured, a visit to the sign-in page changes who is signed in only if
  -- its request calls back with a code and with the very state that the session keeps; and the session
  -- after it keeps no state, so that the callback cannot be used again.
  pub login-Called :
      (s : Session)
      → config.custom_handler ≡ none
      → (lookup session_auth_key (saved s (login matches w (returned config) request s))
          ≡ lookup session_auth_key s)
        ⊎ Called w request s (saved s (login matches w (returned config) request s))
  unfolding Kept login_configured
  login-Called s none_custom =
      let off : custom_enabled config ≡ false = no_handler config none_custom in
      elim (Bool-cases (oauth_enabled config)) [
        | inl t ↦ rw (off, t) (handle_oauth_login-Kept s)
        | inr f ↦ rw (off, f) (inl refl)
      ]
