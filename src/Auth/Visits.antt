-- ===== src/Auth/Visits.antt =====
-- celery_root/components/web/auth.py: what the session holds over any number of visits to the
-- sign-in and sign-out pages, with the configuration of an OAuth provider.
use celery_cnc.Base.{String, Bool, false, none, some, List, [], ◌∷◌}
use celery_cnc.Base.{◌≡◌, ap}
use celery_cnc.Base.{string_eq}
use celery_cnc.Base.Dict.{lookup}
use celery_cnc.Value.{Value}
use celery_cnc.Auth.Attempt.{Attempt, returned, denied, crashed}
use celery_cnc.Auth.Login.{World, Page, logout, login}
use celery_cnc.Auth.Keys.{NextIsLocal}
use celery_cnc.Auth.{
  Request, Session, AuthConfig, custom_enabled, is_some, session_auth_key, session_next_key,
}
use celery_cnc.Auth.Cleared.{AuthIsCleared}

-- A crash answers 500, and the session middleware then saves nothing.
abbrev pub saved : Session → Page → Session
saved old (returned response, session) = session
saved old (denied e, session) = old
saved old (crashed, session) = old

pub no_handler :
    (config : AuthConfig) → config.custom_handler ≡ none → custom_enabled config ≡ false
unfolding custom_enabled
no_handler config e = ap is_some e

module _ (matches : String → String → Bool) (config : AuthConfig)
    (seen : List (World × Request)) where
  -- The session after some visits.
  pub record IsSafe (s : Session) : Type 0 where
    pub cleared : AuthIsCleared matches config seen (lookup session_auth_key s)
    pub local : NextIsLocal (lookup session_next_key s)

module _ (matches : String → String → Bool) (config : AuthConfig) where
  -- Visits to the pages, whatever the requests, the provider's answers and the fresh states are: those to
  -- the sign-in page, the latest first, and the session that they lead to.
  pub data Visits : List (World × Request) → Session → Type 0 where
    opened : Visits [] []
    logged_in :
        {seen : List (World × Request)} {s t : Session} (w : World) (request : Request)
        → Visits seen s
        → t ≡ saved s (login matches w (returned config) request s)
        → Visits ((w, request) ∷ seen) t
    logged_out :
        {seen : List (World × Request)} {s t : Session}
        → Visits seen s
        → (logout (some s)).1 ≡ some t
        → Visits seen t
