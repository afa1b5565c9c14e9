-- ===== src/Auth/Cleared.antt =====
-- celery_root/components/web/auth.py: whom a callback signs in.
use celery_cnc.Base.{String, Bool, true, false, Option, none, some, List, ◌∷◌}
use celery_cnc.Base.Dict.{lookup}
use celery_cnc.Base.{◌≡◌, inl, inr, refl, sym, ap, ◌∙◌, subst, Bool-cases, arith}
use celery_cnc.Base.{string_eq}
use celery_cnc.Value.{Value}
use celery_cnc.Auth.Attempt.{returned, ◌>>=◌, >>=-eq-returned}
use celery_cnc.Auth.Provider.{exchange_code_for_token, fetch_user_email}
use celery_cnc.Auth.Groups.{is_gitlab_group_allowed}
use celery_cnc.Auth.Login.{
  World, wants_group, group_judged, group_checked, email_found, is_email_allowed, email_judged,
  complete_oauth_login, name_of,
}
use celery_cnc.Auth.Keys.{entry}
use celery_cnc.Auth.{Request, AuthConfig}

module _ (matches : String → String → Bool) (config : AuthConfig) where
  -- The provider, asked by one callback for its code, named the address; the address matched one of the
  -- patterns; and where a GitLab configuration names groups, the same provider's listing for the same
  -- token passed their check.
  pub record IsCleared (w : World) (request : Request) (code email : String) : Type 0 where
    pub token : String
    pub exchanged : exchange_code_for_token w.http code request.login_uri config ≡ returned token
    pub fetched : fetch_user_email w.http token config ≡ returned (some email)
    pub matched : is_email_allowed matches email config.allowed_email_patterns ≡ true
    pub grouped :
        wants_group config config.provider ≡ true
        → is_gitlab_group_allowed w.http token config w.fuel ≡ returned (some true)

  judged-eq :
      (email found : String)
      → email_judged matches config email ≡ returned found
      → (email ≡ found) × (is_email_allowed matches email config.allowed_email_patterns ≡ true)
  judged-eq email found h = ground arith

  group_judged-eq :
      (email found : String) (o : Option Bool)
      → group_judged email o ≡ returned found
      → (email ≡ found) × (o ≡ some true)
  group_judged-eq email found (some true) h = (cc, refl)
  group_judged-eq email found (some false) h = cc
  group_judged-eq email found none h = cc

  group_checked-passed :
      (w : World) (token email found : String)
      → group_checked w config token email ≡ returned found
      → (email ≡ found)
        × (wants_group config config.provider ≡ true
            → is_gitlab_group_allowed w.http token config w.fuel ≡ returned (some true))
  unfolding group_checked
  group_checked-passed w token email found h =
      elim (Bool-cases (wants_group config config.provider)) [
        | inl t ↦
            let answer = is_gitlab_group_allowed w.http token config w.fuel in
            let (o, a, b) = >>=-eq-returned answer (group_judged email) (rw t at h) in
            let (e, g) = group_judged-eq email found o b in (e, λ _. a ∙ ap returned g)
        | inr f ↦
            let e : email ≡ found = (let q = rw f at h in cc) in (e, λ t. (let q = sym f ∙ t in cc))
      ]

  found-IsCleared :
      (w : World) (request : Request) (code token email : String) (found : Option String)
      → exchange_code_for_token w.http code request.login_uri config ≡ returned token
      → fetch_user_email w.http token config ≡ returned found
      → (email_found found >>= λ t. email_judged matches config t >>= group_checked w config token)
        ≡ returned email
      → IsCleared w request code email
  found-IsCleared w request code token email none a c h = absurd (cc)
  found-IsCleared w request code token email (some t) a c h =
      let (allowed, j, b) =
        >>=-eq-returned (email_judged matches config t) (group_checked w config token) h in
      let (e, m) = judged-eq t allowed j in
      let (e', g) = group_checked-passed w token allowed email b in
      let same : t ≡ email = e ∙ e' in
      record {
        token = token;
        exchanged = a;
        fetched = c ∙ ap (λ v. returned (some v)) same;
        matched =
            subst (λ v. is_email_allowed matches v config.allowed_email_patterns ≡ true) same m;
        grouped = g;
      }

  pub complete_oauth_login-IsCleared :
      (w : World) (request : Request) (code email : String)
      → complete_oauth_login matches w request config code ≡ returned email
      → IsCleared w request code email
  unfolding complete_oauth_login
  complete_oauth_login-IsCleared w request code email h =
      let (token, a, b) =
        >>=-eq-returned (exchange_code_for_token w.http code request.login_uri config)
          (λ token. fetch_user_email w.http token config >>= λ found. email_found found >>= λ t.
            email_judged matches config t >>= group_checked w config token)
          h in
      let (found, c, d) =
        >>=-eq-returned (fetch_user_email w.http token config)
          (λ found. email_found found >>= λ t.
            email_judged matches config t >>= group_checked w config token)
          b in
      found-IsCleared w request code token email found a c d

  -- A visit that is in a list of visits.
  pub data Seen (w : World) (request : Request) : List (World × Request) → Type 0 where
    latest : {rest : List (World × Request)} → Seen w request ((w, request) ∷ rest)
    earlier :
        {rest : List (World × Request)} (v : World × Request)
        → Seen w request rest
        → Seen w request (v ∷ rest)

  -- A sign-in that the session holds was stored by one of the visits, whose request carried a code that
  -- cleared the address.
  pub record IsSignIn (seen : List (World × Request)) (v : Value) : Type 0 where
    pub world : World
    pub asked : Request
    pub code : String
    pub email : String
    pub visited : Seen world asked seen
    pub carried : lookup "code" asked.query ≡ some code
    pub stored : v ≡ entry email (name_of config.provider) world.now
    pub cleared : IsCleared world asked code email

  abbrev pub AuthIsCleared : List (World × Request) → Option Value → Type 0
  AuthIsCleared seen none = Unit {0}
  AuthIsCleared seen (some v) = IsSignIn seen v

  pub AuthIsCleared-later :
      (seen : List (World × Request)) (visit : World × Request) (o : Option Value)
      → AuthIsCleared seen o
      → AuthIsCleared (visit ∷ seen) o
  AuthIsCleared-later seen visit none h = tt
  AuthIsCleared-later seen visit (some v) h = record {
    world = h.world;
    asked = h.asked;
    code = h.code;
    email = h.email;
    visited = earlier visit h.visited;
    carried = h.carried;
    stored = h.stored;
    cleared = h.cleared;
  }
