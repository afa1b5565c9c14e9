-- ===== src/Auth/Keys.antt =====
-- celery_root/components/web/auth.py: the three keys of the session, and the address to go on to.
use celery_cnc.Base.{String, Bool, not, Option, none, some}
use celery_cnc.Base.{◌≡◌, inl, inr, refl, sym, ap, subst, Bool-cases}
use celery_cnc.Base.{◌&&◌, string_eq, nat_eq}
use celery_cnc.Base.Dict.{lookup, insert, erase, lookup-insert, lookup-erase}
use celery_cnc.Base.Text.{codes, has_prefix}
use celery_cnc.Value.{Value, text, mapping, field, end}
use celery_cnc.Auth.Gate.{sanitize_next}
use celery_cnc.Auth.Login.{with_next}
use celery_cnc.Auth.{Session, session_auth_key, session_state_key, session_next_key}

-- What `_store_login` keeps.
abbrev pub entry : String → String → Value → Value
entry email provider now = mapping (
    field "email" (text email)
      (field "provider" (text provider) (field "authenticated_at" now end)))

-- The address is kept as `next` only if the page would take it again.
abbrev pub NextIsLocal : Option Value → Type 0
NextIsLocal none = Unit {0}
NextIsLocal (some v) = (next : String) × (v ≡ text next) × (sanitize_next (some next) ≡ some next)

abbrev is_local : String → Bool
is_local t = has_prefix (codes "/") (codes t) && not (has_prefix (codes "//") (codes t))

pub sanitize_next_self :
    (o : Option String) (n : String) → sanitize_next o ≡ some n → sanitize_next (some n) ≡ some n
unfolding sanitize_next
sanitize_next_self none n h = cc
sanitize_next_self (some t) n h = elim (Bool-cases (is_local t)) [
  | inl e ↦ let same : t ≡ n = (let q = rw e at h in cc) in rw (ap is_local (sym same), e)
  | inr e ↦ let q = rw e at h in cc
]

-- The three keys are kept apart.
pub auth-insert_next :
    (v : Value) (s : Session)
    → lookup session_auth_key (insert session_next_key v s) ≡ lookup session_auth_key s
unfolding string_eq
auth-insert_next v s = lookup-insert session_auth_key session_next_key v s

pub auth-insert_state :
    (v : Value) (s : Session)
    → lookup session_auth_key (insert session_state_key v s) ≡ lookup session_auth_key s
unfolding string_eq
auth-insert_state v s = lookup-insert session_auth_key session_state_key v s

pub next-insert_state :
    (v : Value) (s : Session)
    → lookup session_next_key (insert session_state_key v s) ≡ lookup session_next_key s
unfolding string_eq
next-insert_state v s = lookup-insert session_next_key session_state_key v s

pub next-insert_auth :
    (v : Value) (s : Session)
    → lookup session_next_key (insert session_auth_key v s) ≡ lookup session_next_key s
unfolding string_eq
next-insert_auth v s = lookup-insert session_next_key session_auth_key v s

pub auth-erase_next :
    (s : Session) → lookup session_auth_key (erase session_next_key s) ≡ lookup session_auth_key s
unfolding string_eq
auth-erase_next s = lookup-erase session_auth_key session_next_key s

pub auth-erase_state :
    (s : Session) → lookup session_auth_key (erase session_state_key s) ≡ lookup session_auth_key s
unfolding string_eq
auth-erase_state s = lookup-erase session_auth_key session_state_key s

pub next-erase_state :
    (s : Session) → lookup session_next_key (erase session_state_key s) ≡ lookup session_next_key s
unfolding string_eq
next-erase_state s = lookup-erase session_next_key session_state_key s

pub auth_stored :
    (v : Value) (s : Session) → lookup session_auth_key (insert session_auth_key v s) ≡ some v
unfolding string_eq
auth_stored v s = lookup-insert session_auth_key session_auth_key v s

pub next_stored :
    (v : Value) (s : Session) → lookup session_next_key (insert session_next_key v s) ≡ some v
unfolding string_eq
next_stored v s = lookup-insert session_next_key session_next_key v s

pub next_erased : (s : Session) → lookup session_next_key (erase session_next_key s) ≡ none
unfolding string_eq
next_erased s = lookup-erase session_next_key session_next_key s

pub with_next-auth :
    (s : Session) (o : Option String)
    → lookup session_auth_key (with_next s o) ≡ lookup session_auth_key s
with_next-auth s none = refl
with_next-auth s (some n) = auth-insert_next (text n) s

pub with_next-IsLocal :
    (s : Session) (asked found : Option String)
    → sanitize_next asked ≡ found
    → NextIsLocal (lookup session_next_key s)
    → NextIsLocal (lookup session_next_key (with_next s found))
with_next-IsLocal s asked none e h = h
with_next-IsLocal s asked (some n) e h =
    subst NextIsLocal (sym (next_stored (text n) s)) (n, refl, sanitize_next_self asked n e)

pub state-insert_auth :
    (v : Value) (s : Session)
    → lookup session_state_key (insert session_auth_key v s) ≡ lookup session_state_key s
unfolding string_eq
state-insert_auth v s = lookup-insert session_state_key session_auth_key v s

pub state-insert_next :
    (v : Value) (s : Session)
    → lookup session_state_key (insert session_next_key v s) ≡ lookup session_state_key s
unfolding string_eq
state-insert_next v s = lookup-insert session_state_key session_next_key v s

pub state-erase_next :
    (s : Session) → lookup session_state_key (erase session_next_key s) ≡ lookup session_state_key s
unfolding string_eq
state-erase_next s = lookup-erase session_state_key session_next_key s

pub state_stored :
    (v : Value) (s : Session) → lookup session_state_key (insert session_state_key v s) ≡ some v
unfolding string_eq
state_stored v s = lookup-insert session_state_key session_state_key v s

pub state_erased : (s : Session) → lookup session_state_key (erase session_state_key s) ≡ none
unfolding string_eq
state_erased s = lookup-erase session_state_key session_state_key s
