-- ===== src/Redaction/Netloc.antt =====
-- celery_root/shared/redaction.py, _redact_netloc and redact_url_password: the password of a URL
-- does not show.
use Prim.Native.Char.{Char}
use text.Mathlib.TextLemmas.{append_assoc, cons-append, nil-append}
use celery_cnc.Base.{
  ◌≡◌, refl, ap, ◌∙◌, sym, subst, String, ◌<>◌, true, false, none, some, ◌==◌, string_eq,
}
use celery_cnc.Base.Text.{split_first, split_last, split_first-append, split_last-append, includes}
use celery_cnc.Redaction.{
  redacted_value, Parts, UrlLibrary, redact_netloc, redact_parts, redact_url_text,
  redact_url_password, query_of,
}

one-append : (c : Char) (s : String) → String.◌∷◌ c String.[] <> s ≡ String.◌∷◌ c s
one-append c s = cons-append c String.[] s ∙ ap (String.◌∷◌ c) (nil-append s)

last_at :
    (user password host : String)
    → split_last b'@' host ≡ none
    → split_last b'@' (user <> (":" <> (password <> ("@" <> host))))
      ≡ some (user <> (":" <> password), host)
last_at user password host h =
    subst (λ t. split_last b'@' t ≡ some (user <> (":" <> password), host))
      (append_assoc user (":" <> password) ("@" <> host)
        ∙ ap (λ t. user <> t) (append_assoc ":" password ("@" <> host)))
      (subst
        (λ t.
          split_last b'@' ((user <> (":" <> password)) <> t)
          ≡ some (user <> (":" <> password), host))
        (sym (one-append "@" host))
        (split_last-append b'@' "@" (user <> (":" <> password)) host refl h))

first_colon :
    (user password : String)
    → split_first b':' user ≡ none
    → split_first b':' (user <> (":" <> password)) ≡ some (user, password)
first_colon user password u =
    subst (λ t. split_first b':' (user <> t) ≡ some (user, password))
      (sym (one-append ":" password)) (split_first-append b':' ":" user password refl u)

-- `user:password@host` keeps the user and the host, whatever the password holds; the user has no
-- colon, and the host no @.
pub redact_netloc_hides :
    (user password host : String)
    → split_first b':' user ≡ none
    → split_last b'@' host ≡ none
    → redact_netloc (user <> (":" <> (password <> ("@" <> host))))
      ≡ (user <> (":" <> (redacted_value <> ("@" <> host))), true)
unfolding redact_netloc
redact_netloc_hides user password host u h =
    rw (redact_netloc, last_at user password host h, first_colon user password u) refl

-- A URL with a scheme and with `user:password@host`, which does not hold the mark yet, is put together
-- again from its own parts with the mark in the place of the password; the user has no colon and the
-- host no @.
pub redact_url_password_hides :
    (U : UrlLibrary) (t : String) (parts : Parts) (user password host : String)
    → U.urlsplit t ≡ some parts
    → parts.netloc ≡ user <> (":" <> (password <> ("@" <> host)))
    → parts.scheme == "" ≡ false
    → parts.netloc == "" ≡ false
    → t == "" ≡ false
    → includes redacted_value t ≡ false
    → includes "://" t ≡ true
    → split_first b':' user ≡ none
    → split_last b'@' host ≡ none
    → redact_url_password U t
      ≡ U.urlunsplit (record parts {
        netloc = user <> (":" <> (redacted_value <> ("@" <> host)));
        query = (query_of U parts.query).0;
      })
unfolding redact_url_password redact_url_text redact_parts
redact_url_password_hides U t parts user password host split loc s n empty fresh url u h =
    rw
      (
        redact_url_password,
        empty,
        fresh,
        url,
        redact_url_text,
        split,
        s,
        n,
        redact_parts,
        loc,
        redact_netloc_hides user password host u h,
      )
      refl
