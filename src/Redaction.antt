-- ===== src/Redaction.antt =====
-- celery_root/shared/redaction.py: passwords are taken out of URLs and payloads before they are
-- stored or shown. The URL functions and regular expressions of Python's library are the fields of
-- `UrlLibrary`.
pub mod Netloc
pub mod Payload
pub mod Examples
use mathlib.Core.List.{List, [], ◌∷◌, map}
use celery_cnc.Base.{ℕ, String, ◌<>◌, Bool, true, false, not, ◌&&◌, ◌||◌, Option, none, some}
use celery_cnc.Base.{◌==◌, string_eq, nat_eq, if◌then◌else◌}
use celery_cnc.Base.Text.{
  codes, split_first, split_last, includes, strip, lower, has_suffix, has_prefix,
}
use celery_cnc.Value.{
  Value, Items, Fields, null, boolean, integer, text, list, tuple, set, mapping, object, nil, cons,
  end, field,
}

abbrev pub redacted_value : String
redacted_value = "***"

-- Equality of normalised keys.
abbrev pub same_text : List ℕ → List ℕ → Bool
same_text [] [] = true
same_text [] (c ∷ s) = false
same_text (c ∷ s) [] = false
same_text (c ∷ s) (d ∷ t) = c == d && same_text s t

abbrev pub dash_to_underscore : ℕ → ℕ
dash_to_underscore c = if c == b'-' then b'_' else c

unfoldable pub is_password_key : String → Bool
unfolding strip lower has_suffix
is_password_key key =
    let normalized = map dash_to_underscore (map lower (strip (codes key))) in
    if same_text normalized (codes "password")
      || same_text normalized (codes "passwd")
      || same_text normalized (codes "pwd")
    then true
    else (has_suffix (codes "password") normalized
        || has_suffix (codes "passwd") normalized
        || has_suffix (codes "pwd") normalized)

-- What `urlsplit` returns.
pub record Parts : Type 0 where
  pub scheme : String
  pub netloc : String
  pub path : String
  pub query : String
  pub fragment : String

pub record UrlLibrary : Type 0 where
  -- `none`: `ValueError`.
  pub urlsplit : String → Option Parts
  pub urlunsplit : Parts → String
  pub parse_qsl : String → List (String × String)
  pub urlencode : List (String × String) → String
  pub to_lower : String → String
  -- The two substitutions by regular expression.
  pub sub_password_params : String → String
  pub sub_url_credentials : String → String

unfoldable pub redact_netloc : String → String × Bool
unfolding split_last split_first
redact_netloc netloc = elim (split_last b'@' netloc) [
  | none ↦ (netloc, false)
  | some (userinfo, hostinfo) ↦ elim (split_first b':' userinfo) [
    | none ↦ (netloc, false)
    | some (user, _) ↦ (user <> (":" <> (redacted_value <> ("@" <> hostinfo))), true)
  ]
]

unfoldable pub redact_items : List (String × String) → List (String × String)
unfolding is_password_key
redact_items [] = []
redact_items ((key, value) ∷ rest) =
    (key, if is_password_key key then redacted_value else value) ∷ redact_items rest

unfoldable pub any_password : List (String × String) → Bool
unfolding is_password_key
any_password [] = false
any_password ((key, value) ∷ rest) = is_password_key key || any_password rest

module _ (U : UrlLibrary) where
  open U use {
    urlsplit, urlunsplit, parse_qsl, urlencode, to_lower, sub_password_params, sub_url_credentials,
  }

  unfoldable pub contains_password_param : String → Bool
  unfolding includes
  contains_password_param t =
      let lowered = to_lower t in
      includes "password=" lowered || includes "passwd=" lowered || includes "pwd=" lowered

  unfoldable pub redact_query : String → String × Bool
  unfolding redact_items any_password
  redact_query query = elim (parse_qsl query) [
    | [] ↦ (query, false)
    | item ∷ rest ↦ (urlencode (redact_items (item ∷ rest)), any_password (item ∷ rest))
  ]

  -- The query is looked at only where there is one.
  abbrev pub query_of : String → String × Bool
  query_of query = if query == "" then (query, false) else redact_query query

  unfoldable pub redact_parts : String → Parts → String
  unfolding redact_netloc redact_query
  redact_parts t parts =
      let (netloc, netloc_redacted) = redact_netloc parts.netloc in
      let (query, query_redacted) = query_of parts.query in
      if not (netloc_redacted || query_redacted)
      then t
      else urlunsplit (record parts { netloc = netloc; query = query })

  unfoldable pub redact_url_text : String → String
  unfolding contains_password_param redact_parts
  redact_url_text t = elim (urlsplit t) [
    | none ↦ sub_password_params (sub_url_credentials t)
    | some parts ↦
        if parts.scheme == "" || parts.netloc == ""
        then (let redacted_text = sub_url_credentials t in
            if contains_password_param redacted_text
            then sub_password_params redacted_text
            else redacted_text)
        else redact_parts t parts
  ]

  unfoldable pub redact_url_password : String → String
  unfolding includes contains_password_param redact_url_text
  redact_url_password t =
      if t == "" || includes redacted_value t
      then t
      else if not (includes "://" t)
      then (if contains_password_param t then sub_password_params t else t)
      else redact_url_text t

-- The payload's texts are redacted by `redact_url`.
unfoldable mutual
  pub redact_access_data : (String → String) → Value → Value
  redact_access_data redact_url null = null
  redact_access_data redact_url (boolean b) = boolean b
  redact_access_data redact_url (integer n) = integer n
  redact_access_data redact_url (text t) = text (redact_url t)
  redact_access_data redact_url (list items) = list (redact_all redact_url items)
  redact_access_data redact_url (tuple items) = tuple (redact_all redact_url items)
  redact_access_data redact_url (set items) = set (redact_all redact_url items)
  redact_access_data redact_url (mapping fields) = mapping (redact_mapping redact_url fields)
  redact_access_data redact_url (object n) = object n

  pub redact_all : (String → String) → Items → Items
  redact_all redact_url nil = nil
  redact_all redact_url (cons v rest) =
      cons (redact_access_data redact_url v) (redact_all redact_url rest)

  pub redact_mapping : (String → String) → Fields → Fields
  redact_mapping redact_url end = end
  redact_mapping redact_url (field key v rest) =
      field key
        (if is_password_key key then text redacted_value else redact_access_data redact_url v)
        (redact_mapping redact_url rest)
