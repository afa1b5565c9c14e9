-- ===== src/Redaction/Payload.antt =====
-- No value under a password key survives, and nothing of it shows.
use celery_cnc.Base.{◌≡◌, refl, ap, String, true, if◌then◌else◌, inl, inr, Bool-cases}
use celery_cnc.Value.{
  Value, Items, Fields, null, boolean, integer, text, list, tuple, set, mapping, object, nil, cons,
  end, field,
}
use celery_cnc.Redaction.{
  redacted_value, is_password_key, redact_access_data, redact_all, redact_mapping,
}

-- Two payloads that differ at most in what stands under password keys.
mutual
  pub data Alike : Value → Value → Type 0 where
    same : (v : Value) → Alike v v
    in_list : {a b : Items} → AlikeItems a b → Alike (list a) (list b)
    in_tuple : {a b : Items} → AlikeItems a b → Alike (tuple a) (tuple b)
    in_set : {a b : Items} → AlikeItems a b → Alike (set a) (set b)
    in_mapping : {a b : Fields} → AlikeFields a b → Alike (mapping a) (mapping b)

  pub data AlikeItems : Items → Items → Type 0 where
    none_left : AlikeItems nil nil
    next :
        {v w : Value} {a b : Items} → Alike v w → AlikeItems a b → AlikeItems (cons v a) (cons w b)

  pub data AlikeFields : Fields → Fields → Type 0 where
    no_field : AlikeFields end end
    secret :
        (key : String) (v w : Value) {a b : Fields}
        → is_password_key key ≡ true
        → AlikeFields a b
        → AlikeFields (field key v a) (field key w b)
    plain :
        (key : String) {v w : Value} {a b : Fields}
        → Alike v w
        → AlikeFields a b
        → AlikeFields (field key v a) (field key w b)

mutual
  unfolding redact_access_data

  redact-Alike :
      {v w : Value} (f : String → String)
      → Alike v w
      → redact_access_data f v ≡ redact_access_data f w
  redact-Alike f (same v) = refl
  redact-Alike f (in_list h) = ap list (redact-AlikeItems f h)
  redact-Alike f (in_tuple h) = ap tuple (redact-AlikeItems f h)
  redact-Alike f (in_set h) = ap set (redact-AlikeItems f h)
  redact-Alike f (in_mapping h) = ap mapping (redact-AlikeFields f h)

  redact-AlikeItems :
      {a b : Items} (f : String → String) → AlikeItems a b → redact_all f a ≡ redact_all f b
  redact-AlikeItems f none_left = refl
  redact-AlikeItems f (next h r) = λ i. cons (redact-Alike f h i) (redact-AlikeItems f r i)

  redact-AlikeFields :
      {a b : Fields} (f : String → String)
      → AlikeFields a b
      → redact_mapping f a ≡ redact_mapping f b
  redact-AlikeFields f no_field = refl
  redact-AlikeFields f (secret key v w p r) =
      rw p (λ i. field key (text redacted_value) (redact-AlikeFields f r i))
  redact-AlikeFields f (plain key h r) = λ i.
      field key (if is_password_key key then text redacted_value else redact-Alike f h i)
        (redact-AlikeFields f r i)

-- Payloads that differ only in what stands under password keys, at any depth, have the same
-- redaction, whatever the redaction of texts does.
pub redact_access_data_hides :
    (redact_url : String → String) (v w : Value)
    → Alike v w
    → redact_access_data redact_url v ≡ redact_access_data redact_url w
redact_access_data_hides redact_url v w h = redact-Alike redact_url h

-- Under every password key, at any depth, stands the mark and nothing else.
unfoldable mutual
  pub Clean : Value → Type 0
  Clean null = Unit {0}
  Clean (boolean b) = Unit {0}
  Clean (integer n) = Unit {0}
  Clean (text t) = Unit {0}
  Clean (list items) = CleanItems items
  Clean (tuple items) = CleanItems items
  Clean (set items) = CleanItems items
  Clean (mapping fields) = CleanFields fields
  Clean (object n) = Unit {0}

  pub CleanItems : Items → Type 0
  CleanItems nil = Unit {0}
  CleanItems (cons v rest) = Clean v × CleanItems rest

  pub CleanFields : Fields → Type 0
  CleanFields end = Unit {0}
  CleanFields (field key v rest) =
      (is_password_key key ≡ true → v ≡ text redacted_value) × Clean v × CleanFields rest

mutual
  unfolding Clean redact_access_data

  clean : (f : String → String) (v : Value) → Clean (redact_access_data f v)
  clean f null = tt
  clean f (boolean b) = tt
  clean f (integer n) = tt
  clean f (text t) = tt
  clean f (list items) = clean_items f items
  clean f (tuple items) = clean_items f items
  clean f (set items) = clean_items f items
  clean f (mapping fields) = clean_fields f fields
  clean f (object n) = tt

  clean_items : (f : String → String) (items : Items) → CleanItems (redact_all f items)
  clean_items f nil = tt
  clean_items f (cons v rest) = (clean f v, clean_items f rest)

  clean_fields : (f : String → String) (fields : Fields) → CleanFields (redact_mapping f fields)
  clean_fields f end = tt
  clean_fields f (field key v rest) = elim (Bool-cases (is_password_key key)) [
    | inl t ↦ rw t (λ _. refl, tt, clean_fields f rest)
    | inr t ↦ rw t (λ h. cc, clean f v, clean_fields f rest)
  ]

-- In a redacted payload every password key, at any depth, holds the mark.
pub redact_access_data-Clean :
    (redact_url : String → String) (v : Value) → Clean (redact_access_data redact_url v)
redact_access_data-Clean redact_url v = clean redact_url v
