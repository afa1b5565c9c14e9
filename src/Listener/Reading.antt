-- ===== src/Listener/Reading.antt =====
-- What the readers of a raw event find.
use celery_cnc.Base.{◌≡◌, refl, ◌↔◌, true, List, [], ◌∷◌, String, All, Bool-cases, inl, inr}
use celery_cnc.Value.{Fields, get, is_null}
use celery_cnc.Listener.Parse.{event_field}

abbrev pub IsMissing : Fields → String → Type 0
IsMissing event key = is_null (get key event) ≡ true

-- The field of an event is missing exactly if it is missing under each of its names.
pub event_field-IsMissing :
    (keys : List String) (event : Fields)
    → (is_null (event_field keys event) ≡ true) ↔ All (IsMissing event) keys
unfolding event_field
event_field-IsMissing [] event = (λ h. tt, λ h. refl)
event_field-IsMissing (key ∷ keys) event =
    let (missing, found) = event_field-IsMissing keys event in
    elim (Bool-cases (is_null (get key event))) [
      | inl t ↦ rw t (λ h. (refl, missing h), λ (_, h). found h)
      | inr t ↦ rw t (λ h. cc, λ (h, _). cc)
    ]
