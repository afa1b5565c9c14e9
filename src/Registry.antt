-- ===== src/Registry.antt =====
-- celery_root/core/registry.py: the apps that are registered under their names, and their grouping
-- by broker. An app is an object, so that its identity is a field; what an import yields is a
-- parameter.
pub mod Groups
pub mod Examples
use Prim.Native.String
use celery_cnc.Base.{
  ℕ, String, ◌<>◌, Bool, true, false, not, ◌&&◌, ◌||◌, Option, none, some, List, [], ◌∷◌, ◌++◌,
}
use celery_cnc.Base.{◌==◌, string_eq, nat_eq, if◌then◌else◌}
use celery_cnc.Base.Dict.{Dict, lookup, insert, values}
use celery_cnc.Base.Text.{split_first, split_last, includes}

-- What the registry reads and writes of a Celery app; `id` is its identity, `seconds` the interval of
-- the beat's refresh, once it is set.
pub record CeleryApp (F : Type 0) : Type 0 where
  pub id : ℕ
  pub main : Option String
  pub conf_main : Option String
  pub broker_url : Option String
  pub beat_scheduler : Option String
  pub beat_db_refresh_seconds : Option F

pub data Error : Type 0 where
  import_error : Error
  type_error : Error
  value_error : Error

pub data Result (A : Type 0) : Type 0 where
  raised : Error → Result A
  returned : A → Result A

-- `str(value) if value else ""`, and `str(value or "")`
abbrev pub text_of : Option String → String
text_of none = ""
text_of (some t) = t

-- `_split_path`: at the first colon, else at the last dot.
unfoldable pub split_path : String → Option (String × String)
unfolding split_first split_last
split_path path = elim (split_first b':' path) [
  | some parts ↦ some parts
  | none ↦ split_last b'.' path
]

-- What stands under a name of a module.
pub data Attribute (F : Type 0) : Type 0 where
  celery : CeleryApp F → Attribute F
  other : Attribute F

-- `none`: the module cannot be imported, or does not define the name.
abbrev pub Importer : Type 0 → Type 0
Importer F = String → Option (String → Option (Attribute F))

abbrev pub database_scheduler : String
database_scheduler = "celery_root.components.beat.db_scheduler:DatabaseScheduler"

-- A worker is given as an app or by its import path.
pub data Worker (F : Type 0) : Type 0 where
  instance_of : CeleryApp F → Worker F
  import_path : String → Worker F

pub record BrokerGroup (F : Type 0) : Type 0 where
  pub broker_url : String
  pub apps : List (CeleryApp F)

module _ {F : Type 0} where
  unfoldable pub load_app : Importer F → String → Result (CeleryApp F)
  unfolding split_path
  load_app import_module path = elim (split_path path) [
    | none ↦ raised import_error
    | some (module_path, attr) ↦ elim (import_module module_path) [
      | none ↦ raised import_error
      | some names ↦ elim (names attr) [
        | none ↦ raised import_error
        | some found ↦ elim found [ celery app ↦ returned app | other ↦ raised type_error ]
      ]
    ]
  ]

  -- `_resolve_name`; `show` prints the identity.
  unfoldable pub resolve_name : (ℕ → String) → CeleryApp F → String
  resolve_name show app =
      if not (text_of app.main == "")
      then text_of app.main
      else if not (text_of app.conf_main == "")
      then text_of app.conf_main
      else "celery_app_" <> show app.id

  -- `_apply_beat_scheduler`; the setting is `none` without a beat, and else its refresh interval.
  unfoldable pub apply_beat_scheduler : Option (Option F) → CeleryApp F → CeleryApp F
  unfolding includes
  apply_beat_scheduler none app = app
  apply_beat_scheduler (some refresh) app =
      if includes "django_celery_beat" (text_of app.beat_scheduler) then app else record app {
        beat_scheduler = some database_scheduler;
        beat_db_refresh_seconds = elim refresh [
          | none ↦ app.beat_db_refresh_seconds
          | some seconds ↦ some seconds
        ];
      }

  -- Whether another app stands under the name.
  abbrev pub is_taken : Option (CeleryApp F) → CeleryApp F → Bool
  is_taken none app = false
  is_taken (some existing) app = not (existing.id == app.id)

  unfoldable pub register_app :
      (ℕ → String)
      → Option (Option F)
      → CeleryApp F
      → Dict String (CeleryApp F)
      → Result (Dict String (CeleryApp F))
  unfolding apply_beat_scheduler resolve_name lookup insert
  register_app show beat app apps =
      let applied = apply_beat_scheduler beat app in
      let name = resolve_name show applied in
      if is_taken (lookup name apps) applied
      then raised value_error
      else returned (insert name applied apps)

  unfoldable pub register :
      Importer F
      → (ℕ → String)
      → Option (Option F)
      → Worker F
      → Dict String (CeleryApp F)
      → Result (Dict String (CeleryApp F))
  unfolding load_app register_app
  register import_module show beat (instance_of app) apps = register_app show beat app apps
  register import_module show beat (import_path path) apps = elim (load_app import_module path) [
    | raised e ↦ raised e
    | returned app ↦ register_app show beat app apps
  ]

  -- The loop of the constructor; an error ends it.
  unfoldable pub register_all :
      Importer F
      → (ℕ → String)
      → Option (Option F)
      → List (Worker F)
      → Dict String (CeleryApp F)
      → Result (Dict String (CeleryApp F))
  unfolding register
  register_all import_module show beat [] apps = returned apps
  register_all import_module show beat (worker ∷ rest) apps =
      elim (register import_module show beat worker apps) [
        | raised e ↦ raised e
        | returned more ↦ register_all import_module show beat rest more
      ]

  abbrev pub apps_of : Option (BrokerGroup F) → List (CeleryApp F)
  apps_of none = []
  apps_of (some group) = group.apps

  -- The loop of `get_brokers`: an app is appended to the group of its broker, which may be new.
  unfoldable pub group_all :
      List (CeleryApp F) → Dict String (BrokerGroup F) → Dict String (BrokerGroup F)
  unfolding lookup insert
  group_all [] brokers = brokers
  group_all (app ∷ rest) brokers =
      let url = text_of app.broker_url in
      group_all rest (
        insert url (record { broker_url = url; apps = apps_of (lookup url brokers) ++ (app ∷ []) })
          brokers)

  unfoldable pub get_brokers : Dict String (CeleryApp F) → Dict String (BrokerGroup F)
  unfolding group_all values
  get_brokers apps = group_all (values apps) []
