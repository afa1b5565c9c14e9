-- ===== src/Registry/Examples.antt =====
-- Two apps on one broker, one of them by its import path.
use celery_cnc.Base.{ℕ, ◌≡◌, refl, String, none, some, [], ◌∷◌, string_eq, nat_eq, keep_if}
use celery_cnc.Base.Dict.{Dict, lookup, insert, values}
use celery_cnc.Base.Text.{split_first, split_last}
use celery_cnc.Registry.{
  CeleryApp, Importer, celery, split_path, instance_of, import_path, register_all, register,
  register_app, apply_beat_scheduler, resolve_name, load_app, get_brokers, raised, value_error,
}
use celery_cnc.Registry.Groups.{group_at, is_at, get_brokers-lookup}

abbrev app : ℕ → String → CeleryApp ℕ
app id name = record {
  id = id;
  main = some name;
  conf_main = none;
  broker_url = some "redis://";
  beat_scheduler = none;
  beat_db_refresh_seconds = none;
}

abbrev modules : Importer ℕ
modules m = some (λ attr. some (celery (app 1 "a")))

abbrev two : Dict String (CeleryApp ℕ)
two = ("a", app 1 "a") ∷ ("b", app 2 "b") ∷ []

abbrev print : ℕ → String
print n = "0"

at_colon : split_path "pkg.mod:app.x" ≡ some ("pkg.mod", "app.x")
unfolding split_path split_first split_last nat_eq
at_colon = refl

at_last_dot : split_path "pkg.mod.app" ≡ some ("pkg.mod", "app")
unfolding split_path split_first split_last nat_eq
at_last_dot = refl

name_twice :
    register_all modules print none (import_path "pkg:app" ∷ instance_of (app 2 "a") ∷ []) []
    ≡ raised value_error
unfolding register_all register register_app load_app split_path split_first split_last resolve_name
    apply_beat_scheduler lookup insert string_eq nat_eq
name_twice = refl

get_brokers-lookup_example :
    lookup "redis://" (get_brokers two)
    ≡ group_at "redis://" (keep_if (is_at "redis://") (values two))
get_brokers-lookup_example = get_brokers-lookup "redis://" two
