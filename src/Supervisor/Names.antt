-- ===== src/Supervisor/Names.antt =====
-- The names that the factories are built under.
use celery_cnc.Base.{
  ℕ, suc, ◌≡◌, refl, String, ◌<>◌, Bool, true, false, Option, none, some, List, [], ◌∷◌, contains,
  Distinct, inl, inr, arith,
}
use celery_cnc.Base.{◌==◌, string_eq, if◌then◌else◌, Bool-cases}
use celery_cnc.Base.Dict.{Dict, keys, lookup, insert, insert-Distinct, contains-keys-insert}
use celery_cnc.Supervisor.{
  Role, db_manager, reconciler, event_listener, beat, prometheus, otel, web, mcp, Config,
  put_scoped, put_core, put_listeners, put_beats, build_processes, count_before, listener_name,
  display_url, metrics_queues,
}

-- Every name once; the database manager and the reconciler are there.
pub record IsComplete (factories : Dict String Role) : Type 0 where
  pub single : Distinct (keys factories)
  pub with_manager : contains (keys factories) "db_manager" ≡ true

abbrev pub AllComplete : Option (Dict String Role) → Type 0
AllComplete none = Unit {0}
AllComplete (some factories) = IsComplete factories

insert-IsComplete :
    (name : String) (role : Role) (fs : Dict String Role)
    → IsComplete fs
    → IsComplete (insert name role fs)
insert-IsComplete name role fs h = record {
  single = insert-Distinct name role fs h.single;
  with_manager = ground (arith, contains-keys-insert "db_manager" name role fs, h.with_manager);
}

if-IsComplete :
    (b : Bool) (fs gs : Dict String Role)
    → IsComplete fs
    → IsComplete gs
    → IsComplete (if b then fs else gs)
if-IsComplete true fs gs f g = f
if-IsComplete false fs gs f g = g

put_scoped-AllComplete :
    (installed : String → Bool) (wanted : Bool) (scope name : String) (role : Role)
    (o : Option (Dict String Role))
    → AllComplete o
    → AllComplete (put_scoped installed wanted scope name role o)
unfolding put_scoped
put_scoped-AllComplete installed wanted scope name role none h = tt
put_scoped-AllComplete installed false scope name role (some fs) h = h
put_scoped-AllComplete installed true scope name role (some fs) h =
    elim (Bool-cases (installed scope)) [
      | inl t ↦ rw t (insert-IsComplete name role fs h)
      | inr t ↦ rw t tt
    ]

module _ (show : ℕ → String) (redact_url strip : String → String) where
  put_listeners-IsComplete :
      (queues : ℕ) (urls : List String) (counts : Dict String ℕ) (fs : Dict String Role)
      → IsComplete fs
      → IsComplete (put_listeners show redact_url strip queues urls counts fs)
  unfolding put_listeners
  put_listeners-IsComplete queues [] counts fs h = h
  put_listeners-IsComplete queues (url ∷ rest) counts fs h =
      let shown = display_url show redact_url strip url in
      let count = suc (count_before show redact_url strip (lookup shown counts)) in
      let name = listener_name show redact_url strip shown count in
      put_listeners-IsComplete queues rest (insert shown count counts)
        (insert name (event_listener url queues) fs)
        (insert-IsComplete name (event_listener url queues) fs h)

  put_beats-IsComplete :
      (paths : List String) (fs : Dict String Role)
      → IsComplete fs
      → IsComplete (put_beats show redact_url strip paths fs)
  unfolding put_beats
  put_beats-IsComplete [] fs h = h
  put_beats-IsComplete (path ∷ rest) fs h =
      let made = insert ("beat:" <> strip path) (beat (strip path)) fs in
      put_beats-IsComplete rest (if strip path == "" then fs else made) (
        if-IsComplete (strip path == "") fs made h
          (insert-IsComplete ("beat:" <> strip path) (beat (strip path)) fs h))

  put_core-AllComplete :
      (config : Config) (brokers : List String) (o : Option (Dict String Role))
      → AllComplete o
      → AllComplete (put_core show redact_url strip config brokers o)
  put_core-AllComplete config brokers none h = tt
  put_core-AllComplete config brokers (some fs) h =
      let listeners = put_listeners show redact_url strip (metrics_queues config) brokers [] fs in
      let core = insert "reconciler" reconciler listeners in
      let complete =
        insert-IsComplete "reconciler" reconciler listeners
          (put_listeners-IsComplete (metrics_queues config) brokers [] fs h) in
      if-IsComplete config.beat (put_beats show redact_url strip config.worker_import_paths core)
        core (put_beats-IsComplete config.worker_import_paths core complete) complete

  manager-AllComplete : AllComplete (some (("db_manager", db_manager) ∷ []))
  unfolding keys string_eq
  manager-AllComplete = record { single = (refl, tt); with_manager = refl }

  -- Whatever is configured, the factories that are built stand under distinct names, and the
  -- database manager is among them, unless a package is missing and nothing is built.
  pub build_processes-AllComplete :
      (installed : String → Bool) (config : Config) (brokers : List String)
      → AllComplete (build_processes show redact_url strip installed config brokers)
  unfolding build_processes
  build_processes-AllComplete installed config brokers =
      let none_yet = some (("db_manager", db_manager) ∷ []) in
      let one =
        put_scoped installed config.prometheus "prometheus" "prometheus" prometheus none_yet in
      let two = put_scoped installed config.open_telemetry "otel" "otel" otel one in
      let core = put_core show redact_url strip config brokers two in
      let with_web = put_scoped installed config.frontend "web" "web" web core in
      put_scoped-AllComplete installed config.mcp "mcp" "mcp" mcp with_web (
        put_scoped-AllComplete installed config.frontend "web" "web" web core (
          put_core-AllComplete config brokers two (
            put_scoped-AllComplete installed config.open_telemetry "otel" "otel" otel one (
              put_scoped-AllComplete installed config.prometheus "prometheus" "prometheus"
                prometheus none_yet manager-AllComplete))))
