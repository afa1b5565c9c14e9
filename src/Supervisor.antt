-- ===== src/Supervisor.antt =====
-- celery_root/core/process_manager.py, the class ProcessManager: the factories of all processes by
-- name, the order in which they start, and the restart of those that stopped.
pub mod Names
pub mod Restart
pub mod Examples
use celery_cnc.Base.{
  ℕ, suc, ◌+◌, ◌-◌, ◌≤◌, String, ◌<>◌, Bool, true, false, not, ◌&&◌, ◌||◌, Option, none, some, List,
  [], ◌∷◌, ◌++◌,
}
use celery_cnc.Base.{◌==◌, string_eq, if◌then◌else◌, ltb}
use celery_cnc.Base.Dict.{Dict, lookup, insert}

-- What a factory makes.
pub data Role : Type 0 where
  db_manager : Role
  -- The two exporters.
  prometheus : Role
  otel : Role
  -- The listener of a broker, with the number of metrics queues that it fills.
  event_listener : String → ℕ → Role
  reconciler : Role
  beat : String → Role
  web : Role
  mcp : Role

pub record Config : Type 0 where
  pub prometheus : Bool
  pub open_telemetry : Bool
  pub beat : Bool
  pub worker_import_paths : List String
  pub frontend : Bool
  pub mcp : Bool

abbrev pub or_text : String → String → String
or_text a b = if a == "" then b else a

-- `require_optional_scope`: an exception, where a package is missing, ends the build.
unfoldable pub put_scoped :
    (String → Bool)
    → Bool
    → String
    → String
    → Role
    → Option (Dict String Role)
    → Option (Dict String Role)
unfolding insert
put_scoped installed wanted scope name role none = none
put_scoped installed wanted scope name role (some factories) =
    if not wanted
    then some factories
    else if installed scope
    then some (insert name role factories)
    else none

abbrev pub one_if : Bool → ℕ
one_if b = if b then 1 else 0

abbrev pub metrics_queues : Config → ℕ
metrics_queues config = one_if config.prometheus + one_if config.open_telemetry

-- `show` is the decimal print of a number, `redact_url` the redaction of a broker's URL, and `strip`
-- stands for `str.strip`.
module _ (show : ℕ → String) (redact_url strip : String → String) where
  abbrev pub display_url : String → String
  display_url broker_url = or_text (or_text (redact_url broker_url) broker_url) "default"

  abbrev pub count_before : Option ℕ → ℕ
  count_before none = 0
  count_before (some n) = n

  abbrev pub listener_name : String → ℕ → String
  listener_name url count =
      "event_listener:" <> (url <> (if ltb 1 count then "#" <> show count else ""))

  -- The loop over the brokers; a second broker that shows the same gets a number.
  unfoldable pub put_listeners :
      ℕ → List String → Dict String ℕ → Dict String Role → Dict String Role
  unfolding lookup insert
  put_listeners queues [] listener_counts factories = factories
  put_listeners queues (broker_url ∷ rest) listener_counts factories =
      let url = display_url broker_url in
      let count = suc (count_before (lookup url listener_counts)) in
      put_listeners queues rest (insert url count listener_counts)
        (insert (listener_name url count) (event_listener broker_url queues) factories)

  unfoldable pub put_beats : List String → Dict String Role → Dict String Role
  unfolding insert
  put_beats [] factories = factories
  put_beats (path ∷ rest) factories =
      let cleaned = strip path in
      put_beats rest
        (if cleaned == "" then factories else insert ("beat:" <> cleaned) (beat cleaned) factories)

  abbrev pub put_core : Config → List String → Option (Dict String Role) → Option (Dict String Role)
  put_core config brokers none = none
  put_core config brokers (some factories) =
      let with_listeners = put_listeners (metrics_queues config) brokers [] factories in
      let with_reconciler = insert "reconciler" reconciler with_listeners in
      some (
        if config.beat
        then put_beats config.worker_import_paths with_reconciler
        else with_reconciler)

  -- `_build_processes`; `brokers` are the keys of `registry.get_brokers()`.
  unfoldable pub build_processes :
      (String → Bool) → Config → List String → Option (Dict String Role)
  unfolding put_scoped put_listeners put_beats insert
  build_processes installed config brokers =
      let exporters = put_scoped installed config.open_telemetry "otel" "otel" otel (
        put_scoped installed config.prometheus "prometheus" "prometheus" prometheus
          (some (("db_manager", db_manager) ∷ []))) in
      put_scoped installed config.mcp "mcp" "mcp" mcp
        (put_scoped installed config.frontend "web" "web" web (put_core config brokers exporters))

-- A process: what made it, how often its place was filled again, and whether it is alive.
pub record Process : Type 0 where
  pub role : Role
  pub restarts : ℕ
  pub alive : Bool

abbrev pub started : Role → Process
started role = record { role = role; restarts = 0; alive = true }

pub record ProcessManager : Type 0 where
  pub process_factories : Dict String Role
  pub processes : Dict String Process
  pub stopping : Bool

-- The loop of `start` over the factories, the database manager left out.
unfoldable pub start_all : List (String × Role) → Dict String Process → Dict String Process
unfolding insert
start_all [] processes = processes
start_all ((name, role) ∷ rest) processes =
    start_all rest
      (if name == "db_manager" then processes else insert name (started role) processes)

-- `start`, after the factories are built. The wait for the socket returns in every case.
unfoldable pub start : ProcessManager → ProcessManager
unfolding lookup insert start_all
start m = record m {
  processes = start_all m.process_factories (elim (lookup "db_manager" m.process_factories) [
    | none ↦ m.processes
    | some role ↦ insert "db_manager" (started role) m.processes
  ]);
}

-- The body of the loop of `_monitor`, for the process of a name.
unfoldable pub check_process : Dict String Role → Bool → String → Process → Process
unfolding lookup
check_process factories stopping name process =
    if process.alive then process else if stopping then process else elim (lookup name factories) [
      | none ↦ process
      | some role ↦ record { role = role; restarts = suc process.restarts; alive = true }
    ]

unfoldable pub check_all : Dict String Role → Bool → Dict String Process → Dict String Process
unfolding check_process
check_all factories stopping [] = []
check_all factories stopping ((name, process) ∷ rest) =
    (name, check_process factories stopping name process) ∷ check_all factories stopping rest

-- `_monitor`: a write to a name that is there keeps its place.
unfoldable pub monitor : ProcessManager → ProcessManager
unfolding check_all
monitor m = record m { processes = check_all m.process_factories m.stopping m.processes }
