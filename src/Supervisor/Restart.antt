-- ===== src/Supervisor/Restart.antt =====
-- What runs after the start, whatever dies in between: a process for every factory.
use celery_cnc.Base.{
  ℕ, ◌≡◌, refl, ap, ◌∙◌, sym, subst, String, Bool, true, false, Option, none, some, List, [], ◌∷◌,
  arith, inl, inr, Distinct,
}
use celery_cnc.Base.{◌==◌, ==_cases, string_eq, if◌then◌else◌}
use celery_cnc.Base.Dict.{Dict, keys, lookup, insert, lookup-insert, lookup_absent}
use mathlib.Core.Option.{none-ne-some, some-injective}
use celery_cnc.Supervisor.{
  Role, Process, ProcessManager, started, start_all, start, check_process, check_all, monitor,
}

abbrev pub role_of : Option Process → Option Role
role_of none = none
role_of (some p) = some p.role

-- A process dies.
unfoldable pub kill : String → Dict String Process → Dict String Process
kill name [] = []
kill name ((k, p) ∷ rest) =
    let others = kill name rest in
    if name == k then (k, record p { alive = false }) ∷ rest else (k, p) ∷ others

pub data Event : Type 0 where
  dies : String → Event
  monitors : Event

unfoldable pub happen : Event → ProcessManager → ProcessManager
unfolding kill monitor
happen (dies name) m = record m { processes = kill name m.processes }
happen monitors m = monitor m

unfoldable pub run : List Event → ProcessManager → ProcessManager
unfolding happen
run [] m = m
run (e ∷ rest) m = run rest (happen e m)

-- Every factory has its process, and every process its factory.
abbrev pub IsCovered : ProcessManager → Type 0
IsCovered m = (name : String) → role_of (lookup name m.processes) ≡ lookup name m.process_factories

role-kill :
    (name k : String) (ps : Dict String Process)
    → role_of (lookup name (kill k ps)) ≡ role_of (lookup name ps)
unfolding kill lookup
role-kill name k [] = refl
role-kill name k ((j, p) ∷ rest) = ground (arith, role-kill name k rest)

checked : Dict String Role → Bool → String → Option Process → Option Process
checked fs stopping name none = none
checked fs stopping name (some p) = some (check_process fs stopping name p)

lookup-check_all :
    (fs : Dict String Role) (stopping : Bool) (name : String) (ps : Dict String Process)
    → lookup name (check_all fs stopping ps) ≡ checked fs stopping name (lookup name ps)
unfolding check_all lookup checked
lookup-check_all fs stopping name [] = refl
lookup-check_all fs stopping name ((k, p) ∷ rest) = elim (==_cases name k) [
  | inl (e, t) ↦ rw t (ap (λ n. some (check_process fs stopping n p)) (sym e))
  | inr (_, t) ↦ rw t (lookup-check_all fs stopping name rest)
]

-- A check keeps the role where the factory makes the same.
role-checked :
    (fs : Dict String Role) (stopping : Bool) (name : String) (o : Option Process)
    → role_of o ≡ lookup name fs
    → role_of (checked fs stopping name o) ≡ lookup name fs
unfolding checked check_process
role-checked fs stopping name none h = h
role-checked fs stopping name (some p) h = ground arith

abbrev first_role : Bool → Option Role → Option Role → Option Role
first_role true made there = there
first_role false none there = there
first_role false (some role) there = some role

first_role-none : (b : Bool) (there : Option Role) → first_role b none there ≡ there
first_role-none true there = refl
first_role-none false there = refl

role-start_all :
    (fs : List (String × Role)) (ps : Dict String Process) (name : String)
    → Distinct (keys fs)
    → role_of (lookup name (start_all fs ps))
      ≡ first_role (name == "db_manager") (lookup name fs) (role_of (lookup name ps))
unfolding start_all lookup keys
role-start_all [] ps name h =
    sym (first_role-none (name == "db_manager") (role_of (lookup name ps)))
role-start_all ((k, r) ∷ rest) ps name (fresh, h) =
    role-start_all rest (if k == "db_manager" then ps else insert k (started r) ps) name h
    ∙ ground (arith, lookup-insert name k (started r) ps, lookup_absent k rest fresh)

-- The factories as they are built: the database manager among them, every name once.
abbrev pub IsFresh : ProcessManager → Type 0
IsFresh m = (m.processes ≡ []) × (m.stopping ≡ false) × Distinct (keys m.process_factories)

first_only :
    (o x : Option Role) (name : String)
    → (name ≡ "db_manager" → o ≡ x)
    → first_role (name == "db_manager") x (
        role_of
          (lookup name (elim o [ none ↦ [] | some role ↦ insert "db_manager" (started role) [] ])))
      ≡ x
unfolding lookup insert
first_only none none name h = ground arith
first_only none (some r) name h = elim (==_cases name "db_manager") [
  | inl (p, t) ↦ rw t (h p)
  | inr (_, t) ↦ rw t refl
]
first_only (some r) none name h = elim (==_cases name "db_manager") [
  | inl (p, t) ↦ rw t (h p)
  | inr (_, t) ↦ rw t refl
]
first_only (some r) (some q) name h = elim (==_cases name "db_manager") [
  | inl (p, t) ↦ rw t (h p)
  | inr (_, t) ↦ rw t refl
]

started_first :
    (m : ProcessManager)
    → m.processes ≡ []
    → (name : String)
    → first_role (name == "db_manager") (lookup name m.process_factories) (
        role_of (
          lookup name (elim (lookup "db_manager" m.process_factories) [
            | none ↦ m.processes
            | some role ↦ insert "db_manager" (started role) m.processes
          ])))
      ≡ lookup name m.process_factories
unfolding lookup insert
started_first m e name =
    subst
      (λ ps.
        first_role (name == "db_manager") (lookup name m.process_factories) (
          role_of (
            lookup name (elim (lookup "db_manager" m.process_factories) [
              | none ↦ ps
              | some role ↦ insert "db_manager" (started role) ps
            ])))
        ≡ lookup name m.process_factories)
      (sym e)
      (first_only (lookup "db_manager" m.process_factories) (lookup name m.process_factories) name
        (λ p. ap (λ n. lookup n m.process_factories) (sym p)))

start-IsCovered : (m : ProcessManager) → IsFresh m → IsCovered (start m)
unfolding start
start-IsCovered m (e, s, h) name =
    role-start_all m.process_factories
      (elim (lookup "db_manager" m.process_factories) [
        | none ↦ m.processes
        | some role ↦ insert "db_manager" (started role) m.processes
      ])
      name h
    ∙ started_first m e name

happen-IsCovered : (e : Event) (m : ProcessManager) → IsCovered m → IsCovered (happen e m)
unfolding happen monitor
happen-IsCovered (dies k) m h name = role-kill name k m.processes ∙ h name
happen-IsCovered monitors m h name =
    ap role_of (lookup-check_all m.process_factories m.stopping name m.processes)
    ∙ role-checked m.process_factories m.stopping name (lookup name m.processes) (h name)

run-IsCovered : (events : List Event) (m : ProcessManager) → IsCovered m → IsCovered (run events m)
unfolding run
run-IsCovered [] m h = h
run-IsCovered (e ∷ rest) m h = run-IsCovered rest (happen e m) (happen-IsCovered e m h)

run_keeps_stopping :
    (events : List Event) (m : ProcessManager) → (run events m).stopping ≡ m.stopping
unfolding run happen monitor
run_keeps_stopping [] m = refl
run_keeps_stopping (dies k ∷ rest) m = run_keeps_stopping rest (happen (dies k) m)
run_keeps_stopping (monitors ∷ rest) m = run_keeps_stopping rest (happen monitors m)

run_keeps_factories :
    (events : List Event) (m : ProcessManager)
    → (run events m).process_factories ≡ m.process_factories
unfolding run happen monitor
run_keeps_factories [] m = refl
run_keeps_factories (dies k ∷ rest) m = run_keeps_factories rest (happen (dies k) m)
run_keeps_factories (monitors ∷ rest) m = run_keeps_factories rest (happen monitors m)

start_keeps_stopping : (m : ProcessManager) → (start m).stopping ≡ m.stopping
unfolding start
start_keeps_stopping m = refl

start_keeps_factories : (m : ProcessManager) → (start m).process_factories ≡ m.process_factories
unfolding start
start_keeps_factories m = refl

abbrev pub IsRunning : Option Process → Role → Type 0
IsRunning none role = ⊥
IsRunning (some p) role = (p.role ≡ role) × (p.alive ≡ true)

check_process-IsRunning :
    (fs : Dict String Role) (name : String) (role q : Role) (n : ℕ) (alive : Bool)
    → q ≡ role
    → lookup name fs ≡ some role
    → IsRunning
        (some (check_process fs false name (record { role = q; restarts = n; alive = alive })))
        role
unfolding check_process
check_process-IsRunning fs name role q n true e f = (e, refl)
check_process-IsRunning fs name role q n false e f = rw f (refl, refl)

checked-IsRunning :
    (fs : Dict String Role) (name : String) (role : Role) (o : Option Process)
    → role_of o ≡ lookup name fs
    → lookup name fs ≡ some role
    → IsRunning (checked fs false name o) role
unfolding checked check_process
checked-IsRunning fs name role none h f = none-ne-some role (h ∙ f)
checked-IsRunning fs name role (some p) h f =
    check_process-IsRunning fs name role p.role p.restarts p.alive
      (some-injective p.role role (h ∙ f)) f

-- While the manager is not stopping, whatever processes died since the start and however often it
-- looked, after one more look a process runs for every factory, and is one that the factory makes.
pub monitor-run :
    (m : ProcessManager) (events : List Event) (name : String) (role : Role)
    → IsFresh m
    → lookup name m.process_factories ≡ some role
    → IsRunning (lookup name (monitor (run events (start m))).processes) role
unfolding monitor
monitor-run m events name role fresh f =
    let after = run events (start m) in
    let h = run-IsCovered events (start m) (start-IsCovered m fresh) in
    subst (λ o. IsRunning o role)
      (sym (lookup-check_all after.process_factories after.stopping name after.processes))
      (subst
        (λ b. IsRunning (checked after.process_factories b name (lookup name after.processes)) role)
        (sym (run_keeps_stopping events (start m) ∙ start_keeps_stopping m ∙ fresh.1))
        (checked-IsRunning after.process_factories name role (lookup name after.processes) (h name)
          (ap (lookup name) (run_keeps_factories events (start m) ∙ start_keeps_factories m) ∙ f)))
