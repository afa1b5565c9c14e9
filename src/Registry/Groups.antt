-- ===== src/Registry/Groups.antt =====
-- The groups of the apps, and the paths and names that apps are found under.
use celery_cnc.Base.{
  ℕ, ◌≡◌, refl, ap, ◌∙◌, sym, subst, String, Bool, true, Option, none, some, List, [], ◌∷◌, ◌++◌,
  Distinct, inl, inr,
}
use celery_cnc.Base.{◌==◌, ==_cases, ==_iff, string_eq, nat_eq, if◌then◌else◌, Bool-cases, keep_if}
use celery_cnc.Base.Dict.{Dict, keys, values, lookup, insert, lookup-insert, insert-Distinct}
use celery_cnc.Registry.{
  CeleryApp, BrokerGroup, apps_of, text_of, group_all, get_brokers, Result, raised, returned,
  register_app, resolve_name, apply_beat_scheduler, is_taken, register_all, register, Worker,
  instance_of, import_path, load_app, Importer, value_error,
}

eq_true : (a b : String) → a ≡ b → (a == b) ≡ true
eq_true a b e = (==_iff a b).1 e

module _ {F : Type 0} where
  abbrev pub is_at : String → CeleryApp F → Bool
  is_at url app = url == text_of app.broker_url

  -- No group without an app.
  abbrev pub group_at : String → List (CeleryApp F) → Option (BrokerGroup F)
  group_at url [] = none
  group_at url (app ∷ rest) = some (record { broker_url = url; apps = app ∷ rest })

  group_at-grown :
      (url : String) (x : CeleryApp F) (done : List (CeleryApp F))
      → some (record { broker_url = url; apps = done ++ (x ∷ []) })
        ≡ group_at url (done ++ (x ∷ []))
  group_at-grown url x [] = refl
  group_at-grown url x (y ∷ done) = refl

  apps_of-group_at : (url : String) (done : List (CeleryApp F)) → apps_of (group_at url done) ≡ done
  apps_of-group_at url [] = refl
  apps_of-group_at url (y ∷ done) = refl

  append_one :
      (x : CeleryApp F) (done xs : List (CeleryApp F)) → (done ++ (x ∷ [])) ++ xs ≡ done ++ (x ∷ xs)
  append_one x [] xs = refl
  append_one x (y ∷ done) xs = ap (λ l. y ∷ l) (append_one x done xs)

  append_nil : (xs : List (CeleryApp F)) → xs ≡ xs ++ []
  append_nil [] = refl
  append_nil (x ∷ xs) = ap (λ l. x ∷ l) (append_nil xs)

  abbrev added : CeleryApp F → Dict String (BrokerGroup F) → Dict String (BrokerGroup F)
  added x brokers =
      insert (text_of x.broker_url)
        (record {
          broker_url = text_of x.broker_url;
          apps = apps_of (lookup (text_of x.broker_url) brokers) ++ (x ∷ []);
        })
        brokers

  lookup-added_here :
      (url : String) (x : CeleryApp F) (done : List (CeleryApp F))
      (brokers : Dict String (BrokerGroup F))
      → url ≡ text_of x.broker_url
      → lookup url brokers ≡ group_at url done
      → lookup url (added x brokers) ≡ group_at url (done ++ (x ∷ []))
  lookup-added_here url x done brokers e h =
      let u = text_of x.broker_url in
      lookup-insert url u (record { broker_url = u; apps = apps_of (lookup u brokers) ++ (x ∷ []) })
        brokers
      ∙ (rw (eq_true url u e) refl)
      ∙ subst
          (λ v.
            some (record { broker_url = v; apps = apps_of (lookup v brokers) ++ (x ∷ []) })
            ≡ group_at url (done ++ (x ∷ [])))
          e
          (ap (λ o. some (record { broker_url = url; apps = apps_of o ++ (x ∷ []) })) h
            ∙ ap (λ l. some (record { broker_url = url; apps = l ++ (x ∷ []) }))
                (apps_of-group_at url done)
            ∙ group_at-grown url x done)

  group_all-lookup :
      (url : String) (xs done : List (CeleryApp F)) (brokers : Dict String (BrokerGroup F))
      → lookup url brokers ≡ group_at url done
      → lookup url (group_all xs brokers) ≡ group_at url (done ++ keep_if (is_at url) xs)
  unfolding group_all keep_if
  group_all-lookup url [] done brokers h = h ∙ ap (group_at url) (append_nil done)
  group_all-lookup url (x ∷ xs) done brokers h = elim (==_cases url (text_of x.broker_url)) [
    | inl (e, t) ↦
        group_all-lookup url xs (done ++ (x ∷ [])) (added x brokers)
          (lookup-added_here url x done brokers e h)
        ∙ ap (group_at url) (
            append_one x done (keep_if (is_at url) xs)
            ∙ ap (λ b. done ++ (if b then x ∷ keep_if (is_at url) xs else keep_if (is_at url) xs))
                (sym t))
    | inr (n, t) ↦
        group_all-lookup url xs done (added x brokers) (
          lookup-insert url (text_of x.broker_url)
            (record {
              broker_url = text_of x.broker_url;
              apps = apps_of (lookup (text_of x.broker_url) brokers) ++ (x ∷ []);
            })
            brokers
          ∙ rw t h)
        ∙ ap
            (λ b.
              group_at url
                (done ++ (if b then x ∷ keep_if (is_at url) xs else keep_if (is_at url) xs)))
            (sym t)
  ]

  -- The group of a broker holds exactly the registered apps of that broker, in the order of their
  -- registration, and a broker without apps has no group.
  pub get_brokers-lookup :
      (url : String) (apps : Dict String (CeleryApp F))
      → lookup url (get_brokers apps) ≡ group_at url (keep_if (is_at url) (values apps))
  unfolding get_brokers lookup
  get_brokers-lookup url apps = group_all-lookup url (values apps) [] [] refl

  -- Every app stands under its own name.
  abbrev pub IsNamed : (ℕ → String) → Dict String (CeleryApp F) → Type 0
  IsNamed show [] = Unit
  IsNamed show ((name, app) ∷ rest) = (name ≡ resolve_name show app) × IsNamed show rest

  insert-IsNamed :
      (show : ℕ → String) (app : CeleryApp F) (apps : Dict String (CeleryApp F))
      → IsNamed show apps
      → IsNamed show (insert (resolve_name show app) app apps)
  unfolding insert
  insert-IsNamed show app [] h = (refl, tt)
  insert-IsNamed show app ((k, a) ∷ rest) (e, h) = elim (Bool-cases (resolve_name show app == k)) [
    | inl t ↦
        subst
          (λ b. IsNamed show (
            if b
            then (resolve_name show app, app) ∷ rest
            else (k, a) ∷ insert (resolve_name show app) app rest))
          (sym t) (refl, h)
    | inr t ↦
        subst
          (λ b. IsNamed show (
            if b
            then (resolve_name show app, app) ∷ rest
            else (k, a) ∷ insert (resolve_name show app) app rest))
          (sym t) (e, insert-IsNamed show app rest h)
  ]

  pub record IsRegistry (show : ℕ → String) (apps : Dict String (CeleryApp F)) : Type 0 where
    pub single : Distinct (keys apps)
    pub named : IsNamed show apps

  abbrev pub IsSound : (ℕ → String) → Result (Dict String (CeleryApp F)) → Type 0
  IsSound show (raised e) = Unit {0}
  IsSound show (returned apps) = IsRegistry show apps

  register_app-IsSound :
      (show : ℕ → String) (beat : Option (Option F)) (app : CeleryApp F)
      (apps : Dict String (CeleryApp F))
      → IsRegistry show apps
      → IsSound show (register_app show beat app apps)
  unfolding register_app
  register_app-IsSound show beat app apps h =
      let applied = apply_beat_scheduler beat app in
      let name = resolve_name show applied in
      let more = insert name applied apps in
      let sound : IsRegistry show more = record {
        single = insert-Distinct name applied apps h.single;
        named = insert-IsNamed show applied apps h.named;
      } in
      elim (Bool-cases (is_taken (lookup name apps) applied)) [
        | inl t ↦
            subst (λ b. IsSound show (if b then raised value_error else returned more)) (sym t) tt
        | inr t ↦
            subst (λ b. IsSound show (if b then raised value_error else returned more)) (sym t)
              sound
      ]

  register-IsSound :
      (importer : Importer F) (show : ℕ → String) (beat : Option (Option F)) (worker : Worker F)
      (apps : Dict String (CeleryApp F))
      → IsRegistry show apps
      → IsSound show (register importer show beat worker apps)
  unfolding register
  register-IsSound importer show beat (instance_of app) apps h =
      register_app-IsSound show beat app apps h
  register-IsSound importer show beat (import_path path) apps h =
      elim (load_app importer path)
        as (λ r.
          IsSound show
            (elim r [ raised e ↦ raised e | returned app ↦ register_app show beat app apps ])) [
              | raised e ↦ tt
              | returned app ↦ register_app-IsSound show beat app apps h
            ]

  abbrev then_rest :
      Importer F
      → (ℕ → String)
      → Option (Option F)
      → List (Worker F)
      → Result (Dict String (CeleryApp F))
      → Result (Dict String (CeleryApp F))
  then_rest importer show beat rest (raised e) = raised e
  then_rest importer show beat rest (returned more) = register_all importer show beat rest more

  register_all_keeps :
      (importer : Importer F) (show : ℕ → String) (beat : Option (Option F))
      (workers : List (Worker F)) (apps : Dict String (CeleryApp F))
      → IsRegistry show apps
      → IsSound show (register_all importer show beat workers apps)
  unfolding register_all
  register_all_keeps importer show beat [] apps h = h
  register_all_keeps importer show beat (worker ∷ rest) apps h =
      (elim (register importer show beat worker apps)
          as (λ r. IsSound show r → IsSound show (then_rest importer show beat rest r)) [
            | raised e ↦ λ _. tt
            | returned more ↦ λ sound. register_all_keeps importer show beat rest more sound
          ])
        (register-IsSound importer show beat worker apps h)

  -- A registry that is built without an error has every name once, and every app stands under its
  -- own name.
  pub register_all-IsSound :
      (importer : Importer F) (show : ℕ → String) (beat : Option (Option F))
      (workers : List (Worker F))
      → IsSound show (register_all importer show beat workers [])
  unfolding keys
  register_all-IsSound importer show beat workers =
      register_all_keeps importer show beat workers [] (record { single = tt; named = tt })
