-- ===== src/Beat/Writeback.antt =====
-- What a write-back stores.
use celery_cnc.Base.{
  ◌≡◌, ◌≢◌, refl, sym, ap, ◌∙◌, subst, String, Bool, true, false, ◌||◌, not, Option, none, some,
  List, [], ◌∷◌, ◌==◌, ==_refl, string_eq, nat_eq, option_eq, if◌then◌else◌, contains, Distinct,
  arith, Bool-cases, Option-cases, ==_cases, inl, inr,
}
use celery_cnc.Base.Dict.{Dict, lookup, insert, keys, lookup-insert}
use celery_cnc.Schemas.{Schedule}
use celery_cnc.Beat.{
  Readers, Database, Entry, RunState, run_state, DatabaseScheduler, is_same, is_dirty, current_of,
  put_state, collect_dirty, store_each, writeback_run_state,
}

own : {A : Type 0} (id : String) (a b : A) → (if id == id then a else b) ≡ a
own id a b = ap (λ t. if t then a else b) (==_refl id)

or_false : (a b : Bool) → (a || b) ≡ false → (a ≡ false) × (b ≡ false)
or_false a b h = ground arith

module _ (P : Readers) where
  -- What is to be stored of the cached schedules: none of those without an entry and of those whose
  -- entry still has the instant and the count that were last seen of it, and each other one with its
  -- entry's instant and count.
  pub data Changed (entries : Dict String (Entry P)) (states : Dict String (RunState P))
      : Dict String Schedule → List Schedule → Type 0 where
    no_more : Changed entries states [] []
    no_entry :
        {id : String} {schedule : Schedule} {rest : Dict String Schedule} {found : List Schedule}
        → lookup id entries ≡ none
        → Changed entries states rest found
        → Changed entries states ((id, schedule) ∷ rest) found
    seen :
        {id : String} {schedule : Schedule} {rest : Dict String Schedule} {found : List Schedule}
        (entry : Entry P)
        → lookup id entries ≡ some entry
        → lookup id states ≡ some (entry.last_run_at, entry.total_run_count)
        → Changed entries states rest found
        → Changed entries states ((id, schedule) ∷ rest) found
    ran :
        {id : String} {schedule : Schedule} {rest : Dict String Schedule} {found : List Schedule}
        (entry : Entry P)
        → lookup id entries ≡ some entry
        → lookup id states ≢ some (entry.last_run_at, entry.total_run_count)
        → Changed entries states rest found
        → Changed entries states ((id, schedule) ∷ rest) (
            record {
              schedule_id = schedule.schedule_id;
              name = schedule.name;
              task = schedule.task;
              schedule = schedule.schedule;
              args = schedule.args;
              kwargs = schedule.kwargs;
              enabled = schedule.enabled;
              last_run_at = entry.last_run_at;
              total_run_count = some entry.total_run_count;
              app = schedule.app;
            }
            ∷ found)

  -- The list of them.
  changed_schedules :
      Dict String (Entry P) → Dict String Schedule → Dict String (RunState P) → List Schedule
  unfolding lookup
  changed_schedules entries [] states = []
  changed_schedules entries ((id, schedule) ∷ rest) states =
      let found = changed_schedules entries rest states in
      if is_dirty P (lookup id entries) (lookup id states)
      then current_of P (lookup id entries) schedule ∷ found
      else found

  is_same_refl : (x : RunState P) → is_same P (some x) x ≡ true
  is_same_refl (at, n) = ground (arith, ==_refl at, ==_refl n)

  -- States that agree on the ids that are left find the same schedules changed.
  changed_schedules-agree :
      (entries : Dict String (Entry P)) (cache : Dict String Schedule) (k : String) (v : RunState P)
      → (states : Dict String (RunState P)) → contains (keys cache) k ≡ false
      → changed_schedules entries cache (insert k v states) ≡ changed_schedules entries cache states
  unfolding changed_schedules keys
  changed_schedules-agree entries [] k v states h = refl
  changed_schedules-agree entries ((id, s) ∷ rest) k v states h =
      ground (arith, changed_schedules-agree entries rest k v states, lookup-insert id k v states)

  abbrev next_states :
      String → Option (Entry P) → Dict String (RunState P) → Dict String (RunState P)
  unfolding lookup put_state
  next_states id entry states =
      if is_dirty P entry (lookup id states) then put_state P id entry states else states

  put_state-agree :
      (entries : Dict String (Entry P)) (cache : Dict String Schedule) (id : String)
      → (entry : Option (Entry P)) (states : Dict String (RunState P)) (b : Bool)
      → contains (keys cache) id ≡ false
      → changed_schedules entries cache (if b then put_state P id entry states else states)
        ≡ changed_schedules entries cache states
  unfolding put_state
  put_state-agree entries cache id none states true h = refl
  put_state-agree entries cache id (some entry) states true h =
      changed_schedules-agree entries cache id (run_state P entry) states h
  put_state-agree entries cache id entry states false h = refl

  collect_dirty-changed :
      (entries : Dict String (Entry P)) (cache : Dict String Schedule)
      (states : Dict String (RunState P))
      → Distinct (keys cache)
      → (collect_dirty P entries cache states).dirty ≡ changed_schedules entries cache states
  unfolding collect_dirty changed_schedules keys
  collect_dirty-changed entries [] states h = refl
  collect_dirty-changed entries ((id, s) ∷ rest) states (fresh, h) =
      let b : Bool = is_dirty P (lookup id entries) (lookup id states) in
      let later : Dict String (RunState P) =
        if b then put_state P id (lookup id entries) states else states in
      ap (λ d. if b then current_of P (lookup id entries) s ∷ d else d)
        (collect_dirty-changed entries rest later h
          ∙ put_state-agree entries rest id (lookup id entries) states b fresh)

  -- The cached states after a pass: those of the entries, where an entry is cached.
  is_clean-put_state :
      (id : String) (entry : Option (Entry P)) (states : Dict String (RunState P))
      → is_dirty P entry (
          lookup id
            (if is_dirty P entry (lookup id states) then put_state P id entry states else states))
        ≡ false
  unfolding put_state
  is_clean-put_state id none states = refl
  is_clean-put_state id (some entry) states =
      elim (Bool-cases (is_same P (lookup id states) (run_state P entry))) [
        | inl e ↦ rw e (ap not e)
        | inr e ↦ rw e (
            ap (λ m. not (is_same P m (run_state P entry)))
              (lookup-insert id id (run_state P entry) states
                ∙ own id (some (run_state P entry)) (lookup id states))
            ∙ ap not (is_same_refl (run_state P entry)))
      ]

  put_state-lookup :
      (j id : String) (entry : Option (Entry P)) (states : Dict String (RunState P)) (b : Bool)
      → (j == id) ≡ false
      → lookup j (if b then put_state P id entry states else states) ≡ lookup j states
  unfolding put_state
  put_state-lookup j id none states true h = refl
  put_state-lookup j id (some entry) states true h =
      lookup-insert j id (run_state P entry) states
      ∙ ap (λ b. if b then some (run_state P entry) else lookup j states) h
  put_state-lookup j id entry states false h = refl

  collect_dirty-lookup :
      (entries : Dict String (Entry P)) (cache : Dict String Schedule)
      (states : Dict String (RunState P))
      → (j : String) → contains (keys cache) j ≡ false
      → lookup j (collect_dirty P entries cache states).run_states ≡ lookup j states
  unfolding collect_dirty keys
  collect_dirty-lookup entries [] states j h = refl
  collect_dirty-lookup entries ((id, s) ∷ rest) states j h =
      let b : Bool = is_dirty P (lookup id entries) (lookup id states) in
      let (other, absent) = or_false (j == id) (contains (keys rest) j) h in
      collect_dirty-lookup entries rest
        (if b then put_state P id (lookup id entries) states else states) j absent
      ∙ put_state-lookup j id (lookup id entries) states b other

  collect_dirty-settled :
      (entries : Dict String (Entry P)) (cache : Dict String Schedule)
      (states : Dict String (RunState P))
      → Distinct (keys cache)
      → changed_schedules entries
          (collect_dirty P entries cache states).cache
          (collect_dirty P entries cache states).run_states
        ≡ []
  unfolding collect_dirty changed_schedules keys
  collect_dirty-settled entries [] states h = refl
  collect_dirty-settled entries ((id, s) ∷ rest) states (fresh, h) =
      let b : Bool = is_dirty P (lookup id entries) (lookup id states) in
      let later : Dict String (RunState P) =
        if b then put_state P id (lookup id entries) states else states in
      let s' : Schedule = if b then current_of P (lookup id entries) s else s in
      let found =
        changed_schedules entries (collect_dirty P entries rest later).cache
          (collect_dirty P entries rest later).run_states in
      ap (λ c. if c then current_of P (lookup id entries) s' ∷ found else found)
        (ap (is_dirty P (lookup id entries)) (collect_dirty-lookup entries rest later id fresh)
          ∙ is_clean-put_state id (lookup id entries) states)
      ∙ collect_dirty-settled entries rest later h

  collect_dirty-keys :
      (entries : Dict String (Entry P)) (cache : Dict String Schedule)
      (states : Dict String (RunState P))
      → keys (collect_dirty P entries cache states).cache ≡ keys cache
  unfolding collect_dirty keys
  collect_dirty-keys entries [] states = refl
  collect_dirty-keys entries ((id, s) ∷ rest) states =
      ap (λ ks. id ∷ ks) (collect_dirty-keys entries rest _)

  is_same-eq :
      (cached : Option (RunState P)) (r : RunState P) → is_same P cached r ≡ true → cached ≡ some r
  is_same-eq none r h = cc
  is_same-eq (some (at, n)) (current_at, m) h = elim (==_cases at current_at) [
    | inl (p, t) ↦ elim (==_cases n m) [
      | inl (q, u) ↦ rw (p, q)
      | inr (k, u) ↦ absurd (ground arith)
    ]
    | inr (k, t) ↦ absurd (ground arith)
  ]

  is_same-ne :
      (cached : Option (RunState P)) (r : RunState P) → is_same P cached r ≡ false → cached ≢ some r
  is_same-ne cached r h e =
      let same = subst (λ c. is_same P c r ≡ false) e h in cc (sym (is_same_refl r) ∙ same)

  changed_schedules-Changed :
      (entries : Dict String (Entry P)) (cache : Dict String Schedule)
      (states : Dict String (RunState P))
      → Changed entries states cache (changed_schedules entries cache states)
  unfolding changed_schedules
  changed_schedules-Changed entries [] states = no_more
  changed_schedules-Changed entries ((id, schedule) ∷ rest) states =
      let later = changed_schedules-Changed entries rest states in
      elim (Option-cases (lookup id entries)) [
        | inl e ↦ rw e (no_entry e later)
        | inr (entry, e) ↦ elim (Bool-cases (is_same P (lookup id states) (run_state P entry))) [
          | inl t ↦ rw (e, t) (seen entry e (is_same-eq _ _ t) later)
          | inr t ↦ rw (e, t) (ran entry e (is_same-ne _ _ t) later)
        ]
      ]

  module _ {N : Type 0} (db : Database N) where
    -- One call of the store for each schedule, in their order.
    abbrev pub stored_one_by_one : List Schedule → N → N
    stored_one_by_one [] net = net
    stored_one_by_one (schedule ∷ rest) net =
        stored_one_by_one rest (db.store_schedule schedule net)

    store_each-eq :
        (ds : List Schedule) (net : N) → store_each P db ds net ≡ stored_one_by_one ds net
    unfolding store_each
    store_each-eq [] net = refl
    store_each-eq (schedule ∷ rest) net = store_each-eq rest (db.store_schedule schedule net)

    -- With every id once in the cache, a write-back calls the store once for each cached schedule whose
    -- entry has another instant or count of its runs than was last seen, in the order of the cache, with
    -- the schedule's fields and that instant and count, and for no other one; a second write-back, before
    -- an entry runs again, stores nothing, whether or not the calls of the first raised.
    pub writeback_run_state-changed :
        (s : DatabaseScheduler P) (net : N)
        → Distinct (keys s.schedule_cache)
        → (changed : List Schedule) × Changed s.schedule s.run_state_cache s.schedule_cache changed
          × ((writeback_run_state P db s net).1 ≡ stored_one_by_one changed net)
          × ((net' : N)
              → (writeback_run_state P db (writeback_run_state P db s net).0 net').1 ≡ net')
    unfolding writeback_run_state store_each
    writeback_run_state-changed s net h =
        let c = collect_dirty P s.schedule s.schedule_cache s.run_state_cache in
        let found = changed_schedules s.schedule s.schedule_cache s.run_state_cache in
        (
          found,
          changed_schedules-Changed s.schedule s.schedule_cache s.run_state_cache,
          ap (λ ds. store_each P db ds net)
                (collect_dirty-changed s.schedule s.schedule_cache s.run_state_cache h)
              ∙ store_each-eq found net,
          λ net'.
              ap (λ ds. store_each P db ds net')
                (collect_dirty-changed s.schedule c.cache c.run_states (
                    subst Distinct
                      (sym (collect_dirty-keys s.schedule s.schedule_cache s.run_state_cache)) h)
                  ∙ collect_dirty-settled s.schedule s.schedule_cache s.run_state_cache h),
        )
