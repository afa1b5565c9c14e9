-- ===== src/Retry/Requests.antt =====
-- celery_root/core/engine/retry.py: which requests a retry sends for an order of tasks, said from the
-- stored tasks.
use celery_cnc.Base.{
  ◌≡◌, ◌≢◌, refl, sym, ◌⊎◌, inl, inr, String, Option, none, some, List, [], ◌∷◌, subst, ap, ◌∙◌,
}
use celery_cnc.Base.{◌==◌, string_eq, if◌then◌else◌, Option-cases, ==_cases}
use celery_cnc.Schemas.{Task}
use celery_cnc.Value.{
  Value, null, boolean, integer, text, list, tuple, set, mapping, object, Items, nil, cons, Fields,
  end,
}
use celery_cnc.Retry.{Request, request_of, root_of, parse_args, parse_kwargs}

-- The id that the relations of a task are stored under.
pub data IsRoot {F : Type 0} (task : Task F) : String → Type 0 where
  kept : {root : String} → task.root_id ≡ some root → root ≢ "" → IsRoot task root
  missing : task.root_id ≡ none → IsRoot task task.task_id
  empty : task.root_id ≡ some "" → IsRoot task task.task_id

abbrev NotList : Value → Type 0
NotList (list items) = ⊥
NotList v = Unit {0}

abbrev NotObject : Value → Type 0
NotObject (mapping fields) = ⊥
NotObject v = Unit {0}

-- The arguments that a stored text stands for.
pub data ArgsOf (loads : String → Option Value) : Option String → Items → Type 0 where
  args_none : ArgsOf loads none nil
  args_empty : ArgsOf loads (some "") nil
  args_no_json : {t : String} → t ≢ "" → loads t ≡ none → ArgsOf loads (some t) (cons (text t) nil)
  json_list :
      {t : String} {items : Items}
      → t ≢ ""
      → loads t ≡ some (list items)
      → ArgsOf loads (some t) items
  json_other :
      {t : String} {v : Value}
      → t ≢ ""
      → loads t ≡ some v
      → NotList v
      → ArgsOf loads (some t) (cons v nil)

-- The keyword arguments that a stored text stands for.
pub data KwargsOf (loads : String → Option Value) : Option String → Fields → Type 0 where
  kwargs_none : KwargsOf loads none end
  kwargs_empty : KwargsOf loads (some "") end
  kwargs_no_json : {t : String} → t ≢ "" → loads t ≡ none → KwargsOf loads (some t) end
  json_object :
      {t : String} {fields : Fields}
      → t ≢ ""
      → loads t ≡ some (mapping fields)
      → KwargsOf loads (some t) fields
  json_unusable :
      {t : String} {v : Value}
      → t ≢ ""
      → loads t ≡ some v
      → NotObject v
      → KwargsOf loads (some t) end

root-IsRoot :
    {F : Type 0} (task : Task F) (o : Option String)
    → task.root_id ≡ o
    → IsRoot task
        (elim o [ none ↦ task.task_id | some root ↦ if root == "" then task.task_id else root ])
root-IsRoot task none e = missing e
root-IsRoot task (some root) e = elim (==_cases root "") [
  | inl (p, t) ↦ rw t (empty (e ∙ ap (λ r. some r) p))
  | inr (n, t) ↦ rw t (kept e n)
]

pub root_of-IsRoot : {F : Type 0} (task : Task F) → IsRoot task (root_of task)
unfolding root_of
root_of-IsRoot task = root-IsRoot task task.root_id refl

module _ (loads : String → Option Value) where
  args_read :
      (t : String) (v : Value)
      → t ≢ ""
      → loads t ≡ some v
      → ArgsOf loads (some t) (elim v [ list items ↦ items | other ↦ cons other nil ])
  args_read t (list items) n e = json_list n e
  args_read t null n e = json_other n e tt
  args_read t (boolean b) n e = json_other n e tt
  args_read t (integer i) n e = json_other n e tt
  args_read t (text u) n e = json_other n e tt
  args_read t (tuple items) n e = json_other n e tt
  args_read t (set items) n e = json_other n e tt
  args_read t (mapping fields) n e = json_other n e tt
  args_read t (object k) n e = json_other n e tt

  kwargs_read :
      (t : String) (v : Value)
      → t ≢ ""
      → loads t ≡ some v
      → KwargsOf loads (some t) (elim v [ mapping fields ↦ fields | _ ↦ end ])
  kwargs_read t (mapping fields) n e = json_object n e
  kwargs_read t null n e = json_unusable n e tt
  kwargs_read t (boolean b) n e = json_unusable n e tt
  kwargs_read t (integer i) n e = json_unusable n e tt
  kwargs_read t (text u) n e = json_unusable n e tt
  kwargs_read t (list items) n e = json_unusable n e tt
  kwargs_read t (tuple items) n e = json_unusable n e tt
  kwargs_read t (set items) n e = json_unusable n e tt
  kwargs_read t (object k) n e = json_unusable n e tt

  parse_args-ArgsOf : (value : Option String) → ArgsOf loads value (parse_args loads value)
  unfolding parse_args
  parse_args-ArgsOf none = args_none
  parse_args-ArgsOf (some t) = elim (==_cases t "") [
    | inl (p, u) ↦ rw u (subst (λ k. ArgsOf loads (some k) nil) (sym p) args_empty)
    | inr (n, u) ↦ elim (Option-cases (loads t)) [
      | inl e ↦ rw (u, e) (args_no_json n e)
      | inr (v, e) ↦ rw (u, e) (args_read t v n e)
    ]
  ]

  parse_kwargs-KwargsOf : (value : Option String) → KwargsOf loads value (parse_kwargs loads value)
  unfolding parse_kwargs
  parse_kwargs-KwargsOf none = kwargs_none
  parse_kwargs-KwargsOf (some t) = elim (==_cases t "") [
    | inl (p, u) ↦ rw u (subst (λ k. KwargsOf loads (some k) end) (sym p) kwargs_empty)
    | inr (n, u) ↦ elim (Option-cases (loads t)) [
      | inl e ↦ rw (u, e) (kwargs_no_json n e)
      | inr (v, e) ↦ rw (u, e) (kwargs_read t v n e)
    ]
  ]

  module _ {F : Type 0} (get_task : String → Option (Task F)) where
    -- The requests for the tasks of an order, said from the stored tasks: none for a task that is not
    -- stored, or that has no name or no worker.
    pub data Sent : List String → List Request → Type 0 where
      nothing : Sent [] []
      not_stored :
          {task_id : String} {rest : List String} {sent : List Request}
          → get_task task_id ≡ none
          → Sent rest sent
          → Sent (task_id ∷ rest) sent
      incomplete :
          {task_id : String} {rest : List String} {sent : List Request} (task : Task F)
          → get_task task_id ≡ some task
          → (task.name ≡ none) ⊎ (task.worker ≡ none)
          → Sent rest sent
          → Sent (task_id ∷ rest) sent
      requested :
          {task_id : String} {rest : List String} {sent : List Request} (task : Task F)
          {name worker : String} {args : Items} {kwargs : Fields}
          → get_task task_id ≡ some task
          → task.name ≡ some name
          → task.worker ≡ some worker
          → ArgsOf loads task.args args
          → KwargsOf loads task.kwargs kwargs
          → Sent rest sent
          → Sent
              (task_id ∷ rest)
              (record { worker = worker; name = name; args = args; kwargs = kwargs } ∷ sent)

    -- The same requests by the code's own step.
    unfoldable pub requests : List String → List Request
    requests [] = []
    requests (task_id ∷ rest) = elim (request_of loads (get_task task_id)) [
      | none ↦ requests rest
      | some request ↦ request ∷ requests rest
    ]

    pub requests-Sent : (order : List String) → Sent order (requests order)
    unfolding requests request_of
    requests-Sent [] = nothing
    requests-Sent (task_id ∷ rest) =
        let later = requests-Sent rest in
        elim (Option-cases (get_task task_id)) [
          | inl e ↦ rw (e, requests, request_of) (not_stored e later)
          | inr (task, e) ↦ elim (Option-cases task.name) [
            | inl n ↦ rw (e, requests, request_of, n) (incomplete task e (inl n) later)
            | inr (name, n) ↦ elim (Option-cases task.worker) [
              | inl w ↦ rw (e, requests, request_of, n, w) (incomplete task e (inr w) later)
              | inr (worker, w) ↦
                  rw (e, requests, request_of, n, w)
                    (requested task e n w (parse_args-ArgsOf task.args)
                      (parse_kwargs-KwargsOf task.kwargs) later)
            ]
          ]
        ]
