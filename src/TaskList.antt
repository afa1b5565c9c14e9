-- ===== src/TaskList.antt =====
-- celery_root/components/web/views/tasks.py: the rows of the page that lists tasks, their order and
-- the pages, and the links between a task and its parent and children.
pub mod Order
pub mod Sorting
pub mod Paging
mod Examples
use celery_cnc.Base.{
  ℕ, zero, suc, ◌+◌, ◌-◌, ◌*◌, ◌/◌, max, min, String, ◌<>◌, Bool, true, false, not, ◌&&◌, ◌||◌,
}
use celery_cnc.Base.{
  Option, none, some, List, [], ◌∷◌, ◌++◌, ◌==◌, string_eq, nat_eq, option_eq, contains,
  if◌then◌else◌, ltb, leb, length,
}
use celery_cnc.Base.Dict.{Dict, lookup, keys}
use celery_cnc.Base.Python.{strip_text, lowered, includes_codes, same_codes}
use celery_cnc.Base.Text.{codes}
use celery_cnc.Value.{Integer, pos, negsuc}
use celery_cnc.Schemas.{Datetime, Task, TaskRelation}

abbrev pub final_states : List String
final_states = "SUCCESS" ∷ "FAILURE" ∷ "REVOKED" ∷ []

abbrev pub state_badges : Dict String String
state_badges =
    ("SUCCESS", "badge-success")
    ∷ ("FAILURE", "badge-danger")
    ∷ ("STARTED", "badge-warning")
    ∷ ("RETRY", "badge-warning")
    ∷ ("PENDING", "badge-info")
    ∷ ("RECEIVED", "badge-info")
    ∷ ("REVOKED", "badge-muted")
    ∷ []

abbrev pub page_size_options : List ℕ
page_size_options = 10 ∷ 25 ∷ 50 ∷ 100 ∷ 200 ∷ []

abbrev pub default_page_size : ℕ
default_page_size = 50

abbrev pub sortable_fields : List String
sortable_fields = "state" ∷ "worker" ∷ "received" ∷ "started" ∷ "runtime" ∷ []

pub record TaskView (F : Type 0) : Type 0 where
  pub task_id : String
  pub name : String
  pub state : String
  pub badge_class : String
  pub worker : String
  pub child_count : ℕ
  pub runtime : Option F
  pub received : Option Datetime
  pub started : Option Datetime
  pub finished : Option Datetime
  pub done : Bool
  pub timestamp : Option Datetime
  pub args : String
  pub kwargs : String
  pub retries : Option ℕ
  pub result : Option String
  pub traceback : Option String
  pub parent_id : Option String
  pub root_id : Option String
  pub group_id : Option String
  pub chord_id : Option String
  pub eta : Option String

-- `a or b`, on times and on texts.
abbrev or_time : Option Datetime → Option Datetime → Option Datetime
or_time none b = b
or_time (some t) b = some t

abbrev pub text_or : Option String → String → String
text_or none default = default
text_or (some t) default = if t == "" then default else t

abbrev value_or : Option String → String → String
value_or none default = default
value_or (some t) default = t

module _ {F : Type 0} where
  unfoldable pub task_timestamp : Task F → Option Datetime
  task_timestamp task = or_time task.finished (or_time task.started task.received)

  unfoldable pub task_to_view : Task F → TaskView F
  unfolding task_timestamp lookup
  task_to_view task = record {
    task_id = task.task_id;
    name = text_or task.name task.task_id;
    state = task.state;
    badge_class = value_or (lookup task.state state_badges) "badge-muted";
    worker = text_or task.worker "—";
    child_count = 0;
    runtime = task.runtime;
    received = task.received;
    started = task.started;
    finished = task.finished;
    done = contains final_states task.state;
    timestamp = task_timestamp task;
    args = text_or task.args "";
    kwargs = text_or task.kwargs "";
    retries = task.retries;
    result = task.result;
    traceback = task.traceback;
    parent_id = task.parent_id;
    root_id = task.root_id;
    group_id = task.group_id;
    chord_id = task.chord_id;
    eta = none;
  }

  unfoldable pub filter_tasks : List (TaskView F) → String → List (TaskView F)
  unfolding includes_codes lowered
  filter_tasks [] search_term = []
  filter_tasks (task ∷ tasks) search_term =
      let rest = filter_tasks tasks search_term in
      let haystack =
        task.name
        <> (" "
            <> (task.task_id
                <> (" " <> (task.worker <> (" " <> (task.args <> (" " <> task.kwargs))))))) in
      if search_term == "" || includes_codes (lowered search_term) (lowered haystack)
      then task ∷ rest
      else rest

-- The field to sort by and whether the order is descending; no field where the name is not known.
unfoldable pub normalize_sort : Option String → Option String → Option String × Bool
unfolding strip_text lowered same_codes
normalize_sort sort_key sort_dir =
    let key = strip_text (text_or sort_key "") in
    let direction = lowered (strip_text (text_or sort_dir "")) in
    if contains sortable_fields key
    then (some key, not (same_codes direction (codes "asc")))
    else (none, true)

-- What a field is compared by: a text in lower case, a time or a float.
pub data SortValue (F : Type 0) : Type 0 where
  words : List ℕ → SortValue F
  time : Datetime → SortValue F
  float : F → SortValue F

abbrev pub timed : {F : Type 0} → Option Datetime → Option (SortValue F)
timed none = none
timed (some t) = some (time t)

abbrev pub floated : {F : Type 0} → Option F → Option (SortValue F)
floated none = none
floated (some x) = some (float x)

unfoldable pub sort_value : {F : Type 0} → String → TaskView F → Option (SortValue F)
unfolding lowered
sort_value field task =
    if field == "state"
    then some (words (lowered task.state))
    else if field == "worker"
    then some (words (lowered task.worker))
    else if field == "received"
    then timed task.received
    else if field == "started"
    then timed task.started
    else if field == "runtime"
    then floated task.runtime
    else none

-- `<` on texts, by code points.
unfoldable pub words_lt : List ℕ → List ℕ → Bool
words_lt [] [] = false
words_lt [] (d ∷ t) = true
words_lt (c ∷ s) [] = false
words_lt (c ∷ s) (d ∷ t) = ltb c d || (c == d && words_lt s t)

-- What a comparison says of its first argument.
pub data Verdict : Type 0 where
  before same after : Verdict

abbrev pub ordered : Bool → Verdict
ordered b = if b then before else after

-- Two values of one kind that differ come in the order of the direction.
abbrev pub compare_by : Bool → Bool → Bool → Bool → Verdict
compare_by reverse equal less greater =
    if equal then same else if reverse then ordered greater else ordered less

module _ {F : Type 0} (float_eq float_lt : F → F → Bool) where
  unfoldable pub compare_present : Bool → SortValue F → SortValue F → Verdict
  unfolding same_codes words_lt
  compare_present reverse (words s) (words t) =
      compare_by reverse (same_codes s t) (words_lt s t) (words_lt t s)
  compare_present reverse (time s) (time t) = compare_by reverse (s == t) (ltb s t) (ltb t s)
  compare_present reverse (float x) (float y) =
      compare_by reverse (float_eq x y) (float_lt x y) (float_lt y x)
  compare_present reverse a b = same

  -- `_compare`: a missing value comes last in both directions.
  unfoldable pub compare_values : Bool → Option (SortValue F) → Option (SortValue F) → Verdict
  unfolding compare_present
  compare_values reverse none none = same
  compare_values reverse none (some b) = after
  compare_values reverse (some a) none = before
  compare_values reverse (some a) (some b) = compare_present reverse a b

  -- `sorted` is stable: a row stands before those that follow it unless they compare as smaller.
  abbrev pub placed : {A : Type 0} → Verdict → A → A → List A → List A → List A
  placed before x y ys rest = y ∷ rest
  placed same x y ys rest = x ∷ y ∷ ys
  placed after x y ys rest = x ∷ y ∷ ys

  unfoldable pub insert_task : String → Bool → TaskView F → List (TaskView F) → List (TaskView F)
  unfolding compare_values sort_value
  insert_task field reverse x [] = x ∷ []
  insert_task field reverse x (y ∷ ys) =
      placed (compare_values reverse (sort_value field y) (sort_value field x)) x y ys
        (insert_task field reverse x ys)

  unfoldable pub sort_tasks : String → Bool → List (TaskView F) → List (TaskView F)
  unfolding insert_task
  sort_tasks field reverse [] = []
  sort_tasks field reverse (x ∷ xs) = insert_task field reverse x (sort_tasks field reverse xs)

module _ {ℓ} {A : Type ℓ} where
  abbrev pub take : ℕ → List A → List A
  take zero xs = []
  take (suc n) [] = []
  take (suc n) (x ∷ xs) = x ∷ take n xs

  abbrev pub drop : ℕ → List A → List A
  drop zero xs = xs
  drop (suc n) [] = []
  drop (suc n) (x ∷ xs) = drop n xs

  -- `tasks[start_index:end_index]` for a page, the first of which is 1.
  unfoldable pub page_slice : ℕ → ℕ → List A → List A
  page_slice page_size page tasks = take page_size (drop ((page - 1) * page_size) tasks)

-- The page size and the page that a request asks for; `none` is a text that is no number.
unfoldable pub page_size_of : Option Integer → ℕ
page_size_of none = default_page_size
page_size_of (some (negsuc n)) = default_page_size
page_size_of (some (pos n)) = if contains page_size_options n then n else default_page_size

unfoldable pub page_of : Option Integer → ℕ
page_of none = 1
page_of (some (negsuc n)) = 1
page_of (some (pos n)) = max n 1

-- `max(math.ceil(total_count / page_size), 1)`
unfoldable pub total_pages : ℕ → ℕ → ℕ
total_pages page_size total_count = max ((total_count + page_size - 1) / page_size) 1

-- The numbers of the first and of the last row that a page shows.
unfoldable pub visible_range : ℕ → ℕ → ℕ → ℕ → ℕ × ℕ
visible_range page_size page total_count shown =
    if total_count == 0
    then (0, 0)
    else ((page - 1) * page_size + 1, (page - 1) * page_size + 1 + (shown - 1))

-- `_parent_id`: the stored parent, the parent of a relation to the task, or the parent of a relation
-- from it.
unfoldable pub parent_above : String → List TaskRelation → Option String
parent_above task_id [] = none
parent_above task_id (r ∷ relations) =
    let rest = parent_above task_id relations in
    if r.child_id == task_id && not (text_or r.parent_id "" == "") then r.parent_id else rest

unfoldable pub parent_of_child : String → List TaskRelation → Option String
parent_of_child task_id [] = none
parent_of_child task_id (r ∷ relations) =
    let rest = parent_of_child task_id relations in
    if r.parent_id == some task_id then r.parent_id else rest

abbrev or_parent : Option String → Option String → Option String
or_parent none other = other
or_parent (some p) other = some p

unfoldable pub parent_id : {F : Type 0} → Task F → List TaskRelation → Option String
unfolding parent_above parent_of_child
parent_id task relations =
    if not (text_or task.parent_id "" == "")
    then task.parent_id
    else or_parent (parent_above task.task_id relations) (parent_of_child task.task_id relations)
