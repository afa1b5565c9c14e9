-- ===== src/TaskList/Examples.antt =====
-- Tests of the task list, and its theorems at concrete inputs.
use celery_cnc.Base.{
  ℕ, String, true, false, Option, none, some, List, [], ◌∷◌, ◌≡◌, ◌+◌, ◌≤◌, ◌<◌, refl, length,
  arith,
}
use celery_cnc.Base.{string_eq, nat_eq, option_eq, ◌==◌, ltb}
use celery_cnc.Schemas.{Task}
use celery_cnc.TaskList.{
  TaskView, task_to_view, normalize_sort, sort_tasks, page_slice, total_pages, visible_range,
  parent_id,
}
use celery_cnc.TaskList.Paging.{first_pages, first_pages-total_pages}

abbrev stored : String → Option String → Option ℕ → Task ℕ
stored id worker started = record {
  task_id = id;
  name = none;
  state = "SUCCESS";
  worker = worker;
  received = none;
  started = started;
  finished = none;
  runtime = none;
  args = none;
  kwargs = none;
  result = none;
  traceback = none;
  stamps = none;
  retries = none;
  parent_id = none;
  root_id = none;
  group_id = none;
  chord_id = none;
}

abbrev row : String → Option ℕ → TaskView ℕ
row id started = record {
  task_id = id;
  name = id;
  state = "SUCCESS";
  badge_class = "badge-success";
  worker = "—";
  child_count = 0;
  runtime = none;
  received = none;
  started = started;
  finished = none;
  done = true;
  timestamp = started;
  args = "";
  kwargs = "";
  retries = none;
  result = none;
  traceback = none;
  parent_id = none;
  root_id = none;
  group_id = none;
  chord_id = none;
  eta = none;
}

view_test : task_to_view (stored "a" none (some 3)) ≡ row "a" (some 3)
unfolding task_to_view string_eq
view_test = refl

abbrev rows : List (TaskView ℕ)
rows = row "a" none ∷ row "b" (some 1) ∷ row "c" (some 2) ∷ []

sorted_test :
    sort_tasks (λ a b. a == b) ltb "started" true rows
    ≡ row "c" (some 2) ∷ row "b" (some 1) ∷ row "a" none ∷ []
unfolding sort_tasks string_eq nat_eq
sorted_test = refl

abbrev numbers : List ℕ
numbers = 1 ∷ 2 ∷ 3 ∷ 4 ∷ 5 ∷ []

first_pages-total_pages_example :
    let shown = page_slice 2 3 numbers in
    let range = visible_range 2 3 (length numbers) (length shown) in
    (first_pages 2 (total_pages 2 (length numbers)) numbers ≡ numbers)
    × (length shown ≤ 2)
    × (0 < range.0)
    × (range.0 + length shown ≡ range.1 + 1)
    × (range.1 ≤ length numbers)
unfolding total_pages
first_pages-total_pages_example =
    first_pages-total_pages 2 3 numbers (omega arith) (omega arith) (omega arith) (omega arith)

-- A task without a parent that has children is shown as its own parent.
own_parent_test :
    parent_id
      (stored "a" none none)
      (record { root_id = "a"; parent_id = some "a"; child_id = "b"; relation = "parent" } ∷ [])
    ≡ some "a"
unfolding parent_id string_eq option_eq
own_parent_test = refl

sort_test : normalize_sort (some " state ") (some "ASC") ≡ (some "state", false)
unfolding normalize_sort string_eq nat_eq
sort_test = refl
