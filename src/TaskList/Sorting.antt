-- ===== src/TaskList/Sorting.antt =====
-- celery_root/components/web/views/tasks.py: what the order of the rows is.
use mathlib.Core.List.Perm
use mathlib.Core.List.{Perm}
use celery_cnc.Base.{◌≢◌, String, Bool, Option, List, [], ◌∷◌}
use celery_cnc.Base.{nat_eq}
use celery_cnc.TaskList.{TaskView, SortValue, sort_value, Verdict, before, compare_values}

module _ {F : Type 0} (float_eq float_lt : F → F → Bool) (field : String) (reverse : Bool) where
  -- How two values of the field compare, and two rows.
  abbrev pub against : Option (SortValue F) → Option (SortValue F) → Verdict
  against a b = compare_values float_eq float_lt reverse a b

  abbrev pub key : TaskView F → Option (SortValue F)
  key task = sort_value field task

  -- No row compares as smaller than the one in front of it.
  abbrev pub Follows : TaskView F → List (TaskView F) → Type 0
  Follows x [] = Unit {0}
  Follows x (y ∷ ys) = against (key y) (key x) ≢ before

  abbrev pub IsSorted : List (TaskView F) → Type 0
  IsSorted [] = Unit {0}
  IsSorted (x ∷ xs) = Follows x xs × IsSorted xs
