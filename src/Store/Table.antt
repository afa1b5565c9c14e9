-- ===== src/Store/Table.antt =====
-- What the controller relies on from the database engine. A keyed table has one row for a primary
-- key and the statement INSERT ... ON CONFLICT (key) DO UPDATE; a log table has an autoincrement id
-- and is only appended to, and read in the order of its ids.
use celery_cnc.Base.{◌≡◌, refl, String, Option, none, some, List, [], ◌∷◌, ◌++◌}
use celery_cnc.Base.{◌==◌, string_eq, if◌then◌else◌}
use celery_cnc.Base.Dict
use celery_cnc.Base.Dict.{Dict, lookup-insert, lookup-erase}

-- What an upsert leaves at its key: the new row, or the old one updated.
abbrev pub merged {ℓ} : {Row : Type ℓ} → Row → (Row → Row) → Option Row → Row
merged fresh update none = fresh
merged fresh update (some old) = update old

pub record KeyedTable (Row : Type 0) : Type 1 where
  pub State : Type 0
  pub select_row : State → String → Option Row
  pub upsert : State → String → Row → (Row → Row) → State
  pub delete_row : State → String → State
  pub select-upsert :
      (s : State) (j k : String) (fresh : Row) (update : Row → Row)
      → select_row (upsert s k fresh update) j
        ≡ (if j == k then some (merged fresh update (select_row s k)) else select_row s j)
  pub select-delete :
      (s : State) (j k : String)
      → select_row (delete_row s k) j ≡ (if j == k then none else select_row s j)

pub record LogTable (Row : Type 0) : Type 1 where
  pub State : Type 0
  pub rows : State → List Row
  pub append_row : State → Row → State
  pub rows-append_row : (s : State) (r : Row) → rows (append_row s r) ≡ rows s ++ r ∷ []

-- The tables of a database that keeps its rows in memory.
module _ (Row : Type 0) where
  pub memory_select_upsert :
      (s : Dict String Row) (j k : String) (fresh : Row) (update : Row → Row)
      → Dict.lookup j (Dict.insert k (merged fresh update (Dict.lookup k s)) s)
        ≡ (if j == k then some (merged fresh update (Dict.lookup k s)) else Dict.lookup j s)
  memory_select_upsert s j k fresh update = lookup-insert j k _ s

  pub memory_select_delete :
      (s : Dict String Row) (j k : String)
      → Dict.lookup j (Dict.erase k s) ≡ (if j == k then none else Dict.lookup j s)
  memory_select_delete s j k = lookup-erase j k s

  abbrev pub memory_table : KeyedTable Row
  memory_table = record {
    State = Dict String Row;
    select_row = λ s k. Dict.lookup k s;
    upsert = λ s k fresh update. Dict.insert k (merged fresh update (Dict.lookup k s)) s;
    delete_row = λ s k. Dict.erase k s;
    select-upsert = memory_select_upsert;
    select-delete = memory_select_delete;
  }

  abbrev pub memory_log : LogTable Row
  memory_log = record {
    State = List Row;
    rows = λ s. s;
    append_row = λ s r. s ++ r ∷ [];
    rows-append_row = λ s r. refl;
  }
