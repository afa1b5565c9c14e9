-- ===== src/Schemas.antt =====
-- celery_root/shared/schemas/domain.py: the records that the components exchange. A `Datetime` is
-- an instant in microseconds since the epoch (every stored one is aware, in UTC); floats are not
-- computed with here and stay a parameter `F`.
use celery_cnc.Base.{ℕ, String, Bool, Option, List}
use celery_cnc.Value.{Fields, Integer}

abbrev pub Datetime : Type 0
Datetime = ℕ

pub record TimeRange : Type 0 where
  pub start : Datetime
  pub finish : Datetime

pub record TaskEvent (F : Type 0) : Type 0 where
  pub task_id : String
  pub name : Option String
  pub state : String
  pub timestamp : Datetime
  pub worker : Option String
  pub args : Option String
  pub kwargs : Option String
  pub result : Option String
  pub traceback : Option String
  pub stamps : Option String
  pub runtime : Option F
  pub retries : Option ℕ
  pub eta : Option Datetime
  pub expires : Option Datetime
  pub parent_id : Option String
  pub root_id : Option String
  pub group_id : Option String
  pub chord_id : Option String

pub record WorkerEvent : Type 0 where
  pub hostname : String
  pub event : String
  pub timestamp : Datetime
  pub info : Option Fields
  pub broker_url : Option String

pub record BrokerQueueEvent : Type 0 where
  pub broker_url : String
  pub queue : String
  pub messages : Option ℕ
  pub consumers : Option ℕ
  pub timestamp : Datetime

pub record Task (F : Type 0) : Type 0 where
  pub task_id : String
  pub name : Option String
  pub state : String
  pub worker : Option String
  pub received : Option Datetime
  pub started : Option Datetime
  pub finished : Option Datetime
  pub runtime : Option F
  pub args : Option String
  pub kwargs : Option String
  pub result : Option String
  pub traceback : Option String
  pub stamps : Option String
  pub retries : Option ℕ
  pub parent_id : Option String
  pub root_id : Option String
  pub group_id : Option String
  pub chord_id : Option String

pub record Worker : Type 0 where
  pub hostname : String
  pub status : String
  pub last_heartbeat : Option Datetime
  pub pool_size : Option Integer
  pub active_tasks : Option Integer
  pub registered_tasks : Option (List String)
  pub queues : Option (List String)
  pub broker_url : Option String

pub record Schedule : Type 0 where
  pub schedule_id : String
  pub name : String
  pub task : String
  pub schedule : String
  pub args : Option String
  pub kwargs : Option String
  pub enabled : Bool
  pub last_run_at : Option Datetime
  pub total_run_count : Option ℕ
  pub app : Option String

pub record TaskRelation : Type 0 where
  pub root_id : String
  pub parent_id : Option String
  pub child_id : String
  pub relation : String

pub record TaskFilter : Type 0 where
  pub task_name : Option String
  pub state : Option String
  pub worker : Option String
  pub time_range : Option TimeRange
  pub search : Option String
  pub group_id : Option String
  pub root_id : Option String

pub record TaskStats (F : Type 0) : Type 0 where
  pub count : ℕ
  pub min_runtime : Option F
  pub max_runtime : Option F
  pub avg_runtime : Option F
  pub p50 : Option F
  pub p95 : Option F
  pub p99 : Option F

pub record ThroughputBucket : Type 0 where
  pub bucket_start : Datetime
  pub count : ℕ
