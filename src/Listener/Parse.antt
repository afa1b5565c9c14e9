-- ===== src/Listener/Parse.antt =====
-- celery_root/core/event_listener.py: how the fields of a raw event are read. `Objects` holds what
-- Python and its library do with the other objects: floats, datetimes, JSON and `str`.
use celery_cnc.Base.{ℕ, String, not, Option, none, some, List, [], ◌∷◌}
use celery_cnc.Base.{◌==◌, string_eq, if◌then◌else◌}
use celery_cnc.Value.{
  Value, Items, Fields, Integer, pos, null, boolean, integer, text, list, tuple, mapping, object,
  nil, cons, end, field, get, has_key, is_null,
}
use celery_cnc.Schemas.{Datetime}

pub record Objects (F : Type 0) : Type 0 where
  -- `isinstance(value, datetime)`, with UTC where it names no zone.
  pub as_datetime : ℕ → Option Datetime
  -- `isinstance(value, float)`
  pub as_float : ℕ → Option F
  pub fromtimestamp : F → Datetime
  pub fromisoformat : String → Option Datetime
  pub float_of_int : Integer → F
  pub float_of_text : String → Option F
  pub int_of_float : F → Option Integer
  pub int_of_text : String → Option Integer
  pub str : Value → String
  -- `json.dumps` with its default, and `str` where that fails.
  pub dumps : Value → String
  -- `json.loads(json.dumps(value))`
  pub json_safe : Fields → Fields
  pub upper : String → String
  pub redact_url : String → String

-- `_event_field`
unfoldable pub event_field : List String → Fields → Value
unfolding get
event_field [] event = null
event_field (key ∷ keys) event =
    let rest = event_field keys event in
    let value = get key event in if is_null value then rest else value

abbrev pub first_header : List String → Fields → Value
first_header [] headers = null
first_header (key ∷ keys) headers =
    let rest = first_header keys headers in if has_key key headers then get key headers else rest

-- `isinstance(value, dict)`
abbrev pub as_mapping : Value → Option Fields
as_mapping (mapping fields) = some fields
as_mapping v = none

-- `_event_id`
unfoldable pub event_id : List String → Fields → Value
unfolding event_field get has_key
event_id keys event =
    let value = event_field keys event in
    if not (is_null value) then value else elim (as_mapping (get "headers" event)) [
      | none ↦ null
      | some headers ↦ first_header keys headers
    ]

-- `d[key] = value`
unfoldable pub set_key : String → Value → Fields → Fields
set_key key v end = field key v end
set_key key v (field k w rest) =
    let changed = set_key key v rest in if key == k then field key v rest else field k w changed

-- The loop over the stamped headers, in order.
unfoldable pub collect_stamps : Items → Fields → Fields → Fields
unfolding get has_key set_key
collect_stamps nil headers stamps = stamps
collect_stamps (cons (text key) rest) headers stamps =
    collect_stamps rest headers
      (if has_key key headers then set_key key (get key headers) stamps else stamps)
collect_stamps (cons v rest) headers stamps = collect_stamps rest headers stamps

abbrev pub stamps_or_none : Fields → Value
stamps_or_none end = null
stamps_or_none (field k v rest) = mapping (field k v rest)

abbrev pub stamps_of_list : Value → Fields → Value
stamps_of_list (list keys) headers = stamps_or_none (collect_stamps keys headers end)
stamps_of_list (tuple keys) headers = stamps_or_none (collect_stamps keys headers end)
stamps_of_list v headers = null

-- `_extract_stamps`
unfoldable pub extract_stamps : Fields → Value
unfolding get collect_stamps
extract_stamps event = elim (as_mapping (get "stamps" event)) [
  | some raw_stamps ↦ mapping raw_stamps
  | none ↦ elim (as_mapping (get "headers" event)) [
    | none ↦ null
    | some headers ↦ stamps_of_list (get "stamped_headers" headers) headers
  ]
]

module _ {F : Type 0} (O : Objects F) where
  open O use {
    as_datetime, as_float, fromtimestamp, fromisoformat, float_of_int, float_of_text, int_of_float,
    int_of_text, str, dumps,
  }

  -- `isinstance(raw, int | float)`, read by `float`; a Boolean is an integer.
  abbrev pub number : Value → Option F
  number (boolean b) = some (float_of_int (pos (if b then 1 else 0)))
  number (integer n) = some (float_of_int n)
  number (object o) = as_float o
  number v = none

  abbrev pub instant : Value → Option Datetime
  instant (object o) = as_datetime o
  instant v = none

  -- `_event_timestamp` and `_event_received_timestamp`
  unfoldable pub event_timestamp : Datetime → Fields → Datetime
  unfolding get
  event_timestamp now event = elim (number (get "timestamp" event)) [
    | some seconds ↦ fromtimestamp seconds
    | none ↦ elim (instant (get "timestamp" event)) [ some at ↦ at | none ↦ now ]
  ]

  unfoldable pub event_received_timestamp : Datetime → Fields → Datetime
  unfolding get event_timestamp
  event_received_timestamp now event = elim (number (get "local_received" event)) [
    | some seconds ↦ fromtimestamp seconds
    | none ↦ elim (instant (get "local_received" event)) [
      | some at ↦ at
      | none ↦ event_timestamp now event
    ]
  ]

  -- `_parse_iso_datetime`; `fromisoformat` reads a final "Z" as "+00:00", as the text handed to it
  -- does.
  unfoldable pub parse_iso_datetime : Value → Option Datetime
  parse_iso_datetime (text t) = fromisoformat t
  parse_iso_datetime v = elim (instant v) [
    | some at ↦ some at
    | none ↦ elim (number v) [ some seconds ↦ some (fromtimestamp seconds) | none ↦ none ]
  ]

  -- `_stringify`
  unfoldable pub stringify : Value → Option String
  stringify null = none
  stringify (text t) = some t
  stringify (list items) = some (dumps (list items))
  stringify (tuple items) = some (dumps (tuple items))
  stringify (mapping fields) = some (dumps (mapping fields))
  stringify v = some (str v)

  -- `_to_float`
  unfoldable pub to_float : Value → Option F
  to_float (text t) = float_of_text t
  to_float v = number v

  -- `_to_int`
  unfoldable pub to_int : Value → Option Integer
  to_int (boolean b) = some (pos (if b then 1 else 0))
  to_int (integer n) = some n
  to_int (text t) = int_of_text t
  to_int (object o) = elim (as_float o) [ some x ↦ int_of_float x | none ↦ none ]
  to_int v = none
