-- ===== src/Value.antt =====
-- The dynamic values that the program passes around as `object`: event payloads, configuration and
-- inspection replies. Its sets, tuples and lists are three constructors, as `isinstance` tells them
-- apart.
use celery_cnc.Base.{ℕ, String, Bool, true, false}
use celery_cnc.Base.{◌==◌, string_eq, if◌then◌else◌}

pub data Integer : Type 0 where
  pos : ℕ → Integer
  negsuc : ℕ → Integer

mutual
  pub data Value : Type 0 where
    null : Value
    boolean : Bool → Value
    integer : Integer → Value
    text : String → Value
    list : Items → Value
    tuple : Items → Value
    set : Items → Value
    mapping : Fields → Value
    -- Any other object, a float included.
    object : ℕ → Value

  pub data Items : Type 0 where
    nil : Items
    cons : Value → Items → Items

  -- The entries of a mapping with text keys, in order.
  pub data Fields : Type 0 where
    end : Fields
    field : String → Value → Fields → Fields

-- `d.get(key)`; a key that is not there reads as `None`.
unfoldable pub get : String → Fields → Value
get key end = null
get key (field k v rest) = if key == k then v else get key rest

-- `key in d`
unfoldable pub has_key : String → Fields → Bool
has_key key end = false
has_key key (field k v rest) = if key == k then true else has_key key rest

abbrev pub items_length : Items → ℕ
items_length nil = 0
items_length (cons x xs) = ℕ.suc (items_length xs)

abbrev pub is_null : Value → Bool
is_null null = true
is_null v = false

-- `bool(value)`. Objects are taken as true: the float 0.0 is not among the modelled uses.
unfoldable pub truthy : Value → Bool
truthy null = false
truthy (boolean b) = b
truthy (integer (pos ℕ.zero)) = false
truthy (integer n) = true
truthy (text t) = if t == "" then false else true
truthy (list nil) = false
truthy (tuple nil) = false
truthy (set nil) = false
truthy (mapping end) = false
truthy v = true

-- `a or b`
abbrev pub or_value : Value → Value → Value
or_value a b = if truthy a then a else b
