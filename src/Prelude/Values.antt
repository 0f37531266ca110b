-- ===== src/Prelude/Values.antt =====
-- The values that `json.loads` returns. A float is held by its exact value, or as infinite or NaN.
use mathlib.Core.Bool.{Bool, true, false, not}
use mathlib.Core.Option.{Option, none, some}
use homtech_hub.Prelude.Tests.{◌==◌, if◌then◌else◌}
use homtech_hub.Prelude.Strings.{Text, text_eq, is_empty}
use homtech_hub.Prelude.Int.{ℤ, pos, negsuc}
use homtech_hub.Prelude.Decimals.{Decimal, finite}

mutual
  pub data Json : Type 0 where
    null : Json
    boolean : Bool → Json
    integer : ℤ → Json
    -- a float, as the decimal that its `str` prints
    real : Decimal → Json
    string : Text → Json
    array : Items → Json
    object : Fields → Json

  pub data Items : Type 0 where
    no_items : Items
    item : Json → Items → Items

  pub data Fields : Type 0 where
    no_fields : Fields
    field : Text → Json → Fields → Fields

-- `payload.get(key)`
unfoldable pub get_field : Text → Fields → Option Json
get_field k no_fields = none
get_field k (field j v rest) = if text_eq j k then some v else get_field k rest

abbrev pub is_bool : Option Json → Bool
is_bool (some (boolean _)) = true
is_bool _ = false

abbrev pub is_true : Option Json → Bool
is_true (some (boolean b)) = b
is_true _ = false

-- `type(v) is int`
abbrev pub is_int : Option Json → Bool
is_int (some (integer _)) = true
is_int _ = false

-- `bool(fields)` of a dict
abbrev pub has_fields : Fields → Bool
has_fields no_fields = false
has_fields (field _ _ _) = true

abbrev pub is_zero : ℤ → Bool
is_zero (pos n) = n == 0
is_zero (negsuc _) = false

-- `bool(value)`
abbrev pub truthy : Json → Bool
truthy null = false
truthy (boolean b) = b
truthy (integer n) = not (is_zero n)
truthy (real (finite c _)) = not (is_zero c)
truthy (real _) = true
truthy (string t) = not (is_empty t)
truthy (array no_items) = false
truthy (array (item _ _)) = true
truthy (object no_fields) = false
truthy (object (field _ _ _)) = true

-- `data.get(key) or default`, where the default is falsy too
abbrev pub present : Option Json → Option Json
present none = none
present (some v) = if truthy v then some v else none

-- `{**fields, key: value}`
unfoldable pub set_field : Text → Json → Fields → Fields
set_field k v no_fields = field k v no_fields
set_field k v (field j w rest) =
    if text_eq j k then field k v rest else field j w (set_field k v rest)
