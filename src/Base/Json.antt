-- ===== src/Base/Json.antt =====
-- A parsed JSON value. A number is kept as the text that prints it; an object lists its properties
-- in order.
use mathlib.Core.Path.{◌≡◌, refl}
use mathlib.Core.Bool.{Bool, true, false}
use mathlib.Core.List.{[], ◌++◌}
use mathlib.Core.Option.{Option, none, some}
use native.Mathlib.Omega.{arith}
use bb_shared.Base.Tests.{if◌then◌else◌}
use bb_shared.Base.Strings.{Text, codes, same, same_iff}

mutual
  pub data Json : Type 0 where
    null : Json
    bool : Bool → Json
    num : Text → Json
    str : Text → Json
    arr : Items → Json
    obj : Fields → Json

  pub data Items : Type 0 where
    nil : Items
    cons : Json → Items → Items

  pub data Fields : Type 0 where
    end : Fields
    field : Text → Json → Fields → Fields

unfoldable pub get_field : Text → Fields → Option Json
get_field key end = none
get_field key (field k v fs) = if same k key then some v else get_field key fs

-- `value.key`, and `undefined` where there is no such property.
abbrev pub property : Text → Json → Option Json
property key (obj fs) = get_field key fs
property key _ = none

-- `{ ...o, key: v }`.
unfoldable pub set_field : Text → Json → Fields → Fields
set_field key v end = field key v end
set_field key v (field k w fs) = if same k key then field k v fs else field k w (set_field key v fs)

-- `const { key: _, ...rest } = o`.
unfoldable pub drop_field : Text → Fields → Fields
drop_field key end = end
drop_field key (field k w fs) =
    if same k key then drop_field key fs else field k w (drop_field key fs)

abbrev pub as_string : Option Json → Option Text
as_string (some (str s)) = some s
as_string _ = none

-- `String(value)`.
mutual
  pub json_text : Json → Text
  json_text null = codes "null"
  json_text (bool true) = codes "true"
  json_text (bool false) = codes "false"
  json_text (num s) = s
  json_text (str s) = s
  json_text (arr vs) = items_text vs
  json_text (obj fs) = codes "[object Object]"

  items_text : Items → Text
  items_text nil = []
  items_text (cons v nil) = item_text v
  items_text (cons v (cons w vs)) = item_text v ++ (codes "," ++ items_text (cons w vs))

  item_text : Json → Text
  item_text null = []
  item_text (arr vs) = items_text vs
  item_text (obj fs) = codes "[object Object]"
  item_text (bool true) = codes "true"
  item_text (bool false) = codes "false"
  item_text (num s) = s
  item_text (str s) = s

abbrev pub to_string : Option Json → Text
to_string none = codes "undefined"
to_string (some v) = json_text v

pub get_field-drop_field :
    (key j : Text) (fs : Fields)
    → get_field j (drop_field key fs) ≡ (if same key j then none else get_field j fs)
unfolding get_field drop_field
get_field-drop_field key j end = ground arith
get_field-drop_field key j (field k w fs) =
    ground (arith, same_iff key j, same_iff k key, same_iff k j, get_field-drop_field key j fs)

pub get_field-set_field :
    (key j : Text) (v : Json) (fs : Fields)
    → get_field j (set_field key v fs) ≡ (if same key j then some v else get_field j fs)
unfolding get_field set_field
get_field-set_field key j v end = refl
get_field-set_field key j v (field k w fs) =
    ground (arith, same_iff key j, same_iff k key, same_iff k j, get_field-set_field key j v fs)
