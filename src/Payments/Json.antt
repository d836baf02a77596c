-- ===== src/Payments/Json.antt =====
-- What json.Unmarshal stores in an interface, for apps/api-server/internal/payment/webhook.go: of the values
-- of a document those of objects are looked up. A number is a float64, written here as its text.
use text.Mathlib.Text.{◌==◌ as str_eq}
use telecom_platform.Base.{Bool, Option, none, some, String, if◌then◌else◌, ℤ}

mutual
  pub data Json : Type 0 where
    null : Json
    boolean : Bool → Json
    float : String → Json
    str : String → Json
    array : Items → Json
    object : Fields → Json

  pub data Items : Type 0 where
    nil : Items
    cons : Json → Items → Items

  pub data Fields : Type 0 where
    end : Fields
    field : String → Json → Fields → Fields

-- `m[key]`
unfoldable pub get : String → Fields → Option Json
get key end = none
get key (field k value fields) = if str_eq k key then some value else get key fields

-- `v.(map[string]any)`
unfoldable pub as_object : Option Json → Option Fields
as_object (some (object fields)) = some fields
as_object none = none
as_object (some null) = none
as_object (some (boolean b)) = none
as_object (some (float x)) = none
as_object (some (str s)) = none
as_object (some (array items)) = none

-- `v.(string)`
unfoldable pub as_text : Option Json → Option String
as_text (some (str s)) = some s
as_text none = none
as_text (some null) = none
as_text (some (boolean b)) = none
as_text (some (float x)) = none
as_text (some (array items)) = none
as_text (some (object fields)) = none

-- `v.(int64)`: no decoded value is of that type, a number being a float64.
unfoldable pub as_int64 : Option Json → Option ℤ
as_int64 none = none
as_int64 (some null) = none
as_int64 (some (boolean b)) = none
as_int64 (some (float x)) = none
as_int64 (some (str s)) = none
as_int64 (some (array items)) = none
as_int64 (some (object fields)) = none
