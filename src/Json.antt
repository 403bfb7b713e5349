-- ===== src/Json.antt =====
-- The values of `encoding/json` decoded into Go's `any`, and the Go maps `map[string]any` that
-- hold them (the open `properties` and `context` objects of authz/authzen/types.go).
--
-- A number is kept as the text that the encoder prints for it. A map is the list of its entries;
-- `none` is the nil map, which reads as empty and encodes as `null`. Every entry here is a JSON
-- value, so the encoder's errors on channels, functions and NaN have no counterpart.
pub mod Order
pub mod Canon
pub mod Render
use zta_core.Base.{String, Bool, Option, none, some, ◌==◌, if◌then◌else◌}

mutual
  pub data Value : Type 0 where
    null : Value
    bool : Bool → Value
    num : String → Value
    str : String → Value
    arr : Items → Value
    obj : Fields → Value

  pub data Fields : Type 0 where
    end : Fields
    field : String → Value → Fields → Fields

  pub data Items : Type 0 where
    nil : Items
    cons : Value → Items → Items

abbrev pub Map : Type 0
Map = Option Fields

-- `m[k]` with its presence, on a map that is not nil
unfoldable pub get : String → Fields → Option Value
get k end = none
get k (field j v m) = let rest = get k m in if j == k then some v else rest

-- `m[k] = v`
unfoldable pub put : String → Value → Fields → Fields
put k v end = field k v end
put k v (field j w m) = let rest = put k v m in if j == k then field k v m else field j w rest

-- A read of a nil map finds nothing.
abbrev pub lookup : String → Map → Option Value
lookup k none = none
lookup k (some m) = get k m

-- `v, ok := x.(string)`
abbrev pub as_string : Option Value → Option String
as_string (some (str s)) = some s
as_string _ = none

-- `v, ok := x.(map[string]any)`
abbrev pub as_map : Option Value → Option Fields
as_map (some (obj m)) = some m
as_map _ = none

-- `v, ok := x.(bool)`
abbrev pub as_bool : Option Value → Option Bool
as_bool (some (bool b)) = some b
as_bool _ = none

-- `v, ok := x.([]any)`
abbrev pub as_items : Option Value → Option Items
as_items (some (arr xs)) = some xs
as_items _ = none

-- `s, _ := x.(string)`
abbrev pub or_empty : Option String → String
or_empty none = ""
or_empty (some s) = s

-- `if v, ok := m[k].(string); ok { return v }; return ""`
abbrev pub string_at : String → Map → String
string_at k m = or_empty (as_string (lookup k m))
