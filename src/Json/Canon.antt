-- ===== src/Json/Canon.antt =====
-- The encoder sorts the keys of every map: `canon` puts the entries of a value, at every depth,
-- in the order in which `encoding/json` writes them.
pub mod Laws
pub mod Content
use mathlib.Core.Option
use zta_core.Base.{String, if◌then◌else◌}
use zta_core.Json.{Value, null, bool, num, str, arr, obj, Items, nil, cons, Fields, end, field, Map}
use zta_core.Json.Order.{before}

-- insertion before the first entry whose key does not come earlier
unfoldable pub place : String → Value → Fields → Fields
place k v end = field k v end
place k v (field j w m) =
    let rest = place k v m in if before j k then field j w rest else field k v (field j w m)

unfoldable mutual
  pub canon : Value → Value
  canon null = null
  canon (bool b) = bool b
  canon (num n) = num n
  canon (str s) = str s
  canon (arr xs) = arr (canon_items xs)
  canon (obj m) = obj (canon_fields m)

  pub canon_items : Items → Items
  canon_items nil = nil
  canon_items (cons v xs) = cons (canon v) (canon_items xs)

  pub canon_fields : Fields → Fields
  canon_fields end = end
  canon_fields (field k v m) = place k (canon v) (canon_fields m)

abbrev pub canon_map : Map → Map
canon_map = Option.map canon_fields
