-- ===== src/Json/Render.antt =====
-- `json.Marshal` of a value: `encoding/json` with its HTML escapes, without white space.
use Prim.Native.Nat.{ℕ, ◌/◌, ◌%◌}
use Prim.Native.Char.{Char, code}
use Prim.Native.String.{slice}
use zta_core.Base.{
  String, ◌<>◌, ◌≡◌, ap, true, false, ◌||◌, ◌+◌, none, some, ltb, eqb, if◌then◌else◌,
}
use zta_core.Json.{Value, null, bool, num, str, arr, obj, Items, nil, cons, Fields, end, field, Map}
use zta_core.Json.Canon.{canon, canon_map}

hex : ℕ → String
hex n = slice "0123456789abcdef" n (n + 1)

-- One character inside a string literal.
escape : Char → String
unfolding hex
escape c =
    let n = code c in
    if eqb n b'"' || eqb n 92
    then "\\" <> (String.◌∷◌ c "")
    else if eqb n 8
    then "\\b"
    else if eqb n 12
    then "\\f"
    else if eqb n 10
    then "\\n"
    else if eqb n 13
    then "\\r"
    else if eqb n 9
    then "\\t"
    else if ltb n 32 || eqb n b'<' || eqb n b'>' || eqb n b'&'
    then "\\u00" <> hex (n / 16) <> hex (n % 16)
    else if eqb n 0x2028 || eqb n 0x2029
    then "\\u202" <> hex (n % 16)
    else String.◌∷◌ c ""

escapes : String → String
escapes String.[] = ""
escapes (String.◌∷◌ c s) = escape c <> escapes s

unfoldable pub quoted : String → String
unfolding escapes escape
quoted s = "\"" <> escapes s <> "\""

unfoldable mutual
  unfolding quoted

  pub render : Value → String
  render null = "null"
  render (bool true) = "true"
  render (bool false) = "false"
  render (num n) = n
  render (str s) = quoted s
  render (arr nil) = "[]"
  render (arr (cons v xs)) = "[" <> render v <> render_items xs <> "]"
  render (obj end) = "{}"
  render (obj (field k v m)) = "{" <> quoted k <> ":" <> render v <> render_fields m <> "}"

  pub render_items : Items → String
  render_items nil = ""
  render_items (cons v xs) = "," <> render v <> render_items xs

  pub render_fields : Fields → String
  render_fields end = ""
  render_fields (field k v m) = "," <> quoted k <> ":" <> render v <> render_fields m

-- `json.Marshal(v)`
unfoldable pub marshal : Value → String
marshal v = render (canon v)

abbrev pub render_map : Map → String
render_map none = "null"
render_map (some m) = render (obj m)

-- `json.Marshal(m)` of a `map[string]any`
unfoldable pub marshal_map : Map → String
marshal_map m = render_map (canon_map m)

-- Two maps with one canonical form have one encoding.
pub marshal_map-canon : (a b : Map) → canon_map a ≡ canon_map b → marshal_map a ≡ marshal_map b
unfolding marshal_map
marshal_map-canon a b h = ap render_map h
