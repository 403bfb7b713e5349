-- ===== src/Policies.antt =====
-- policies/policies.go: the embedded policies. The embedded file system is given by the entries that
-- `fs.WalkDir` visits, in its order, and by the files that can be read; a map is a list of entries.
pub mod Laws
use zta_core.Base.{
  String, Bool, true, false, not, ◌&&◌, Option, none, some, List, [], ◌∷◌, if◌then◌else◌, message,
  Error, Result, ok, err, ◌>>=◌, wrap, or_message,
}
use zta_core.Base.Text.{has_suffix}
use zta_core.Json.{Value, Fields}
use zta_core.Services.{assign}

-- What the function given to `fs.WalkDir` is called with.
pub record Entry : Type 0 where
  pub path : String
  pub is_dir : Bool
  pub error : Option Error

-- `embed.FS`
pub record Embedded : Type 0 where
  pub entries : List Entry
  pub read_file : String → Result String

abbrev pub Modules : Type 0
Modules = List (String × String)

-- Whether a file is part of the decision bundle.
unfoldable pub is_module : String → Bool
is_module path = has_suffix path ".rego" && not (has_suffix path "_test.rego")

abbrev pub with_module : String → Modules → Result String → Result Modules
with_module path mods (err e) = err e
with_module path mods (ok b) = ok (assign path b mods)

module _ (read_file : String → Result String) where
  -- The function that is given to `fs.WalkDir`.
  abbrev pub visit : Entry → Modules → Result Modules
  visit entry mods = elim entry.error [
    | some e ↦ err e
    | none ↦
        if not entry.is_dir && is_module entry.path
        then with_module entry.path mods (read_file entry.path)
        else ok mods
  ]

  unfoldable pub walk : List Entry → Modules → Result Modules
  walk [] mods = ok mods
  walk (entry ∷ entries) mods = visit entry mods >>= walk entries

abbrev pub some_module : Modules → Result Modules
some_module [] = err (message "policies: no .rego modules embedded")
some_module (m ∷ mods) = ok (m ∷ mods)

-- `Modules`
unfoldable pub modules : Embedded → Result Modules
modules bundle = do
  mods ← wrap "policies: walking bundle" (walk bundle.read_file bundle.entries [])
  some_module mods

-- `Data`; `unmarshal` is `json.Unmarshal` into a map.
unfoldable pub base_data :
    (String → Option (List (String × Value))) → Embedded → Result (List (String × Value))
base_data unmarshal bundle = do
  b ← wrap "policies: reading data.json" (bundle.read_file "data.json")
  or_message "policies: parsing data.json" (unmarshal b)
