-- ===== src/Engine/Compile.antt =====
-- authz/engine/opa.go and authz/engine/bundle.go: the two ways to an engine. OPA's preparation of a
-- query and its reader of bundles are parameters; a map is the list of its entries.
pub mod Laws
use zta_core.Base.{
  String, List, [], ◌∷◌, ◌==◌, if◌then◌else◌, message, Result, ok, err, ◌>>=◌, wrap,
}
use zta_core.Base64.{Bytes}
use zta_core.Json.{Value}
use zta_core.Engine.{ResultSet, Decision, eval}
use zta_core.Services.{assign}

abbrev pub default_decision_query : String
default_decision_query = "data.vsp.authz.decision"

-- A bundle as it is read: the modules by path, and the base document.
pub record BundleContent : Type 0 where
  pub modules : List (String × String)
  pub base : List (String × Value)

pub record Opa : Type 0 where
  -- `rego.New` of a query, a store and modules, and `PrepareForEval`: the prepared evaluation
  pub prepare :
      String → List (String × Value) → List (String × String) → Result (Value → Result ResultSet)
  -- `bundle.NewReader(bytes.NewReader(tarball)).Read()`
  pub read_bundle : Bytes → Result BundleContent

-- `modules[m.Path] = string(m.Raw)` for each module
unfoldable pub by_path : List (String × String) → List (String × String) → List (String × String)
by_path [] mods = mods
by_path ((path, raw) ∷ ms) mods = by_path ms (assign path raw mods)

module _ (O : Opa) where
  -- `New`
  unfoldable pub new_engine :
      List (String × String) → List (String × Value) → String → Result (Value → Result Decision)
  new_engine modules base query_path = do
    let query = if query_path == "" then default_decision_query else query_path
    pq ← wrap "engine: preparing query" (O.prepare query base modules)
    ok (eval pq)

  abbrev pub from_modules :
      List (String × Value) → String → List (String × String) → Result (Value → Result Decision)
  from_modules base query_path [] = err (message "engine: bundle contains no policy modules")
  from_modules base query_path (m ∷ ms) = new_engine (m ∷ ms) base query_path

  -- `NewFromBundle`
  unfoldable pub new_from_bundle : Bytes → String → Result (Value → Result Decision)
  new_from_bundle tarball query_path = do
    b ← wrap "engine: reading bundle" (O.read_bundle tarball)
    from_modules b.base query_path (by_path b.modules [])
