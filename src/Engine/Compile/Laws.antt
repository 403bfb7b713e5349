-- ===== src/Engine/Compile/Laws.antt =====
-- authz/engine/opa.go and authz/engine/bundle.go: what an engine is compiled from.
use zta_core.Base.{
  String, ◌≡◌, ◌≢◌, refl, sym, ◌∙◌, inl, inr, Option, none, some, List, [], ◌∷◌, ◌==◌, arith,
  if◌then◌else◌, Bool-cases, Result, ok, wrap, wrap-eq-ok, >>=-elim, ok-injective,
}
use zta_core.Base64.{Bytes}
use zta_core.Json.{Value}
use zta_core.Engine.{ResultSet, Decision, eval}
use zta_core.Engine.Compile.{
  default_decision_query, BundleContent, Opa, by_path, new_engine, from_modules, new_from_bundle,
}
use zta_core.Services.{find, assign}
use zta_core.Services.Laws.{over, IsDistinct, find-assign, assign-IsDistinct}

-- The last of the modules of a path.
abbrev pub last_of : String → List (String × String) → Option String
last_of path [] = none
last_of path ((p, raw) ∷ ms) = over (last_of path ms) (if p == path then some raw else none)

find-by_path :
    (path : String) (ms mods : List (String × String))
    → find path (by_path ms mods) ≡ over (last_of path ms) (find path mods)
unfolding by_path
find-by_path path [] mods = refl
find-by_path path ((p, raw) ∷ ms) mods = elim (Bool-cases (p == path)) [
  | inl e ↦ ground (arith, find-by_path path ms (assign p raw mods), find-assign path p raw mods)
  | inr e ↦ ground (arith, find-by_path path ms (assign p raw mods), find-assign path p raw mods)
]

by_path-IsDistinct :
    (ms mods : List (String × String)) → IsDistinct mods → IsDistinct (by_path ms mods)
unfolding by_path
by_path-IsDistinct [] mods d = d
by_path-IsDistinct ((p, raw) ∷ ms) mods d =
    by_path-IsDistinct ms (assign p raw mods) (assign-IsDistinct p raw mods d)

module _ (O : Opa) where
  -- An engine that reads its decisions from OPA's evaluation of the decision query, over these modules
  -- and this data.
  pub record Compiled (modules : List (String × String)) (base : List (String × Value))
      (engine : Value → Result Decision) : Type 0 where
    pub evaluation : Value → Result ResultSet
    pub prepared : O.prepare "data.vsp.authz.decision" base modules ≡ ok evaluation
    pub reads : engine ≡ eval evaluation

  -- An engine of the modules of a bundle, each path once and with its last text, of no other module, and
  -- of the bundle's data.
  pub record OfBundle (tarball : Bytes) (engine : Value → Result Decision) : Type 0 where
    pub found : BundleContent
    pub unpacked : O.read_bundle tarball ≡ ok found
    pub modules : List (String × String)
    pub each : (path : String) → find path modules ≡ last_of path found.modules
    pub once : IsDistinct modules
    pub filled : modules ≢ []
    pub compiled : Compiled modules found.base engine

  pub new_engine-Compiled :
      (modules : List (String × String)) (base : List (String × Value))
      (engine : Value → Result Decision)
      → new_engine O modules base default_decision_query ≡ ok engine
      → Compiled modules base engine
  unfolding new_engine
  new_engine-Compiled modules base engine h =
      >>=-elim (wrap "engine: preparing query" (O.prepare "data.vsp.authz.decision" base modules)) _
        h
        λ pq h_pq made. record {
          evaluation = pq;
          prepared = wrap-eq-ok _ _ h_pq;
          reads = sym (ok-injective _ _ made);
        }

  from_modules-eq-ok :
      (modules : List (String × String)) (base : List (String × Value))
      (engine : Value → Result Decision)
      → from_modules O base default_decision_query modules ≡ ok engine
      → (modules ≢ []) × (new_engine O modules base default_decision_query ≡ ok engine)
  from_modules-eq-ok [] base engine h = absurd (cc)
  from_modules-eq-ok (m ∷ ms) base engine h = (filled, h)
    where
      filled : ◌≢◌ {A = List (String × String)} (m ∷ ms) []
      filled e = cc

  pub new_from_bundle-OfBundle :
      (tarball : Bytes) (engine : Value → Result Decision)
      → new_from_bundle O tarball default_decision_query ≡ ok engine
      → OfBundle tarball engine
  unfolding new_from_bundle find
  new_from_bundle-OfBundle tarball engine h =
      >>=-elim (wrap "engine: reading bundle" (O.read_bundle tarball)) _ h λ b h_b made.
        let (filled, compiled) = from_modules-eq-ok (by_path b.modules []) b.base engine made in
        record {
          found = b;
          unpacked = wrap-eq-ok _ _ h_b;
          modules = by_path b.modules [];
          each = λ path. find-by_path path b.modules [] ∙ over-none (last_of path b.modules);
          once = by_path-IsDistinct b.modules [] tt;
          filled = filled;
          compiled = new_engine-Compiled (by_path b.modules []) b.base engine compiled;
        }
    where
      over-none : (o : Option String) → over o none ≡ o
      over-none none = refl
      over-none (some raw) = refl
