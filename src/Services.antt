-- ===== src/Services.antt =====
-- services/pdp.go: how the PDP is put together. The embedded policies, the compilation of modules
-- and the loading of a bundle are parameters; a map is the list of its entries.
pub mod Laws
pub mod Tls
pub mod Handler
use zta_core.Base.{
  ℕ, String, Option, none, some, List, [], ◌∷◌, ◌==◌, eqb, if◌then◌else◌, Result, ok, err, ◌>>=◌,
}
use zta_core.Base64.{Bytes}
use zta_core.Json.{Value}
use zta_core.Pdp.{Engine, Service}

module _ {A : Type 0} where
  -- `m[k]`
  unfoldable pub find : String → List (String × A) → Option A
  find k [] = none
  find k ((j, a) ∷ m) = let rest = find k m in if j == k then some a else rest

  -- `m[k] = a`
  unfoldable pub assign : String → A → List (String × A) → List (String × A)
  assign k a [] = (k, a) ∷ []
  assign k a ((j, b) ∷ m) = let rest = assign k a m in if j == k then (k, a) ∷ m else (j, b) ∷ rest

  -- `for k, v := range extra { base[k] = v }`
  unfoldable pub layer : List (String × A) → List (String × A) → List (String × A)
  layer [] base = base
  layer ((k, a) ∷ extra) base = layer extra (assign k a base)

-- `PDPConfig`; a lifetime is in nanoseconds and not negative.
pub record PdpConfig : Type 0 where
  pub token_secret : String
  pub token_ttl : ℕ
  pub bundle : Bytes
  pub extra_modules : List (String × String)
  pub extra_data : List (String × Value)

module _ (from_bundle : Bytes → Result Engine)
    (compile : List (String × String) → List (String × Value) → Result Engine)
    (modules : Result (List (String × String))) (base_data : Result (List (String × Value))) where
  abbrev pub engine_of : PdpConfig → Bytes → Result Engine
  engine_of cfg (b ∷ bs) = from_bundle (b ∷ bs)
  engine_of cfg [] = do
    mods ← modules
    data_of ← base_data
    compile (layer cfg.extra_modules mods) (layer cfg.extra_data data_of)

  abbrev pub lifetime : ℕ → ℕ
  lifetime ttl = if eqb ttl 0 then 300000000000 else ttl

  -- `PDPService`
  unfoldable pub pdp_service : PdpConfig → Result Service
  pdp_service cfg = do
    eng ← engine_of cfg cfg.bundle
    ok (record {
      engine = eng;
      issuer = record { secret = cfg.token_secret; ttl = lifetime cfg.token_ttl };
    })
