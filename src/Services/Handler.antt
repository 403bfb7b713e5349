-- ===== src/Services/Handler.antt =====
-- services/pdp.go: `PDPHandler`, the HTTP facade over the decision core. The decoder of the facade and
-- the clock are parameters.
use zta_core.Base.{ℕ, String, List, Result, ok, ◌>>=◌}
use zta_core.Base64.{Bytes}
use zta_core.Json.{Value}
use zta_core.Http.{Body, Reply}
use zta_core.Pdp.{Platform, Engine, evaluate}
use zta_core.Api.{Decoded, handle_evaluation}
use zta_core.Services.{PdpConfig, pdp_service}

module _ (P : Platform) (decode : Body → Decoded) (from_bundle : Bytes → Result Engine)
    (compile : List (String × String) → List (String × Value) → Result Engine)
    (modules : Result (List (String × String))) (base_data : Result (List (String × Value))) where
  -- `PDPHandler`: what it answers to the body of an evaluation request at a time
  unfoldable pub pdp_handler : PdpConfig → Result (ℕ → Body → Reply)
  pdp_handler cfg = do
    svc ← pdp_service from_bundle compile modules base_data cfg
    ok (λ now body. handle_evaluation decode (evaluate P svc now) body)
