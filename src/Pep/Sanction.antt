-- ===== src/Pep/Sanction.antt =====
-- The PEP with its PDP: what the PDP granted, now or when the token that is presented was minted.
use mathlib.Core.Option.{some-injective}
use zta_core.Base.{ℕ, String, ◌≡◌, sym, ap, ◌∙◌, ◌⊎◌, inl, inr, true, some, Result, ok}
use zta_core.Base64.{Bytes}
use zta_core.Http.{HttpRequest, header}
use zta_core.Authzen.{Request, Response}
use zta_core.Authzen.Encode.{wire_request}
use zta_core.Token.{Claims, Issuer, verify}
use zta_core.Token.Laws.{verify-eq-ok}
use zta_core.Pdp
use zta_core.Pdp.{Service, claims_for, evaluate}
use zta_core.Pdp.Laws.{Justified, evaluate-Justified}
use zta_core.Pep.{header_decision_token, allow, Platform, Route, Config, match_route, build_request}
use zta_core.Pep.Check.{Run, correlation, check}
use zta_core.Pep.Check.Grounds.{Built}
use zta_core.Pep.Check.Soundness.{Permitted, check-Permitted, caller_of}
use zta_core.Pep.Genuine.{IsGenuine, GrantedBefore, SignedBody-claims, covered-GrantedBefore}

module _ (P : zta_core.Pdp.Platform) (F : Platform) (s : Service) where
  -- The PDP answered a request with yes.
  abbrev pub Granted : ℕ → Request → Type 0
  Granted at sent =
      (resp : Response) × (evaluate P s at sent ≡ ok resp)
      × (resp.decision ≡ true)
      × Justified P s at sent resp

  -- A decision that a permitted request rests on is the PDP's.
  Built-Granted :
      (cfg : Config) (j : Issuer) (now : ℕ) (r : HttpRequest) (route : Route) (cid caller : String)
      → cfg.pdp ≡ some (λ req. evaluate P s now (wire_request req))
      → ((v : String → Result Claims)
          → cfg.token_verifier ≡ some v
          → v ≡ verify P.hash P.claims j now)
      → F.hash ≡ P.hash
      → IsGenuine P F s now j.secret (header header_decision_token r.headers)
      → Built F cfg r route cid caller
      → (req : Request) × ((build_request F cfg r route cid caller).0 ≡ ok req)
        × (Granted now (wire_request req)
            ⊎ GrantedBefore P F s now (header header_decision_token r.headers) req)
  Built-Granted cfg j now r route cid caller wired verified hash genuine (req, made, decided) = (
    req,
    made,
    elim decided [
      | inl (pdp, resp, is, answered, said_yes) ↦
          let asked : evaluate P s now (wire_request req) ≡ ok resp =
            ap (λ (f : Request → Result Response). f req) (some-injective _ _ (sym wired ∙ is))
            ∙ answered in
          inl (resp, asked, said_yes, evaluate-Justified P s now _ resp asked)
      | inr (verifier, c, is, accepted, covers) ↦
          let checked : verify P.hash P.claims j now (header header_decision_token r.headers)
              ≡ ok c =
            ap (λ (f : String → Result Claims). f (header header_decision_token r.headers))
              (sym (verified verifier is))
            ∙ accepted in
          let (body, sig, payload, parted, signed, opened, read, alive) =
            verify-eq-ok P.hash P.claims j now (header header_decision_token r.headers) c checked in
          let b = genuine body sig parted signed in
          inr (
            covered-GrantedBefore P F s now _ body sig c req b hash parted
              (SignedBody-claims P F s now body payload c b opened read) alive covers)
    ],
  )

  -- The same for a request that is permitted, with its route.
  pub Permitted-Granted :
      (cfg : Config) (j : Issuer) (now : ℕ) (random : Bytes) (r : HttpRequest)
      → cfg.pdp ≡ some (λ req. evaluate P s now (wire_request req))
      → ((v : String → Result Claims)
          → cfg.token_verifier ≡ some v
          → v ≡ verify P.hash P.claims j now)
      → F.hash ≡ P.hash
      → IsGenuine P F s now j.secret (header header_decision_token r.headers)
      → Permitted F cfg random r
      → (route : Route) × (req : Request) × (match_route cfg.routes r.method r.path ≡ some route)
        × ((build_request F cfg r route (correlation random r) (caller_of F cfg r)).0 ≡ ok req)
        × (Granted now (wire_request req)
            ⊎ GrantedBefore P F s now (header header_decision_token r.headers) req)
  Permitted-Granted cfg j now random r wired verified hash genuine v =
      let (req, made, granted) =
        Built-Granted cfg j now r v.route (correlation random r) (caller_of F cfg r) wired verified
          hash genuine v.decided in
      (v.route, req, v.matched, made, granted)

  -- With the PDP over HTTP and its tokens verified under its secret, a request that the PEP allows has
  -- a route of the PEP's and was granted by the PDP: this very request now, or, with the grant that
  -- minted the presented token's body, a request of the same subject, action, resource and digest of
  -- properties, at no higher assurance level, before and not longer ago than a token lives. Provided
  -- that the PEP and the PDP have one hash, and that a presented token with a right mac has its body
  -- from the PDP, which signed it before.
  pub check-Granted :
      (cfg : Config) (j : Issuer) (now : ℕ) (random : Bytes) (r : HttpRequest) (run : Run)
      → cfg.pdp ≡ some (λ req. evaluate P s now (wire_request req))
      → cfg.token_verifier ≡ some (verify P.hash P.claims j now)
      → F.hash ≡ P.hash
      → IsGenuine P F s now j.secret (header header_decision_token r.headers)
      → check F cfg random r ≡ some run
      → run.outcome.kind ≡ allow
      → (route : Route) × (req : Request) × (match_route cfg.routes r.method r.path ≡ some route)
        × ((build_request F cfg r route (correlation random r) (caller_of F cfg r)).0 ≡ ok req)
        × (Granted now (wire_request req)
            ⊎ GrantedBefore P F s now (header header_decision_token r.headers) req)
  check-Granted cfg j now random r run wired verified hash genuine h allowed =
      Permitted-Granted cfg j now random r wired (λ v is. some-injective _ _ (sym is ∙ verified))
        hash genuine (check-Permitted F cfg random r run h allowed)
