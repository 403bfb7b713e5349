-- ===== src/Sidecar/Admission.antt =====
-- A workload of the mesh before a sidecar with its PDP, after any history of requests: the way in.
use zta_core.Base.{
  ℕ, String, ◌≡◌, ◌≢◌, refl, ap, ◌∙◌, Bool, true, false, Option, none, some, List, [], ◌∷◌, ◌++◌,
  ◌==◌, if◌then◌else◌, eq_iff, arith, Result, ok,
}
use zta_core.Base64.{Bytes}
use zta_core.Signed.{Codec}
use zta_core.Http.{HttpRequest, Headers, header}
use zta_core.Authzen.{profile_east_west, Request, Response, ResponseContext}
use zta_core.Token.{Claims}
use zta_core.Authzen.Encode.{wire_request}
use zta_core.Caep.Cache.{Event, Cache}
use zta_core.Caep.Cache.Laws.{StandsRevoked}
use zta_core.Pdp
use zta_core.Pdp.{Service, evaluate}
use zta_core.Pep.{
  header_subject_id, header_decision_token, Route, Outcome, allow, Platform, Config, match_route,
  build_request, request_with, subject_properties, request_context,
}
use zta_core.Pep.Check.{
  Call, validate_svid, correlation, allowed, classify, tried, try_decision_token, with_request, ask,
  check_l2, check_revoked, check_route,
}
use zta_core.Pep.Check.Unlisted.{without_list}
use zta_core.Pep.Check.Claimed.{build_request-headers}
use zta_core.Pep.Middleware.{Enforced, serve, forward, respond, respond_run, middleware}
use zta_core.Sidecar.{guarded, routes, is_event, is_health, guard_config, handle}
use zta_core.Sidecar
use zta_core.Sidecar.History.{Reach, Reach-restored}
use zta_core.Sidecar.System.{asked_at}
use zta_core.Spiffe.{Entropy, Library, Svid, Ca, mint}
use zta_core.Spiffe.Laws.{IsX509, IsAuthority}
use zta_core.Spiffe.Peer.{presented, ReadsIds, mint-check}

-- The protected handler is called.
abbrev pub Serves : Option Enforced → Type 0
Serves answer = (q : HttpRequest) × (hs : Headers) × (answer ≡ some (serve q hs))

if-serve :
    (b : Bool) (q₁ q₂ : HttpRequest) (h₁ h₂ : Headers)
    → (q : HttpRequest) × (hs : Headers) × ((if b then serve q₁ h₁ else serve q₂ h₂) ≡ serve q hs)
if-serve true q₁ q₂ h₁ h₂ = (q₁, h₁, refl)
if-serve false q₁ q₂ h₁ h₂ = (q₂, h₂, refl)

forward-serve :
    (out : Outcome) (r : HttpRequest)
    → (q : HttpRequest) × (hs : Headers) × (forward out r ≡ serve q hs)
unfolding forward
forward-serve out r = if-serve (out.decision_token == "") _ _ _ _

allowed-allow : (c : Option ResponseContext) (cid : String) → (allowed c cid).kind ≡ allow
allowed-allow none cid = refl
allowed-allow (some c) cid = refl

respond-Serves :
    (profile : String) (resp : Response) (cid : String) (r : HttpRequest)
    → resp.decision ≡ true
    → Serves (some (respond profile (classify resp cid) r))
unfolding respond classify
respond-Serves profile resp cid r said_yes =
    let (q, hs, e) = forward-serve (allowed resp.context cid) r in
    (q, hs, ap some (rw (said_yes, allowed-allow resp.context cid) e))

module _ (F : Platform) (g : Config) (ask_pdp : Request → Result Response)
    (wired : g.pdp ≡ some ask_pdp) (req : Request) (resp : Response)
    (answered : ask_pdp req ≡ ok resp) (said_yes : resp.decision ≡ true) where
  ask-Serves :
      (r : HttpRequest) (cid : String) (calls : List Call)
      → Serves (respond_run g.profile (ask F g r req cid calls))
  unfolding ask
  ask-Serves r cid calls = rw (wired, answered) (respond-Serves g.profile resp cid r said_yes)

  tried-none :
      (verifier : Option (String → Result Claims)) (cid : String)
      → (tried F verifier "" req cid) ≡ (none, [])
  tried-none none cid = refl
  tried-none (some v) cid = refl

  with_request-Serves :
      (cid : String) (calls : List Call) (made : Result Request) (left : HttpRequest)
      → made ≡ ok req
      → header header_decision_token left.headers ≡ ""
      → Serves (respond_run g.profile (with_request F g cid calls (made, left)))
  unfolding try_decision_token
  with_request-Serves cid calls made left is bare =
      rw (is, bare, tried-none g.token_verifier cid) (ask-Serves left cid (calls ++ []))

  check_route-Serves :
      (r : HttpRequest) (route : Route) (cid caller : String) (calls : List Call)
      → g.revocations ≡ none
      → match_route g.routes r.method r.path ≡ some route
      → (build_request F g r route cid caller).0 ≡ ok req
      → header header_decision_token r.headers ≡ ""
      → Serves (respond_run g.profile (check_route F g r cid caller calls))
  unfolding check_route check_revoked check_l2 ask try_decision_token build_request request_with
      subject_properties request_context
  check_route-Serves r route cid caller calls unlisted matched built bare =
      rw (matched, unlisted)
        (with_request-Serves cid calls (build_request F g r route cid caller).0
          (build_request F g r route cid caller).1 built
          (ap (header header_decision_token) (build_request-headers F g [] r route cid caller)
            ∙ bare))

module _ (P : zta_core.Pdp.Platform) (F : Platform) (s : Service) (events : Codec Event)
    (L : Library) (x509 : IsX509 L) (reads : ReadsIds L F) where
  handle-middleware :
      (pdp : zta_core.Sidecar.Pdp) (cfg : zta_core.Sidecar.Config) (now : ℕ) (random : Bytes)
      (cache : Cache) (r : HttpRequest)
      → r.path ≢ "/events"
      → r.path ≢ "/healthz"
      → handle F P.hash P.claims events pdp cfg now random cache r ≡ (
        guarded (middleware F (guard_config F P.hash P.claims events pdp cfg now cache) random r),
        cache,
      )
  unfolding handle
  handle-middleware pdp cfg now random cache r no_event no_health =
      let event : is_event F P.hash P.claims events pdp cfg r ≡ false =
        ground (arith, eq_iff r.path "/events", no_event) in
      let health : is_health F P.hash P.claims events pdp r ≡ false =
        ground (arith, eq_iff r.path "/healthz", no_health) in
      rw (event, health) refl

  -- After any sequence of requests, a workload that shows an SVID of the authority to an
  -- East-West sidecar, and asks without a decision token for a configured route (not the sidecar's own
  -- /events and /healthz), for a subject whose session no standing event revoked, gets through to
  -- the protected service if the PDP grants the request that the sidecar builds. The library of
  -- X.509 is taken to do what it documents.
  pub Reach-serves :
      (ca : Ca) (minted_at : ℕ) (e : Entropy) (id : String) (svid : Svid)
      (cfg : zta_core.Sidecar.Config) (cache : Cache) (es : List Event) (now : ℕ) (random : Bytes)
      (r : HttpRequest) (route : Route) (req : Request) (resp : Response)
      → IsAuthority L ca
      → mint L ca minted_at e id ≡ ok svid
      → r.tls ≡ some (presented svid)
      → Reach F P.hash P.claims events (asked_at P F s events now) cfg cache es
      → cfg.profile ≡ profile_east_west
      → r.path ≢ "/events"
      → r.path ≢ "/healthz"
      → ¬ StandsRevoked (header header_subject_id r.headers) es
      → match_route (routes cfg) r.method r.path ≡ some route
      → (build_request F
          (guard_config F P.hash P.claims events (asked_at P F s events now) cfg now cache)
          r
          route
          (correlation random r)
          id).0
        ≡ ok req
      → header header_decision_token r.headers ≡ ""
      → evaluate P s now (wire_request req) ≡ ok resp
      → resp.decision ≡ true
      → (q : HttpRequest) × (hs : Headers) × (handle F P.hash P.claims events
            (asked_at P F s events now)
            cfg
            now
            random
            cache
            r
          ≡ (guarded (some (serve q hs)), cache))
  unfolding guard_config build_request request_with subject_properties request_context middleware
  Reach-serves ca minted_at e id svid cfg cache es now random r route req resp auth made shown
        reached east no_event no_health in_session matched built bare answered said_yes =
      let pdp = asked_at P F s events now in
      let guard = guard_config F P.hash P.claims events pdp cfg now cache in
      let (q, hs, served) =
        check_route-Serves F (without_list guard) pdp refl req resp answered said_yes r route
          (correlation random r) id (validate_svid id ∷ []) refl matched built bare in
      (
        q,
        hs,
        handle-middleware pdp cfg now random cache r no_event no_health
            ∙ ap (λ a. (guarded a, cache))
                (Reach-restored F P.hash P.claims events pdp cfg cache es now random r reached
                    in_session
                  ∙ ap (respond_run cfg.profile) (
                      mint-check L x509 F reads ca minted_at e id svid (without_list guard) random r
                        auth made shown east refl)
                  ∙ served),
      )
