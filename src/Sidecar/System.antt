-- ===== src/Sidecar/System.antt =====
-- The whole enforcement path: a sidecar with its PDP, after any history of requests.
use mathlib.Core.Option.{some-injective}
use zta_core.Base.{
  ℕ, String, ◌≡◌, ◌≢◌, refl, sym, ap, subst, ◌∙◌, ◌⊎◌, inl, inr, Bool, true, some, List, ◌==◌,
  starts_with, arith, Result, ok, Bool-cases, Option-cases, ok-injective,
}
use zta_core.Base64.{Bytes}
use zta_core.Signed.{Codec}
use zta_core.Json.{or_empty}
use zta_core.Http.{HttpRequest, Headers, header}
use zta_core.Authzen.{profile_east_west, Request}
use zta_core.Authzen.Encode.{wire_request}
use zta_core.Token.{Claims, verify}
use zta_core.Caep.Cache.{Event, Cache, is_revoked}
use zta_core.Caep.Cache.Laws.{StandsRevoked, is_revoked_iff}
use zta_core.Pdp
use zta_core.Pdp.{Service, evaluate}
use zta_core.Pep.{
  header_subject_id, header_decision_token, Route, Platform, cert_identity, peer_identity,
  match_route, build_request,
}
use zta_core.Pep.Check.{correlation}
use zta_core.Pep.Check.Soundness.{Permitted}
use zta_core.Pep.Middleware.{serve}
use zta_core.Pep.Middleware.Laws.{middleware-serve}
use zta_core.Pep.Genuine.{GrantedBefore, IsGenuine}
use zta_core.Pep.Sanction.{Granted, Permitted-Granted}
use zta_core.Sidecar.{Config, Pdp, guarded, routes, verifier, validate_svid, guard_config, handle}
use zta_core.Sidecar.History.{Reach, Reach-apply_all}
use zta_core.Sidecar.Laws.{handle_listed, handle-guarded}

module _ (F : Platform) where
  -- Where the peer's SVID is required, an identity is that of the certificate.
  peer_identity-cert :
      (cfg : zta_core.Pep.Config) (r : HttpRequest) (id : String)
      → cfg.require_peer_svid ≡ true
      → peer_identity F cfg r ≡ some id
      → cert_identity F r.tls ≡ some id
  unfolding peer_identity
  peer_identity-cert cfg r id required h = elim (Option-cases (cert_identity F r.tls)) [
    | inr (own, e) ↦ e ∙ (rw (e, peer_identity) at h)
    | inl e ↦ absurd (ground (arith, h, e, required))
  ]

validate_svid-spiffe :
    (id : String) → validate_svid id ≡ ok true → starts_with id "spiffe://" ≡ true
unfolding validate_svid
validate_svid-spiffe id h = ok-injective _ _ h

module _ (P : zta_core.Pdp.Platform) (F : Platform) (s : Service) (events : Codec Event) where
  -- The PDP of a service, asked over HTTP at a time.
  abbrev pub asked_at : ℕ → Pdp
  asked_at now req = evaluate P s now (wire_request req)

  verifier-verify :
      (cfg : Config) (now : ℕ) (v : String → Result Claims)
      → verifier F P.hash P.claims events (asked_at now) now cfg ≡ some v
      → v ≡ verify P.hash P.claims (record { secret = cfg.token_secret; ttl = 60000000000 }) now
  verifier-verify cfg now v h = elim (Bool-cases (cfg.token_secret == "")) [
    | inl off ↦ absurd (ground (arith, h, off))
    | inr on ↦ sym (some-injective _ _ (rw on at h))
  ]

  -- Who may reach the protected service, of the sidecar's guard at a time.
  pub record Sanctioned (cfg : Config) (now : ℕ) (random : Bytes) (cache : Cache) (es : List Event)
      (r : HttpRequest) : Type 0 where
    pub caller : String
    pub certified : cert_identity F r.tls ≡ some caller
    pub spiffe : starts_with caller "spiffe://" ≡ true
    pub in_session : ¬ StandsRevoked (header header_subject_id r.headers) es
    pub route : Route
    pub matched : match_route (routes cfg) r.method r.path ≡ some route
    pub req : Request
    pub built :
        (build_request F
          (guard_config F P.hash P.claims events (asked_at now) cfg now cache)
          r
          route
          (correlation random r)
          caller).0
        ≡ ok req
    pub granted :
        Granted P F s now (wire_request req)
        ⊎ GrantedBefore P F s now (header header_decision_token r.headers) req

  -- At a sidecar of the East-West profile that requires the peer's SVID and hears CAEP events,
  -- after any sequence of requests, only a sanctioned request of those that name their subject
  -- reaches the protected service: the caller is the SPIFFE identity of its certificate, no
  -- accepted event stands that revoked the session of the subject, the route is configured, and
  -- the PDP granted this request now, or, with the grant that minted the presented token's body, a
  -- request of the same subject, action, resource and digest of properties, at no higher assurance
  -- level, before and not longer ago than a token lives. Provided that the sidecar asks the PDP over
  -- HTTP and has its hash, and that a presented token with a right mac has its body from the PDP,
  -- which signed it before.
  pub Reach-Sanctioned :
      (cfg : Config) (earlier : Pdp) (cache : Cache) (es : List Event) (now : ℕ) (random : Bytes)
      (r q : HttpRequest) (hs : Headers)
      → Reach F P.hash P.claims events earlier cfg cache es
      → cfg.profile ≡ profile_east_west
      → cfg.require_peer_svid ≡ true
      → cfg.caep_secret ≢ ""
      → header header_subject_id r.headers ≢ ""
      → F.hash ≡ P.hash
      → IsGenuine P F s now cfg.token_secret (header header_decision_token r.headers)
      → (handle F P.hash P.claims events (asked_at now) cfg now random cache r).0
        ≡ guarded (some (serve q hs))
      → Sanctioned cfg now random cache es r
  unfolding guard_config
  Reach-Sanctioned cfg earlier cache es now random r q hs reached east required enabled named hash
        genuine h =
      let guard = guard_config F P.hash P.claims events (asked_at now) cfg now cache in
      let v : Permitted F guard random r =
        middleware-serve F guard random r q hs
          (handle-guarded F P.hash P.claims events (asked_at now) cfg now random cache r q hs h) in
      let (id, validate, is_id, at, valid) = v.attested east in
      let attested : validate_svid id ≡ ok true =
        ap (λ (f : String → Result Bool). f id) (some-injective _ _ at) ∙ valid in
      let (route, req, matched, built, granted) =
        Permitted-Granted P F s guard (record { secret = cfg.token_secret; ttl = 60000000000 }) now
          random r refl (verifier-verify cfg now) hash genuine v in
      record {
        caller = id;
        certified = peer_identity-cert F guard r id required is_id;
        spiffe = validate_svid-spiffe id attested;
        in_session = λ stands.
            handle_listed F P.hash P.claims events (asked_at now) cfg now random cache r q hs
              enabled named
              (ap (λ x. is_revoked x (header header_subject_id r.headers))
                  (Reach-apply_all F P.hash P.claims events earlier cfg reached)
                ∙ (is_revoked_iff (header header_subject_id r.headers) es).1 stands)
              h;
        route = route;
        matched = matched;
        req = req;
        built =
            subst (λ c. (build_request F guard r route (correlation random r) c).0 ≡ ok req)
              (ap or_empty is_id) built;
        granted = granted;
      }
