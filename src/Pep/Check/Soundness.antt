-- ===== src/Pep/Check/Soundness.antt =====
-- What stands behind a request that the PEP allows.
use mathlib.Core.Option.{some-injective}
use zta_core.Base.{
  String, Bool, true, false, ◌≡◌, ◌≢◌, refl, sym, ap, subst, ◌∙◌, inl, inr, Option, none, some,
  List, [], ◌==◌, arith, eq_iff, Result, ok, Bool-cases, Option-cases, Result-cases,
}
use zta_core.Base64.{Bytes}
use zta_core.Json.{or_empty}
use zta_core.Http.{HttpRequest, header}
use zta_core.Authzen.{profile_east_west}
use zta_core.Pep.{header_subject_id, Route, allow, Platform, Config, match_route, peer_identity}
use zta_core.Pep.Check.{
  Call, Run, correlation, unless_revoked, if_attested, check_revoked, check_route, check,
}
use zta_core.Pep.Check.Grounds.{Built, check_l2-allow}

module _ (F : Platform) where
  abbrev pub NotRevoked : Config → HttpRequest → Type 0
  NotRevoked cfg r =
      (revoked : String → Bool)
      → cfg.revocations ≡ some revoked
      → header header_subject_id r.headers ≢ ""
      → revoked (header header_subject_id r.headers) ≡ false

  abbrev pub Attested : Config → HttpRequest → Type 0
  Attested cfg r =
      (id : String) × (validate : String → Result Bool) × (peer_identity F cfg r ≡ some id)
      × (cfg.attestor ≡ some validate)
      × (validate id ≡ ok true)

  abbrev pub caller_of : Config → HttpRequest → String
  caller_of cfg r = or_empty (peer_identity F cfg r)

  -- What stands behind an Allow.
  pub record Permitted (cfg : Config) (random : Bytes) (r : HttpRequest) : Type 0 where
    pub attested : cfg.profile ≡ profile_east_west → Attested cfg r
    pub route : Route
    pub matched : match_route cfg.routes r.method r.path ≡ some route
    pub not_revoked : NotRevoked cfg r
    pub decided : Built F cfg r route (correlation random r) (caller_of cfg r)

  -- A gate that lets the rest of the check go on has found nothing against the request.
  unless_revoked-allow :
      (revocations : Option (String → Bool)) (subj cid : String) (r : HttpRequest)
      (calls : List Call) (rest : List Call → Option Run) {run : Run}
      → unless_revoked F revocations subj cid r calls rest ≡ some run
      → run.outcome.kind ≡ allow
      → ((revoked : String → Bool) → revocations ≡ some revoked → subj ≢ "" → revoked subj ≡ false)
        × (cs : List Call) × (rest cs ≡ some run)
  unless_revoked-allow none subj cid r calls rest h k = (λ v e. cc, calls, h)
  unless_revoked-allow (some revoked) subj cid r calls rest h k = elim (Bool-cases (subj == "")) [
    | inl blank ↦ (λ v e named. absurd (named ((eq_iff subj "").0 blank)), calls, rw blank at h)
    | inr named ↦ elim (Bool-cases (revoked subj)) [
      | inl bad ↦ ground arith
      | inr fine ↦ (
        λ v e _. ap (λ (f : String → Bool). f subj) (sym (some-injective _ _ e)) ∙ fine,
        _,
        rw (named, fine) at h,
      )
    ]
  ]

  if_attested-allow :
      (attestor : Option (String → Result Bool)) (caller : Option String) (cid : String)
      (r : HttpRequest) (rest : String → List Call → Option Run) {run : Run}
      → if_attested F attestor caller cid r rest ≡ some run
      → run.outcome.kind ≡ allow
      → (id : String) × (validate : String → Result Bool) × (caller ≡ some id)
        × (attestor ≡ some validate)
        × (validate id ≡ ok true)
        × (cs : List Call) × (rest id cs ≡ some run)
  if_attested-allow attestor none cid r rest h k = ground arith
  if_attested-allow none (some caller) cid r rest h k = cc
  if_attested-allow (some validate) (some caller) cid r rest h k =
      elim (Result-cases (validate caller)) [
        | inr (e, bad) ↦ ground arith
        | inl (b, good) ↦ elim (Bool-cases b) [
          | inr off ↦ ground arith
          | inl on ↦
              let valid = good ∙ ap ok on in (caller, validate, refl, refl, valid, _, rw valid at h)
        ]
      ]

  check_route-allow :
      (cfg : Config) (r : HttpRequest) (cid caller : String) (calls : List Call) {run : Run}
      → check_route F cfg r cid caller calls ≡ some run
      → run.outcome.kind ≡ allow
      → (route : Route) × (match_route cfg.routes r.method r.path ≡ some route)
        × NotRevoked cfg r
        × Built F cfg r route cid caller
  unfolding check_route check_revoked
  check_route-allow cfg r cid caller calls h k =
      elim (Option-cases (match_route cfg.routes r.method r.path)) [
        | inl e ↦ ground arith
        | inr (route, e) ↦
            let (fine, cs, on) =
              unless_revoked-allow cfg.revocations (header header_subject_id r.headers) cid r calls
                _ (rw e at h) k in
            (route, e, fine, check_l2-allow F cfg r route cid caller cs on k)
      ]

  -- A request is allowed only if the caller is attested, where the profile is East-West, the
  -- route is one of the PEP's, the subject, if it is named, is not revoked, and for the request
  -- that was built either the PDP said yes or a verified decision token that covers it was
  -- presented.
  pub check-Permitted :
      (cfg : Config) (random : Bytes) (r : HttpRequest) (run : Run)
      → check F cfg random r ≡ some run
      → run.outcome.kind ≡ allow
      → Permitted cfg random r
  unfolding check
  check-Permitted cfg random r run h k = elim (Bool-cases (cfg.profile == profile_east_west)) [
    | inr other ↦
        let (route, matched, fine, built) =
          check_route-allow cfg r (correlation random r) (caller_of cfg r) [] (rw other at h) k in
        record {
          attested = λ e. ground (arith, eq_iff cfg.profile profile_east_west);
          route = route;
          matched = matched;
          not_revoked = fine;
          decided = built;
        }
    | inl east ↦
        let (id, validate, is_id, at, valid, cs, on) =
          if_attested-allow cfg.attestor (peer_identity F cfg r) (correlation random r) r
            (check_route F cfg r (correlation random r)) (rw east at h) k in
        let (route, matched, fine, built) =
          check_route-allow cfg r (correlation random r) id cs on k in
        record {
          attested = λ _. (id, validate, is_id, at, valid);
          route = route;
          matched = matched;
          not_revoked = fine;
          decided =
              subst (λ caller. Built F cfg r route (correlation random r) caller)
                (sym (ap or_empty is_id)) built;
        }
  ]
