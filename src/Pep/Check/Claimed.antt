-- ===== src/Pep/Check/Claimed.antt =====
-- A check of two requests that differ in the header in which a caller names itself.
use mathlib.Core.Option
use zta_core.Base.{
  String, ◌≡◌, refl, sym, ap, subst, ◌∙◌, Bool, true, false, inl, inr, Option, none, some, List, [],
  ◌∷◌, ◌++◌, ◌==◌, Result, ok, err, ◌>>=◌, Bool-cases, Option-cases,
}
use zta_core.Base64.{Bytes}
use zta_core.Json.{Fields}
use zta_core.Http.{HttpRequest, Headers, header, set_header, Body, read_all}
use zta_core.Http.Laws.{header-set_header}
use zta_core.Authzen.{Request}
use zta_core.Pep.{
  header_subject_id, header_aal, header_caller_spiffe, header_resource_id, header_partner_id,
  header_correlation_id, header_decision_token, Route, Outcome, Platform, Config, peer_identity,
  match_route, props_read, resource_props, client_ip, subject_properties, request_context,
  request_with, build_request,
}
use zta_core.Pep.Check.{
  Call, Run, correlation, try_decision_token, ask, attested, reuse_or_ask, with_request, check_l2,
  unless_revoked, check_revoked, check_route, if_attested, check_peer, check,
}

-- What a run decides, and what it asked; the request that it hands on is left out.
abbrev pub verdict : Option Run → Option (Outcome × List Call)
verdict = Option.map (λ run. (run.outcome, run.calls))

-- The headers that a check reads, that of the caller's own claim left out, read the same.
record Agree (hs others : Headers) : Type 0 where
  subject : header header_subject_id others ≡ header header_subject_id hs
  aal : header header_aal others ≡ header header_aal hs
  resource : header header_resource_id others ≡ header header_resource_id hs
  partner : header header_partner_id others ≡ header header_partner_id hs
  correlated : header header_correlation_id others ≡ header header_correlation_id hs
  token : header header_decision_token others ≡ header header_decision_token hs

module _ (F : Platform) (cfg : Config) (others : Headers) where
  abbrev with_others : HttpRequest → HttpRequest
  with_others r = record r { headers = others }

  request_with-others :
      (r : HttpRequest) (route : Route) (cid caller : String) (ps : Fields)
      → Agree r.headers others
      → request_with F cfg (with_others r) route cid caller ps
        ≡ request_with F cfg r route cid caller ps
  unfolding request_with subject_properties request_context client_ip
  request_with-others r route cid caller ps same =
      rw (same.subject, same.aal, same.resource, same.partner) refl

  -- What `build_request` returns, from what was read.
  abbrev built :
      Route → String → String → Result Fields × HttpRequest → Result Request × HttpRequest
  built route cid caller (props, left) =
      (props >>= (λ ps. ok (request_with F cfg left route cid caller ps)), left)

  abbrev onto_others : Result Request × HttpRequest → Result Request × HttpRequest
  onto_others (made, left) = (made, with_others left)

  built-others :
      (route : Route) (cid caller : String) (props : Result Fields) (left : HttpRequest)
      → Agree left.headers others
      → built route cid caller (props, with_others left)
        ≡ onto_others (built route cid caller (props, left))
  built-others route cid caller (err e) left same = refl
  built-others route cid caller (ok ps) left same =
      ap (λ req. (ok req, with_others left)) (request_with-others left route cid caller ps same)

  read-others :
      (keys : List String) (r : HttpRequest) (route : Route) (cid caller : String)
      (read : Option String × Body)
      → Agree r.headers others
      → built route cid caller (props_read F keys (with_others r) read)
        ≡ onto_others (built route cid caller (props_read F keys r read))
  read-others keys r route cid caller (none, left) same =
      built-others route cid caller (props_read F keys r (none, left)).0 (record r { body = left })
        same
  read-others keys r route cid caller (some raw, left) same =
      built-others route cid caller (props_read F keys r (some raw, left)).0
        (props_read F keys r (some raw, left)).1 same

  resource_props-others :
      (keys : List String) (r : HttpRequest) (route : Route) (cid caller : String)
      → Agree r.headers others
      → built route cid caller (resource_props F keys (with_others r))
        ≡ onto_others (built route cid caller (resource_props F keys r))
  unfolding resource_props
  resource_props-others [] r route cid caller same = built-others route cid caller (ok _) r same
  resource_props-others (key ∷ keys) r route cid caller same =
      read-others (key ∷ keys) r route cid caller (read_all r.body) same

  build_request-others :
      (r : HttpRequest) (route : Route) (cid caller : String)
      → Agree r.headers others
      → build_request F cfg (with_others r) route cid caller
        ≡ onto_others (build_request F cfg r route cid caller)
  unfolding build_request
  build_request-others r route cid caller same =
      resource_props-others route.resource_props r route cid caller same

  read-headers :
      (keys : List String) (r : HttpRequest) (read : Option String × Body)
      → (props_read F keys r read).1.headers ≡ r.headers
  read-headers keys r (none, left) = refl
  read-headers keys r (some raw, left) = refl

  resource_props-headers :
      (keys : List String) (r : HttpRequest) → (resource_props F keys r).1.headers ≡ r.headers
  unfolding resource_props
  resource_props-headers [] r = refl
  resource_props-headers (key ∷ keys) r = read-headers (key ∷ keys) r (read_all r.body)

  pub build_request-headers :
      (r : HttpRequest) (route : Route) (cid caller : String)
      → (build_request F cfg r route cid caller).1.headers ≡ r.headers
  unfolding build_request
  build_request-headers r route cid caller = resource_props-headers route.resource_props r

  unless_revoked-others :
      (revocations : Option (String → Bool)) (subj cid : String) (r : HttpRequest)
      (calls : List Call) (rest plain : List Call → Option Run)
      → ((cs : List Call) → verdict (rest cs) ≡ verdict (plain cs))
      → verdict (unless_revoked F revocations subj cid (with_others r) calls rest)
        ≡ verdict (unless_revoked F revocations subj cid r calls plain)
  unless_revoked-others none subj cid r calls rest plain same = same calls
  unless_revoked-others (some revoked) subj cid r calls rest plain same =
      elim (Bool-cases (subj == "")) [
        | inl blank ↦ rw blank (same calls)
        | inr named ↦ elim (Bool-cases (revoked subj)) [
          | inl out ↦ rw (named, out) refl
          | inr free ↦ rw (named, free) (same _)
        ]
      ]

  if_attested-others :
      (attestor : Option (String → Result Bool)) (caller : Option String) (cid : String)
      (r : HttpRequest) (rest plain : String → List Call → Option Run)
      → ((id : String) (cs : List Call) → verdict (rest id cs) ≡ verdict (plain id cs))
      → verdict (if_attested F attestor caller cid (with_others r) rest)
        ≡ verdict (if_attested F attestor caller cid r plain)
  if_attested-others attestor none cid r rest plain same = refl
  if_attested-others none (some caller) cid r rest plain same = refl
  if_attested-others (some validate) (some caller) cid r rest plain same =
      elim (Bool-cases (attested F (validate caller))) [
        | inl e ↦ rw e (same caller _)
        | inr e ↦ rw e refl
      ]

  ask-others :
      (r : HttpRequest) (req : Request) (cid : String) (calls : List Call)
      → verdict (ask F cfg (with_others r) req cid calls) ≡ verdict (ask F cfg r req cid calls)
  unfolding ask
  ask-others r req cid calls = elim (Option-cases cfg.pdp) [
    | inl e ↦ rw e refl
    | inr (pdp, e) ↦ rw e refl
  ]

  reuse_or_ask-others :
      (r : HttpRequest) (req : Request) (cid : String) (calls : List Call)
      (tried : Option Outcome × List Call)
      → verdict (reuse_or_ask F cfg (with_others r) req cid calls tried)
        ≡ verdict (reuse_or_ask F cfg r req cid calls tried)
  reuse_or_ask-others r req cid calls (some out, more) = refl
  reuse_or_ask-others r req cid calls (none, more) = ask-others r req cid (calls ++ more)

  with_request-others :
      (cid : String) (calls : List Call) (made : Result Request) (left : HttpRequest)
      → Agree left.headers others
      → verdict (with_request F cfg cid calls (made, with_others left))
        ≡ verdict (with_request F cfg cid calls (made, left))
  unfolding try_decision_token
  with_request-others cid calls (err e) left same = refl
  with_request-others cid calls (ok req) left same =
      rw same.token (reuse_or_ask-others left req cid calls _)

  check_l2-others :
      (r : HttpRequest) (route : Route) (cid caller : String) (calls : List Call)
      → Agree r.headers others
      → verdict (check_l2 F cfg (with_others r) route cid caller calls)
        ≡ verdict (check_l2 F cfg r route cid caller calls)
  unfolding check_l2
  check_l2-others r route cid caller calls same =
      ap (λ b. verdict (with_request F cfg cid calls b))
        (build_request-others r route cid caller same)
      ∙ with_request-others cid calls _ _
          (subst (λ hs. Agree hs others) (sym (build_request-headers r route cid caller)) same)

  check_revoked-others :
      (r : HttpRequest) (route : Route) (cid caller : String) (calls : List Call)
      → Agree r.headers others
      → verdict (check_revoked F cfg (with_others r) route cid caller calls)
        ≡ verdict (check_revoked F cfg r route cid caller calls)
  unfolding check_revoked
  check_revoked-others r route cid caller calls same = rw same.subject (
      unless_revoked-others cfg.revocations (header header_subject_id r.headers) cid r calls _ _
        (λ cs. check_l2-others r route cid caller cs same))

  check_route-others :
      (r : HttpRequest) (cid caller : String) (calls : List Call)
      → Agree r.headers others
      → verdict (check_route F cfg (with_others r) cid caller calls)
        ≡ verdict (check_route F cfg r cid caller calls)
  unfolding check_route
  check_route-others r cid caller calls same =
      elim (Option-cases (match_route cfg.routes r.method r.path)) [
        | inl e ↦ rw e refl
        | inr (route, e) ↦ rw e (check_revoked-others r route cid caller calls same)
      ]

  check_peer-others :
      (r : HttpRequest) (cid : String) (east : Bool) (caller : Option String)
      → Agree r.headers others
      → verdict (check_peer F cfg (with_others r) cid east caller)
        ≡ verdict (check_peer F cfg r cid east caller)
  check_peer-others r cid false caller same = check_route-others r cid _ [] same
  check_peer-others r cid true caller same =
      if_attested-others cfg.attestor caller cid r _ _
        (λ id cs. check_route-others r cid id cs same)

  peer_identity-others :
      (r : HttpRequest)
      → cfg.require_peer_svid ≡ true
      → peer_identity F cfg (with_others r) ≡ peer_identity F cfg r
  unfolding peer_identity
  peer_identity-others r required = rw required refl

  check-others :
      (random : Bytes) (r : HttpRequest)
      → cfg.require_peer_svid ≡ true
      → Agree r.headers others
      → verdict (check F cfg random (with_others r)) ≡ verdict (check F cfg random r)
  unfolding check
  check-others random r required same =
      rw (peer_identity-others r required, same.correlated)
        (check_peer-others r (correlation random r) _ (peer_identity F cfg r) same)

claimed-Agree : (v : String) (hs : Headers) → Agree hs (set_header header_caller_spiffe v hs)
claimed-Agree v hs = record {
  subject = header-set_header header_subject_id header_caller_spiffe v hs;
  aal = header-set_header header_aal header_caller_spiffe v hs;
  resource = header-set_header header_resource_id header_caller_spiffe v hs;
  partner = header-set_header header_partner_id header_caller_spiffe v hs;
  correlated = header-set_header header_correlation_id header_caller_spiffe v hs;
  token = header-set_header header_decision_token header_caller_spiffe v hs;
}

-- Where the peer's SVID is required, whatever a caller writes into the header that names it changes
-- neither the outcome of a check nor anything that the check asks its dependencies.
pub check-ignores_claim :
    (F : Platform) (cfg : Config) (random : Bytes) (r : HttpRequest) (v : String)
    → cfg.require_peer_svid ≡ true
    → verdict
        (check F cfg random (record r { headers = set_header header_caller_spiffe v r.headers }))
      ≡ verdict (check F cfg random r)
check-ignores_claim F cfg random r v required =
    check-others F cfg (set_header header_caller_spiffe v r.headers) random r required
      (claimed-Agree v r.headers)
