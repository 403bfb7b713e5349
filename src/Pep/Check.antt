-- ===== src/Pep/Check.antt =====
-- authz/pep/enforce.go: `PEP.Check`, its stages from the channel (L0) through the route (L1) to
-- the decision (L2), each early return in its place. A run keeps what was called on the way.
pub mod Grounds
pub mod Soundness
pub mod Unlisted
pub mod Claimed
pub mod Calls
pub mod Answered
use zta_core.Base.{
  ℕ, String, ◌<>◌, Bool, true, false, not, ◌&&◌, ◌||◌, Option, none, some, List, [], ◌∷◌, ◌++◌,
  ◌==◌, ltb, if◌then◌else◌, Result, ok, err, ◌/◌, ◌%◌,
}
use Prim.Native.String.{char_at}
use zta_core.Base64.{Bytes}
use zta_core.Json.{lookup, as_string, or_empty}
use zta_core.Http.{HttpRequest, Headers, header}
use zta_core.Authzen.{
  profile_east_west, obligation_step_up, Request, Response, ResponseContext, Obligation,
  DecisionToken, auth_assurance_level,
}
use zta_core.Token.{Claims, resource_digest}
use zta_core.Pep.{
  header_subject_id, header_correlation_id, header_decision_token, Route, OutcomeKind, allow,
  drop_l0, deny_route, deny_forbidden, deny_step_up, Outcome, Platform, Config, match_route,
  peer_identity, build_request,
}

-- The calls that a check makes of the PEP's dependencies.
pub data Call : Type 0 where
  validate_svid : String → Call
  is_revoked : String → Call
  verify : String → Call
  evaluate : Request → Call

pub record Run : Type 0 where
  pub outcome : Outcome
  pub calls : List Call
  pub request : HttpRequest

abbrev hex_digit : ℕ → String
hex_digit n = String.◌∷◌ (char_at "0123456789abcdef" n) ""

-- `hex.EncodeToString`
unfoldable pub hex : Bytes → String
hex [] = ""
hex (b ∷ bs) = hex_digit (b / 16) <> (hex_digit (b % 16) <> hex bs)

-- `newCorrelationID`, from the random bytes read
unfoldable pub new_correlation_id : Bytes → String
new_correlation_id random = "cid-" <> hex random

abbrev pub correlation : Bytes → HttpRequest → String
correlation random r =
    let cid = header header_correlation_id r.headers in
    if cid == "" then new_correlation_id random else cid

-- An `Outcome` of a kind, with its reason and its correlation id.
abbrev pub because : OutcomeKind → String → String → Outcome
because kind reason cid = record {
  kind = kind;
  reason_code = reason;
  required_acr = "";
  correlation_id = cid;
  decision_token = "";
}

abbrev token_value : Option DecisionToken → String
token_value none = ""
token_value (some t) = t.value

abbrev pub allowed : Option ResponseContext → String → Outcome
allowed none cid = because allow "" cid
allowed (some ctx) cid = record (because allow ctx.reason_code cid) {
  decision_token = token_value ctx.decision_token;
}

-- The first obligation to step up.
unfoldable pub step_up : List Obligation → Option Obligation
step_up [] = none
step_up (ob ∷ obs) =
    let rest = step_up obs in if ob.kind == obligation_step_up then some ob else rest

abbrev reason_or_forbidden : ResponseContext → String
reason_or_forbidden ctx = if ctx.reason_code == "" then "forbidden" else ctx.reason_code

abbrev pub denied : Option ResponseContext → String → Outcome
denied none cid = because deny_forbidden "forbidden" cid
denied (some ctx) cid = elim (step_up ctx.obligations) [
  | none ↦ because deny_forbidden (reason_or_forbidden ctx) cid
  | some ob ↦ record (because deny_step_up ctx.reason_code cid) {
    required_acr = or_empty (as_string (lookup "required_acr" ob.details));
  }
]

-- `classify`
unfoldable pub classify : Response → String → Outcome
classify resp cid = if resp.decision then allowed resp.context cid else denied resp.context cid

-- `aalRank`
unfoldable pub aal_rank : String → ℕ
aal_rank aal =
    if aal == "AAL1" then 1 else (if aal == "AAL2" then 2 else (if aal == "AAL3" then 3 else 0))

module _ (F : Platform) where
  -- The tests of `tryDecisionToken` on verified claims.
  unfoldable pub matches : Claims → Request → Bool
  matches claims req =
      claims.subject == req.subject.id
      && (claims.action == req.action.name
          && (claims.resource == req.resource.kind <> ("/" <> req.resource.id)
              && (claims.res_digest == resource_digest F.hash req.resource.properties
                  && not
                      (ltb (aal_rank (auth_assurance_level req.subject)) (aal_rank claims.aal)))))

  abbrev pub reused : Result Claims → String → Request → String → Option Outcome
  reused (err e) raw req cid = none
  reused (ok claims) raw req cid =
      if matches claims req
      then some (record (because allow "decision_token_reuse" cid) { decision_token = raw })
      else none

  abbrev pub tried :
      Option (String → Result Claims) → String → Request → String → Option Outcome × List Call
  tried none raw req cid = (none, [])
  tried (some v) raw req cid =
      if raw == "" then (none, []) else (reused (v raw) raw req cid, verify raw ∷ [])

  -- `tryDecisionToken`
  unfoldable pub try_decision_token :
      Config → HttpRequest → Request → String → Option Outcome × List Call
  try_decision_token cfg r req cid =
      tried cfg.token_verifier (header header_decision_token r.headers) req cid

  abbrev pub answer : Result Response → String → Outcome
  answer (err e) cid = because deny_forbidden "l2_pdp_unavailable" cid
  answer (ok resp) cid = classify resp cid

  -- The rest of `Check`, from the call of the PDP. `none` is the panic of a nil PDP.
  unfoldable pub ask : Config → HttpRequest → Request → String → List Call → Option Run
  ask cfg r req cid calls = elim cfg.pdp [
    | none ↦ none
    | some pdp ↦ some (record {
      outcome = answer (pdp req) cid;
      calls = calls ++ (evaluate req ∷ []);
      request = r;
    })
  ]

  abbrev pub stop : OutcomeKind → String → String → HttpRequest → List Call → Option Run
  stop kind reason cid r calls =
      some (record { outcome = because kind reason cid; calls = calls; request = r })

  abbrev pub reuse_or_ask :
      Config → HttpRequest → Request → String → List Call → Option Outcome × List Call → Option Run
  reuse_or_ask cfg r req cid calls (some out, more) =
      some (record { outcome = out; calls = calls ++ more; request = r })
  reuse_or_ask cfg r req cid calls (none, more) = ask cfg r req cid (calls ++ more)

  abbrev pub with_request : Config → String → List Call → Result Request × HttpRequest → Option Run
  with_request cfg cid calls (err e, r) = stop deny_forbidden "l2_request_build_failed" cid r calls
  with_request cfg cid calls (ok req, r) =
      reuse_or_ask cfg r req cid calls (try_decision_token cfg r req cid)

  -- The rest of `Check`, from `buildRequest`.
  unfoldable pub check_l2 : Config → HttpRequest → Route → String → String → List Call → Option Run
  check_l2 cfg r route cid caller calls =
      with_request cfg cid calls (build_request F cfg r route cid caller)

  abbrev pub unless_revoked :
      Option (String → Bool)
      → String
      → String
      → HttpRequest
      → List Call
      → (List Call → Option Run)
      → Option Run
  unless_revoked none subj cid r calls rest = rest calls
  unless_revoked (some revoked) subj cid r calls rest =
      if subj == ""
      then rest calls
      else (let asked = calls ++ (is_revoked subj ∷ []) in
          if revoked subj then stop deny_forbidden "session_revoked" cid r asked else rest asked)

  -- The rest of `Check`, from the test of revocation.
  unfoldable pub check_revoked :
      Config → HttpRequest → Route → String → String → List Call → Option Run
  check_revoked cfg r route cid caller calls =
      unless_revoked cfg.revocations (header header_subject_id r.headers) cid r calls
        (check_l2 cfg r route cid caller)

  abbrev pub if_routed :
      Option Route → String → HttpRequest → List Call → (Route → Option Run) → Option Run
  if_routed none cid r calls rest = stop deny_route "l1_route_not_permitted" cid r calls
  if_routed (some route) cid r calls rest = rest route

  -- The rest of `Check`, from the route guard.
  unfoldable pub check_route : Config → HttpRequest → String → String → List Call → Option Run
  check_route cfg r cid caller calls =
      if_routed (match_route cfg.routes r.method r.path) cid r calls
        (λ route. check_revoked cfg r route cid caller calls)

  abbrev pub attested : Result Bool → Bool
  attested (err e) = false
  attested (ok b) = b

  -- L0, where the profile is East-West. The first `none` is the panic of a nil attestor.
  abbrev pub if_attested :
      Option (String → Result Bool)
      → Option String
      → String
      → HttpRequest
      → (String → List Call → Option Run)
      → Option Run
  if_attested attestor none cid r rest = stop drop_l0 "l0_no_peer_svid" cid r []
  if_attested none (some caller) cid r rest = none
  if_attested (some validate) (some caller) cid r rest =
      let asked = validate_svid caller ∷ [] in
      if attested (validate caller)
      then rest caller asked
      else stop drop_l0 "l0_peer_not_attested" cid r asked

  abbrev pub check_peer : Config → HttpRequest → String → Bool → Option String → Option Run
  check_peer cfg r cid false caller = check_route cfg r cid (or_empty caller) []
  check_peer cfg r cid true caller = if_attested cfg.attestor caller cid r (check_route cfg r cid)

  -- `Check`, with the random bytes of a correlation id
  unfoldable pub check : Config → Bytes → HttpRequest → Option Run
  check cfg random r =
      check_peer cfg r (correlation random r) (cfg.profile == profile_east_west)
        (peer_identity F cfg r)
