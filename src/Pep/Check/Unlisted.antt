-- ===== src/Pep/Check/Unlisted.antt =====
-- A check with a revocation list that does not name the subject, and one without a list.
use mathlib.Core.Option
use zta_core.Base.{
  String, Bool, false, ◌≡◌, refl, inl, inr, Option, none, some, List, [], ◌++◌, ◌==◌, Result, ok,
  err, Bool-cases, Option-cases,
}
use zta_core.Base64.{Bytes}
use zta_core.Http.{HttpRequest, header}
use zta_core.Authzen.{profile_east_west, Request}
use zta_core.Pep.{
  header_subject_id, Route, Outcome, Platform, Config, peer_identity, match_route, build_request,
}
use zta_core.Pep.Check.{
  Call, Run, reuse_or_ask, with_request, unless_revoked, if_attested, try_decision_token, ask,
  attested, check_l2, check_revoked, check_route, check,
}

-- What a run does, its calls left out.
abbrev pub effect : Option Run → Option (Outcome × HttpRequest)
effect = Option.map (λ run. (run.outcome, run.request))

abbrev pub without_list : Config → Config
without_list cfg = record cfg { revocations = none }

-- The list does not name this subject.
abbrev pub Unlisted : Option (String → Bool) → String → Type 0
Unlisted none subj = Unit
Unlisted (some revoked) subj = revoked subj ≡ false

module _ (F : Platform) where
  ask-effect :
      (cfg : Config) (r : HttpRequest) (req : Request) (cid : String) (calls more : List Call)
      → effect (ask F cfg r req cid calls) ≡ effect (ask F (without_list cfg) r req cid more)
  unfolding ask
  ask-effect cfg r req cid calls more = elim (Option-cases cfg.pdp) [
    | inl e ↦ rw e refl
    | inr (pdp, e) ↦ rw e refl
  ]

  reuse_or_ask-effect :
      (cfg : Config) (r : HttpRequest) (req : Request) (cid : String) (calls more : List Call)
      (t : Option Outcome × List Call)
      → effect (reuse_or_ask F cfg r req cid calls t)
        ≡ effect (reuse_or_ask F (without_list cfg) r req cid more t)
  reuse_or_ask-effect cfg r req cid calls more (some out, tried) = refl
  reuse_or_ask-effect cfg r req cid calls more (none, tried) =
      ask-effect cfg r req cid (calls ++ tried) (more ++ tried)

  with_request-effect :
      (cfg : Config) (cid : String) (calls more : List Call) (built : Result Request × HttpRequest)
      → effect (with_request F cfg cid calls built)
        ≡ effect (with_request F (without_list cfg) cid more built)
  unfolding try_decision_token
  with_request-effect cfg cid calls more (err e, r) = refl
  with_request-effect cfg cid calls more (ok req, r) =
      reuse_or_ask-effect cfg r req cid calls more (try_decision_token F cfg r req cid)

  check_l2-effect :
      (cfg : Config) (r : HttpRequest) (route : Route) (cid caller : String)
      (calls more : List Call)
      → effect (check_l2 F cfg r route cid caller calls)
        ≡ effect (check_l2 F (without_list cfg) r route cid caller more)
  unfolding check_l2 build_request zta_core.Pep.request_with zta_core.Pep.subject_properties
      zta_core.Pep.request_context
  check_l2-effect cfg r route cid caller calls more =
      with_request-effect cfg cid calls more (build_request F cfg r route cid caller)

  unless_revoked-effect :
      (revocations : Option (String → Bool)) (subj cid : String) (r : HttpRequest)
      (calls : List Call) (rest : List Call → Option Run) (plain : Option Run)
      → Unlisted revocations subj
      → ((cs : List Call) → effect (rest cs) ≡ effect plain)
      → effect (unless_revoked F revocations subj cid r calls rest) ≡ effect plain
  unless_revoked-effect none subj cid r calls rest plain free same = same calls
  unless_revoked-effect (some revoked) subj cid r calls rest plain free same =
      elim (Bool-cases (subj == "")) [
        | inl blank ↦ rw blank (same calls)
        | inr named ↦ rw (named, free) (same _)
      ]

  check_route-effect :
      (cfg : Config) (r : HttpRequest) (cid caller : String) (calls : List Call)
      → Unlisted cfg.revocations (header header_subject_id r.headers)
      → effect (check_route F cfg r cid caller calls)
        ≡ effect (check_route F (without_list cfg) r cid caller calls)
  unfolding check_route check_revoked
  check_route-effect cfg r cid caller calls free =
      elim (Option-cases (match_route cfg.routes r.method r.path)) [
        | inl e ↦ rw e refl
        | inr (route, e) ↦ rw e (
            unless_revoked-effect cfg.revocations _ cid r calls _ _ free
              (λ cs. check_l2-effect cfg r route cid caller cs calls))
      ]

  if_attested-effect :
      (attestor : Option (String → Result Bool)) (caller : Option String) (cid : String)
      (r : HttpRequest) (rest plain : String → List Call → Option Run)
      → ((id : String) (cs : List Call) → effect (rest id cs) ≡ effect (plain id cs))
      → effect (if_attested F attestor caller cid r rest)
        ≡ effect (if_attested F attestor caller cid r plain)
  if_attested-effect attestor none cid r rest plain same = refl
  if_attested-effect none (some caller) cid r rest plain same = refl
  if_attested-effect (some validate) (some caller) cid r rest plain same =
      elim (Bool-cases (attested F (validate caller))) [
        | inl e ↦ rw e (same caller _)
        | inr e ↦ rw e refl
      ]

  -- For a subject that the list does not name, a check ends as it would without a list.
  pub check-effect :
      (cfg : Config) (random : Bytes) (r : HttpRequest)
      → Unlisted cfg.revocations (header header_subject_id r.headers)
      → effect (check F cfg random r) ≡ effect (check F (without_list cfg) random r)
  unfolding check peer_identity
  check-effect cfg random r free = elim (Bool-cases (cfg.profile == profile_east_west)) [
    | inr other ↦ rw other (check_route-effect cfg r _ _ [] free)
    | inl east ↦ rw east (
        if_attested-effect cfg.attestor (peer_identity F cfg r) _ r _ _
          (λ id cs. check_route-effect cfg r _ id cs free))
  ]
