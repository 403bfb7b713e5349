-- ===== src/Pep/Check/Answered.antt =====
-- A PEP that `New` accepts answers every request, and leaves its body for the handler.
use zta_core.Base.{
  String, Bool, true, false, ◌≡◌, refl, ◌∙◌, inl, inr, ◌++◌, ◌∷◌, [], Option, none, some, List,
  ◌==◌, arith, Result, ok, err, Bool-cases, Option-cases,
}
use zta_core.Base64.{Bytes}
use zta_core.Http.{HttpRequest, stream, read_all}
use zta_core.Authzen.{profile_east_west, Request, Response}
use zta_core.Pep.{
  Route, Outcome, Platform, Config, new_pep, new_attested, new_wired, props_read, resource_props,
  build_request, match_route,
}
use zta_core.Pep.Check.{
  Call, Run, reuse_or_ask, with_request, unless_revoked, if_attested, try_decision_token, ask,
  check_l2, check_revoked, check_route, check,
}

-- The run, and that it leaves the request as it was.
abbrev pub Answers : HttpRequest → Option Run → Type 0
Answers r o = (run : Run) × (o ≡ some run) × (run.request ≡ r)

abbrev pub IsWired : Config → Type 0
IsWired cfg =
    ((pdp : Request → Result Response) × (cfg.pdp ≡ some pdp))
    × ((cfg.profile == profile_east_west) ≡ true
        → (a : String → Result Bool) × (cfg.attestor ≡ some a))

new_attested-eq-ok :
    (cfg : Config) (attestor : Option (String → Result Bool)) (east : Bool) {p : Config}
    → new_attested cfg attestor east ≡ ok p
    → (p ≡ cfg) × (east ≡ true → (a : String → Result Bool) × (attestor ≡ some a))
new_attested-eq-ok cfg none true h = cc
new_attested-eq-ok cfg none false h = (ground arith, λ e. cc)
new_attested-eq-ok cfg (some a) east h = (ground arith, λ _. (a, refl))

new_wired-eq-ok :
    (cfg : Config) (o : Option (Request → Result Response)) {p : Config}
    → new_wired cfg o ≡ ok p
    → (p ≡ cfg)
      × ((pdp : Request → Result Response) × (o ≡ some pdp))
      × ((cfg.profile == profile_east_west) ≡ true
          → (a : String → Result Bool) × (cfg.attestor ≡ some a))
new_wired-eq-ok cfg none h = cc
new_wired-eq-ok cfg (some pdp) h =
    let (same, at) = new_attested-eq-ok cfg cfg.attestor _ h in (same, (pdp, refl), at)

new_pep-IsWired : (cfg : Config) {p : Config} → new_pep cfg ≡ ok p → (p ≡ cfg) × IsWired cfg
unfolding new_pep
new_pep-IsWired cfg h = let (same, wired, at) = new_wired-eq-ok cfg cfg.pdp h in (same, (wired, at))

module _ (F : Platform) where
  props_read-stream :
      (keys : List String) (r : HttpRequest) (s : String)
      → r.body ≡ stream s
      → (props_read F keys r (read_all r.body)).1 ≡ r
  props_read-stream keys r s h = rw h refl

  resource_props-stream :
      (keys : List String) (r : HttpRequest) (s : String)
      → r.body ≡ stream s
      → (resource_props F keys r).1 ≡ r
  unfolding resource_props
  resource_props-stream [] r s h = refl
  resource_props-stream (key ∷ keys) r s h = props_read-stream (key ∷ keys) r s h

  ask-Answers :
      (cfg : Config) (r : HttpRequest) (req : Request) (cid : String) (calls : List Call)
      → IsWired cfg
      → Answers r (ask F cfg r req cid calls)
  unfolding ask
  ask-Answers cfg r req cid calls ((pdp, e), at) = rw e (_, refl, refl)

  reuse_or_ask-Answers :
      (cfg : Config) (r : HttpRequest) (req : Request) (cid : String) (calls : List Call)
      (t : Option Outcome × List Call)
      → IsWired cfg
      → Answers r (reuse_or_ask F cfg r req cid calls t)
  reuse_or_ask-Answers cfg r req cid calls (some out, more) w = (_, refl, refl)
  reuse_or_ask-Answers cfg r req cid calls (none, more) w =
      ask-Answers cfg r req cid (calls ++ more) w

  with_request-Answers :
      (cfg : Config) (cid : String) (calls : List Call) (built : Result Request × HttpRequest)
      → IsWired cfg
      → Answers built.1 (with_request F cfg cid calls built)
  with_request-Answers cfg cid calls (err e, r) w = (_, refl, refl)
  with_request-Answers cfg cid calls (ok req, r) w =
      reuse_or_ask-Answers cfg r req cid calls (try_decision_token F cfg r req cid) w

  check_l2-Answers :
      (cfg : Config) (r : HttpRequest) (route : Route) (cid caller s : String) (calls : List Call)
      → IsWired cfg
      → r.body ≡ stream s
      → Answers r (check_l2 F cfg r route cid caller calls)
  unfolding check_l2 build_request
  check_l2-Answers cfg r route cid caller s calls w h =
      let (run, e, left) =
        with_request-Answers cfg cid calls (build_request F cfg r route cid caller) w in
      (run, e, left ∙ resource_props-stream route.resource_props r s h)

  unless_revoked-Answers :
      (revocations : Option (String → Bool)) (subj cid : String) (r : HttpRequest)
      (calls : List Call) (rest : List Call → Option Run)
      → ((cs : List Call) → Answers r (rest cs))
      → Answers r (unless_revoked F revocations subj cid r calls rest)
  unless_revoked-Answers none subj cid r calls rest on = on calls
  unless_revoked-Answers (some revoked) subj cid r calls rest on = elim (Bool-cases (subj == "")) [
    | inl blank ↦ rw blank (on calls)
    | inr named ↦ elim (Bool-cases (revoked subj)) [
      | inl bad ↦ rw (named, bad) (_, refl, refl)
      | inr fine ↦ rw (named, fine) (on _)
    ]
  ]

  check_route-Answers :
      (cfg : Config) (r : HttpRequest) (cid caller s : String) (calls : List Call)
      → IsWired cfg
      → r.body ≡ stream s
      → Answers r (check_route F cfg r cid caller calls)
  unfolding check_route check_revoked
  check_route-Answers cfg r cid caller s calls w h =
      elim (Option-cases (match_route cfg.routes r.method r.path)) [
        | inl e ↦ rw e (_, refl, refl)
        | inr (route, e) ↦ rw e (
            unless_revoked-Answers cfg.revocations _ cid r calls _
              (λ cs. check_l2-Answers cfg r route cid caller s cs w h))
      ]

  if_attested-Answers :
      (attestor : Option (String → Result Bool)) (caller : Option String) (cid : String)
      (r : HttpRequest) (rest : String → List Call → Option Run)
      → ((a : String → Result Bool) × (attestor ≡ some a))
      → ((id : String) (cs : List Call) → Answers r (rest id cs))
      → Answers r (if_attested F attestor caller cid r rest)
  if_attested-Answers attestor none cid r rest at on = (_, refl, refl)
  if_attested-Answers none (some caller) cid r rest (a, e) on = cc
  if_attested-Answers (some validate) (some caller) cid r rest at on =
      elim (validate caller)
        as (λ v. Answers r (if_attested F (some (λ _. v)) (some caller) cid r rest)) [
          | err e ↦ (_, refl, refl)
          | ok true ↦ on caller _
          | ok false ↦ (_, refl, refl)
        ]

  -- A PEP made by `New` answers every request whose body can be read, and never panics; the
  -- request is left as it was, its body to be read from the start.
  pub check-Answers :
      (cfg p : Config) (random : Bytes) (r : HttpRequest) (s : String)
      → new_pep cfg ≡ ok p
      → r.body ≡ stream s
      → Answers r (check F p random r)
  unfolding check
  check-Answers cfg p random r s made h = let (same, w) = new_pep-IsWired cfg made in rw same (go w)
    where
      go : IsWired cfg → Answers r (check F cfg random r)
      go w = elim (Bool-cases (cfg.profile == profile_east_west)) [
        | inr other ↦ rw other (check_route-Answers cfg r _ _ s [] w h)
        | inl east ↦ rw east (
            if_attested-Answers cfg.attestor _ _ r _ (w.1 east)
              (λ id cs. check_route-Answers cfg r _ id s cs w h))
      ]
