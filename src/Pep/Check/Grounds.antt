-- ===== src/Pep/Check/Grounds.antt =====
-- What stands behind an Allow once the request is built: the PDP's decision or a decision token.
use mathlib.Core.Option.{some-injective}
use zta_core.Base.{
  String, ◌<>◌, true, ◌≡◌, ◌≢◌, refl, ap, subst, ◌∙◌, ◌⊎◌, inl, inr, Option, none, some, List, [],
  ◌∷◌, ◌++◌, ◌==◌, ◌≤◌, arith, eq_iff, Result, ok, err, Bool-cases, Option-cases,
}
use zta_core.Http.{HttpRequest, header, Body, read_all}
use zta_core.Authzen.{Request, Response, ResponseContext, auth_assurance_level}
use zta_core.Token.{Claims, resource_digest}
use zta_core.Pep.{
  header_decision_token, Route, allow, Outcome, Platform, Config, build_request, resource_props,
  props_read,
}
use zta_core.Pep.Check.{
  Call, Run, answer, reused, with_request, reuse_or_ask, denied, step_up, classify, aal_rank,
  matches, try_decision_token, ask, check_l2,
}

module _ (F : Platform) where
  -- A token is for this request: its subject, action and resource, the digest of its
  -- properties, and no higher assurance level than the caller's.
  pub record Covers (claims : Claims) (req : Request) : Type 0 where
    pub subject : claims.subject ≡ req.subject.id
    pub action : claims.action ≡ req.action.name
    pub resource : claims.resource ≡ req.resource.kind <> ("/" <> req.resource.id)
    pub digest : claims.res_digest ≡ resource_digest F.hash req.resource.properties
    pub aal : aal_rank claims.aal ≤ aal_rank (auth_assurance_level req.subject)

  pub matches→Covers : (c : Claims) (req : Request) → matches F c req ≡ true → Covers c req
  unfolding matches
  matches→Covers c req h = record {
    subject = ground (arith, eq_iff c.subject req.subject.id);
    action = ground (arith, eq_iff c.action req.action.name);
    resource = ground (arith, eq_iff c.resource (req.resource.kind <> ("/" <> req.resource.id)));
    digest = ground (arith, eq_iff c.res_digest (resource_digest F.hash req.resource.properties));
    aal = ground arith;
  }

  -- The PDP said yes to the request that was built, or a token that is for it was presented.
  abbrev pub Decided : Config → String → Request → Type 0
  Decided cfg raw req =
      ((pdp : Request → Result Response) × (resp : Response) × (cfg.pdp ≡ some pdp)
        × (pdp req ≡ ok resp)
        × (resp.decision ≡ true))
      ⊎ ((verify : String → Result Claims) × (claims : Claims) × (cfg.token_verifier ≡ some verify)
          × (verify raw ≡ ok claims)
          × Covers claims req)

  denied-allow : (ctx : Option ResponseContext) (cid : String) → (denied ctx cid).kind ≢ allow
  denied-allow none cid = λ h. cc
  denied-allow (some ctx) cid = elim (Option-cases (step_up ctx.obligations)) [
    | inl e ↦ λ h. ground arith
    | inr (ob, e) ↦ λ h. ground arith
  ]

  classify-allow :
      (resp : Response) (cid : String) → (classify resp cid).kind ≡ allow → resp.decision ≡ true
  unfolding classify
  classify-allow resp cid h = elim (Bool-cases resp.decision) [
    | inl e ↦ e
    | inr e ↦ absurd (denied-allow resp.context cid (rw e at h))
  ]

  answer-allow :
      (a : Result Response) (cid : String)
      → (answer F a cid).kind ≡ allow
      → (resp : Response) × (a ≡ ok resp) × (resp.decision ≡ true)
  answer-allow (err e) cid h = cc
  answer-allow (ok resp) cid h = (resp, refl, classify-allow resp cid h)

  ask-allow :
      (cfg : Config) (r : HttpRequest) (req : Request) (cid : String) (calls : List Call)
      {run : Run}
      → ask F cfg r req cid calls ≡ some run
      → run.outcome.kind ≡ allow
      → Decided cfg (header header_decision_token r.headers) req
  unfolding ask
  ask-allow cfg r req cid calls {run} h k = elim (Option-cases cfg.pdp) [
    | inl e ↦ ground arith
    | inr (pdp, e) ↦
        let h₁ = some-injective _ _ (rw e at h) in
        let (resp, a, d) = answer-allow (pdp req) cid (ap (λ (x : Run). x.outcome.kind) h₁ ∙ k) in
        inl (pdp, resp, e, a, d)
  ]

  reused-Covers :
      (v : Result Claims) (raw : String) (req : Request) (cid : String) {out : Outcome}
      → reused F v raw req cid ≡ some out
      → (claims : Claims) × (v ≡ ok claims) × Covers claims req
  reused-Covers (err e) raw req cid h = cc
  reused-Covers (ok c) raw req cid h = elim (Bool-cases (matches F c req)) [
    | inl e ↦ (c, refl, matches→Covers c req e)
    | inr e ↦ ground arith
  ]

  tried-Decided :
      (cfg : Config) (r : HttpRequest) (req : Request) (cid : String) {out : Outcome}
      → (try_decision_token F cfg r req cid).0 ≡ some out
      → Decided cfg (header header_decision_token r.headers) req
  unfolding try_decision_token
  tried-Decided cfg r req cid h = elim (Option-cases cfg.token_verifier) [
    | inl e ↦ ground arith
    | inr (v, e) ↦ elim (Bool-cases (header header_decision_token r.headers == "")) [
      | inl blank ↦ ground arith
      | inr shown ↦
          let (c, ok_c, covers) = reused-Covers _ _ req cid (rw (e, shown) at h) in
          inr (v, c, e, ok_c, covers)
    ]
  ]

  -- From the request: its decision is for what was built of it.
  abbrev pub Built : Config → HttpRequest → Route → String → String → Type 0
  Built cfg r route cid caller =
      (req : Request) × ((build_request F cfg r route cid caller).0 ≡ ok req)
      × Decided cfg (header header_decision_token r.headers) req

  props_read_headers :
      (keys : List String) (r : HttpRequest) (read : Option String × Body)
      → (props_read F keys r read).1.headers ≡ r.headers
  props_read_headers keys r (none, left) = refl
  props_read_headers keys r (some raw, left) = refl

  resource_props_headers :
      (keys : List String) (r : HttpRequest) → (resource_props F keys r).1.headers ≡ r.headers
  unfolding resource_props
  resource_props_headers [] r = refl
  resource_props_headers (key ∷ keys) r = props_read_headers (key ∷ keys) r (read_all r.body)

  reuse_or_ask-allow :
      (cfg : Config) (r : HttpRequest) (req : Request) (cid : String) (calls : List Call)
      (t : Option Outcome × List Call) {run : Run}
      → ((out : Outcome)
          → t.0 ≡ some out
          → Decided cfg (header header_decision_token r.headers) req)
      → reuse_or_ask F cfg r req cid calls t ≡ some run
      → run.outcome.kind ≡ allow
      → Decided cfg (header header_decision_token r.headers) req
  reuse_or_ask-allow cfg r req cid calls (some out, more) by_token h k = by_token out refl
  reuse_or_ask-allow cfg r req cid calls (none, more) by_token h k =
      ask-allow cfg r req cid (calls ++ more) h k

  with_request-allow :
      (cfg : Config) (cid : String) (calls : List Call) (built : Result Request × HttpRequest)
      {run : Run}
      → with_request F cfg cid calls built ≡ some run
      → run.outcome.kind ≡ allow
      → (req : Request) × (built.0 ≡ ok req)
        × Decided cfg (header header_decision_token built.1.headers) req
  with_request-allow cfg cid calls (err e, r) h k = ground arith
  with_request-allow cfg cid calls (ok req, r) h k = (
    req,
    refl,
    reuse_or_ask-allow cfg r req cid calls (try_decision_token F cfg r req cid)
        (λ out. tried-Decided cfg r req cid {out = out}) h k,
  )

  pub build_request_headers :
      (cfg : Config) (r : HttpRequest) (route : Route) (cid caller : String)
      → (build_request F cfg r route cid caller).1.headers ≡ r.headers
  unfolding build_request
  build_request_headers cfg r route cid caller = resource_props_headers route.resource_props r

  pub check_l2-allow :
      (cfg : Config) (r : HttpRequest) (route : Route) (cid caller : String) (calls : List Call)
      {run : Run}
      → check_l2 F cfg r route cid caller calls ≡ some run
      → run.outcome.kind ≡ allow
      → Built cfg r route cid caller
  unfolding check_l2
  check_l2-allow cfg r route cid caller calls h k =
      let (req, made, decided) =
        with_request-allow cfg cid calls (build_request F cfg r route cid caller) h k in
      (
        req,
        made,
        subst (λ hs. Decided cfg (header header_decision_token hs) req)
            (build_request_headers cfg r route cid caller) decided,
      )
