-- ===== src/Pdp/Laws.antt =====
-- What a response of the PDP rests on, and when there is none.
use zta_core.Base.{
  ℕ, String, Bool, true, false, ◌≡◌, ◌/◌, refl, sym, inl, inr, Option, none, some, List, ◌∷◌, arith,
  Error, invalid, as_validation, ok, err, wrap, >>=-eq-ok, >>=-eq-err, ok-injective, ap, ◌<>◌,
  or_message-eq-ok, wrap-eq-ok, wrap-as_validation, or_message-as_validation,
}
use zta_core.Base.Int.{pos}
use zta_core.Json.{string_at, obj, Fields}
use zta_core.Authzen.{
  Request, Response, ResponseContext, DecisionToken, auth_assurance_level, correlation_id,
}
use zta_core.Json.Render.{render}
use zta_core.Authzen.Encode.{request_fields}
use zta_core.Authzen.Encode.Laws.{IsRequestJson, request_fields-IsRequestJson}
use zta_core.Authzen.Validate.{validate}
use zta_core.Authzen.Validate.Laws.{Conforms, validate-eq-ok_iff, validate-cases}
use zta_core.Token.{Claims, Issuer, issue, resource_digest, ttl_seconds}
use zta_core.Engine.{Decision}
use zta_core.Pdp.Obligations.{Carries, to_obligations-Carries}
use zta_core.Pdp.{
  Platform, Service, to_input, to_obligations, claims_for, response, with_token, assemble, evaluate,
}

module _ (P : Platform) where
  -- The token of a response: there is one exactly on allow, minted for the request's claims.
  abbrev pub IsTokenFor : Issuer → ℕ → Request → Bool → Option DecisionToken → Type 0
  IsTokenFor i now r false tok = tok ≡ none
  IsTokenFor i now r true tok =
      (t : String) × (issue P.hash P.claims i now (claims_for P r) ≡ ok t)
      × (tok ≡ some (record { value = t; ttl_seconds = pos (i.ttl / 1000000000) }))

  -- The claims name what was asked for.
  pub record AreClaims (r : Request) (c : Claims) : Type 0 where
    pub subject : c.subject ≡ r.subject.id
    pub action : c.action ≡ r.action.name
    pub resource : c.resource ≡ r.resource.kind <> ("/" <> r.resource.id)
    pub aal : c.aal ≡ string_at "auth_assurance_level" r.subject.properties
    pub res_digest : c.res_digest ≡ resource_digest P.hash r.resource.properties
    pub correlation : c.correlation_id ≡ string_at "correlation_id" r.context

  -- What stands behind a response, and what it carries.
  pub record Justified (s : Service) (now : ℕ) (r : Request) (resp : Response) : Type 0 where
    pub conforms : Conforms r
    pub input : Fields
    pub decision : Decision
    pub context : ResponseContext
    pub json : Fields
    pub is_json : IsRequestJson r json
    pub read_back : P.unmarshal_map (render (obj json)) ≡ some input
    pub decided : s.engine (obj input) ≡ ok decision
    pub same_decision : resp.decision ≡ decision.allow
    pub with_context : resp.context ≡ some context
    pub same_reason : context.reason_code ≡ decision.reason_code
    pub same_obligations : Carries decision.obligations context.obligations
    pub claims : AreClaims r (claims_for P r)
    pub token_for : IsTokenFor s.issuer now r decision.allow context.decision_token

  with_token-IsTokenFor :
      (i : Issuer) (now : ℕ) (r : Request) (allow : Bool) (tok : Option DecisionToken)
      → with_token P i now r allow ≡ ok tok
      → IsTokenFor i now r allow tok
  unfolding ttl_seconds
  with_token-IsTokenFor i now r false tok h = ground arith
  with_token-IsTokenFor i now r true tok h =
      let (t, issued, e) = >>=-eq-ok _ _ h in (t, wrap-eq-ok _ _ issued, ground arith)

  claims_for-AreClaims : (r : Request) → AreClaims r (claims_for P r)
  unfolding claims_for auth_assurance_level correlation_id
  claims_for-AreClaims r = record {
    subject = refl;
    action = refl;
    resource = refl;
    aal = refl;
    res_digest = refl;
    correlation = refl;
  }

  to_input-eq-ok :
      (r : Request) (input : Fields)
      → to_input P r ≡ ok input
      → P.unmarshal_map (render (obj (request_fields r))) ≡ some input
  unfolding to_input
  to_input-eq-ok r input h = or_message-eq-ok _ _ h

  -- A response means that the request conforms to the contract, that the engine decided on the map
  -- that its JSON decodes to, with its subject, action, resource and context, and that the response
  -- carries that decision, its reason, and its obligations with the types and details that the policy
  -- gave them, one for one; and a token exactly on allow, issued for the subject, action, resource,
  -- assurance level, digest and correlation id of the request, with its lifetime in seconds.
  pub evaluate-Justified :
      (s : Service) (now : ℕ) (r : Request) (resp : Response)
      → evaluate P s now r ≡ ok resp
      → Justified s now r resp
  unfolding evaluate assemble
  evaluate-Justified s now r resp h =
      let (u, valid, h₁) = >>=-eq-ok (validate P.quote r) _ h in
      let (input, encoded, h₂) = >>=-eq-ok (to_input P r) _ h₁ in
      let (d, asked, h₃) = >>=-eq-ok (wrap "pdp: engine eval" (s.engine (obj input))) _ h₂ in
      let (tok, made, h₄) = >>=-eq-ok (with_token P s.issuer now r d.allow) _ h₃ in
      let is = ok-injective (response P d tok) resp h₄ in
      record {
        conforms = (validate-eq-ok_iff P.quote r).0 valid;
        input = input;
        decision = d;
        context = record {
          decision_token = tok;
          obligations = to_obligations d.obligations;
          reason_code = d.reason_code;
        };
        json = request_fields r;
        is_json = request_fields-IsRequestJson r;
        read_back = to_input-eq-ok r input encoded;
        decided = wrap-eq-ok _ _ asked;
        same_decision = ap (λ (x : Response). x.decision) (sym is);
        with_context = ap (λ (x : Response). x.context) (sym is);
        same_reason = refl;
        same_obligations = to_obligations-Carries d.obligations;
        claims = claims_for-AreClaims r;
        token_for = with_token-IsTokenFor s.issuer now r d.allow tok made;
      }

  refused :
      (s : Service) (now : ℕ) (r : Request) (e : Error)
      → validate P.quote r ≡ err e
      → evaluate P s now r ≡ err e
  unfolding evaluate
  refused s now r e bad = rw bad refl

  -- A request that breaks the contract is answered with its issues, at least one, whatever the
  -- engine, the issuer and the clock are.
  pub evaluate_invalid :
      (r : Request)
      → ¬ Conforms r
      → (issue : String) × (rest : List String) × ((s : Service) (now : ℕ)
          → evaluate P s now r ≡ err (invalid (issue ∷ rest)))
  evaluate_invalid r broken = elim (validate-cases P.quote r) [
    | inl valid ↦ absurd (broken ((validate-eq-ok_iff P.quote r).0 valid))
    | inr (first, rest, e) ↦ (first, rest, λ s now. refused s now r _ e)
  ]

  with_token-err :
      (i : Issuer) (now : ℕ) (r : Request) (allow : Bool) (e : Error)
      → with_token P i now r allow ≡ err e
      → as_validation e ≡ none
  unfolding issue
  with_token-err i now r false e h = cc
  with_token-err i now r true e h = ground arith

  pub valid-err :
      (s : Service) (now : ℕ) (r : Request) (e : Error)
      → ((input : Fields) (x : Error) → s.engine (obj input) ≡ err x → as_validation x ≡ none)
      → validate P.quote r ≡ ok tt
      → evaluate P s now r ≡ err e
      → as_validation e ≡ none
  unfolding evaluate assemble to_input
  valid-err s now r e plain valid h = elim (>>=-eq-err (to_input P r) _ (rw valid at h)) [
    | inl h₁ ↦ or_message-as_validation _ _ h₁
    | inr (input, _, h₁) ↦ elim (>>=-eq-err (wrap "pdp: engine eval" (s.engine (obj input))) _ h₁) [
      | inl h₂ ↦ wrap-as_validation _ _ (plain input) h₂
      | inr (d, _, h₂) ↦ elim (>>=-eq-err (with_token P s.issuer now r d.allow) _ h₂) [
        | inl h₃ ↦ with_token-err s.issuer now r d.allow e h₃
        | inr (tok, _, h₃) ↦ cc
      ]
    ]
  ]
