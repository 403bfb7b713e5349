-- ===== src/Pep/Reuse.antt =====
-- The PEP's fast path over the tokens that the PDP mints, sent back with the same request.
use mathlib.Core.Option
use zta_core.Base.{
  String, ◌<>◌, true, ◌≡◌, ◌≢◌, ◌↔◌, refl, ap, ◌∙◌, inl, inr, Option, none, some, ◌==◌, arith,
  eq_iff, Result, ok, Bool-cases,
}
use zta_core.Http.{HttpRequest, header}
use zta_core.Authzen.{Request, auth_assurance_level}
use zta_core.Token.{Claims, resource_digest}
use zta_core.Pep.{header_decision_token, allow, Outcome, Platform, Config}
use zta_core.Pep.Check.{because, matches, tried, try_decision_token}
use zta_core.Pep.Check.Grounds.{Covers, matches→Covers}

abbrev pub reuse : String → String → Outcome
reuse raw cid = record (because allow "decision_token_reuse" cid) { decision_token = raw }

module _ (F : Platform) where
  Covers→matches : (c : Claims) (req : Request) → Covers F c req → matches F c req ≡ true
  unfolding matches
  Covers→matches c req v = ground (
    arith,
    v.subject,
    v.action,
    v.resource,
    v.digest,
    v.aal,
    eq_iff c.subject req.subject.id,
    eq_iff c.action req.action.name,
    eq_iff c.resource (req.resource.kind <> ("/" <> req.resource.id)),
    eq_iff c.res_digest (resource_digest F.hash req.resource.properties),
  )

  tried-Covers :
      (o : Option (String → Result Claims)) (v : String → Result Claims) (raw : String)
      (req : Request) (cid : String) (c : Claims)
      → o ≡ some v
      → raw ≢ ""
      → v raw ≡ ok c
      → ((tried F o raw req cid).0 ≡ some (reuse raw cid)) ↔ Covers F c req
  tried-Covers none v raw req cid c e shown ok_c = cc
  tried-Covers (some w) v raw req cid c e shown ok_c = elim (Bool-cases (raw == "")) [
    | inl blank ↦ absurd (shown ((eq_iff raw "").0 blank))
    | inr named ↦
        let same : w raw ≡ ok c =
          ap (λ (f : String → Result Claims). f raw) (Option.some-injective _ _ e) ∙ ok_c in
        elim (Bool-cases (matches F c req)) [
          | inl good ↦ (λ _. matches→Covers F c req good, λ _. rw (named, same, good) refl)
          | inr bad ↦ (λ h. ground arith, λ k. ground (arith, Covers→matches c req k))
        ]
  ]

  -- A presented token that the verifier accepts stands for the PDP's answer exactly when its
  -- claims cover the request.
  pub try_decision_token_iff :
      (cfg : Config) (r : HttpRequest) (req : Request) (cid : String) (v : String → Result Claims)
      (c : Claims)
      → cfg.token_verifier ≡ some v
      → header header_decision_token r.headers ≢ ""
      → v (header header_decision_token r.headers) ≡ ok c
      → ((try_decision_token F cfg r req cid).0
          ≡ some (reuse (header header_decision_token r.headers) cid))
        ↔ Covers F c req
  unfolding try_decision_token
  try_decision_token_iff cfg r req cid v c e shown ok_c =
      tried-Covers cfg.token_verifier v _ req cid c e shown ok_c

  -- The fast path looks at the subject's id and assurance level, the action's name and the resource
  -- alone: a token accepted for a request is accepted for one that differs from it in its profile,
  -- its partner, its delegation actor or any other property.
  matches_ignores_context :
      (c : Claims) (a b : Request)
      → a.subject.id ≡ b.subject.id
      → auth_assurance_level a.subject ≡ auth_assurance_level b.subject
      → a.action.name ≡ b.action.name
      → a.resource ≡ b.resource
      → matches F c a ≡ matches F c b
  unfolding matches
  matches_ignores_context c a b id level name resource = rw (level, id, name, resource) refl
