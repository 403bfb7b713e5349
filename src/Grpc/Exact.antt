-- ===== src/Grpc/Exact.antt =====
-- The whole response over gRPC: what arrives at the PEP, and where its lifetime fits 32 bits.
use zta_core.Base.{
  ℕ, ◌≡◌, refl, sym, ap, ◌∙◌, ◌<◌, ◌^◌, Bool, Option, none, some, List, [], ◌∷◌, map, arith, Result,
  ok, wrap, wrap-eq-ok, >>=-elim, ok-injective, inl, inr, Result-cases,
}
use zta_core.Base.Int.{pos, int32, int32_of_small}
use zta_core.Authzen.{Request, DecisionToken, Obligation, ResponseContext, Response}
use zta_core.Grpc.{
  Structs, ProtoObligation, EvaluationResponse, map_to_struct, request_to_proto, token_to,
  obligations_to, context_to, response_to_proto, token_from, obligation_from, response_from_proto,
  answered, serve, received, call,
}
use zta_core.Grpc.Laws.{made, delivered, IsFaithful, as_map-map_to_struct, request_from_proto-to}

-- A response as it arrives: always with a context, and nil details empty.
abbrev pub kept : Obligation → Obligation
kept ob = record ob { details = made ob.details }

abbrev pub context_kept : Option ResponseContext → ResponseContext
context_kept none = record { decision_token = none; obligations = []; reason_code = "" }
context_kept (some c) = record c { obligations = map kept c.obligations }

abbrev pub returned : Response → Response
returned resp = record resp { context = some (context_kept resp.context) }

-- A token's lifetime fits an int32.
abbrev pub IsShort : Option DecisionToken → Type 0
IsShort none = Unit
IsShort (some t) = (n : ℕ) × (t.ttl_seconds ≡ pos n) × (n < 2 ^ 31)

abbrev pub FitsInt32 : Option ResponseContext → Type 0
FitsInt32 none = Unit
FitsInt32 (some c) = IsShort c.decision_token

module _ (S : Structs) where
  token_from-to : (t : Option DecisionToken) → IsShort t → token_from S (token_to S t) ≡ t
  token_from-to none short = refl
  token_from-to (some t) (n, is, small) =
      ap (λ ttl. some (record t { ttl_seconds = ttl }))
        (ap int32 is ∙ int32_of_small n small ∙ sym is)

  obligations_from-to :
      (obs : List Obligation) (ps : List (ProtoObligation S))
      → IsFaithful S
      → obligations_to S obs ≡ ok ps
      → map (obligation_from S) ps ≡ map kept obs
  unfolding obligations_to
  obligations_from-to [] ps faithful h = ap (map (obligation_from S)) (sym (ok-injective _ _ h))
  obligations_from-to (ob ∷ obs) ps faithful h =
      >>=-elim (map_to_struct S ob.details) _ h λ details h_details h₁.
        >>=-elim (obligations_to S obs) _ h₁ λ rest h_rest h₂.
          ap (map (obligation_from S)) (sym (ok-injective _ _ h₂)) ∙ (λ i.
            (record ob { details = as_map-map_to_struct S ob.details details faithful h_details i })
            ∷ obligations_from-to obs rest faithful h_rest i)

  response_from_proto-to :
      (decision : Bool) (c : Option ResponseContext) (p : EvaluationResponse S)
      → IsFaithful S
      → FitsInt32 c
      → context_to S decision c ≡ ok p
      → response_from_proto S p ≡ record { decision = decision; context = some (context_kept c) }
  unfolding response_from_proto
  response_from_proto-to decision none p faithful short h =
      ap (response_from_proto S) (sym (ok-injective _ _ h))
  response_from_proto-to decision (some c) p faithful short h =
      >>=-elim (obligations_to S c.obligations) _ h λ obs h_obs h₁.
        ap (response_from_proto S) (sym (ok-injective _ _ h₁)) ∙ (λ i. record {
          decision = decision;
          context = some (record c {
            decision_token = token_from-to c.decision_token short i;
            obligations = obligations_from-to c.obligations obs faithful h_obs i;
          });
        })

  received-exact :
      (resp out : Response)
      → IsFaithful S
      → FitsInt32 resp.context
      → received S (answered S (ok resp)) ≡ ok out
      → out ≡ returned resp
  unfolding response_to_proto
  received-exact resp out faithful short h = elim (Result-cases (response_to_proto S resp)) [
    | inl (p, e) ↦
        sym (ok-injective _ _ (rw e at h))
        ∙ response_from_proto-to resp.decision resp.context p faithful short e
    | inr (x, e) ↦ absurd (ground (arith, h, e))
  ]

  -- What the PEP gets over gRPC is the PDP's whole response to the delivered request, its token and
  -- obligations included, provided that the token's lifetime is below 2^31 seconds.
  pub call-serve_exact :
      (eval : Request → Result Response) (req : Request) (resp out : Response)
      → IsFaithful S
      → eval (delivered req) ≡ ok resp
      → FitsInt32 resp.context
      → call S (serve S eval) req ≡ ok out
      → out ≡ returned resp
  unfolding call serve
  call-serve_exact eval req resp out faithful asked short h =
      >>=-elim (wrap "grpcpdp: encode request" (request_to_proto S req)) _ h λ p encoded back.
        let same = request_from_proto-to S req p faithful (wrap-eq-ok _ _ encoded) in
        received-exact resp out faithful short
          (ap (λ a. received S (answered S a)) (sym (ap eval same ∙ asked)) ∙ back)
