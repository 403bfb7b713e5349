-- ===== src/Grpc/Laws.antt =====
-- The gRPC transport hands over the request and the decision.
use zta_core.Base.{
  Bool, ◌≡◌, refl, sym, ap, ◌∙◌, inl, inr, Option, none, some, arith, Result, ok, err, >>=-eq-ok,
  ok-injective, wrap, wrap-eq-ok, Result-cases,
}
use zta_core.Json.{Fields, end, field, Map}
use zta_core.Authzen.{Request, ResponseContext, Response}
use zta_core.Grpc.{
  Structs, EvaluationRequest, EvaluationResponse, map_to_struct, built, as_map, request_to_proto,
  request_from_proto, response_to_proto, response_from_proto, obligations_to, serve, call,
  context_to, received, answered,
}

-- A nil map arrives as an empty one.
abbrev pub made : Map → Map
made none = some end
made (some m) = some m

abbrev pub delivered : Request → Request
delivered r = record {
  subject = record r.subject { properties = made r.subject.properties };
  action = record r.action { properties = made r.action.properties };
  resource = record r.resource { properties = made r.resource.properties };
  context = made r.context;
}

module _ (S : Structs) where
  -- `AsMap` after `NewStruct` gives the fields back.
  abbrev pub IsFaithful : Type 0
  IsFaithful = (m : Fields) (s : S.Struct) → S.new_struct m ≡ some s → S.as_fields s ≡ m

  built-eq-ok :
      (m : Fields) (o : Option S.Struct) (s : Option S.Struct)
      → ((t : S.Struct) → o ≡ some t → S.as_fields t ≡ m)
      → built S o ≡ ok s
      → as_map S s ≡ some m
  built-eq-ok m none s faithful h = cc
  built-eq-ok m (some t) none faithful h = ground arith
  built-eq-ok m (some t) (some u) faithful h = ap some (faithful u (ground arith))

  pub as_map-map_to_struct :
      (m : Map) (s : Option S.Struct) → IsFaithful → map_to_struct S m ≡ ok s → as_map S s ≡ made m
  unfolding map_to_struct
  as_map-map_to_struct none s faithful h = ground arith
  as_map-map_to_struct (some end) s faithful h = ground arith
  as_map-map_to_struct (some (field k v m)) s faithful h =
      built-eq-ok (field k v m) (S.new_struct (field k v m)) s (λ t e. faithful (field k v m) t e) h

  -- Provided that `AsMap` undoes `NewStruct`, the request that the server hands to the PDP is the
  -- one that the client encoded, but for nil maps, which arrive empty.
  pub request_from_proto-to :
      (r : Request) (p : EvaluationRequest S)
      → IsFaithful
      → request_to_proto S r ≡ ok p
      → request_from_proto S p ≡ delivered r
  unfolding request_to_proto request_from_proto
  request_from_proto-to r p faithful h =
      let (a, ea, h₁) = >>=-eq-ok (map_to_struct S r.subject.properties) _ h in
      let (b, eb, h₂) = >>=-eq-ok (map_to_struct S r.action.properties) _ h₁ in
      let (c, ec, h₃) = >>=-eq-ok (map_to_struct S r.resource.properties) _ h₂ in
      let (d, ed, h₄) = >>=-eq-ok (map_to_struct S r.context) _ h₃ in
      let sub = as_map-map_to_struct _ a faithful ea in
      let act = as_map-map_to_struct _ b faithful eb in
      let res = as_map-map_to_struct _ c faithful ec in
      let ctx = as_map-map_to_struct _ d faithful ed in
      ap (request_from_proto S) (ok-injective _ _ (sym h₄)) ∙ (λ i. record {
        subject = record r.subject { properties = sub i };
        action = record r.action { properties = act i };
        resource = record r.resource { properties = res i };
        context = ctx i;
      })

  response-eq-ok :
      (resp : Response) (p : EvaluationResponse S)
      → response_to_proto S resp ≡ ok p
      → p.decision ≡ resp.decision
  unfolding response_to_proto
  response-eq-ok resp p h = go resp.decision resp.context h
    where
      go :
          (decision : Bool) (ctx : Option ResponseContext)
          → context_to S decision ctx ≡ ok p
          → p.decision ≡ decision
      go decision none h = ground arith
      go decision (some c) h =
          let (obs, _, e) = >>=-eq-ok (obligations_to S c.obligations) _ h in ground arith

  received-eq-ok :
      (answer : Result Response) (out : Response)
      → received S (answered S answer) ≡ ok out
      → (resp : Response) × (answer ≡ ok resp) × (out.decision ≡ resp.decision)
  unfolding response_from_proto
  received-eq-ok (err e) out h = cc
  received-eq-ok (ok resp) out h = elim (Result-cases (response_to_proto S resp)) [
    | inl (p, e) ↦ (
      resp,
      refl,
      ap (λ (x : Response). x.decision) (ok-injective _ _ (sym (rw e at h)))
          ∙ response-eq-ok resp p e,
    )
    | inr (x, e) ↦ ground arith
  ]

  -- Provided that `AsMap` undoes `NewStruct`, a response that the client returns carries the
  -- evaluator's own decision on the request as it was delivered.
  call-serve :
      (eval : Request → Result Response) (req : Request) (out : Response)
      → IsFaithful
      → call S (serve S eval) req ≡ ok out
      → (resp : Response) × (eval (delivered req) ≡ ok resp) × (out.decision ≡ resp.decision)
  unfolding call serve
  call-serve eval req out faithful h =
      let (p, encoded, back) =
        >>=-eq-ok (wrap "grpcpdp: encode request" (request_to_proto S req)) _ h in
      let same = request_from_proto-to req p faithful (wrap-eq-ok _ _ encoded) in
      let (resp, asked, decided) = received-eq-ok (eval (request_from_proto S p)) out back in
      (resp, ap eval (sym same) ∙ asked, decided)
