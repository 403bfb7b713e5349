-- ===== src/Grpc/Delivery.antt =====
-- A call over gRPC as a whole, where the maps in the request and in the response encode.
use zta_core.Base.{
  ◌≡◌, refl, ap, ◌∙◌, Bool, Option, none, some, List, [], ◌∷◌, Result, ok, >>=-eq-ok_of,
}
use zta_core.Json.{Fields, end, field, Map}
use zta_core.Authzen.{Request, Obligation, ResponseContext, Response}
use zta_core.Grpc.{
  Structs, ProtoObligation, EvaluationRequest, EvaluationResponse, map_to_struct, request_to_proto,
  request_from_proto, obligations_to, context_to, response_to_proto, response_from_proto, serve,
  call,
}
use zta_core.Grpc.Laws.{delivered, IsFaithful, request_from_proto-to}
use zta_core.Grpc.Exact.{returned, FitsInt32, call-serve_exact}

module _ (S : Structs) where
  -- `NewStruct` takes every map of JSON values.
  abbrev pub Encodes : Type 0
  Encodes = (m : Fields) → (s : S.Struct) × (S.new_struct m ≡ some s)

  map_to_struct-ok : Encodes → (m : Map) → (s : Option S.Struct) × (map_to_struct S m ≡ ok s)
  unfolding map_to_struct
  map_to_struct-ok encodes none = (none, refl)
  map_to_struct-ok encodes (some end) = (none, refl)
  map_to_struct-ok encodes (some (field k v m)) =
      let (s, made) = encodes (field k v m) in (some s, rw made refl)

  request_to_proto-ok :
      Encodes → (r : Request) → (p : EvaluationRequest S) × (request_to_proto S r ≡ ok p)
  unfolding request_to_proto
  request_to_proto-ok encodes r =
      let (a, ea) = map_to_struct-ok encodes r.subject.properties in
      let (b, eb) = map_to_struct-ok encodes r.action.properties in
      let (c, ec) = map_to_struct-ok encodes r.resource.properties in
      let (d, ed) = map_to_struct-ok encodes r.context in
      >>=-eq-ok_of (map_to_struct S r.subject.properties) _ ea (
        >>=-eq-ok_of (map_to_struct S r.action.properties) _ eb (
          >>=-eq-ok_of (map_to_struct S r.resource.properties) _ ec
            (>>=-eq-ok_of (map_to_struct S r.context) _ ed (_, refl))))

  obligations_to-ok :
      Encodes
      → (obs : List Obligation) → (ps : List (ProtoObligation S)) × (obligations_to S obs ≡ ok ps)
  unfolding obligations_to
  obligations_to-ok encodes [] = ([], refl)
  obligations_to-ok encodes (ob ∷ obs) =
      let (details, made) = map_to_struct-ok encodes ob.details in
      let (rest, made_rest) = obligations_to-ok encodes obs in
      >>=-eq-ok_of (map_to_struct S ob.details) _ made
        (>>=-eq-ok_of (obligations_to S obs) _ made_rest (_, refl))

  context_to-ok :
      Encodes
      → (decision : Bool) (c : Option ResponseContext)
      → (p : EvaluationResponse S) × (context_to S decision c ≡ ok p)
  context_to-ok encodes decision none = (_, refl)
  context_to-ok encodes decision (some c) =
      let (obs, made) = obligations_to-ok encodes c.obligations in
      >>=-eq-ok_of (obligations_to S c.obligations) _ made (_, refl)

  call-ok :
      (eval : Request → Result Response) (req : Request) (resp : Response)
      → Encodes
      → IsFaithful S
      → eval (delivered req) ≡ ok resp
      → (out : Response) × (call S (serve S eval) req ≡ ok out)
  unfolding call serve response_to_proto
  call-ok eval req resp encodes faithful asked =
      let (p, encoded) = request_to_proto-ok encodes req in
      let same : request_from_proto S p ≡ delivered req =
        request_from_proto-to S req p faithful encoded in
      let answer : eval (request_from_proto S p) ≡ ok resp = ap eval same ∙ asked in
      let (back, returned_p) = context_to-ok encodes resp.decision resp.context in
      (response_from_proto S back, rw (encoded, answer, returned_p) refl)

  -- The PDP's whole response to the delivered request, its token and obligations included, is what the
  -- PEP gets over gRPC, provided that the token's lifetime is below 2^31 seconds, that `NewStruct`
  -- takes the maps and that `AsMap` undoes it.
  pub call-delivers :
      (eval : Request → Result Response) (req : Request) (resp : Response)
      → Encodes
      → IsFaithful S
      → eval (delivered req) ≡ ok resp
      → FitsInt32 resp.context
      → call S (serve S eval) req ≡ ok (returned resp)
  call-delivers eval req resp encodes faithful asked short =
      let (out, arrives) = call-ok eval req resp encodes faithful asked in
      arrives ∙ ap ok (call-serve_exact S eval req resp out faithful asked short arrives)
