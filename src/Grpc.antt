-- ===== src/Grpc.antt =====
-- authz/grpcpdp: the PDP over gRPC. The messages are those that proto/authzen/v1 generates, a
-- pointer that may be nil an `Option`; `google.protobuf.Struct` is a parameter, with `NewStruct`
-- and `AsMap`.
pub mod Laws
pub mod Exact
pub mod Delivery
use zta_core.Base.{
  String, Bool, Option, none, some, List, [], ◌∷◌, map, Error, message, wrapped, as_validation,
  Result, ok, err, ◌>>=◌, wrap, or_message,
}
use zta_core.Base.Int.{ℤ, int32}
use zta_core.Json.{Fields, end, field, Map}
use zta_core.Authzen.{
  Subject, Action, Resource, Request, DecisionToken, Obligation, ResponseContext, Response,
}

pub record Structs : Type 1 where
  pub Struct : Type 0
  pub new_struct : Fields → Option Struct
  pub as_fields : Struct → Fields

module _ (S : Structs) where
  pub record ProtoSubject : Type 0 where
    pub kind : String
    pub id : String
    pub properties : Option S.Struct

  pub record ProtoAction : Type 0 where
    pub name : String
    pub properties : Option S.Struct

  pub record ProtoResource : Type 0 where
    pub kind : String
    pub id : String
    pub properties : Option S.Struct

  pub record EvaluationRequest : Type 0 where
    pub subject : Option ProtoSubject
    pub action : Option ProtoAction
    pub resource : Option ProtoResource
    pub context : Option S.Struct

  pub record ProtoToken : Type 0 where
    pub value : String
    pub ttl_seconds : ℤ

  pub record ProtoObligation : Type 0 where
    pub kind : String
    pub details : Option S.Struct

  pub record EvaluationResponse : Type 0 where
    pub decision : Bool
    pub decision_token : Option ProtoToken
    pub obligations : List ProtoObligation
    pub reason_code : String

  abbrev pub built : Option S.Struct → Result (Option S.Struct)
  built none = err (message "structpb")
  built (some s) = ok (some s)

  -- `mapToStruct`
  unfoldable pub map_to_struct : Map → Result (Option S.Struct)
  map_to_struct none = ok none
  map_to_struct (some end) = ok none
  map_to_struct (some (field k v m)) = built (S.new_struct (field k v m))

  -- `AsMap`: a nil struct gives an empty map, not a nil one.
  abbrev pub as_map : Option S.Struct → Map
  as_map none = some end
  as_map (some s) = some (S.as_fields s)

  -- `requestToProto`
  unfoldable pub request_to_proto : Request → Result EvaluationRequest
  request_to_proto r = do
    sub_props ← map_to_struct r.subject.properties
    act_props ← map_to_struct r.action.properties
    res_props ← map_to_struct r.resource.properties
    ctx ← map_to_struct r.context
    ok (record {
      subject = some (record { kind = r.subject.kind; id = r.subject.id; properties = sub_props });
      action = some (record { name = r.action.name; properties = act_props });
      resource =
          some (record { kind = r.resource.kind; id = r.resource.id; properties = res_props });
      context = ctx;
    })

  abbrev pub subject_from : Option ProtoSubject → Subject
  subject_from none = record { kind = ""; id = ""; properties = none }
  subject_from (some s) = record { kind = s.kind; id = s.id; properties = as_map s.properties }

  abbrev pub action_from : Option ProtoAction → Action
  action_from none = record { name = ""; properties = none }
  action_from (some a) = record { name = a.name; properties = as_map a.properties }

  abbrev pub resource_from : Option ProtoResource → Resource
  resource_from none = record { kind = ""; id = ""; properties = none }
  resource_from (some r) = record { kind = r.kind; id = r.id; properties = as_map r.properties }

  -- `requestFromProto`
  unfoldable pub request_from_proto : EvaluationRequest → Request
  request_from_proto p = record {
    subject = subject_from p.subject;
    action = action_from p.action;
    resource = resource_from p.resource;
    context = as_map p.context;
  }

  abbrev pub token_to : Option DecisionToken → Option ProtoToken
  token_to none = none
  token_to (some t) = some (record { value = t.value; ttl_seconds = int32 t.ttl_seconds })

  unfoldable pub obligations_to : List Obligation → Result (List ProtoObligation)
  obligations_to [] = ok []
  obligations_to (ob ∷ obs) = do
    details ← map_to_struct ob.details
    rest ← obligations_to obs
    ok ((record { kind = ob.kind; details = details }) ∷ rest)

  abbrev pub context_to : Bool → Option ResponseContext → Result EvaluationResponse
  context_to decision none =
      ok (record { decision = decision; decision_token = none; obligations = []; reason_code = "" })
  context_to decision (some c) = do
    obs ← obligations_to c.obligations
    ok (record {
      decision = decision;
      decision_token = token_to c.decision_token;
      obligations = obs;
      reason_code = c.reason_code;
    })

  -- `responseToProto`
  unfoldable pub response_to_proto : Response → Result EvaluationResponse
  response_to_proto resp = context_to resp.decision resp.context

  abbrev pub token_from : Option ProtoToken → Option DecisionToken
  token_from none = none
  token_from (some t) = some (record { value = t.value; ttl_seconds = t.ttl_seconds })

  abbrev pub obligation_from : ProtoObligation → Obligation
  obligation_from ob = record { kind = ob.kind; details = as_map ob.details }

  -- `responseFromProto`
  unfoldable pub response_from_proto : EvaluationResponse → Response
  response_from_proto p = record {
    decision = p.decision;
    context = some (record {
      decision_token = token_from p.decision_token;
      obligations = map obligation_from p.obligations;
      reason_code = p.reason_code;
    });
  }

  -- The status of a failed call: `codes.InvalidArgument`, `codes.Internal`, or the plain error of
  -- the response's conversion.
  pub data Status : Type 0 where
    invalid_argument : List String → Status
    internal : Status
    unknown : Status

  pub data Served : Type 0 where
    served : EvaluationResponse → Served
    failure : Status → Served

  abbrev pub error_status : Option (List String) → Status
  error_status none = internal
  error_status (some issues) = invalid_argument issues

  abbrev pub converted : Result EvaluationResponse → Served
  converted (err e) = failure unknown
  converted (ok p) = served p

  abbrev pub answered : Result Response → Served
  answered (err e) = failure (error_status (as_validation e))
  answered (ok resp) = converted (response_to_proto resp)

  -- `Server.Evaluate`
  unfoldable pub serve : (Request → Result Response) → EvaluationRequest → Served
  serve eval p = answered (eval (request_from_proto p))

  abbrev pub received : Served → Result Response
  received (served p) = ok (response_from_proto p)
  received (failure st) = err (message "grpcpdp: evaluate")

  -- `Client.Evaluate`, over a connection that delivers what the server answers
  unfoldable pub call : (EvaluationRequest → Served) → Request → Result Response
  call rpc req = do p ← wrap "grpcpdp: encode request" (request_to_proto req); received (rpc p)
