-- ===== src/Authzen/Encode.antt =====
-- The JSON form of a request: the struct tags of authz/authzen/types.go. Fields come in the
-- order of the struct, `omitempty` leaves out an empty text or map, and the maps inside are
-- written with sorted keys.
pub mod Laws
use zta_core.Base.{◌+◌, ◌<>◌, Option, List, [], ◌∷◌, String, ◌==◌, if◌then◌else◌, none, some}
use zta_core.Base.Int.{ℤ, pos, negsuc}
use zta_core.Base.Text.Decimal.{decimal}
use zta_core.Json.{Items, nil, cons, arr, num, bool, str, obj, Fields, end, field, Map}
use zta_core.Json.Canon.{canon_fields}
use zta_core.Authzen.{
  Subject, Action, Resource, Request, DecisionToken, Obligation, ResponseContext, Response,
}

-- `json:"key,omitempty"` on a string and on a map, before the fields that follow
abbrev pub with_text : String → String → Fields → Fields
with_text key s rest = if s == "" then rest else field key (str s) rest

abbrev pub with_map : String → Map → Fields → Fields
with_map key none rest = rest
with_map key (some end) rest = rest
with_map key (some (field k v m)) rest = field key (obj (canon_fields (field k v m))) rest

unfoldable pub subject_fields : Subject → Fields
subject_fields s =
    field "type" (str s.kind) (field "id" (str s.id) (with_map "properties" s.properties end))

unfoldable pub action_fields : Action → Fields
action_fields a = field "name" (str a.name) (with_map "properties" a.properties end)

unfoldable pub resource_fields : Resource → Fields
resource_fields r =
    field "type" (str r.kind) (with_text "id" r.id (with_map "properties" r.properties end))

unfoldable pub request_fields : Request → Fields
unfolding subject_fields action_fields resource_fields
request_fields r = field "subject" (obj (subject_fields r.subject)) (
    field "action" (obj (action_fields r.action))
      (field "resource" (obj (resource_fields r.resource)) (with_map "context" r.context end)))

-- What decoding into the struct gives: `omitempty` turns an empty map into a nil one, and
-- entries come back with their keys sorted.
abbrev pub wire_map : Map → Map
wire_map none = none
wire_map (some end) = none
wire_map (some (field k v m)) = some (canon_fields (field k v m))

unfoldable pub wire_request : Request → Request
wire_request r = record {
  subject = record r.subject { properties = wire_map r.subject.properties };
  action = record r.action { properties = wire_map r.action.properties };
  resource = record r.resource { properties = wire_map r.resource.properties };
  context = wire_map r.context;
}

abbrev pub integer : ℤ → String
integer (pos n) = decimal n
integer (negsuc n) = "-" <> decimal (n + 1)

abbrev pub with_token : Option DecisionToken → Fields → Fields
with_token none rest = rest
with_token (some t) rest =
    field "decision_token"
      (obj (field "value" (str t.value) (field "ttl_seconds" (num (integer t.ttl_seconds)) end)))
      rest

unfoldable pub obligation_items : List Obligation → Items
obligation_items [] = nil
obligation_items (ob ∷ obs) =
    cons (obj (field "type" (str ob.kind) (with_map "details" ob.details end)))
      (obligation_items obs)

abbrev pub with_obligations : List Obligation → Fields → Fields
with_obligations [] rest = rest
with_obligations (ob ∷ obs) rest = field "obligations" (arr (obligation_items (ob ∷ obs))) rest

abbrev pub with_context : Option ResponseContext → Fields
with_context none = end
with_context (some c) =
    field "context"
      (obj (
        with_token c.decision_token
          (with_obligations c.obligations (with_text "reason_code" c.reason_code end))))
      end

unfoldable pub response_fields : Response → Fields
response_fields resp = field "decision" (bool resp.decision) (with_context resp.context)
