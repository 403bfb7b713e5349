-- ===== src/Authzen/Encode/Laws.antt =====
-- The JSON forms of authz/authzen/types.go, by what a reader finds under each key.
use zta_core.Base.{
  String, ◌≡◌, ◌≢◌, refl, ◌∙◌, inl, inr, Option, none, some, List, [], ◌∷◌, ◌==◌, eq_iff, arith,
  Bool-cases,
}
use zta_core.Json.{Value, bool, num, str, arr, obj, Items, nil, cons, Fields, end, field, Map, get}
use zta_core.Json.Canon.{canon_fields}
use zta_core.Authzen.{Request, Response, ResponseContext, DecisionToken, Obligation}
use zta_core.Authzen.Encode.{
  with_text, with_map, with_token, with_obligations, integer, obligation_items, request_fields,
  response_fields,
}

-- A map that is not empty stands under its key with its entries sorted.
abbrev pub Shows : String → Map → Fields → Type 0
Shows key props m =
    (k : String) (v : Value) (rest : Fields)
    → props ≡ some (field k v rest)
    → get key m ≡ some (obj (canon_fields (field k v rest)))

-- The JSON of a request.
pub record IsRequestJson (r : Request) (m : Fields) : Type 0 where
  pub subject : Fields
  pub has_subject : get "subject" m ≡ some (obj subject)
  pub subject_type : get "type" subject ≡ some (str r.subject.kind)
  pub subject_id : get "id" subject ≡ some (str r.subject.id)
  pub subject_properties : Shows "properties" r.subject.properties subject
  pub action : Fields
  pub has_action : get "action" m ≡ some (obj action)
  pub action_name : get "name" action ≡ some (str r.action.name)
  pub action_properties : Shows "properties" r.action.properties action
  pub resource : Fields
  pub has_resource : get "resource" m ≡ some (obj resource)
  pub resource_type : get "type" resource ≡ some (str r.resource.kind)
  pub resource_id : r.resource.id ≢ "" → get "id" resource ≡ some (str r.resource.id)
  pub resource_properties : Shows "properties" r.resource.properties resource
  pub has_context : Shows "context" r.context m

-- The obligations as the items of an array, each with its type and its details.
pub data AreItems : List Obligation → Items → Type 0 where
  no_item : AreItems [] nil
  item :
      {ob : Obligation} {obs : List Obligation} {f : Fields} {items : Items}
      → get "type" f ≡ some (str ob.kind)
      → Shows "details" ob.details f
      → AreItems obs items
      → AreItems (ob ∷ obs) (cons (obj f) items)

-- The JSON of a response's context.
pub record IsContextJson (c : ResponseContext) (m : Fields) : Type 0 where
  pub no_token : c.decision_token ≡ none → get "decision_token" m ≡ none
  pub token :
      (t : DecisionToken)
      → c.decision_token ≡ some t
      → (f : Fields) × (get "decision_token" m ≡ some (obj f))
        × (get "value" f ≡ some (str t.value))
        × (get "ttl_seconds" f ≡ some (num (integer t.ttl_seconds)))
  pub obligations :
      (ob : Obligation) (obs : List Obligation)
      → c.obligations ≡ ob ∷ obs
      → (items : Items) × (get "obligations" m ≡ some (arr items)) × AreItems (ob ∷ obs) items
  pub reason : c.reason_code ≢ "" → get "reason_code" m ≡ some (str c.reason_code)

-- The JSON of a response.
pub record IsResponseJson (resp : Response) (m : Fields) : Type 0 where
  pub decision : get "decision" m ≡ some (bool resp.decision)
  pub context :
      (c : ResponseContext)
      → resp.context ≡ some c
      → (f : Fields) × (get "context" m ≡ some (obj f)) × IsContextJson c f

pub with_text-get :
    (key text : String) (rest : Fields)
    → text ≢ ""
    → get key (with_text key text rest) ≡ some (str text)
unfolding get
with_text-get key text rest named = ground (arith, named, eq_iff text "", eq_iff key key)

text_before :
    (text : String) (rest : Fields)
    → get "properties" (with_text "id" text rest) ≡ get "properties" rest
unfolding get
text_before text rest = elim (Bool-cases (text == "")) [ inl e ↦ rw e refl | inr e ↦ rw e refl ]

with_map-Shows :
    (key : String) (props : Map) (rest : Fields) → Shows key props (with_map key props rest)
unfolding get
with_map-Shows key props rest k v more h = rw h (ground (arith, eq_iff key key))

pub request_fields-IsRequestJson : (r : Request) → IsRequestJson r (request_fields r)
unfolding request_fields get
request_fields-IsRequestJson r = record {
  subject = _;
  has_subject = refl;
  subject_type = refl;
  subject_id = refl;
  subject_properties = with_map-Shows "properties" r.subject.properties end;
  action = _;
  has_action = refl;
  action_name = refl;
  action_properties = with_map-Shows "properties" r.action.properties end;
  resource = _;
  has_resource = refl;
  resource_type = refl;
  resource_id = λ named. with_text-get "id" r.resource.id _ named;
  resource_properties = λ k v rest h.
      text_before r.resource.id (with_map "properties" r.resource.properties end)
      ∙ with_map-Shows "properties" r.resource.properties end k v rest h;
  has_context = with_map-Shows "context" r.context end;
}

obligation_items-AreItems : (obs : List Obligation) → AreItems obs (obligation_items obs)
unfolding obligation_items get
obligation_items-AreItems [] = no_item
obligation_items-AreItems (ob ∷ obs) =
    item refl (with_map-Shows "details" ob.details end) (obligation_items-AreItems obs)

reason_only : (reason : String) → get "decision_token" (with_text "reason_code" reason end) ≡ none
unfolding get
reason_only reason = elim (Bool-cases (reason == "")) [ inl e ↦ rw e refl | inr e ↦ rw e refl ]

without_token :
    (obs : List Obligation) (reason : String)
    → get "decision_token" (with_obligations obs (with_text "reason_code" reason end)) ≡ none
unfolding get
without_token [] reason = reason_only reason
without_token (ob ∷ obs) reason = reason_only reason

after_token :
    (o : Option DecisionToken) (rest : Fields)
    → (get "obligations" (with_token o rest) ≡ get "obligations" rest)
      × (get "reason_code" (with_token o rest) ≡ get "reason_code" rest)
unfolding get
after_token none rest = (refl, refl)
after_token (some t) rest = (refl, refl)

after_obligations :
    (obs : List Obligation) (rest : Fields)
    → get "reason_code" (with_obligations obs rest) ≡ get "reason_code" rest
unfolding get
after_obligations [] rest = refl
after_obligations (ob ∷ obs) rest = refl

context-IsContextJson :
    (c : ResponseContext)
    → IsContextJson c (
        with_token c.decision_token
          (with_obligations c.obligations (with_text "reason_code" c.reason_code end)))
unfolding get
context-IsContextJson c =
    let reason = with_text "reason_code" c.reason_code end in
    let after = with_obligations c.obligations reason in
    record {
      no_token = λ h. rw h (without_token c.obligations c.reason_code);
      token = λ t h. rw h (_, refl, refl, refl);
      obligations = λ ob obs h. (
        obligation_items (ob ∷ obs),
        (after_token c.decision_token after).0 ∙ rw h refl,
        obligation_items-AreItems (ob ∷ obs),
      );
      reason = λ named.
          (after_token c.decision_token after).1
          ∙ after_obligations c.obligations reason
          ∙ with_text-get "reason_code" c.reason_code end named;
    }

pub response_fields-IsResponseJson : (resp : Response) → IsResponseJson resp (response_fields resp)
unfolding response_fields get
response_fields-IsResponseJson resp = record {
  decision = refl;
  context = λ c h. rw h (_, refl, context-IsContextJson c);
}
