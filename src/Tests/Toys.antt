-- ===== src/Tests/Toys.antt =====
-- Small stand-ins for the packages that the code calls.
use mathlib.Core.Option.{some-injective}
use zta_core.Base.{
  ap, subst, String, Bool, true, ◌≡◌, inl, inr, ◌&&◌, ◌==◌, Option, none, some, [], ◌∷◌, arith,
  eq_iff, eqb, if◌then◌else◌, ok, Bool-cases,
}
use zta_core.Base64.{Bytes, IsBytes}
use zta_core.Json.{str, end, field, Map}
use zta_core.Signed.{Hash, Codec}
use zta_core.Base.Int.{pos}
use zta_core.Authzen.{Request, Response, DecisionToken}
use zta_core.Token.{Claims, Issuer}
use zta_core.Caep.Cache.{Event}
use zta_core.Engine.{Decision}
use zta_core.Pdp

-- A hash of one byte that tells "null" and the key "k" from other texts.
abbrev pub one_byte : String → String → Bytes
one_byte special text = if text == special then 1 ∷ [] else 2 ∷ []

pub one_byte-IsBytes : (special text : String) → IsBytes (one_byte special text)
one_byte-IsBytes special text = elim (Bool-cases (text == special)) [
  | inl e ↦ rw e (omega arith, tt)
  | inr e ↦ rw e (omega arith, tt)
]

abbrev pub toy_hash : Hash
toy_hash = record {
  sha256 = one_byte "null";
  hmac = λ key text. one_byte "k" key;
  hmac-IsBytes = λ key text. one_byte-IsBytes "k" key;
}

-- A codec of one value.
module _ {A : Type 0} (is_it : A → Bool) (it : A)
    (is_it-eq : (a : A) → is_it a ≡ true → it ≡ a) where
  abbrev pub marshal_it : A → Option Bytes
  marshal_it a = if is_it a then some (7 ∷ []) else none

  pub marshal_it-eq-some : (a : A) (bs : Bytes) → marshal_it a ≡ some bs → IsBytes bs × (it ≡ a)
  marshal_it-eq-some a bs h = elim (Bool-cases (is_it a)) [
    | inl e ↦ (subst IsBytes (some-injective _ _ (rw e at h)) (omega arith, tt), is_it-eq a e)
    | inr e ↦ ground arith
  ]

  abbrev pub codec_of : Codec A
  codec_of = record {
    marshal = marshal_it;
    unmarshal = λ bs. some it;
    marshal-IsBytes = λ a bs h. (marshal_it-eq-some a bs h).0;
    unmarshal-marshal = λ a bs h. ap some (marshal_it-eq-some a bs h).1;
  }

abbrev pub same_claims : Claims → Claims → Bool
same_claims a b =
    (a.subject == b.subject)
    && ((a.action == b.action)
        && ((a.resource == b.resource)
            && ((a.aal == b.aal)
                && ((a.res_digest == b.res_digest)
                    && ((a.correlation_id == b.correlation_id)
                        && (eqb a.issued_at b.issued_at && eqb a.expires_at b.expires_at))))))

pub same_claims-eq : (a b : Claims) → same_claims a b ≡ true → b ≡ a
same_claims-eq a b h =
    let subject : b.subject ≡ a.subject = ground (arith, eq_iff a.subject b.subject) in
    let action : b.action ≡ a.action = ground (arith, eq_iff a.action b.action) in
    let resource : b.resource ≡ a.resource = ground (arith, eq_iff a.resource b.resource) in
    let aal : b.aal ≡ a.aal = ground (arith, eq_iff a.aal b.aal) in
    let digest : b.res_digest ≡ a.res_digest = ground (arith, eq_iff a.res_digest b.res_digest) in
    let cid : b.correlation_id ≡ a.correlation_id =
      ground (arith, eq_iff a.correlation_id b.correlation_id) in
    let issued : b.issued_at ≡ a.issued_at = ground arith in
    let expires : b.expires_at ≡ a.expires_at = ground arith in
    λ i. record {
      subject = subject i;
      action = action i;
      resource = resource i;
      aal = aal i;
      res_digest = digest i;
      correlation_id = cid i;
      issued_at = issued i;
      expires_at = expires i;
    }

abbrev pub claims_codec : Claims → Codec Claims
claims_codec c = codec_of (λ a. same_claims a c) c (λ a h. same_claims-eq a c h)

abbrev pub same_event : Event → Event → Bool
same_event a b = (a.kind == b.kind) && ((a.subject == b.subject) && eqb a.issued_at b.issued_at)

pub same_event-eq : (a b : Event) → same_event a b ≡ true → b ≡ a
same_event-eq a b h =
    let kind : b.kind ≡ a.kind = ground (arith, eq_iff a.kind b.kind) in
    let subject : b.subject ≡ a.subject = ground (arith, eq_iff a.subject b.subject) in
    let issued : b.issued_at ≡ a.issued_at = ground arith in
    λ i. record { kind = kind i; subject = subject i; issued_at = issued i }

abbrev pub event_codec : Event → Codec Event
event_codec e = codec_of (λ a. same_event a e) e (λ a h. same_event-eq a e h)

abbrev pub yes_decision : Decision
yes_decision = record { allow = true; obligations = []; reason_code = "ok" }

abbrev pub quick_issuer : Issuer
quick_issuer = record { secret = "k"; ttl = 300000000000 }

-- A platform whose decoder finds an empty object, and whose codec knows one claim.
abbrev pub platform : Claims → zta_core.Pdp.Platform
platform c = record {
  quote = λ s. s;
  hash = toy_hash;
  claims = claims_codec c;
  unmarshal_map = λ s. some end;
}

abbrev pub service : zta_core.Pdp.Service
service = record { engine = λ v. ok yes_decision; issuer = quick_issuer }

-- A request of the contract with these resource properties.
abbrev pub view_request : Map → Request
view_request props = record {
  subject = record {
    kind = "user";
    id = "u-1";
    properties = some (field "auth_assurance_level" (str "AAL2") end);
  };
  action = record { name = "acct:view"; properties = some (field "method" (str "GET") end) };
  resource = record { kind = "acct:wallet"; id = "w-1"; properties = props };
  context = some (field "authz_profile" (str "edge") (field "correlation_id" (str "c-1") end));
}

abbrev pub no_claims : Claims
no_claims = record {
  subject = "";
  action = "";
  resource = "";
  aal = "";
  res_digest = "";
  correlation_id = "";
  issued_at = 0;
  expires_at = 0;
}

abbrev pub view : Request
view = view_request none

abbrev pub view_claims : Claims
view_claims = record {
  subject = "u-1";
  action = "acct:view";
  resource = "acct:wallet/w-1";
  aal = "AAL2";
  res_digest = "AQ";
  correlation_id = "c-1";
  issued_at = 0;
  expires_at = 300;
}

abbrev pub view_token : DecisionToken
view_token = record { value = "Bw.AQ"; ttl_seconds = pos 300 }

abbrev pub view_response : Response
view_response = record {
  decision = true;
  context =
      some (record { decision_token = some view_token; obligations = []; reason_code = "ok" });
}
