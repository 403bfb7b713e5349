-- ===== src/Tests/Contract.antt =====
-- The transports, the relationship engine, and the digest.
use mathlib.Core.Option
use zta_core.Authzen.Validate.{name_token}
use zta_core.Base.{
  Bool-cases, eq_iff, sym, ◌∙◌, ℕ, String, Bool, true, false, ◌≡◌, ◌≢◌, ◌↔◌, ◌⊎◌, refl, inl, inr,
  Option, none, some, List, [], ◌∷◌, ◌==◌, Result, ok, err, arith, as_validation, Error,
}
use zta_core.Base.Text.{colon, cut}
use zta_core.Base.Text.Laws.{join}
use zta_core.Json.{Value, bool, str, obj, Fields, end, field, Map, get}
use zta_core.Json.Canon.{canon}
use zta_core.Json.Render.{render, marshal}
use zta_core.Http.{stream, Exchange, answered}
use zta_core.Authzen.{Response}
use zta_core.Authzen.Validate.Names.{colon_char, name_token_iff}
use zta_core.Token.{resource_digest}
use zta_core.Token.Digest.{resource_digest-ext}
use zta_core.Engine.{Decision}
use zta_core.Pdp.{evaluate}
use zta_core.Rebac
use zta_core.Rebac.{Config, object_for}
use zta_core.Rebac.Laws.{object_for-cut, Related, eval-Related}
use zta_core.PdpClient
use zta_core.PdpClient.{endpoint}
use zta_core.PdpClient.Laws.{evaluate-eq-ok_iff}
use zta_core.Api.{decoded, handle_evaluation}
use zta_core.Api.Laws.{Answered, handle_evaluation-Answered}
use zta_core.Grpc
use zta_core.Grpc.{Structs, EvaluationRequest, request_to_proto, request_from_proto, serve, call}
use zta_core.Tests.Toys.{toy_hash, platform, service, view, view_claims, view_response}

nested_text :
    marshal (obj (field "b" (str "<\"é\n") (field "a" (bool true) end)))
    ≡ "{\"a\":true,\"b\":\"\\u003c\\\"é\\n\"}"
unfolding marshal render canon zta_core.Json.Canon.place zta_core.Json.Order.before
nested_text = refl

abbrev one_two : Fields
one_two = field "a" (bool true) (field "b" (str "x") end)

abbrev two_one : Fields
two_one = field "b" (str "x") (field "a" (bool true) end)

a_ne_b : ◌≢◌ {A = String} "a" "b"
a_ne_b h = ground (arith, (eq_iff "a" "b").1 h)

one_two_same : (k : String) → Option.map canon (get k one_two) ≡ Option.map canon (get k two_one)
unfolding get
one_two_same k = elim (Bool-cases ("a" == k)) [
  | inl e ↦ elim (Bool-cases ("b" == k)) [
    | inl f ↦ absurd (a_ne_b ((eq_iff "a" k).0 e ∙ sym ((eq_iff "b" k).0 f)))
    | inr f ↦ rw (e, f) refl
  ]
  | inr e ↦ elim (Bool-cases ("b" == k)) [ inl f ↦ rw (e, f) refl | inr f ↦ rw (e, f) refl ]
]

one_two_apart :
    (get "a" (field "b" (str "x") end) ≡ none) × (get "b" (field "a" (bool true) end) ≡ none)
unfolding get
one_two_apart = (refl, refl)

resource_digest-ext_example :
    resource_digest toy_hash (some one_two) ≡ resource_digest toy_hash (some two_one)
unfolding get
resource_digest-ext_example =
    resource_digest-ext toy_hash one_two two_one (one_two_apart.0, (refl, tt))
      (one_two_apart.1, (refl, tt)) one_two_same

acct_token : name_token "acct" ≡ true
unfolding name_token
acct_token = refl

wallet_token : name_token "wallet" ≡ true
unfolding name_token
wallet_token = refl

object_for-cut_example :
    cut colon (object_for (join colon_char "acct" "wallet") "w-1") ≡ some ("wallet", "w-1")
object_for-cut_example =
    object_for-cut "acct" "wallet" "w-1" ((name_token_iff "acct").0 acct_token)
      ((name_token_iff "wallet").0 wallet_token) (λ h. cc)

abbrev fga : Config
fga = record { endpoint = "http://fga"; store_id = "s"; model_id = "" }

abbrev related_input : Fields
related_input = field "subject" (obj (field "id" (str "u-1") end)) (
    field "action" (obj (field "name" (str "acct:view") end))
      (field "resource" (obj (field "type" (str "acct:wallet") (field "id" (str "w-1") end))) end))

abbrev related_decision : Decision
related_decision = record { allow = true; obligations = []; reason_code = "rebac_relationship_ok" }

related_run :
    zta_core.Rebac.eval
      (λ url body. answered 200 "yes")
      (λ body. some (body == "yes"))
      fga
      (obj related_input)
    ≡ ok related_decision
unfolding Rebac.eval Rebac.relation_for cut Rebac.nested get object_for Rebac.check
related_run = refl

eval-Related_example :
    (m : Fields) × (obj related_input ≡ obj m)
    × Related (λ url body. answered 200 "yes") (λ body. some (body == "yes")) fga m
eval-Related_example =
    eval-Related (λ url body. answered 200 "yes") (λ body. some (body == "yes")) fga
      (obj related_input) related_decision related_run refl

evaluate-eq-ok_iff_example :
    (zta_core.PdpClient.evaluate
        (λ url body. answered 200 "")
        (λ body. some view_response)
        "http://pdp"
        view
      ≡ ok view_response)
    ↔ ((body : String) × (◌≡◌ {A = Exchange} (answered 200 "") (answered 200 body))
        × (◌≡◌ {A = Option Response} (some view_response) (some view_response)))
evaluate-eq-ok_iff_example =
    evaluate-eq-ok_iff (λ url body. answered 200 "") (λ body. some view_response) "http://pdp" view
      view_response

handle_evaluation-Answered_example : Answered (platform view_claims) service 0 view (
    handle_evaluation
      (λ body. decoded view)
      (evaluate (platform view_claims) service 0)
      (stream ""))
handle_evaluation-Answered_example =
    handle_evaluation-Answered (platform view_claims) (λ body. decoded view) service 0 (stream "")
      view (λ input x e. cc) refl

abbrev pub plain_structs : Structs
plain_structs = record { Struct = Fields; new_struct = λ m. some m; as_fields = λ m. m }

pub plain_faithful : (m s : Fields) → ◌≡◌ {A = Option Fields} (some m) (some s) → s ≡ m
plain_faithful m s h = cc

abbrev view_proto : EvaluationRequest plain_structs
view_proto = record {
  subject = some (record {
    kind = "user";
    id = "u-1";
    properties = some (field "auth_assurance_level" (str "AAL2") end);
  });
  action = some (record { name = "acct:view"; properties = some (field "method" (str "GET") end) });
  resource = some (record { kind = "acct:wallet"; id = "w-1"; properties = none });
  context = some (field "authz_profile" (str "edge") (field "correlation_id" (str "c-1") end));
}

view_encoded : request_to_proto plain_structs view ≡ ok view_proto
unfolding request_to_proto Grpc.map_to_struct
view_encoded = refl

pub called :
    call plain_structs (serve plain_structs (λ req. ok view_response)) view ≡ ok view_response
unfolding call request_to_proto Grpc.map_to_struct serve Grpc.response_to_proto Grpc.obligations_to
    Grpc.response_from_proto zta_core.Base.Int.int32
called = refl
