-- ===== src/PdpClient/Laws.antt =====
-- The client gives a response only from a 200 of the PDP.
use zta_core.Base.{
  String, ◌≡◌, ◌↔◌, refl, ap, inl, inr, Option, some, arith, eqb, eqb_iff, ok, Bool-cases,
  Option-cases,
}
use zta_core.Json.{obj}
use zta_core.Json.Render.{render}
use zta_core.Http.{Exchange, bad_url, failed, answered}
use zta_core.Authzen.{Request, Response}
use zta_core.Authzen.Encode.{request_fields}
use zta_core.PdpClient.{endpoint, outcome, evaluate}

module _ (post : String → String → Exchange) (decode_response : String → Option Response) where
  outcome-eq-ok :
      (x : Exchange) (resp : Response)
      → outcome post decode_response x ≡ ok resp
      → (body : String) × (x ≡ answered 200 body) × (decode_response body ≡ some resp)
  outcome-eq-ok (bad_url e) resp h = cc
  outcome-eq-ok (failed e) resp h = cc
  outcome-eq-ok (answered status body) resp h = elim (Bool-cases (eqb status 200)) [
    | inr e ↦ ground arith
    | inl e ↦ elim (Option-cases (decode_response body)) [
      | inl bad ↦ ground arith
      | inr (b, good) ↦ (body, ap (λ n. answered n body) ((eqb_iff status 200).0 e), ground arith)
    ]
  ]

  -- The client returns a response exactly when the POST of the request's JSON form to the endpoint
  -- was answered 200 with a body that decodes to it; a bad URL, a failed call, another status and a
  -- body that does not decode are errors.
  pub evaluate-eq-ok_iff :
      (base : String) (req : Request) (resp : Response)
      → (evaluate post decode_response base req ≡ ok resp) ↔ (
          (body : String) × (post (endpoint base) (render (obj (request_fields req)))
            ≡ answered 200 body)
          × (decode_response body ≡ some resp))
  unfolding evaluate
  evaluate-eq-ok_iff base req resp =
      (outcome-eq-ok _ resp, λ (body, sent, read). rw (sent, read) refl)
