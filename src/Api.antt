-- ===== src/Api.antt =====
-- authz/api/handler.go: the AuthZEN endpoint over HTTP. The decoding of the body, with the
-- decoder's error text, and the evaluator are parameters.
pub mod Laws
use zta_core.Base.{
  ℕ, String, Option, none, some, List, [], ◌∷◌, Error, as_validation, Result, ok, err,
}
use zta_core.Json.{Value, str, arr, obj, Items, nil, cons, Fields, end, field}
use zta_core.Json.Render.{render}
use zta_core.Http.{Body, Headers, Reply, write_json, write_encoded}
use zta_core.Authzen.{Request, Response}
use zta_core.Authzen.Encode.{response_fields}

-- `writeError`
abbrev pub write_error : ℕ → String → String → Reply
write_error status code msg =
    write_json status (obj (field "error" (str code) (field "message" (str msg) end))) []

unfoldable pub issue_items : List String → Items
issue_items [] = nil
issue_items (x ∷ xs) = cons (str x) (issue_items xs)

abbrev pub contract_violation : List String → Reply
contract_violation issues =
    write_json 400
      (obj
        (field "error" (str "contract_violation") (field "issues" (arr (issue_items issues)) end)))
      []

abbrev pub internal_error : Reply
internal_error = write_error 500 "internal_error" "evaluation failed"

abbrev pub evaluation_error : Option (List String) → Reply
evaluation_error none = internal_error
evaluation_error (some issues) = contract_violation issues

abbrev pub decision_reply : Response → Reply
decision_reply resp = write_encoded 200 (render (obj (response_fields resp))) []

abbrev pub evaluated : Result Response → Reply
evaluated (err e) = evaluation_error (as_validation e)
evaluated (ok resp) = decision_reply resp

-- What decoding a body into a request gives: the decoder's error text, or the request.
pub data Decoded : Type 0 where
  undecodable : String → Decoded
  decoded : Request → Decoded

module _ (decode : Body → Decoded) (evaluate : Request → Result Response) where
  abbrev pub on_decoded : Decoded → Reply
  on_decoded (undecodable text) = write_error 400 "invalid_json" text
  on_decoded (decoded req) = evaluated (evaluate req)

  -- `handleEvaluation`
  unfoldable pub handle_evaluation : Body → Reply
  handle_evaluation body = on_decoded (decode body)

-- `handleHealth`
unfoldable pub handle_health : Reply
handle_health = write_json 200 (obj (field "status" (str "ok") end)) []
