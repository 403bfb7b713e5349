-- ===== src/PdpClient.antt =====
-- authz/pdpclient/client.go: the PEP's HTTP client of the PDP. The POST of a body to a URL and the
-- decoding of a response are parameters.
pub mod Laws
use zta_core.Base.{
  String, ◌<>◌, Option, none, some, eqb, if◌then◌else◌, message, wrapped, Result, ok, err,
  or_message,
}
use zta_core.Base.Text.Decimal.{decimal}
use zta_core.Json.{obj}
use zta_core.Json.Render.{render}
use zta_core.Http.{Exchange, bad_url, failed, answered}
use zta_core.Authzen.{Request, Response}
use zta_core.Authzen.Encode.{request_fields}

-- `New`: the endpoint of a base URL.
abbrev pub endpoint : String → String
endpoint base = base <> "/access/v1/evaluation"

module _ (post : String → String → Exchange) (decode_response : String → Option Response) where
  abbrev pub outcome : Exchange → Result Response
  outcome (bad_url e) = err (wrapped "pdpclient: build request" e)
  outcome (failed e) = err (wrapped "pdpclient: call pdp" e)
  outcome (answered status body) =
      if eqb status 200
      then or_message "pdpclient: decode response" (decode_response body)
      else err (message ("pdpclient: pdp returned HTTP " <> decimal status))

  -- `Client.Evaluate`; the encoder does not fail on the values of the model.
  unfoldable pub evaluate : String → Request → Result Response
  evaluate base req = outcome (post (endpoint base) (render (obj (request_fields req))))
