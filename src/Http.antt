-- ===== src/Http.antt =====
-- What the code uses of `net/http`: header maps, requests with their bodies and TLS state, and
-- the replies that a handler writes. Header names are in canonical form.
pub mod Laws
use zta_core.Base.{
  Error, ℕ, String, ◌<>◌, Bool, Option, none, some, List, [], ◌∷◌, ◌==◌, if◌then◌else◌,
}
use zta_core.Base64.{Bytes}
use zta_core.Json.{Value}
use zta_core.Json.Render.{marshal}

-- The header lines in order; a name may stand on several.
abbrev pub Headers : Type 0
Headers = List (String × String)

-- `h.Get(name)`: the first value, or ""
unfoldable pub header : String → Headers → String
header name [] = ""
header name ((k, v) ∷ hs) = let rest = header name hs in if k == name then v else rest

unfoldable pub without : String → Headers → Headers
without name [] = []
without name ((k, v) ∷ hs) = let rest = without name hs in if k == name then rest else (k, v) ∷ rest

-- `h.Set(name, value)`
unfoldable pub set_header : String → String → Headers → Headers
unfolding without
set_header name value hs = (name, value) ∷ without name hs

-- What is left to read of a body; a read may fail.
pub data Body : Type 0 where
  stream : String → Body
  failing : Body

-- `io.ReadAll(r.Body)`: the text, and the body that is left.
abbrev pub read_all : Body → Option String × Body
read_all (stream s) = (some s, stream "")
read_all failing = (none, failing)

-- `tls` is `r.TLS.PeerCertificates`, by their DER bytes; `none` is a nil `r.TLS`.
pub record HttpRequest : Type 0 where
  pub method : String
  pub path : String
  pub headers : Headers
  pub remote_addr : String
  pub tls : Option (List Bytes)
  pub body : Body

pub record Reply : Type 0 where
  pub status : ℕ
  pub headers : Headers
  pub body : String

-- A reply whose body is this JSON text and the encoder's newline.
unfoldable pub write_encoded : ℕ → String → Headers → Reply
unfolding set_header
write_encoded status text hs = record {
  status = status;
  headers = set_header "Content-Type" "application/json" hs;
  body = text <> "\n";
}

-- `writeJSON`, over the headers that were set before it
abbrev pub write_json : ℕ → Value → Headers → Reply
write_json status v hs = write_encoded status (marshal v) hs

-- What becomes of a request that a client makes: it cannot be built, it fails, or it is answered
-- with a status and a body.
pub data Exchange : Type 0 where
  bad_url : Error → Exchange
  failed : Error → Exchange
  answered : ℕ → String → Exchange

-- `http.Error`
unfoldable pub http_error : String → ℕ → Headers → Reply
unfolding set_header
http_error text status hs = record {
  status = status;
  headers =
      set_header "X-Content-Type-Options" "nosniff"
        (set_header "Content-Type" "text/plain; charset=utf-8" (without "Content-Length" hs));
  body = text <> "\n";
}
