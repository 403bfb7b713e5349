-- ===== src/Token.antt =====
-- authz/token/token.go: decision tokens. A point in time is its nanoseconds since 1970, and a
-- duration is not negative; seconds do not reach 2^63.
pub mod Laws
pub mod Digest
use zta_core.Base.{
  ℕ, ◌+◌, ◌/◌, ◌^◌, String, none, some, leb, if◌then◌else◌, message, Result, ok, err, ◌>>=◌,
  or_message,
}
use zta_core.Base64.{Bytes, encode}
use zta_core.Json.{Map}
use zta_core.Json.Render.{marshal_map}
use zta_core.Signed.{Hash, Codec, Messages, seal, unseal}

pub record Claims : Type 0 where
  pub subject : String
  pub action : String
  pub resource : String
  pub aal : String
  pub res_digest : String
  pub correlation_id : String
  pub issued_at : ℕ
  pub expires_at : ℕ

pub record Issuer : Type 0 where
  pub secret : String
  pub ttl : ℕ

-- `time.Time.Unix()`, and `int(d.Seconds())`
abbrev pub seconds : ℕ → ℕ
seconds t = t / 10 ^ 9

unfoldable pub ttl_seconds : Issuer → ℕ
ttl_seconds i = seconds i.ttl

abbrev pub messages : Messages
messages = record {
  malformed = "token: malformed (expected body.sig)";
  bad_signature = "token: decode signature";
  mismatch = "token: signature mismatch";
  bad_body = "token: decode body";
}

-- `c.IssuedAt = now.Unix(); c.ExpiresAt = now.Add(i.ttl).Unix()`
unfoldable pub stamped : Issuer → ℕ → Claims → Claims
stamped i now c = record c { issued_at = seconds now; expires_at = seconds (now + i.ttl) }

-- `if i.now().Unix() >= c.ExpiresAt`
abbrev pub unless_expired : ℕ → Claims → Result Claims
unless_expired now c =
    if leb c.expires_at (seconds now) then err (message "token: expired") else ok c

module _ (H : Hash) where
  -- `ResourceDigest`; the encoder does not fail on the values of the model.
  unfoldable pub resource_digest : Map → String
  resource_digest props = encode (H.sha256 (marshal_map props))

  -- `Issuer.sign`
  abbrev pub sign : Issuer → String → Bytes
  sign i = H.hmac i.secret

  module _ (C : Codec Claims) where
    unfoldable pub issue : Issuer → ℕ → Claims → Result String
    issue i now c = do
      payload ← or_message "token: marshal claims" (C.marshal (stamped i now c))
      ok (seal (sign i) payload)

    unfoldable pub verify : Issuer → ℕ → String → Result Claims
    verify i now tok = do
      payload ← unseal (sign i) messages tok
      c ← or_message "token: unmarshal claims" (C.unmarshal payload)
      unless_expired now c
