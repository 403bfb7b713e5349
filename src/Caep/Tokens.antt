-- ===== src/Caep/Tokens.antt =====
-- signals/caep/caep.go: the signer of security event tokens (SETs).
pub mod Laws
use zta_core.Base.{ℕ, String, Result, ok, err, ◌>>=◌, or_message}
use zta_core.Signed.{Hash, Codec, Messages, seal, unseal}
use zta_core.Token.{seconds}
use zta_core.Caep.Cache.{Event}

pub record Signer : Type 0 where
  pub secret : String

abbrev pub messages : Messages
messages = record {
  malformed = "caep: malformed SET";
  bad_signature = "caep: decode sig";
  mismatch = "caep: SET signature mismatch";
  bad_body = "caep: decode body";
}

-- `e.IssuedAt = s.now().Unix()`
abbrev pub stamped : ℕ → Event → Event
stamped now e = record e { issued_at = seconds now }

module _ (H : Hash) (C : Codec Event) where
  -- `Signer.Sign`
  unfoldable pub sign : Signer → ℕ → Event → Result String
  sign s now e = do
    payload ← or_message "caep: marshal event" (C.marshal (stamped now e))
    ok (seal (H.hmac s.secret) payload)

  -- `Signer.Verify`
  unfoldable pub verify : Signer → String → Result Event
  verify s set = do
    payload ← unseal (H.hmac s.secret) messages set
    or_message "caep: unmarshal event" (C.unmarshal payload)
