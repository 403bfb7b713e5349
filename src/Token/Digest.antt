-- ===== src/Token/Digest.antt =====
-- What the digest of the resource properties depends on.
use mathlib.Core.Option
use mathlib.Core.Option.{some-injective}
use zta_core.Base.{String, ◌≡◌, ◌≢◌, sym, ap, ◌∙◌, none, some}
use zta_core.Base64.{IsBytes, encode, decode}
use zta_core.Base64.Laws.{decode-encode}
use zta_core.Json.{Fields, end, Map, get}
use zta_core.Json.Canon.{canon, canon_map}
use zta_core.Json.Canon.Laws.{canon_map_idem}
use zta_core.Json.Canon.Content.{IsDistinct, canon_fields-ext}
use zta_core.Json.Render.{marshal_map, marshal_map-canon, render}
use zta_core.Signed.{Hash}
use zta_core.Token.{resource_digest}

module _ (H : Hash) where
  -- The digest depends on the content of the properties alone, at every depth: it is the same for
  -- two maps, without repeated keys, that hold equal values, up to the order of keys inside them,
  -- under the same keys.
  pub resource_digest-ext :
      (a b : Fields)
      → IsDistinct a
      → IsDistinct b
      → ((k : String) → Option.map canon (get k a) ≡ Option.map canon (get k b))
      → resource_digest H (some a) ≡ resource_digest H (some b)
  unfolding resource_digest
  resource_digest-ext a b da db h =
      ap (λ text. encode (H.sha256 text))
        (marshal_map-canon (some a) (some b) (ap {B = Map} some (canon_fields-ext a b da db h)))

  -- A digest taken after the properties were encoded and decoded is the digest taken before.
  pub resource_digest-canon : (m : Map) → resource_digest H (canon_map m) ≡ resource_digest H m
  unfolding resource_digest
  resource_digest-canon m =
      ap (λ text. encode (H.sha256 text)) (marshal_map-canon (canon_map m) m (canon_map_idem m))

  -- The nil map and the empty map have different digests, provided that SHA-256 gives different
  -- bytes on "null" and "{}".
  pub resource_digest-nil_ne_empty :
      IsBytes (H.sha256 "null")
      → IsBytes (H.sha256 "{}")
      → H.sha256 "null" ≢ H.sha256 "{}"
      → resource_digest H none ≢ resource_digest H (some end)
  unfolding resource_digest marshal_map render canon
  resource_digest-nil_ne_empty hn he differ e = differ (
      some-injective _ _
        (sym (decode-encode (H.sha256 "null") hn) ∙ ap decode e ∙ decode-encode (H.sha256 "{}") he))
