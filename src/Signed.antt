-- ===== src/Signed.antt =====
-- The signed format `base64(payload).base64(mac)` that decision tokens (authz/token/token.go) and
-- security event tokens (signals/caep/caep.go) share, over any keyed hash.
pub mod Laws
use zta_core.Base.{
  ℕ, String, ◌<>◌, Bool, true, false, ◌&&◌, List, [], ◌∷◌, none, some, eqb, if◌then◌else◌, message,
  Result, ok, err, ◌>>=◌, or_message, Option, ◌≡◌,
}
use zta_core.Base.Text.{dot, cut}
use zta_core.Base64.{Bytes, IsBytes, encode, decode}

-- The functions of Go's `crypto` packages that the code calls, and that a mac is a list of bytes.
pub record Hash : Type 0 where
  -- `sha256.Sum256([]byte(text))`
  pub sha256 : String → Bytes
  -- `hmac.New(sha256.New, key)` over `[]byte(message)`
  pub hmac : String → String → Bytes
  pub hmac-IsBytes : (key text : String) → IsBytes (hmac key text)

-- `json.Marshal` and `json.Unmarshal` of one struct type. What was marshalled unmarshals to the
-- same struct; `marshal` may fail, and `unmarshal` takes any other bytes as it likes.
pub record Codec (A : Type 0) : Type 0 where
  pub marshal : A → Option Bytes
  pub unmarshal : Bytes → Option A
  pub marshal-IsBytes : (a : A) (bs : Bytes) → marshal a ≡ some bs → IsBytes bs
  pub unmarshal-marshal : (a : A) (bs : Bytes) → marshal a ≡ some bs → unmarshal bs ≡ some a

-- `hmac.Equal`
unfoldable pub equal : Bytes → Bytes → Bool
equal [] [] = true
equal (a ∷ as') (b ∷ bs) = eqb a b && equal as' bs
equal _ _ = false

-- The texts of the four errors.
pub record Messages : Type 0 where
  pub malformed : String
  pub bad_signature : String
  pub mismatch : String
  pub bad_body : String

module _ (mac : String → Bytes) where
  -- `body + "." + b64(sign(body))` for `body := b64(payload)`
  unfoldable pub seal : Bytes → String
  seal payload = let body = encode payload in body <> ("." <> encode (mac body))

  pub check_parts : Messages → String → String → Result Bytes
  check_parts m body sig = do
    want ← or_message m.bad_signature (decode sig)
    if equal want (mac body) then or_message m.bad_body (decode body) else err (message m.mismatch)

  abbrev pub check_cut : Messages → Option (String × String) → Result Bytes
  check_cut m none = err (message m.malformed)
  check_cut m (some (body, sig)) = check_parts m body sig

  -- The first half of `Verify`: from the token to its payload.
  unfoldable pub unseal : Messages → String → Result Bytes
  unfolding check_parts equal
  unseal m tok = check_cut m (cut dot tok)
