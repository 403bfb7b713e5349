-- ===== src/Caep/Transmitter.antt =====
-- signals/caep/http.go, the sending side: `Transmitter.Emit`.
pub mod Laws
use zta_core.Base.{
  ℕ, String, ◌<>◌, Option, none, some, List, [], ◌∷◌, eqb, if◌then◌else◌, Error, message, Result,
  ok, err,
}
use zta_core.Base.Text.Decimal.{decimal}
use zta_core.Signed.{Hash, Codec}
use zta_core.Caep.Cache.{Event}
use zta_core.Caep.Tokens.{Signer, sign}

-- What became of one subscriber: no request could be built from its URL, the call failed, or a
-- response came back with this status.
pub data Delivery : Type 0 where
  bad_url : Error → Delivery
  failed : Error → Delivery
  answered : ℕ → Delivery

abbrev pub delivery_error : String → Delivery → Option Error
delivery_error url (bad_url e) = some e
delivery_error url (failed e) = some e
delivery_error url (answered status) =
    if eqb status 202
    then none
    else some (message ("caep: subscriber " <> url <> " returned " <> decimal status))

-- `if firstErr == nil { firstErr = err }`
abbrev pub keep_first : Option Error → Option Error → Option Error
keep_first none new = new
keep_first (some e) new = some e

-- The texts posted, each with its URL.
abbrev pub Posts : Type 0
Posts = List (String × String)

abbrev pub posted : Delivery → String → String → Posts → Posts
posted (bad_url e) url set rest = rest
posted (failed e) url set rest = (url, set) ∷ rest
posted (answered status) url set rest = (url, set) ∷ rest

module _ (post : String → String → Delivery) where
  -- The loop over the subscribers: the first error, and what was posted.
  unfoldable pub deliver : String → Option Error → List String → Option Error × Posts
  deliver set first [] = (first, [])
  deliver set first (url ∷ urls) =
      let outcome = post url set in
      let (last, posts) = deliver set (keep_first first (delivery_error url outcome)) urls in
      (last, posted outcome url set posts)

  module _ (H : Hash) (C : Codec Event) where
    abbrev pub emit_set : List String → Result String → Option Error × Posts
    emit_set urls (err e) = (some e, [])
    emit_set urls (ok set) = deliver set none urls

    -- `Transmitter.Emit`
    unfoldable pub emit : Signer → List String → ℕ → Event → Option Error × Posts
    emit s urls now e = emit_set urls (sign H C s now e)
