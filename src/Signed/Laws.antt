-- ===== src/Signed/Laws.antt =====
-- What a signed text proves: it opens to what was sealed, and only under its own mac.
use Prim.Native.Char.{Char}
use text.Mathlib.TextLemmas.{nil-append, cons-append}
use zta_core.Base.{
  String, ◌<>◌, ◌≡◌, refl, ap, ◌∙◌, ◌↔◌, ◌≢◌, inl, inr, true, [], ◌∷◌, some, arith, message, ok,
  err, Option-cases,
}
use zta_core.Base.Text.{dot, cut}
use zta_core.Base.Text.Laws.{join, cut-join}
use zta_core.Base64.{Bytes, IsBytes, encode, decode}
use zta_core.Base64.Laws.{decode-encode, encode-Lacks}
use zta_core.Signed.{equal, Messages, seal, check_parts, unseal}

abbrev dot_char : Char
dot_char = "."

dot-join : (a b : String) → a <> ("." <> b) ≡ join dot_char a b
dot-join a b = rw (cons-append, nil-append) refl

equal_iff : (a b : Bytes) → (equal a b ≡ true) ↔ (a ≡ b)
unfolding equal
equal_iff [] [] = ground arith
equal_iff [] (b ∷ bs) = ground arith
equal_iff (a ∷ as') [] = ground arith
equal_iff (a ∷ as') (b ∷ bs) = ground (arith, equal_iff as' bs)

module _ (mac : String → Bytes) (m : Messages) where
  pub cut-seal :
      (payload : Bytes)
      → IsBytes payload
      → cut dot (seal mac payload) ≡ some (encode payload, encode (mac (encode payload)))
  unfolding seal
  cut-seal payload h =
      ap (cut dot) (dot-join (encode payload) _)
      ∙ cut-join dot_char (encode payload) _ (encode-Lacks payload h)

  -- A sealed payload opens under the mac that sealed it.
  pub unseal-seal :
      (payload : Bytes)
      → IsBytes payload
      → IsBytes (mac (encode payload))
      → unseal mac m (seal mac payload) ≡ ok payload
  unfolding unseal
  unseal-seal payload h k = rw (cut-seal payload h) (
      ground (
        arith,
        decode-encode (mac (encode payload)) k,
        decode-encode payload h,
        equal_iff (mac (encode payload)) (mac (encode payload)),
      ))

  check_parts-eq-ok :
      (body sig : String) (payload : Bytes)
      → check_parts mac m body sig ≡ ok payload
      → (decode sig ≡ some (mac body)) × (decode body ≡ some payload)
  unfolding check_parts
  check_parts-eq-ok body sig payload h = elim (Option-cases (decode sig)) [
    | inl e ↦ absurd (ground arith)
    | inr (want, e) ↦ ground (arith, equal_iff want (mac body))
  ]

  -- Whatever opens carries the mac of its body.
  pub unseal-eq-ok :
      (tok : String) (payload : Bytes)
      → unseal mac m tok ≡ ok payload
      → (body : String) × (sig : String) × (cut dot tok ≡ some (body, sig))
        × (decode sig ≡ some (mac body))
        × (decode body ≡ some payload)
  unfolding unseal
  unseal-eq-ok tok payload h = elim (Option-cases (cut dot tok)) [
    | inl e ↦ absurd (ground arith)
    | inr ((body, sig), e) ↦
        let parts : check_parts mac m body sig ≡ ok payload = rw e at h in
        let (signed, opened) = check_parts-eq-ok body sig payload parts in
        (body, sig, e, signed, opened)
  ]

-- A payload sealed under one mac does not open under another that differs on its body.
pub unseal-seal_ne :
    (mac other : String → Bytes) (m : Messages) (payload : Bytes)
    → IsBytes payload
    → IsBytes (mac (encode payload))
    → other (encode payload) ≢ mac (encode payload)
    → unseal other m (seal mac payload) ≡ err (message m.mismatch)
unfolding unseal
unseal-seal_ne mac other m payload h k differ = rw (cut-seal mac m payload h) (
    ground (
      arith,
      decode-encode (mac (encode payload)) k,
      equal_iff (mac (encode payload)) (other (encode payload)),
    ))
