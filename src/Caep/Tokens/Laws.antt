-- ===== src/Caep/Tokens/Laws.antt =====
-- What a security event token opens to.
use text.Mathlib.TextLemmas.{nil-append, cons-append}
use zta_core.Base.{
  ℕ, String, ◌<>◌, ◌≡◌, refl, sym, ap, ◌∙◌, inl, inr, some, arith, ok, Option-cases, Result-cases,
}
use zta_core.Base.Text.{dot, cut}
use zta_core.Base.Text.Trim.{HasNoSpace}
use zta_core.Base64.{Bytes, IsBytes, encode, decode}
use zta_core.Base64.Laws.{encode-HasNoSpace}
use zta_core.Signed.{Hash, Codec, seal, unseal}
use zta_core.Signed.Laws.{unseal-seal, unseal-eq-ok}
use zta_core.Caep.Cache.{Event}
use zta_core.Caep.Tokens.{Signer, messages, stamped, sign, verify}

HasNoSpace-append : (a b : String) → HasNoSpace a → HasNoSpace b → HasNoSpace (a <> b)
HasNoSpace-append String.[] b _ k = rw nil-append k
HasNoSpace-append (String.◌∷◌ c a) b (h, hs) k = rw cons-append (h, HasNoSpace-append a b hs k)

module _ (H : Hash) (C : Codec Event) where
  sign-eq-ok :
      (s : Signer) (now : ℕ) (e : Event) (set : String)
      → sign H C s now e ≡ ok set
      → (payload : Bytes) × (C.marshal (stamped now e) ≡ some payload)
        × (set ≡ seal (H.hmac s.secret) payload)
  unfolding sign
  sign-eq-ok s now e set h = elim (Option-cases (C.marshal (stamped now e))) [
    | inl x ↦ absurd (ground arith)
    | inr (payload, x) ↦ (payload, x, ground arith)
  ]

  -- A signed token holds no white space, so the receiver's trimming leaves it alone.
  pub sign-HasNoSpace :
      (s : Signer) (now : ℕ) (e : Event) (set : String) → sign H C s now e ≡ ok set → HasNoSpace set
  unfolding seal
  sign-HasNoSpace s now e set h =
      let (payload, marshalled, shape) = sign-eq-ok s now e set h in
      let spaced : HasNoSpace (seal (H.hmac s.secret) payload) =
        HasNoSpace-append (encode payload) _
          (encode-HasNoSpace payload (C.marshal-IsBytes _ payload marshalled))
          (HasNoSpace-append "." _ (refl, tt) (encode-HasNoSpace _ (H.hmac-IsBytes s.secret _))) in
      rw shape spaced

  -- What one signer signs, every signer with the same secret verifies, with the time of signing.
  pub verify-sign :
      (s t : Signer) (now : ℕ) (e : Event) (set : String)
      → s.secret ≡ t.secret
      → sign H C s now e ≡ ok set
      → verify H C t set ≡ ok (stamped now e)
  unfolding verify
  verify-sign s t now e set same h =
      let (payload, marshalled, shape) = sign-eq-ok s now e set h in
      let bytes : IsBytes payload = C.marshal-IsBytes _ payload marshalled in
      let opened : unseal (H.hmac t.secret) messages set ≡ ok payload =
        ap (λ key. unseal (H.hmac key) messages set) (sym same)
        ∙ ap (unseal (H.hmac s.secret) messages) shape
        ∙ unseal-seal (H.hmac s.secret) messages payload bytes (H.hmac-IsBytes s.secret _) in
      rw (opened, C.unmarshal-marshal _ payload marshalled) refl

  -- A verified token carries the mac of its body under the secret, and its body decodes to the
  -- event.
  verify_sound :
      (s : Signer) (set : String) (e : Event)
      → verify H C s set ≡ ok e
      → (body : String) × (sig : String) × (payload : Bytes) × (cut dot set ≡ some (body, sig))
        × (decode sig ≡ some (H.hmac s.secret body))
        × (decode body ≡ some payload)
        × (C.unmarshal payload ≡ some e)
  unfolding verify
  verify_sound s set e h = elim (Result-cases (unseal (H.hmac s.secret) messages set)) [
    | inl (payload, x) ↦ elim (Option-cases (C.unmarshal payload)) [
      | inl u ↦ absurd (ground arith)
      | inr (d, u) ↦
          let (body, sig, parted, signed, opened) =
            unseal-eq-ok (H.hmac s.secret) messages set payload x in
          (body, sig, payload, parted, signed, opened, ground arith)
    ]
    | inr (x, y) ↦ absurd (ground arith)
  ]
