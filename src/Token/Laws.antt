-- ===== src/Token/Laws.antt =====
-- Issuing and verifying: what a token opens to, for how long, and for whom.
use zta_core.Base.{
  ℕ, ◌<◌, String, ◌≡◌, ◌≢◌, refl, sym, ap, ◌∙◌, inl, inr, some, arith, message, ok, err,
  Option-cases, Result-cases,
}
use zta_core.Base.Text.{dot, cut}
use zta_core.Base64.{Bytes, IsBytes, decode}
use zta_core.Signed.{Hash, Codec, unseal, seal}
use zta_core.Signed.Laws.{unseal-seal, unseal-eq-ok, unseal-seal_ne}
use zta_core.Token.{Claims, Issuer, seconds, messages, stamped, unless_expired, sign, issue, verify}

module _ (H : Hash) (C : Codec Claims) where
  pub issue-eq-ok :
      (i : Issuer) (now : ℕ) (c : Claims) (tok : String)
      → issue H C i now c ≡ ok tok
      → (payload : Bytes) × (C.marshal (stamped i now c) ≡ some payload)
        × (tok ≡ seal (sign H i) payload)
  unfolding issue
  issue-eq-ok i now c tok h = elim (Option-cases (C.marshal (stamped i now c))) [
    | inl e ↦ absurd (ground arith)
    | inr (payload, e) ↦ (payload, e, ground arith)
  ]

  -- A token that an issuer returned opens, at every verifier with the same secret, to the claims
  -- with their time stamps, or to "expired" once their last second has come. The verifier's own
  -- TTL plays no part.
  pub verify-issue :
      (i j : Issuer) (now later : ℕ) (c : Claims) (tok : String)
      → i.secret ≡ j.secret
      → issue H C i now c ≡ ok tok
      → verify H C j later tok ≡ unless_expired later (stamped i now c)
  unfolding verify
  verify-issue i j now later c tok same h =
      let (payload, marshalled, e) = issue-eq-ok i now c tok h in
      let bytes : IsBytes payload = C.marshal-IsBytes _ payload marshalled in
      let sealed : unseal (sign H i) messages (seal (sign H i) payload) ≡ ok payload =
        unseal-seal (sign H i) messages payload bytes (H.hmac-IsBytes i.secret _) in
      let opened : unseal (sign H j) messages tok ≡ ok payload =
        ap (λ key. unseal (H.hmac key) messages tok) (sym same)
        ∙ ap (unseal (sign H i) messages) e
        ∙ sealed in
      rw (opened, C.unmarshal-marshal _ payload marshalled) refl

  -- An accepted token carries the mac of its body under the verifier's secret, its body decodes
  -- to the claims that are returned, and it has not expired.
  pub verify-eq-ok :
      (i : Issuer) (now : ℕ) (tok : String) (c : Claims)
      → verify H C i now tok ≡ ok c
      → (body : String) × (sig : String) × (payload : Bytes) × (cut dot tok ≡ some (body, sig))
        × (decode sig ≡ some (H.hmac i.secret body))
        × (decode body ≡ some payload)
        × (C.unmarshal payload ≡ some c)
        × (seconds now < c.expires_at)
  unfolding verify
  verify-eq-ok i now tok c h = elim (Result-cases (unseal (sign H i) messages tok)) [
    | inl (payload, e) ↦ elim (Option-cases (C.unmarshal payload)) [
      | inl u ↦ absurd (ground arith)
      | inr (d, u) ↦
          let (body, sig, parted, signed, opened) =
            unseal-eq-ok (sign H i) messages tok payload e in
          (body, sig, payload, parted, signed, opened, ground arith, ground arith)
    ]
    | inr (x, e) ↦ absurd (ground arith)
  ]

  -- A token of another secret, whose mac of the token's body differs, is refused as a mismatch.
  verify-issue_ne :
      (i j : Issuer) (now later : ℕ) (c : Claims) (tok : String)
      → issue H C i now c ≡ ok tok
      → ((body : String) → H.hmac j.secret body ≢ H.hmac i.secret body)
      → verify H C j later tok ≡ err (message "token: signature mismatch")
  unfolding verify
  verify-issue_ne i j now later c tok h differ =
      let (payload, marshalled, e) = issue-eq-ok i now c tok h in
      let bytes : IsBytes payload = C.marshal-IsBytes _ payload marshalled in
      let refused : unseal (sign H j) messages tok ≡ err (message messages.mismatch) =
        ap (unseal (sign H j) messages) e
        ∙ unseal-seal_ne (sign H i) (sign H j) messages payload bytes (H.hmac-IsBytes i.secret _)
            (differ _) in
      rw refused refl
