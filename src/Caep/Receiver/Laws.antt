-- ===== src/Caep/Receiver/Laws.antt =====
-- What the receiver accepts, and what it does to the cache.
use zta_core.Base.{ℕ, String, ◌≡◌, refl, ◌⊎◌, inl, inr, arith, Error, ok, err, Result-cases}
use zta_core.Base.Text.Trim.{trim_space, trim_space_of_HasNoSpace}
use zta_core.Signed.{Hash, Codec}
use zta_core.Http.{Body, stream, failing, http_error}
use zta_core.Caep.Cache.{Event, Cache, apply}
use zta_core.Caep.Tokens.{Signer, stamped, sign, verify}
use zta_core.Caep.Tokens.Laws.{sign-HasNoSpace, verify-sign}
use zta_core.Caep.Receiver.{accepted, receive}

module _ (H : Hash) (C : Codec Event) where
  -- A token pushed by a transmitter with the receiver's secret is accepted, and its event, with
  -- the time of signing, is applied to the cache.
  pub receive-sign :
      (s t : Signer) (now : ℕ) (e : Event) (set : String) (c : Cache)
      → s.secret ≡ t.secret
      → sign H C s now e ≡ ok set
      → receive H C t c (stream set) ≡ (accepted, apply (stamped now e) c)
  unfolding receive
  receive-sign s t now e set c same h =
      rw
        (
          trim_space_of_HasNoSpace set (sign-HasNoSpace H C s now e set h),
          verify-sign H C s t now e set same h,
        )
        refl

  -- The three outcomes: the event of a verified token is applied and answered with 202; a body that
  -- cannot be read is answered with 400 and a token that does not verify with 401, and both leave
  -- the cache as it was.
  pub receive-cases :
      (s : Signer) (c : Cache) (body : Body)
      → ((text : String) × (e : Event) × (body ≡ stream text)
          × (verify H C s (trim_space text) ≡ ok e)
          × ((receive H C s c body).0.status ≡ 202)
          × ((receive H C s c body).1 ≡ apply e c))
        ⊎ (((body ≡ failing)
              × ((receive H C s c body).0.status ≡ 400)
              × ((receive H C s c body).1 ≡ c))
            ⊎ ((text : String) × (x : Error) × (body ≡ stream text)
                × (verify H C s (trim_space text) ≡ err x)
                × ((receive H C s c body).0.status ≡ 401)
                × ((receive H C s c body).1 ≡ c)))
  unfolding receive http_error
  receive-cases s c failing = inr (inl (refl, refl, refl))
  receive-cases s c (stream text) = elim (Result-cases (verify H C s (trim_space text))) [
    | inl (e, h) ↦ inl (text, e, refl, h, rw h refl, rw h refl)
    | inr (x, h) ↦ inr (inr (text, x, refl, h, rw h refl, rw h refl))
  ]

  -- Acceptance does not depend on the state of the cache or on the time: a body that was
  -- accepted once is accepted again whenever it is pushed, and its event is applied again.
  pub receive_again :
      (s : Signer) (c : Cache) (body : Body)
      → (receive H C s c body).0.status ≡ 202
      → (e : Event) × ((later : Cache) → receive H C s later body ≡ (accepted, apply e later))
  unfolding receive http_error
  receive_again s c failing h = absurd (omega arith)
  receive_again s c (stream text) h = elim (Result-cases (verify H C s (trim_space text))) [
    | inl (e, v) ↦ (e, λ later. rw v refl)
    | inr (x, v) ↦ absurd (ground arith)
  ]
