-- ===== src/Sidecar/Laws.antt =====
-- The sidecar as a whole: a revocation that arrives at its endpoint, the step-up that bubbles up
-- through the edge, and that the guard is wired.
use zta_core.Base.{
  ℕ, String, true, false, ◌≡◌, ◌≢◌, refl, sym, ap, ◌∙◌, inl, inr, Option, none, some, ◌==◌, arith,
  eq_iff, eq_refl, ok, Bool-cases,
}
use zta_core.Base64.{Bytes}
use zta_core.Signed.{Hash, Codec}
use zta_core.Http.{HttpRequest, Headers, header, stream, Reply}
use zta_core.Token.{Claims}
use zta_core.Caep.Cache.{Event, Cache, event_session_revoked, apply, is_revoked}
use zta_core.Caep.Tokens.{Signer, stamped, sign}
use zta_core.Caep.Receiver.{accepted}
use zta_core.Caep.Receiver.Laws.{receive-sign}
use zta_core.Pep.{
  header_subject_id, header_step_up_required, Platform, new_pep, deny_step_up, Outcome,
}
use zta_core.Pep.Middleware.{Enforced, serve, challenge, middleware}
use zta_core.Pep.Middleware.Laws.{middleware-serve, challenge-IsRefusal}
use zta_core.Sidecar.{
  Config, Pdp, Handled, replied, guarded, revocations, guard_config, handle, is_event, is_health,
  modify_response,
}

module _ (F : Platform) (H : Hash) (claims : Codec Claims) (events : Codec Event) (pdp : Pdp) where
  -- The guard that the sidecar wires is always accepted by `New`.
  guard_made :
      (cfg : Config) (now : ℕ) (cache : Cache)
      → new_pep (guard_config F H claims events pdp cfg now cache)
        ≡ ok (guard_config F H claims events pdp cfg now cache)
  unfolding new_pep guard_config
  guard_made cfg now cache = refl

  revoked_after :
      (e : Event) (now : ℕ) (cache : Cache)
      → e.kind ≡ event_session_revoked
      → is_revoked (apply (stamped now e) cache) e.subject ≡ true
  unfolding apply is_revoked
  revoked_after e now cache h =
      ground (arith, eq_iff e.kind event_session_revoked, eq_refl e.subject)

  handle-event :
      (cfg : Config) (s : Signer) (signed_at now : ℕ) (random : Bytes) (e : Event) (set : String)
      (cache : Cache) (r : HttpRequest)
      → cfg.caep_secret ≢ ""
      → s.secret ≡ cfg.caep_secret
      → sign H events s signed_at e ≡ ok set
      → r.method ≡ "POST"
      → r.path ≡ "/events"
      → r.body ≡ stream set
      → handle F H claims events pdp cfg now random cache r
        ≡ (replied accepted, apply (stamped signed_at e) cache)
  unfolding handle
  handle-event cfg s signed_at now random e set cache r enabled same signed method path body =
      let on : (cfg.caep_secret == "") ≡ false = ground (arith, eq_iff cfg.caep_secret "") in
      rw
        (
          on,
          method,
          path,
          body,
          receive-sign H events s (record { secret = cfg.caep_secret }) signed_at e set cache same
              signed,
        )
        refl

  wired :
      (cfg : Config) (cache : Cache)
      → cfg.caep_secret ≢ ""
      → revocations F H claims events pdp cfg cache ≡ some (is_revoked cache)
  wired cfg cache enabled = ground (arith, eq_iff cfg.caep_secret "")

  pub handle-guarded :
      (cfg : Config) (now : ℕ) (random : Bytes) (cache : Cache) (r q : HttpRequest) (hs : Headers)
      → (handle F H claims events pdp cfg now random cache r).0 ≡ guarded (some (serve q hs))
      → middleware F (guard_config F H claims events pdp cfg now cache) random r ≡ some (serve q hs)
  unfolding handle
  handle-guarded cfg now random cache r q hs h =
      elim (Bool-cases (is_event F H claims events pdp cfg r)) [
        | inl event ↦ ground arith
        | inr other ↦ elim (Bool-cases (is_health F H claims events pdp r)) [
          | inl health_e ↦ ground arith
          | inr plain ↦ ap unguard (rw (other, plain) at h)
        ]
      ]
    where
      unguard : Handled → Option Enforced
      unguard (guarded o) = o
      unguard (replied reply) = none

  -- A subject that the cache lists is not served.
  pub handle_listed :
      (cfg : Config) (now : ℕ) (random : Bytes) (cache : Cache) (r q : HttpRequest) (hs : Headers)
      → cfg.caep_secret ≢ ""
      → header header_subject_id r.headers ≢ ""
      → is_revoked cache (header header_subject_id r.headers) ≡ true
      → (handle F H claims events pdp cfg now random cache r).0 ≢ guarded (some (serve q hs))
  unfolding guard_config
  handle_listed cfg now random cache r q hs enabled named listed h =
      let permitted =
        middleware-serve F (guard_config F H claims events pdp cfg now cache) random r q hs
          (handle-guarded cfg now random cache r q hs h) in
      not_false
        (sym listed ∙ permitted.not_revoked (is_revoked cache) (wired cfg cache enabled) named)
    where
      not_false : true ≡ false → ⊥
      not_false x = cc

  -- Once a session-revoked event, signed with the sidecar's CAEP secret, has been posted to its
  -- endpoint, the next request of that subject does not reach the protected service, whatever
  -- decision token it carries and whatever the PDP would say.
  handle_after_revocation :
      (cfg : Config) (s : Signer) (signed_at received now : ℕ) (random₁ random₂ : Bytes) (e : Event)
      (set : String) (cache : Cache) (post r q : HttpRequest) (hs : Headers)
      → cfg.caep_secret ≢ ""
      → s.secret ≡ cfg.caep_secret
      → sign H events s signed_at e ≡ ok set
      → e.kind ≡ event_session_revoked
      → e.subject ≢ ""
      → post.method ≡ "POST"
      → post.path ≡ "/events"
      → post.body ≡ stream set
      → header header_subject_id r.headers ≡ e.subject
      → (handle F H claims events pdp cfg now random₂
          (handle F H claims events pdp cfg received random₁ cache post).1
          r).0
        ≢ guarded (some (serve q hs))
  handle_after_revocation cfg s signed_at received now random₁ random₂ e set cache post r q hs
        enabled same signed kind named method path body subject h =
      let posted =
        handle-event cfg s signed_at received random₁ e set cache post enabled same signed method
          path body in
      handle_listed cfg now random₂ (apply (stamped signed_at e) cache) r q hs enabled
        (λ blank. named (sym subject ∙ blank))
        (ap (is_revoked _) subject ∙ revoked_after e signed_at cache kind)
        (ap (λ c. (handle F H claims events pdp cfg now random₂ c r).0) (sym (ap (λ p. p.1) posted))
          ∙ h)

rewritten :
    (resp : Reply) (acr : String)
    → header header_step_up_required resp.headers ≡ acr
    → acr ≢ ""
    → (modify_response resp).status ≡ 401
unfolding modify_response
rewritten resp acr h named = elim (Bool-cases (header header_step_up_required resp.headers == "")) [
  | inl blank ↦ absurd (named (sym h ∙ (eq_iff _ "").0 blank))
  | inr other ↦ rw other refl
]

kept :
    (resp : Reply) → header header_step_up_required resp.headers ≡ "" → modify_response resp ≡ resp
unfolding modify_response
kept resp h = rw h refl

-- The step-up of a PEP of any profile behind the edge comes out of the edge as a 401, if it names the
-- level required; a response without a step-up goes through unchanged.
pub modify_response-challenge :
    (profile : String) (out : Outcome) (resp : Reply)
    → out.kind ≡ deny_step_up
    → out.required_acr ≢ ""
    → header header_step_up_required resp.headers ≡ ""
    → ((modify_response (challenge profile out)).status ≡ 401) × (modify_response resp ≡ resp)
modify_response-challenge profile out resp kind named none_e =
    let (status, cid, level) = challenge-IsRefusal profile out kind in
    (rewritten (challenge profile out) out.required_acr (level kind) named, kept resp none_e)
