-- ===== src/Tests/Histories.antt =====
-- A sidecar over time, and a PEP with its PDP.
use zta_core.Base.{
  ℕ, String, ◌≡◌, ◌≢◌, refl, sym, ap, subst, ◌∙◌, ◌⊎◌, inl, inr, Bool, true, false, Option, none,
  some, List, [], ◌∷◌, appended, Result, ok, err, arith,
}
use zta_core.Base.Text.{dot, cut}
use zta_core.Base64.{Bytes}
use zta_core.Http.{HttpRequest, header, set_header}
use zta_core.Caep.Cache.{Event, Cache, new_cache, apply, apply_all, is_revoked}
use zta_core.Caep.Cache.Laws.{StandsRevoked, is_revoked_iff}
use zta_core.Pep.{header_caller_spiffe}
use zta_core.Pep.Check.{check}
use zta_core.Pep.Check.Unlisted.{without_list}
use zta_core.Pep.Check.Claimed.{verdict, check-ignores_claim}
use zta_core.Pep.Middleware.{serve, middleware}
use zta_core.Sidecar.{guarded, guard_config, handle}
use zta_core.Sidecar.History.{Reach, start, pushed, next, Reach-revoked, Reach-restored, event_of}
use zta_core.Tests.Toys.{toy_hash, claims_codec, event_codec, view_claims, view_response}
use zta_core.Tests.Sidecars.{
  certs, gateway, signal, signed_out, view_call, named_secret, named_user, subject_of_call,
}
use zta_core.Tests.Enforcement.{guard, edge, call_with}

abbrev stamped_out : Event
stamped_out = record signed_out { issued_at = 5 }

abbrev after_signal : Cache
after_signal =
    next certs toy_hash (claims_codec view_claims) (event_codec signed_out)
      (λ req. ok view_response) gateway 6000000000 [] new_cache signal

signal_brings :
    event_of certs toy_hash
      (claims_codec view_claims)
      (event_codec signed_out)
      (λ req. ok view_response)
      gateway
      signal
    ≡ some stamped_out
unfolding zta_core.Caep.Tokens.verify zta_core.Signed.unseal cut zta_core.Base.Text.Trim.trim_space
    zta_core.Base64.decode
signal_brings = refl

signal_reached :
    Reach certs toy_hash
      (claims_codec view_claims)
      (event_codec signed_out)
      (λ req. ok view_response)
      gateway
      after_signal
      (stamped_out ∷ [])
signal_reached = pushed 6000000000 [] signal stamped_out signal_brings start

u-1_revoked : StandsRevoked (header "X-Vsp-Subject-Id" view_call.headers) (stamped_out ∷ [])
unfolding header
u-1_revoked = ([], stamped_out, [], refl, (refl, refl), tt)

Reach-revoked_example :
    (handle certs toy_hash
      (claims_codec view_claims)
      (event_codec signed_out)
      (λ req. ok view_response)
      gateway
      7000000000
      []
      after_signal
      view_call).0
    ≢ guarded (some (serve view_call []))
Reach-revoked_example =
    Reach-revoked certs toy_hash (claims_codec view_claims) (event_codec signed_out)
      (λ req. ok view_response) gateway after_signal (stamped_out ∷ []) 7000000000 [] view_call
      view_call [] signal_reached named_secret (λ e. named_user (sym subject_of_call ∙ e))
      u-1_revoked

abbrev other_call : HttpRequest
other_call = record view_call { headers = ("X-Vsp-Subject-Id", "u-2") ∷ [] }

u-2_free : ¬ StandsRevoked (header "X-Vsp-Subject-Id" other_call.headers) (stamped_out ∷ [])
unfolding header apply_all apply is_revoked
u-2_free h = listed_not ((is_revoked_iff "u-2" (stamped_out ∷ [])).1 h)
  where
    listed_not : ◌≢◌ {A = Bool} false true
    listed_not x = cc

Reach-restored_example :
    middleware certs
      (guard_config certs toy_hash
        (claims_codec view_claims)
        (event_codec signed_out)
        (λ req. ok view_response)
        gateway
        7000000000
        after_signal)
      []
      other_call
    ≡ middleware certs
        (without_list (
          guard_config certs toy_hash
            (claims_codec view_claims)
            (event_codec signed_out)
            (λ req. ok view_response)
            gateway
            7000000000
            after_signal))
        []
        other_call
Reach-restored_example =
    Reach-restored certs toy_hash (claims_codec view_claims) (event_codec signed_out)
      (λ req. ok view_response) gateway after_signal (stamped_out ∷ []) 7000000000 [] other_call
      signal_reached u-2_free

check-ignores_claim_example :
    verdict (
      check guard edge [] (record (call_with "") {
        headers = set_header header_caller_spiffe "spiffe://t/admin" (call_with "").headers;
      }))
    ≡ verdict (check guard edge [] (call_with ""))
check-ignores_claim_example =
    check-ignores_claim guard edge [] (call_with "") "spiffe://t/admin" refl
