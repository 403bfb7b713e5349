-- ===== src/Sidecar/History.antt =====
-- The sidecar over time: any sequence of requests, and the events that were accepted among them.
use mathlib.Core.Option
use zta_core.Base.{
  ℕ, String, false, ◌≡◌, ◌≢◌, refl, sym, ap, ◌∙◌, inl, inr, Option, none, some, List, [], ◌∷◌,
  appended, Result, ok, err, Bool-cases, Result-cases, if◌then◌else◌, ◌==◌,
}
use zta_core.Base.Text.Trim.{trim_space}
use zta_core.Base64.{Bytes}
use zta_core.Signed.{Hash, Codec}
use zta_core.Http.{HttpRequest, Headers, Body, stream, failing, header}
use zta_core.Token.{Claims}
use zta_core.Caep.Cache.{Event, Cache, new_cache, apply, is_revoked, apply_all}
use zta_core.Caep.Cache.Laws.{StandsRevoked, is_revoked_iff}
use zta_core.Caep.Tokens.{verify}
use zta_core.Caep.Receiver.{receive}
use zta_core.Pep.{header_subject_id, Platform}
use zta_core.Pep.Check.{Run, check}
use zta_core.Pep.Check.Unlisted.{Unlisted, without_list, effect, check-effect}
use zta_core.Pep.Middleware.{serve, respond, respond_run, middleware}
use zta_core.Sidecar.{Config, Pdp, guarded, is_event, is_health, revocations, guard_config, handle}
use zta_core.Sidecar.Laws.{handle_listed}

abbrev pub event_in : Result Event → Option Event
event_in (err e) = none
event_in (ok e) = some e

abbrev pub applied : Option Event → Cache → Cache
applied none c = c
applied (some e) c = apply e c

module _ (F : Platform) (H : Hash) (claims : Codec Claims) (events : Codec Event) (pdp : Pdp)
    (cfg : Config) where
  abbrev pub body_event : Body → Option Event
  body_event failing = none
  body_event (stream text) =
      event_in (verify H events (record { secret = cfg.caep_secret }) (trim_space text))

  -- The event that a request brings to the sidecar, if it is one and its token verifies.
  abbrev pub event_of : HttpRequest → Option Event
  event_of r =
      let found = body_event r.body in if is_event F H claims events pdp cfg r then found else none

  abbrev pub next : ℕ → Bytes → Cache → HttpRequest → Cache
  next now random c r = (handle F H claims events pdp cfg now random c r).1

  -- The caches that the sidecar can come to, with the events accepted so far, oldest first.
  pub data Reach : Cache → List Event → Type 0 where
    start : Reach new_cache []
    pushed :
        {c : Cache} {es : List Event} (now : ℕ) (random : Bytes) (r : HttpRequest) (e : Event)
        → event_of r ≡ some e
        → Reach c es
        → Reach (next now random c r) (appended es e)
    passed :
        {c : Cache} {es : List Event} (now : ℕ) (random : Bytes) (r : HttpRequest)
        → event_of r ≡ none
        → Reach c es
        → Reach (next now random c r) es

  respond_run-effect :
      (profile : String) (o : Option Run)
      → respond_run profile o ≡ Option.map (λ (out, q). respond profile out q) (effect o)
  respond_run-effect profile none = refl
  respond_run-effect profile (some run) = refl

  receive-applied :
      (c : Cache) (body : Body)
      → (receive H events (record { secret = cfg.caep_secret }) c body).1
        ≡ applied (body_event body) c
  unfolding receive
  receive-applied c failing = refl
  receive-applied c (stream text) =
      elim (Result-cases
        (verify H events (record { secret = cfg.caep_secret }) (trim_space text))) [
          | inl (e, h) ↦ rw h refl
          | inr (x, h) ↦ rw h refl
        ]

  next-applied :
      (now : ℕ) (random : Bytes) (c : Cache) (r : HttpRequest)
      → (handle F H claims events pdp cfg now random c r).1 ≡ applied (event_of r) c
  unfolding handle
  next-applied now random c r = elim (Bool-cases (is_event F H claims events pdp cfg r)) [
    | inl e ↦ rw e (receive-applied c r.body)
    | inr e ↦ elim (Bool-cases (is_health F H claims events pdp r)) [
      | inl k ↦ rw (e, k) refl
      | inr k ↦ rw (e, k) refl
    ]
  ]

  apply_all-appended :
      (es : List Event) (e : Event) (c : Cache)
      → apply_all (appended es e) c ≡ apply e (apply_all es c)
  unfolding apply_all
  apply_all-appended [] e c = refl
  apply_all-appended (x ∷ es) e c = apply_all-appended es e (apply x c)

  -- The cache of a reachable state is that of the events alone, in their order.
  pub Reach-apply_all : {c : Cache} {es : List Event} → Reach c es → c ≡ apply_all es new_cache
  unfolding apply_all
  Reach-apply_all start = refl
  Reach-apply_all (pushed {c} {es} now random r e brought h) =
      next-applied now random c r
      ∙ ap (λ o. applied o c) brought
      ∙ ap (apply e) (Reach-apply_all h)
      ∙ sym (apply_all-appended es e new_cache)
  Reach-apply_all (passed {c} now random r nothing h) =
      next-applied now random c r ∙ ap (λ o. applied o c) nothing ∙ Reach-apply_all h

  -- At a sidecar that hears CAEP events, after any sequence of requests, a request that names a
  -- subject whose session an accepted event revoked and no later one restored does not reach the
  -- protected service, whatever decision token it carries and whatever the PDP would say.
  pub Reach-revoked :
      (c : Cache) (es : List Event) (now : ℕ) (random : Bytes) (r q : HttpRequest) (hs : Headers)
      → Reach c es
      → cfg.caep_secret ≢ ""
      → header header_subject_id r.headers ≢ ""
      → StandsRevoked (header header_subject_id r.headers) es
      → (handle F H claims events pdp cfg now random c r).0 ≢ guarded (some (serve q hs))
  Reach-revoked c es now random r q hs h enabled named stands =
      handle_listed F H claims events pdp cfg now random c r q hs enabled named (
        ap (λ x. is_revoked x (header header_subject_id r.headers)) (Reach-apply_all h)
        ∙ (is_revoked_iff (header header_subject_id r.headers) es).1 stands)

  Unlisted-is_revoked :
      (c : Cache) (subj : String)
      → is_revoked c subj ≡ false
      → Unlisted (revocations F H claims events pdp cfg c) subj
  Unlisted-is_revoked c subj free = elim (Bool-cases (cfg.caep_secret == "")) [
    | inl off ↦ rw off tt
    | inr on ↦ rw on free
  ]

  -- After any sequence of requests, a subject that no accepted event revoked, or that a later one
  -- restored, is answered as if there were no revocation list: nothing of a lifted revocation stays.
  pub Reach-restored :
      (c : Cache) (es : List Event) (now : ℕ) (random : Bytes) (r : HttpRequest)
      → Reach c es
      → ¬ StandsRevoked (header header_subject_id r.headers) es
      → middleware F (guard_config F H claims events pdp cfg now c) random r
        ≡ middleware F (without_list (guard_config F H claims events pdp cfg now c)) random r
  unfolding middleware guard_config
  Reach-restored c es now random r h free =
      let guard = guard_config F H claims events pdp cfg now c in
      let unlisted : is_revoked c (header header_subject_id r.headers) ≡ false =
        elim (Bool-cases (is_revoked c (header header_subject_id r.headers))) [
          | inr e ↦ e
          | inl e ↦ absurd (
              free (
                (is_revoked_iff (header header_subject_id r.headers) es).0 (
                  ap (λ x. is_revoked x (header header_subject_id r.headers))
                    (sym (Reach-apply_all h))
                  ∙ e)))
        ] in
      respond_run-effect cfg.profile (check F guard random r)
      ∙ ap (Option.map (λ (out, q). respond cfg.profile out q))
          (check-effect F guard random r (Unlisted-is_revoked c _ unlisted))
      ∙ sym (respond_run-effect cfg.profile (check F (without_list guard) random r))
