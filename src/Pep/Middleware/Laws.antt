-- ===== src/Pep/Middleware/Laws.antt =====
-- When the protected handler is called, what it is given, and the replies otherwise.
use mathlib.Core.Option.{some-injective}
use zta_core.Base.{
  Option, none, sym, String, ◌≡◌, ◌≢◌, ◌⊎◌, refl, ap, ◌∙◌, inl, inr, some, ◌==◌, arith, eq_iff, ok,
  Bool-cases, eq_refl, [],
}
use zta_core.Base64.{Bytes}
use zta_core.Http.{HttpRequest, Headers, header, stream, Reply, write_encoded, set_header}
use zta_core.Http.Laws.{header-set_header}
use zta_core.Authzen.{Profile, profile_edge}
use zta_core.Pep.{
  header_correlation_id, header_step_up_required, OutcomeKind, allow, drop_l0, deny_route,
  deny_forbidden, deny_step_up, Outcome, Platform, Config, new_pep,
}
use zta_core.Pep.Check.{Run, check}
use zta_core.Pep.Check.Soundness.{Permitted, check-Permitted}
use zta_core.Pep.Check.Answered.{check-Answers}
use zta_core.Pep.Middleware.{
  Enforced, serve, refuse, forward, challenge, respond, middleware, on_kind, refused, respond_run,
  reply_headers,
}

-- The handler's request: only these two headers of it are new.
forward-serve :
    (out : Outcome) (r : HttpRequest)
    → (hs : Headers) × (ws : Headers) × (forward out r ≡ serve (record r { headers = hs }) ws)
unfolding forward
forward-serve out r = elim (Bool-cases (out.decision_token == "")) [
  | inl e ↦ rw e (_, _, refl)
  | inr e ↦ rw e (_, _, refl)
]

-- The one refusal that is a 401.
abbrev IsEdgeStepUp : Profile → Outcome → Type 0
IsEdgeStepUp profile out = (profile ≡ profile_edge) × (out.kind ≡ deny_step_up)

-- A refusal is 401 for the Edge's step-up and 403 for all else; it carries the correlation id, and a
-- step-up its requirement, whatever the profile.
abbrev pub IsRefusal : Profile → Outcome → Reply → Type 0
IsRefusal profile out reply =
    (((reply.status ≡ 401) × IsEdgeStepUp profile out)
      ⊎ ((reply.status ≡ 403) × (¬ IsEdgeStepUp profile out)))
    × (header header_correlation_id reply.headers ≡ out.correlation_id)
    × (out.kind ≡ deny_step_up → header header_step_up_required reply.headers ≡ out.required_acr)

refused-headers :
    (out : Outcome) → header header_correlation_id (refused out).headers ≡ out.correlation_id
unfolding write_encoded
refused-headers out = ground (
  arith,
  header-set_header header_correlation_id "Content-Type" "application/json" (reply_headers out),
  header-set_header header_correlation_id header_correlation_id out.correlation_id [],
  eq_refl header_correlation_id,
)

refused-status : (out : Outcome) → (refused out).status ≡ 403
unfolding write_encoded
refused-status out = refl

challenged : Outcome → Headers
challenged out =
    set_header "Content-Type" "application/json"
      (set_header header_step_up_required out.required_acr (reply_headers out))

challenge-headers :
    (profile : Profile) (out : Outcome) → (challenge profile out).headers ≡ challenged out
unfolding challenge write_encoded challenged
challenge-headers profile out = elim (Bool-cases (profile == profile_edge)) [
  | inl e ↦ rw e refl
  | inr e ↦ rw e refl
]

challenged-correlation :
    (out : Outcome) → header header_correlation_id (challenged out) ≡ out.correlation_id
unfolding challenged
challenged-correlation out =
    let set1 =
      header-set_header header_correlation_id "Content-Type" "application/json"
        (set_header header_step_up_required out.required_acr (reply_headers out)) in
    let set2 =
      header-set_header header_correlation_id header_step_up_required out.required_acr
        (reply_headers out) in
    let set3 =
      header-set_header header_correlation_id header_correlation_id out.correlation_id [] in
    set1 ∙ set2 ∙ set3

challenged-step_up :
    (out : Outcome) → header header_step_up_required (challenged out) ≡ out.required_acr
unfolding challenged
challenged-step_up out =
    let set1 =
      header-set_header header_step_up_required "Content-Type" "application/json"
        (set_header header_step_up_required out.required_acr (reply_headers out)) in
    let set2 =
      header-set_header header_step_up_required header_step_up_required out.required_acr
        (reply_headers out) in
    set1 ∙ set2

challenge-status :
    (profile : Profile) (out : Outcome)
    → (((challenge profile out).status ≡ 401) × (profile ≡ profile_edge))
      ⊎ (((challenge profile out).status ≡ 403) × (profile ≢ profile_edge))
unfolding challenge write_encoded
challenge-status profile out = elim (Bool-cases (profile == profile_edge)) [
  | inl e ↦ inl (rw e refl, (eq_iff profile profile_edge).0 e)
  | inr e ↦ inr (rw e refl, λ edge. ground (arith, e, (eq_iff profile profile_edge).1 edge))
]

pub challenge-IsRefusal :
    (profile : Profile) (out : Outcome)
    → out.kind ≡ deny_step_up
    → IsRefusal profile out (challenge profile out)
challenge-IsRefusal profile out h = (
  elim (challenge-status profile out) [
    | inl (e, edge) ↦ inl (e, (edge, h))
    | inr (e, inner) ↦ inr (e, λ (edge, _). inner edge)
  ],
  ap (header header_correlation_id) (challenge-headers profile out) ∙ challenged-correlation out,
  λ _. ap (header header_step_up_required) (challenge-headers profile out) ∙ challenged-step_up out,
)

refused-IsRefusal :
    (profile : Profile) (out : Outcome)
    → out.kind ≢ deny_step_up
    → IsRefusal profile out (refused out)
refused-IsRefusal profile out other =
    (inr (refused-status out, λ (_, k). other k), refused-headers out, λ k. absurd (other k))

abbrev pub Enforces : Profile → Outcome → HttpRequest → Enforced → Type 0
Enforces profile out r enforced =
    ((out.kind ≡ allow)
      × ((hs : Headers) × (ws : Headers) × (enforced ≡ serve (record r { headers = hs }) ws)))
    ⊎ ((out.kind ≢ allow)
        × ((reply : Reply) × (enforced ≡ refuse reply) × IsRefusal profile out reply))

on_kind-Enforces :
    (kind : OutcomeKind) (profile : Profile) (out : Outcome) (r : HttpRequest)
    → out.kind ≡ kind
    → Enforces profile out r (on_kind kind profile out r)
on_kind-Enforces allow profile out r e = inl (e, forward-serve out r)
on_kind-Enforces drop_l0 profile out r e =
    inr (λ k. ground arith, (refused out, refl, refused-IsRefusal profile out (λ k. ground arith)))
on_kind-Enforces deny_route profile out r e =
    inr (λ k. ground arith, (refused out, refl, refused-IsRefusal profile out (λ k. ground arith)))
on_kind-Enforces deny_forbidden profile out r e =
    inr (λ k. ground arith, (refused out, refl, refused-IsRefusal profile out (λ k. ground arith)))
on_kind-Enforces deny_step_up profile out r e =
    inr (λ k. ground arith, (challenge profile out, refl, challenge-IsRefusal profile out e))

-- Whatever the outcome, the protected handler is called exactly on Allow, with the request that the
-- check left, but for its headers. Every other reply is 401 for a step-up at the Edge and 403 for
-- everything else; it carries the outcome's correlation id and, on a step-up, the level
-- required, whatever the profile.
pub respond-Enforces :
    (profile : Profile) (out : Outcome) (r : HttpRequest)
    → Enforces profile out r (respond profile out r)
unfolding respond
respond-Enforces profile out r = on_kind-Enforces out.kind profile out r refl

-- Where the body can be read, the protected handler of a PEP made by `New` is called only for a
-- permitted request, and then with the request as it came, but for its headers: its body can
-- still be read. Every other request is answered by a refusal.
pub middleware-Permitted :
    (F : Platform) (cfg p : Config) (random : Bytes) (r : HttpRequest) (s : String)
    → new_pep cfg ≡ ok p
    → r.body ≡ stream s
    → (Permitted F p random r
        × ((hs : Headers) × (ws : Headers) × (middleware F p random r
              ≡ some (serve (record r { headers = hs }) ws))))
      ⊎ ((out : Outcome) × (reply : Reply) × (middleware F p random r ≡ some (refuse reply))
          × IsRefusal p.profile out reply)
unfolding middleware
middleware-Permitted F cfg p random r s made h =
    let (run, e, left) = check-Answers F cfg p random r s made h in
    elim (respond-Enforces p.profile run.outcome run.request) [
      | inl (allowed, (hs, ws, served)) ↦ inl (
        check-Permitted F p random r run e allowed,
        (
          hs,
          ws,
          rw e (
              ap some served
              ∙ ap (λ (q : HttpRequest). some (serve (record q { headers = hs }) ws)) left),
        ),
      )
      | inr (_, (reply, refused_e, is)) ↦
          inr (run.outcome, reply, ap (respond_run p.profile) e ∙ ap some refused_e, is)
    ]

respond_run-serve :
    (profile : Profile) (o : Option Run) (q : HttpRequest) (hs : Headers)
    → respond_run profile o ≡ some (serve q hs)
    → (run : Run) × (o ≡ some run) × (run.outcome.kind ≡ allow)
respond_run-serve profile none q hs h = cc
respond_run-serve profile (some run) q hs h =
    elim (respond-Enforces profile run.outcome run.request) [
      | inl (allowed, served) ↦ (run, refl, allowed)
      | inr (other, (reply, refused_e, is)) ↦
          absurd (serve_ne (sym (some-injective _ _ h) ∙ refused_e))
    ]
  where
    serve_ne : {reply : Reply} → ◌≡◌ {A = Enforced} (serve q hs) (refuse reply) → ⊥
    serve_ne e = ground arith

-- A request that reaches the protected handler was permitted.
pub middleware-serve :
    (F : Platform) (cfg : Config) (random : Bytes) (r q : HttpRequest) (hs : Headers)
    → middleware F cfg random r ≡ some (serve q hs)
    → Permitted F cfg random r
unfolding middleware
middleware-serve F cfg random r q hs h =
    let (run, e, allowed) = respond_run-serve cfg.profile (check F cfg random r) q hs h in
    check-Permitted F cfg random r run e allowed
