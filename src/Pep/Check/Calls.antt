-- ===== src/Pep/Check/Calls.antt =====
-- The calls of a check: each is made only after every cheaper test has passed.
use mathlib.Core.Option.{some-injective}
use zta_core.Base.{
  String, Bool, true, false, ◌≡◌, ◌≢◌, refl, sym, ap, ◌∙◌, inl, inr, ◌++◌, [], Option, none, some,
  List, ◌==◌, arith, Result, ok, err, Bool-cases, Option-cases, All, All-append, eq_iff, subst,
}
use zta_core.Base64.{Bytes}
use zta_core.Json.{or_empty}
use zta_core.Http.{HttpRequest, header}
use zta_core.Authzen.{profile_east_west, Request}
use zta_core.Token.{Claims}
use zta_core.Pep.{
  header_subject_id, header_decision_token, Route, Outcome, Platform, Config, peer_identity,
  build_request, match_route,
}
use zta_core.Pep.Check.{
  Call, validate_svid, is_revoked, verify, evaluate, Run, correlation, attested, tried,
  reuse_or_ask, with_request, unless_revoked, if_attested, try_decision_token, ask, check_l2,
  check_revoked, check_route, check,
}
use zta_core.Pep.Check.Grounds.{build_request_headers}
use zta_core.Pep.Check.Soundness.{NotRevoked, Attested, caller_of}

module _ (F : Platform) where
  -- L0 and L1 have passed.
  abbrev pub Entered : Config → HttpRequest → Route → Type 0
  Entered cfg r route =
      (cfg.profile ≡ profile_east_west → Attested F cfg r)
      × (match_route cfg.routes r.method r.path ≡ some route)

  -- What is known when a call is made.
  abbrev pub Cleared : Config → Bytes → HttpRequest → Call → Type 0
  Cleared cfg random r (validate_svid id) =
      (cfg.profile ≡ profile_east_west) × (peer_identity F cfg r ≡ some id)
  Cleared cfg random r (is_revoked subj) =
      (subj ≡ header header_subject_id r.headers) × (route : Route) × Entered cfg r route
  Cleared cfg random r (verify tok) =
      (tok ≡ header header_decision_token r.headers)
      × (tok ≢ "")
      × NotRevoked F cfg r
      × (route : Route) × Entered cfg r route
  Cleared cfg random r (evaluate req) =
      NotRevoked F cfg r
      × (route : Route) × Entered cfg r route
      × ((build_request F cfg r route (correlation random r) (caller_of F cfg r)).0 ≡ ok req)

  module _ (P : Call → Type 0) where
    ask-calls :
        (cfg : Config) (r : HttpRequest) (req : Request) (cid : String) (calls : List Call)
        (run : Run)
        → P (evaluate req)
        → All P calls
        → ask F cfg r req cid calls ≡ some run
        → All P run.calls
    unfolding ask
    ask-calls cfg r req cid calls run asked h e = elim (Option-cases cfg.pdp) [
      | inl none_e ↦ ground arith
      | inr (pdp, some_e) ↦
          subst (λ x. All P x) (ap (λ (x : Run). x.calls) (some-injective _ _ (rw some_e at e)))
            (All-append P calls _ h (asked, tt))
    ]

    tried-calls :
        (o : Option (String → Result Claims)) (raw : String) (req : Request) (cid : String)
        → (raw ≢ "" → P (verify raw))
        → All P (tried F o raw req cid).1
    tried-calls none raw req cid shown = tt
    tried-calls (some v) raw req cid shown = elim (Bool-cases (raw == "")) [
      | inl e ↦ rw e tt
      | inr e ↦ rw e (shown (λ blank. ground (arith, eq_iff raw "")), tt)
    ]

    try_decision_token-calls :
        (cfg : Config) (r : HttpRequest) (req : Request) (cid : String)
        → (header header_decision_token r.headers ≢ ""
            → P (verify (header header_decision_token r.headers)))
        → All P (try_decision_token F cfg r req cid).1
    unfolding try_decision_token
    try_decision_token-calls cfg r req cid shown =
        tried-calls cfg.token_verifier (header header_decision_token r.headers) req cid shown

    reuse_or_ask-calls :
        (cfg : Config) (r : HttpRequest) (req : Request) (cid : String) (calls : List Call)
        (t : Option Outcome × List Call) (run : Run)
        → All P t.1
        → P (evaluate req)
        → All P calls
        → reuse_or_ask F cfg r req cid calls t ≡ some run
        → All P run.calls
    reuse_or_ask-calls cfg r req cid calls (some out, more) run tk asked h e =
        subst (λ x. All P x) (ap (λ (x : Run). x.calls) (some-injective _ _ e))
          (All-append P calls more h tk)
    reuse_or_ask-calls cfg r req cid calls (none, more) run tk asked h e =
        ask-calls cfg r req cid (calls ++ more) run asked (All-append P calls more h tk) e

    with_request-calls :
        (cfg : Config) (cid : String) (calls : List Call) (built : Result Request × HttpRequest)
        (run : Run)
        → (header header_decision_token built.1.headers ≢ ""
            → P (verify (header header_decision_token built.1.headers)))
        → ((req : Request) → built.0 ≡ ok req → P (evaluate req))
        → All P calls
        → with_request F cfg cid calls built ≡ some run
        → All P run.calls
    with_request-calls cfg cid calls (err e, r) run shown asked h eq =
        subst (λ x. All P x) (ap (λ (x : Run). x.calls) (some-injective _ _ eq)) h
    with_request-calls cfg cid calls (ok req, r) run shown asked h eq =
        reuse_or_ask-calls cfg r req cid calls (try_decision_token F cfg r req cid) run
          (try_decision_token-calls cfg r req cid shown) (asked req refl) h eq

    check_l2-calls :
        (cfg : Config) (r : HttpRequest) (route : Route) (cid caller : String) (calls : List Call)
        (run : Run)
        → (header header_decision_token r.headers ≢ ""
            → P (verify (header header_decision_token r.headers)))
        → ((req : Request) → (build_request F cfg r route cid caller).0 ≡ ok req → P (evaluate req))
        → All P calls
        → check_l2 F cfg r route cid caller calls ≡ some run
        → All P run.calls
    unfolding check_l2
    check_l2-calls cfg r route cid caller calls run shown asked h e =
        with_request-calls cfg cid calls (build_request F cfg r route cid caller) run
          (subst
            (λ hs.
              header header_decision_token hs ≢ "" → P (verify (header header_decision_token hs)))
            (sym (build_request_headers F cfg r route cid caller)) shown)
          asked h e

    unless_revoked-calls :
        (revocations : Option (String → Bool)) (subj cid : String) (r : HttpRequest)
        (calls : List Call) (rest : List Call → Option Run) (run : Run)
        → P (is_revoked subj)
        → (((revoked : String → Bool)
              → revocations ≡ some revoked
              → subj ≢ ""
              → revoked subj ≡ false)
            → (cs : List Call) → All P cs
            → rest cs ≡ some run
            → All P run.calls)
        → All P calls
        → unless_revoked F revocations subj cid r calls rest ≡ some run
        → All P run.calls
    unless_revoked-calls none subj cid r calls rest run asked on h e = on (λ v ev. cc) calls h e
    unless_revoked-calls (some revoked) subj cid r calls rest run asked on h e =
        elim (Bool-cases (subj == "")) [
          | inl blank ↦
              on (λ v ev named. absurd (named ((eq_iff subj "").0 blank))) calls h (rw blank at e)
          | inr named ↦ elim (Bool-cases (revoked subj)) [
            | inl bad ↦
                subst (λ x. All P x)
                  (ap (λ (x : Run). x.calls) (some-injective _ _ (rw (named, bad) at e)))
                  (All-append P calls _ h (asked, tt))
            | inr fine ↦
                on
                  (λ v ev _.
                    ap (λ (f : String → Bool). f subj) (sym (some-injective _ _ ev)) ∙ fine)
                  _ (All-append P calls _ h (asked, tt)) (rw (named, fine) at e)
          ]
        ]

    if_attested-calls :
        (attestor : Option (String → Result Bool)) (caller : Option String) (cid : String)
        (r : HttpRequest) (rest : String → List Call → Option Run) (run : Run)
        → ((id : String) → caller ≡ some id → P (validate_svid id))
        → ((id : String) (validate : String → Result Bool) (cs : List Call)
            → caller ≡ some id
            → attestor ≡ some validate
            → validate id ≡ ok true
            → All P cs
            → rest id cs ≡ some run
            → All P run.calls)
        → if_attested F attestor caller cid r rest ≡ some run
        → All P run.calls
    if_attested-calls attestor none cid r rest run asked on e =
        subst (λ x. All P x) (ap (λ (x : Run). x.calls) (some-injective _ _ e)) tt
    if_attested-calls none (some caller) cid r rest run asked on e = cc
    if_attested-calls (some validate) (some caller) cid r rest run asked on e =
        elim (Bool-cases (attested F (validate caller))) [
          | inr off ↦
              subst (λ x. All P x) (ap (λ (x : Run). x.calls) (some-injective _ _ (rw off at e)))
                (asked caller refl, tt)
          | inl passed ↦
              on caller validate _ refl refl (attested-ok (validate caller) passed)
                (asked caller refl, tt) (rw passed at e)
        ]
      where
        attested-ok : (v : Result Bool) → attested F v ≡ true → v ≡ ok true
        attested-ok (err x) h = cc
        attested-ok (ok b) h = ap ok h

  check_route-calls :
      (cfg : Config) (random : Bytes) (r : HttpRequest) (cid caller : String) (calls : List Call)
      (run : Run)
      → cid ≡ correlation random r
      → caller ≡ caller_of F cfg r
      → (cfg.profile ≡ profile_east_west → Attested F cfg r)
      → All (Cleared cfg random r) calls
      → check_route F cfg r cid caller calls ≡ some run
      → All (Cleared cfg random r) run.calls
  unfolding check_route check_revoked
  check_route-calls cfg random r cid caller calls run same_cid same l0 h e =
      elim (Option-cases (match_route cfg.routes r.method r.path)) [
        | inl unrouted ↦
            subst (λ x. All (Cleared cfg random r) x)
              (ap (λ (x : Run). x.calls) (some-injective _ _ (rw unrouted at e))) h
        | inr (route, routed) ↦
            unless_revoked-calls (Cleared cfg random r) cfg.revocations
              (header header_subject_id r.headers) cid r calls (check_l2 F cfg r route cid caller)
              run (refl, route, (l0, routed))
              (λ fine cs k on.
                check_l2-calls (Cleared cfg random r) cfg r route cid caller cs run
                  (λ shown. (refl, shown, fine, route, (l0, routed)))
                  (λ req made. (fine, route, (l0, routed), rw (same_cid, same) at made)) k on)
              h (rw routed at e)
      ]

  -- Of the calls of a check, the attestor is asked only about the caller of an East-West PEP, the
  -- revocation list only about the subject, once the caller is attested and the route is one of
  -- the PEP's, and the token verifier and the PDP only when moreover the subject is not revoked;
  -- the PDP is asked about the request that was built, nothing else.
  pub check-Cleared :
      (cfg : Config) (random : Bytes) (r : HttpRequest) (run : Run)
      → check F cfg random r ≡ some run
      → All (Cleared cfg random r) run.calls
  unfolding check
  check-Cleared cfg random r run e = elim (Bool-cases (cfg.profile == profile_east_west)) [
    | inr other ↦
        check_route-calls cfg random r _ _ [] run refl refl
          (λ east. ground (arith, eq_iff cfg.profile profile_east_west)) tt (rw other at e)
    | inl east ↦
        let is_east = (eq_iff cfg.profile profile_east_west).0 east in
        if_attested-calls (Cleared cfg random r) cfg.attestor (peer_identity F cfg r) _ r
          (check_route F cfg r (correlation random r)) run (λ id is_id. (is_east, is_id))
          (λ id validate cs is_id at valid k on.
            check_route-calls cfg random r _ id cs run refl (sym (ap or_empty is_id))
              (λ _. (id, validate, is_id, at, valid)) k on)
          (rw east at e)
  ]
