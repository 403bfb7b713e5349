-- ===== src/Pdp/Minting.antt =====
-- The token in a response: what it says to whoever verifies it.
use mathlib.Core.Option.{some-injective}
use zta_core.Base.{ℕ, Bool, true, false, ◌≡◌, refl, sym, ap, ◌∙◌, Option, none, some, ok}
use zta_core.Authzen.{Request, Response, DecisionToken}
use zta_core.Token.{Issuer, stamped, unless_expired, verify, issue}
use zta_core.Token.Laws.{verify-issue}
use zta_core.Pdp.{Platform, Service, claims_for, evaluate}
use zta_core.Pdp.Laws.{IsTokenFor, Justified, evaluate-Justified}

-- `resp.Context.DecisionToken`
abbrev pub token_of : Response → Option DecisionToken
token_of resp = elim resp.context [ none ↦ none | some rc ↦ rc.decision_token ]

module _ (P : Platform) where
  token_for-issue :
      (s : Service) (now : ℕ) (r : Request) (allow : Bool) (o : Option DecisionToken)
      (tok : DecisionToken)
      → IsTokenFor P s.issuer now r allow o
      → o ≡ some tok
      → issue P.hash P.claims s.issuer now (claims_for P r) ≡ ok tok.value
  token_for-issue s now r false o tok is e = cc
  token_for-issue s now r true o tok (t, issued, is) e =
      issued ∙ ap (λ (d : DecisionToken). ok d.value) (some-injective _ _ (sym is ∙ e))

  pub Justified-token :
      (s : Service) (now : ℕ) (r : Request) (resp : Response) (v : Justified P s now r resp)
      → token_of resp ≡ v.context.decision_token
  Justified-token s now r resp v = rw v.with_context refl

  -- The token of a response was issued for the claims of this very request.
  pub evaluate-issue :
      (s : Service) (now : ℕ) (r : Request) (resp : Response) (tok : DecisionToken)
      → evaluate P s now r ≡ ok resp
      → token_of resp ≡ some tok
      → issue P.hash P.claims s.issuer now (claims_for P r) ≡ ok tok.value
  evaluate-issue s now r resp tok h found =
      let v = evaluate-Justified P s now r resp h in
      token_for-issue s now r v.decision.allow v.context.decision_token tok v.token_for
        (sym (Justified-token s now r resp v) ∙ found)

  -- From the token of a response, a verifier with the issuer's secret reads the claims of this very
  -- request, stamped with the time of issue, until they expire.
  pub evaluate-verify :
      (s : Service) (now : ℕ) (r : Request) (resp : Response) (tok : DecisionToken) (j : Issuer)
      (later : ℕ)
      → evaluate P s now r ≡ ok resp
      → token_of resp ≡ some tok
      → s.issuer.secret ≡ j.secret
      → verify P.hash P.claims j later tok.value
        ≡ unless_expired later (stamped s.issuer now (claims_for P r))
  evaluate-verify s now r resp tok j later h found same =
      verify-issue P.hash P.claims s.issuer j now later _ tok.value same
        (evaluate-issue s now r resp tok h found)
