-- ===== src/Pep/Middleware.antt =====
-- authz/pep/middleware.go: the reply of each outcome. The protected handler is a parameter: it is
-- given the request and the headers that the reply already has.
pub mod Laws
use zta_core.Base.{Option, none, some, [], ◌==◌, if◌then◌else◌}
use zta_core.Base64.{Bytes}
use zta_core.Json.{str, obj, end, field}
use zta_core.Http.{HttpRequest, Headers, set_header, Reply, write_json}
use zta_core.Authzen.{Profile, profile_edge}
use zta_core.Pep.{
  OutcomeKind, header_correlation_id, header_decision_token, header_step_up_required, allow,
  drop_l0, deny_route, deny_forbidden, deny_step_up, Outcome, Platform, Config,
}
use zta_core.Pep.Check.{Run, check}

-- Either the protected handler is called, or a reply is written without it.
pub data Enforced : Type 0 where
  serve : HttpRequest → Headers → Enforced
  refuse : Reply → Enforced

-- `w.Header()` as the middleware leaves it for the handler
abbrev pub reply_headers : Outcome → Headers
reply_headers out = set_header header_correlation_id out.correlation_id []

unfoldable pub forward : Outcome → HttpRequest → Enforced
forward out r =
    let cid = set_header header_correlation_id out.correlation_id in
    if out.decision_token == ""
    then serve (record r { headers = cid r.headers }) (reply_headers out)
    else (let tok = set_header header_decision_token out.decision_token in
        serve (record r { headers = tok (cid r.headers) }) (tok (reply_headers out)))

abbrev pub refused : Outcome → Reply
refused out = write_json 403 (obj (field "error" (str out.reason_code) end)) (reply_headers out)

unfoldable pub challenge : Profile → Outcome → Reply
challenge profile out =
    let hs = set_header header_step_up_required out.required_acr (reply_headers out) in
    if profile == profile_edge
    then write_json 401
        (obj (
          field "error" (str "step_up_required")
            (field "required_acr" (str out.required_acr) (field "method" (str "mfa") end))))
        hs
    else write_json 403
        (obj (
          field "error" (str "step_up_required") (field "required_acr" (str out.required_acr) end)))
        hs

abbrev pub on_kind : OutcomeKind → Profile → Outcome → HttpRequest → Enforced
on_kind allow profile out r = forward out r
on_kind drop_l0 profile out r = refuse (refused out)
on_kind deny_route profile out r = refuse (refused out)
on_kind deny_forbidden profile out r = refuse (refused out)
on_kind deny_step_up profile out r = refuse (challenge profile out)

-- The switch on the outcome's kind.
unfoldable pub respond : Profile → Outcome → HttpRequest → Enforced
respond profile out r = on_kind out.kind profile out r

abbrev pub respond_run : Profile → Option Run → Option Enforced
respond_run profile none = none
respond_run profile (some run) = some (respond profile run.outcome run.request)

-- `Middleware`, up to the protected handler; `none` is a panic of `Check`.
unfoldable pub middleware : Platform → Config → Bytes → HttpRequest → Option Enforced
middleware F cfg random r = respond_run cfg.profile (check F cfg random r)
