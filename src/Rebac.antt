-- ===== src/Rebac.antt =====
-- authz/rebac/rebac.go: the engine that asks OpenFGA for a relationship. The parameters are the
-- POST of a JSON body to a URL, and the decoding of `allowed` from the answer.
pub mod Laws
use zta_core.Base.{
  [], String, ◌<>◌, Bool, true, false, Option, none, some, ◌||◌, ◌==◌, eqb, if◌then◌else◌, message,
  wrapped, Result, ok, err, ◌>>=◌, or_message,
}
use zta_core.Base.Text.{colon, cut}
use zta_core.Base.Text.Decimal.{decimal}
use zta_core.Json.{Value, str, obj, Fields, end, field, get, as_string, as_map, or_empty}
use zta_core.Json.Render.{render}
use zta_core.Authzen.Encode.{with_text}
use zta_core.Http.{Exchange, bad_url, failed, answered}
use zta_core.Engine.{Decision}

pub record Config : Type 0 where
  pub endpoint : String
  pub store_id : String
  pub model_id : String

-- `nested`
unfoldable pub nested : Fields → String → String → String
nested m a b = elim (as_map (get a m)) [ none ↦ "" | some sub ↦ or_empty (as_string (get b sub)) ]

abbrev pub can : Option (String × String) → String
can none = ""
can (some (before, verb)) = if verb == "" then "" else "can_" <> verb

-- `relationFor`
unfoldable pub relation_for : String → String
relation_for action = can (cut colon action)

abbrev pub object_of : Option (String × String) → String → String
object_of none id = ""
object_of (some (before, entity)) id =
    if entity == "" || id == "" then "" else entity <> (":" <> id)

-- `objectFor`
unfoldable pub object_for : String → String → String
object_for kind id = object_of (cut colon kind) id

-- The body of a check: `checkReq`.
unfoldable pub check_body : Config → String → String → String → String
check_body cfg user relation object = render (
    obj (
      field "tuple_key"
        (obj (
          field "user" (str user)
            (field "relation" (str relation) (field "object" (str object) end))))
        (with_text "authorization_model_id" cfg.model_id end)))

-- The URL of a check.
abbrev pub check_url : Config → String
check_url cfg = cfg.endpoint <> ("/stores/" <> (cfg.store_id <> "/check"))

abbrev reason : Bool → String → Decision
reason allow code = record { allow = allow; obligations = []; reason_code = code }

abbrev pub verdict : Bool → Decision
verdict true = reason true "rebac_relationship_ok"
verdict false = reason false "rebac_no_relationship"

module _ (post : String → String → Exchange) (decode_allowed : String → Option Bool) where
  abbrev pub outcome : Exchange → Result Bool
  outcome (bad_url e) = err e
  outcome (failed e) = err (wrapped "rebac: check" e)
  outcome (answered status body) =
      if eqb status 200
      then or_message "rebac: decode check" (decode_allowed body)
      else err (message ("rebac: openfga returned HTTP " <> decimal status))

  -- `check`
  unfoldable pub check : Config → String → String → String → Result Bool
  check cfg user relation object =
      outcome (post (check_url cfg) (check_body cfg user relation object))

  abbrev pub related : Config → String → String → String → Result Decision
  related cfg user relation object =
      if relation == "" || (object == "" || user == "user:")
      then ok (reason false "rebac_unmapped_request")
      else (do allowed ← check cfg user relation object; ok (verdict allowed))

  -- `Eval`
  unfoldable pub eval : Config → Value → Result Decision
  eval cfg (obj m) =
      related cfg ("user:" <> nested m "subject" "id") (relation_for (nested m "action" "name"))
        (object_for (nested m "resource" "type") (nested m "resource" "id"))
  eval cfg v = ok (reason false "rebac_bad_input")
