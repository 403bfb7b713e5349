-- ===== src/Engine.antt =====
-- authz/engine/opa.go: the normalised decision, and how the OPA engine reads one from a result
-- set. Rego's evaluation itself is the parameter `query`: a result set is the list of its
-- results, each the list of its expressions' values.
pub mod Laws
pub mod Compile
use zta_core.Base.{
  String, Bool, true, false, Option, none, some, List, [], ◌∷◌, message, Result, ok, err, ◌>>=◌,
  wrap,
}
use zta_core.Json.{
  Value, obj, Items, nil, cons, Fields, get, as_bool, as_string, as_items, or_empty,
}

pub record Decision : Type 0 where
  pub allow : Bool
  pub obligations : List Fields
  pub reason_code : String

abbrev pub or_false : Option Bool → Bool
or_false none = false
or_false (some b) = b

-- `for _, item := range raw { if m, ok := item.(map[string]any); ok { … append … } }`
unfoldable pub maps_in : Items → List Fields
maps_in nil = []
maps_in (cons (obj m) xs) = m ∷ maps_in xs
maps_in (cons v xs) = maps_in xs

abbrev pub maps_of : Option Items → List Fields
maps_of none = []
maps_of (some xs) = maps_in xs

-- `parseDecision`
unfoldable pub parse_decision : Fields → Decision
parse_decision val = record {
  allow = or_false (as_bool (get "allow" val));
  obligations = maps_of (as_items (get "obligations" val));
  reason_code = or_empty (as_string (get "reason_code" val));
}

abbrev pub undefined : Decision
undefined = record { allow = false; obligations = []; reason_code = "policy_undefined" }

abbrev pub ResultSet : Type 0
ResultSet = List (List Value)

-- `rs[0].Expressions[0].Value.(map[string]any)`
abbrev pub document : Value → Result Decision
document (obj val) = ok (parse_decision val)
document v = err (message "engine: decision document has unexpected type")

unfoldable pub decide : ResultSet → Result Decision
decide [] = ok undefined
decide ([] ∷ rs) = ok undefined
decide ((v ∷ vs) ∷ rs) = document v

-- `Engine.Eval`
unfoldable pub eval : (Value → Result ResultSet) → Value → Result Decision
unfolding decide
eval query input = do rs ← wrap "engine: eval" (query input); decide rs
