-- ===== src/Rebac/Laws.antt =====
-- The relationship engine fails closed, and its objects stand for one resource each.
use text.Mathlib.TextLemmas.{nil-append, cons-append}
use zta_core.Base.{
  String, ◌<>◌, Bool, true, false, ◌≡◌, ◌≢◌, refl, ap, ◌∙◌, inl, inr, ◌||◌, ◌==◌, Option, some,
  arith, eq_iff, eqb, eqb_iff, Result, ok, >>=-eq-ok, Bool-cases, Option-cases,
}
use zta_core.Base.Text.{colon, cut}
use zta_core.Base.Text.Laws.{join, cut-join}
use zta_core.Json.{Value, null, bool, num, str, arr, obj, Fields, end, field, get}
use zta_core.Json.Render.{render}
use zta_core.Authzen.Encode.Laws.{with_text-get}
use zta_core.Http.{Exchange, bad_url, failed, answered}
use zta_core.Engine.{Decision}
use zta_core.Authzen.Validate.Names.{colon_char, IsToken, IsToken-Lacks}
use zta_core.Rebac.{
  Config, nested, relation_for, object_for, object_of, check_url, check_body, verdict, outcome,
  check, related, eval,
}

object_of-join :
    (d entity id : String)
    → entity ≢ ""
    → id ≢ ""
    → object_of (some (d, entity)) id ≡ join colon_char entity id
object_of-join d entity id he hid = elim (Bool-cases (entity == "" || id == "")) [
  | inl e ↦ ground (arith, eq_iff entity "", eq_iff id "")
  | inr e ↦ rw (e, cons-append, nil-append) refl
]

IsToken-nonempty : (s : String) → IsToken s → s ≢ ""
IsToken-nonempty String.[] h = elim h [ ]
IsToken-nonempty (String.◌∷◌ c s) h = λ e. cc

-- The object of a resource type of the contract and an id that is not empty shows the entity and
-- the id: no two resources of different entities or ids share one.
pub object_for-cut :
    (domain entity id : String)
    → IsToken domain
    → IsToken entity
    → id ≢ ""
    → cut colon (object_for (join colon_char domain entity) id) ≡ some (entity, id)
unfolding object_for
object_for-cut domain entity id hd he named =
    let typed = cut-join colon_char domain entity (IsToken-Lacks domain hd) in
    let split = object_of-join domain entity id (IsToken-nonempty entity he) named in
    rw (typed, split) (cut-join colon_char entity id (IsToken-Lacks entity he))

module _ (post : String → String → Exchange) (decode_allowed : String → Option Bool) where
  outcome-true :
      (x : Exchange)
      → outcome post decode_allowed x ≡ ok true
      → (body : String) × (x ≡ answered 200 body) × (decode_allowed body ≡ some true)
  outcome-true (bad_url e) h = cc
  outcome-true (failed e) h = cc
  outcome-true (answered status body) h = elim (Bool-cases (eqb status 200)) [
    | inr e ↦ ground arith
    | inl e ↦ elim (Option-cases (decode_allowed body)) [
      | inl bad ↦ ground arith
      | inr (b, good) ↦ (body, ap (λ n. answered n body) ((eqb_iff status 200).0 e), ground arith)
    ]
  ]

  -- OpenFGA answered yes to a question about a user, a relation and an object.
  abbrev Answered : Config → String → String → String → Type 0
  Answered cfg user relation object =
      (json : Fields) × (body : String) × (post
          (cfg.endpoint <> ("/stores/" <> (cfg.store_id <> "/check"))) (render (obj json))
        ≡ answered 200 body)
      × (decode_allowed body ≡ some true)
      × (get "tuple_key" json
          ≡ some (
              obj (
                field "user" (str user)
                  (field "relation" (str relation) (field "object" (str object) end)))))
      × (cfg.model_id ≢ "" → get "authorization_model_id" json ≡ some (str cfg.model_id))

  -- The user, the relation and the object of the question put to OpenFGA.
  abbrev pub Related : Config → Fields → Type 0
  Related cfg m =
      let user = "user:" <> nested m "subject" "id" in
      let relation = relation_for (nested m "action" "name") in
      let object = object_for (nested m "resource" "type") (nested m "resource" "id") in
      (relation ≢ "") × (object ≢ "") × (user ≢ "user:") × Answered cfg user relation object

  check_body-Answered :
      (cfg : Config) (user relation object body : String)
      → post (check_url cfg) (check_body cfg user relation object) ≡ answered 200 body
      → decode_allowed body ≡ some true
      → Answered cfg user relation object
  unfolding check_body get
  check_body-Answered cfg user relation object body asked yes_answer = (
    _,
    body,
    asked,
    yes_answer,
    refl,
    λ named. with_text-get "authorization_model_id" cfg.model_id end named,
  )

  verdict-allow :
      (b : Bool) (d : Decision)
      → ◌≡◌ {A = Result Decision} (ok (verdict b)) (ok d)
      → d.allow ≡ true
      → b ≡ true
  verdict-allow true d e h = refl
  verdict-allow false d e h = ground arith

  -- The engine allows only when the request maps to a user, a relation and an object and OpenFGA
  -- answered 200 with `allowed` true to the question of exactly that tuple, put to the store and the
  -- model of the configuration. An input that is no object, a request that maps to nothing, a failed
  -- call, another status and an answer that does not decode never allow.
  pub eval-Related :
      (cfg : Config) (input : Value) (d : Decision)
      → eval post decode_allowed cfg input ≡ ok d
      → d.allow ≡ true
      → (m : Fields) × (input ≡ obj m) × Related cfg m
  unfolding eval check
  eval-Related cfg null d h a = ground arith
  eval-Related cfg (bool b) d h a = ground arith
  eval-Related cfg (num n) d h a = ground arith
  eval-Related cfg (str s) d h a = ground arith
  eval-Related cfg (arr xs) d h a = ground arith
  eval-Related cfg (obj m) d h a = (m, refl, on_related _ _ _ h)
    where
      on_related :
          (user relation object : String)
          → related post decode_allowed cfg user relation object ≡ ok d
          → (relation ≢ "") × (object ≢ "") × (user ≢ "user:") × Answered cfg user relation object
      on_related user relation object e =
          elim (Bool-cases (relation == "" || (object == "" || user == "user:"))) [
            | inl unmapped ↦ ground arith
            | inr mapped ↦
                let (b, asked, decided) =
                  >>=-eq-ok
                    (outcome post decode_allowed
                      (post (check_url cfg) (check_body cfg user relation object)))
                    _ (rw mapped at e) in
                (
                  λ blank. ground (arith, eq_iff relation ""),
                  λ blank. ground (arith, eq_iff object ""),
                  λ blank. ground (arith, eq_iff user "user:"),
                  (let (body, is, yes_answer) =
                        outcome-true _ (asked ∙ ap ok (verdict-allow b d decided a)) in
                      check_body-Answered cfg user relation object body is yes_answer),
                )
          ]
