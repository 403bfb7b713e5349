-- ===== src/Pdp/Obligations.antt =====
-- authz/pdp/pdp.go: the obligations of a response, against those that the policy gave.
use zta_core.Base.{String, ◌≡◌, refl, Option, none, some, List, [], ◌∷◌, arith}
use zta_core.Json.{Value, null, bool, num, str, arr, obj, Fields, get, as_string, as_map, or_empty}
use zta_core.Authzen.{Obligation}
use zta_core.Pdp.{to_obligations}

-- An obligation with the type and the details that the policy gave it: a type that is no text reads
-- as empty, and details that are no object are left out.
pub record IsObligation (m : Fields) (ob : Obligation) : Type 0 where
  pub typed : (t : String) → get "type" m ≡ some (str t) → ob.kind ≡ t
  pub untyped : ((t : String) → ¬ (get "type" m ≡ some (str t))) → ob.kind ≡ ""
  pub detailed : (d : Fields) → get "details" m ≡ some (obj d) → ob.details ≡ some d
  pub undetailed : ((d : Fields) → ¬ (get "details" m ≡ some (obj d))) → ob.details ≡ none

-- The obligations of a policy, one for one and in their order.
pub data Carries : List Fields → List Obligation → Type 0 where
  none_due : Carries [] []
  due :
      {m : Fields} {ms : List Fields} {ob : Obligation} {obs : List Obligation}
      → IsObligation m ob
      → Carries ms obs
      → Carries (m ∷ ms) (ob ∷ obs)

typed_text :
    (v : Option Value)
    → ((t : String) → v ≡ some (str t) → or_empty (as_string v) ≡ t)
      × (((t : String) → ¬ (v ≡ some (str t))) → or_empty (as_string v) ≡ "")
typed_text none = (λ t h. cc, λ other. refl)
typed_text (some null) = (λ t h. absurd (ground arith), λ other. refl)
typed_text (some (bool b)) = (λ t h. absurd (ground arith), λ other. refl)
typed_text (some (num n)) = (λ t h. absurd (ground arith), λ other. refl)
typed_text (some (str u)) = (λ t h. ground arith, λ other. absurd (other u refl))
typed_text (some (arr xs)) = (λ t h. absurd (ground arith), λ other. refl)
typed_text (some (obj m)) = (λ t h. absurd (ground arith), λ other. refl)

detail_map :
    (v : Option Value)
    → ((d : Fields) → v ≡ some (obj d) → as_map v ≡ some d)
      × (((d : Fields) → ¬ (v ≡ some (obj d))) → as_map v ≡ none)
detail_map none = (λ d h. absurd (cc), λ other. refl)
detail_map (some null) = (λ d h. absurd (ground arith), λ other. refl)
detail_map (some (bool b)) = (λ d h. absurd (ground arith), λ other. refl)
detail_map (some (num n)) = (λ d h. absurd (ground arith), λ other. refl)
detail_map (some (str u)) = (λ d h. absurd (ground arith), λ other. refl)
detail_map (some (arr xs)) = (λ d h. absurd (ground arith), λ other. refl)
detail_map (some (obj m)) = (λ d h. ground arith, λ other. absurd (other m refl))

pub to_obligations-Carries : (ms : List Fields) → Carries ms (to_obligations ms)
unfolding to_obligations
to_obligations-Carries [] = none_due
to_obligations-Carries (m ∷ ms) =
    let (typed, untyped) = typed_text (get "type" m) in
    let (detailed, undetailed) = detail_map (get "details" m) in
    due (record { typed = typed; untyped = untyped; detailed = detailed; undetailed = undetailed })
      (to_obligations-Carries ms)
