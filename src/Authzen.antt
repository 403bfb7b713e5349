-- ===== src/Authzen.antt =====
-- authz/authzen/types.go: the AuthZEN request and response, and the accessors of the well-known
-- properties. The open objects are Go maps (`Json.Map`).
pub mod Validate
pub mod Encode
use zta_core.Base.{String, Bool, Option, none, some, List}
use zta_core.Base.Int.{ℤ}
use zta_core.Json.{Fields, Map, lookup, as_string, as_map, string_at}

-- `Profile` is a string type; these are its values.
abbrev pub Profile : Type 0
Profile = String

abbrev pub profile_edge : Profile
profile_edge = "edge"

abbrev pub profile_east_west : Profile
profile_east_west = "east_west"

abbrev pub profile_partner : Profile
profile_partner = "partner"

abbrev pub subject_type_user : String
subject_type_user = "user"

abbrev pub subject_type_workload : String
subject_type_workload = "workload"

abbrev pub obligation_step_up : String
obligation_step_up = "step_up"

pub record Subject : Type 0 where
  pub kind : String
  pub id : String
  pub properties : Map

pub record Action : Type 0 where
  pub name : String
  pub properties : Map

pub record Resource : Type 0 where
  pub kind : String
  pub id : String
  pub properties : Map

pub record Request : Type 0 where
  pub subject : Subject
  pub action : Action
  pub resource : Resource
  pub context : Map

pub record DecisionToken : Type 0 where
  pub value : String
  pub ttl_seconds : ℤ

pub record Obligation : Type 0 where
  pub kind : String
  pub details : Map

pub record ResponseContext : Type 0 where
  pub decision_token : Option DecisionToken
  pub obligations : List Obligation
  pub reason_code : String

pub record Response : Type 0 where
  pub decision : Bool
  pub context : Option ResponseContext

unfoldable pub authz_profile : Request → Profile
authz_profile r = string_at "authz_profile" r.context

unfoldable pub correlation_id : Request → String
correlation_id r = string_at "correlation_id" r.context

unfoldable pub pep_id : Request → String
pep_id r = elim (as_map (lookup "pep" r.context)) [
  | none ↦ ""
  | some pep ↦ string_at "id" (some pep)
]

unfoldable pub auth_assurance_level : Subject → String
auth_assurance_level s = string_at "auth_assurance_level" s.properties

unfoldable pub act_subject : Subject → Option Fields
act_subject s = as_map (lookup "act" s.properties)
