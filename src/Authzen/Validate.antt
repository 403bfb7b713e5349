-- ===== src/Authzen/Validate.antt =====
-- authz/authzen/validate.go: the structural rules of a request. `quote` is Go's `%q`, which
-- depends on Unicode's tables of printable characters.
pub mod Names
pub mod Laws
use Prim.Native.Char.{Char, code}
use zta_core.Base.{
  ℕ, String, ◌<>◌, Bool, true, false, ◌&&◌, ◌||◌, not, Option, none, some, List, [], ◌∷◌, ◌++◌, leb,
  eqb, ◌==◌, if◌then◌else◌, Error, invalid, Result, ok, err,
}
use zta_core.Base.Text.{colon, cut, split}
use zta_core.Authzen.{
  Request, authz_profile, profile_edge, profile_east_west, profile_partner, subject_type_user,
  subject_type_workload,
}

abbrev pub is_lower : ℕ → Bool
is_lower c = leb b'a' c && leb c b'z'

abbrev pub is_name_char : ℕ → Bool
is_name_char c = is_lower c || leb b'0' c && leb c b'9' || eqb c b'_' || eqb c b'-'

pub name_chars : String → Bool
name_chars String.[] = true
name_chars (String.◌∷◌ c s) = is_name_char (code c) && name_chars s

-- `nameToken.MatchString(s)`, for `^[a-z][a-z0-9_-]*$`
unfoldable pub name_token : String → Bool
unfolding name_chars
name_token String.[] = false
name_token (String.◌∷◌ c s) = is_lower (code c) && name_chars s

abbrev pub both_tokens : List String → Bool
both_tokens (a ∷ b ∷ []) = name_token a && name_token b
both_tokens _ = false

-- `isColonPair`
unfoldable pub is_colon_pair : String → Bool
unfolding split name_token
is_colon_pair s = both_tokens (split colon s)

-- `strings.SplitN(s, ":", 2)[0]`
abbrev pub first_of : String → Option (String × String) → String
first_of s none = s
first_of s (some (before, after)) = before

-- `domainOf`
unfoldable pub domain_of : String → Option String
unfolding is_colon_pair cut
domain_of s = if not (is_colon_pair s) then none else some (first_of s (cut colon s))

module _ (quote : String → String) where
  abbrev pub type_issues : String → List String
  type_issues t =
      if t == subject_type_user || t == subject_type_workload
      then []
      else if t == ""
      then "subject.type is required" ∷ []
      else ("subject.type "
          <> quote t
          <> " must be "
          <> quote subject_type_user
          <> " or "
          <> quote subject_type_workload)
        ∷ []

  abbrev pub id_issues : String → List String
  id_issues id = if id == "" then "subject.id is required" ∷ [] else []

  abbrev pub action_issues : String → List String
  action_issues name =
      if name == ""
      then "action.name is required" ∷ []
      else if not (is_colon_pair name)
      then ("action.name "
          <> quote name
          <> " must match \"<domain>:<action>\" (e.g. wallet:settle)")
        ∷ []
      else []

  abbrev pub resource_issues : String → List String
  resource_issues t =
      if t == ""
      then "resource.type is required" ∷ []
      else if not (is_colon_pair t)
      then ("resource.type "
          <> quote t
          <> " must match \"<domain>:<entity>\" (e.g. wallet:account)")
        ∷ []
      else []

  abbrev pub domain_issues : String → String → Option String → Option String → List String
  domain_issues action resource (some ad) (some rd) =
      if not (ad == rd)
      then ("domain mismatch: action "
          <> quote action
          <> " is in domain "
          <> quote ad
          <> " but resource "
          <> quote resource
          <> " is in domain "
          <> quote rd)
        ∷ []
      else []
  domain_issues action resource _ _ = []

  abbrev pub profile_issues : String → List String
  profile_issues p =
      if p == profile_edge || p == profile_east_west || p == profile_partner
      then []
      else if p == ""
      then "context.authz_profile is required (edge|east_west|partner)" ∷ []
      else ("context.authz_profile " <> quote p <> " must be one of edge|east_west|partner") ∷ []

  -- What the checks append to `issues`, in their order.
  unfoldable pub issues : Request → List String
  issues r =
      type_issues r.subject.kind
      ++ (id_issues r.subject.id
          ++ (action_issues r.action.name
              ++ (resource_issues r.resource.kind
                  ++ (domain_issues r.action.name r.resource.kind (domain_of r.action.name)
                        (domain_of r.resource.kind)
                      ++ profile_issues (authz_profile r)))))

  abbrev pub verdict : List String → Result (Unit {0})
  verdict [] = ok tt
  verdict (issue ∷ rest) = err (invalid (issue ∷ rest))

  -- `Request.Validate`
  unfoldable pub validate : Request → Result (Unit {0})
  unfolding issues
  validate r = verdict (issues r)
