-- ===== src/Mocks.antt =====
-- testsupport/mock/mock.go: the stand-ins of the seams in ports/pip/pip.go. A map is the list of its
-- entries, and `m[k]` of a map of Booleans is false where there is none.
use zta_core.Base.{
  String, ◌≡◌, ◌↔◌, inl, inr, Bool, true, false, not, Option, none, some, List, arith, starts_with,
  if◌then◌else◌, message, Result, ok, err, Bool-cases,
}
use zta_core.Base64.{Bytes}
use zta_core.Json.{Fields, end}
use zta_core.Engine.{or_false}
use zta_core.Services.{find}
use zta_core.Sidecar
use zta_core.Pep.{Platform}
use zta_core.Pep.Check.{attested}

abbrev found_or_empty : Option Fields → Fields
found_or_empty none = end
found_or_empty (some attrs) = attrs

-- `IdentityProvider.LookupSubject`
unfoldable pub lookup_subject : List (String × Fields) → String → Result Fields
lookup_subject subjects id = ok (found_or_empty (find id subjects))

-- `WorkloadAttestor.ValidateSVID`
unfoldable pub validate_svid : List (String × Bool) → String → Result Bool
validate_svid revoked id =
    if starts_with id "spiffe://"
    then ok (not (or_false (find id revoked)))
    else err (message "mock: not a spiffe id")

-- `PolicyStore`
pub record PolicyStore : Type 0 where
  pub bundle : Bytes
  pub version : String

-- `PolicyStore.LatestBundle`
unfoldable pub latest_bundle : PolicyStore → Result (Bytes × String)
latest_bundle m = ok (m.bundle, m.version)

-- A check takes a caller for attested by the stand-in exactly when the sidecar's own attestor attests
-- it and the stand-in does not list it as revoked.
validate_svid-attested_iff :
    (F : Platform) (revoked : List (String × Bool)) (id : String)
    → (attested F (validate_svid revoked id) ≡ true) ↔ (
        (attested F (zta_core.Sidecar.validate_svid id) ≡ true)
        × (or_false (find id revoked) ≡ false))
unfolding validate_svid zta_core.Sidecar.validate_svid
validate_svid-attested_iff F revoked id = elim (Bool-cases (starts_with id "spiffe://")) [
  | inl e ↦ rw e (ground arith)
  | inr e ↦ rw e (ground arith)
]
