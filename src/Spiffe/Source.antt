-- ===== src/Spiffe/Source.antt =====
-- identity/spiffe/source.go: a source of SVIDs, from the Workload API or from the development
-- authority, and its two TLS configurations.
use zta_core.Base.{
  ℕ, String, Option, none, some, ◌==◌, Error, if◌then◌else◌, Result, ok, err, ◌>>=◌, wrap,
}
use zta_core.Spiffe.{
  Library, Entropy, Ca, Svid, mint, bundle, SvidSource, workload_api, rotated, BundleSource, roots,
  workload_roots, Role, TlsConfig,
}

-- `Source`, its closer apart
pub record Source : Type 0 where
  pub svid : SvidSource
  pub bundle : BundleSource
  pub td : String

-- `ServerTLS` and `ClientTLS`
unfoldable pub source_tls : Role → Source → TlsConfig
source_tls role s = record { role = role; svid = s.svid; bundle = s.bundle; member_of = s.td }

-- `FromWorkloadAPI`; `new_x509_source` is `workloadapi.NewX509Source`, with the address if one is
-- given.
unfoldable pub from_workload_api :
    Library → (Option String → Result ℕ) → String → String → Result Source
from_workload_api L new_x509_source trust_domain socket_path = do
  td ← wrap "spiffe: trust domain" (L.trust_domain_from_string trust_domain)
  src ←
      wrap "spiffe: workload api"
        (new_x509_source (if socket_path == "" then none else some socket_path))
  ok (record { svid = workload_api src; bundle = workload_roots src; td = td })

abbrev pub reminted : Result Svid → Option Svid → Option Error × Option Svid
reminted (err e) held = (some e, held)
reminted (ok svid) held = (none, some svid)

-- `rs.remint`: its error, and the SVID that is held afterwards; `none` is nil.
unfoldable pub remint :
    Library → Ca → String → ℕ → Entropy → Option Svid → Option Error × Option Svid
remint L ca spiffe_id now e held = reminted (mint L ca now e spiffe_id) held

abbrev pub source_from : Library → Ca → Option Error × Option Svid → Result (Source × Option Svid)
source_from L ca (some e, held) = err e
source_from L ca (none, held) =
    ok ((record { svid = rotated; bundle = roots (bundle L ca); td = ca.td }), held)

-- `RotatingSource` up to the start of its loop: the source, and the SVID that it holds.
unfoldable pub rotating_source : Library → Ca → String → ℕ → Entropy → Result (Source × Option Svid)
rotating_source L ca spiffe_id now e = source_from L ca (remint L ca spiffe_id now e none)
