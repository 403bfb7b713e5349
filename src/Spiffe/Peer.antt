-- ===== src/Spiffe/Peer.antt =====
-- A workload with an SVID of the authority before a PEP: the identity that it is known by.
use zta_core.Base.{
  ℕ, String, ◌<>◌, ◌≡◌, refl, sym, ap, subst, ◌∙◌, true, some, List, [], ◌∷◌, map, starts_with, ok,
}
use text.Mathlib.TextPositions.{starts_with-append}
use zta_core.Base64.{Bytes}
use zta_core.Http.{HttpRequest}
use zta_core.Authzen.{profile_east_west}
use zta_core.Spiffe.{SpiffeId, id_text, Certificate, Entropy, Library, Svid, Ca, mint}
use zta_core.Spiffe.Laws.{IsX509, IsAuthority, mint-Issued}
use zta_core.Pep.{Platform, Config, peer_identity}
use zta_core.Pep.Check.{check_route, correlation, validate_svid, check}
use zta_core.Sidecar

-- `r.TLS.PeerCertificates` of a peer that presents this SVID
abbrev pub presented : Svid → List Bytes
presented svid = map (λ c. c.raw) svid.certificates

-- `x509svid.IDFromCert` reads the id of a certificate from its one URI, if that is an id's text.
abbrev pub ReadsIds : Library → Platform → Type 0
ReadsIds L F =
    (leaf : Certificate) (id : SpiffeId)
    → L.parse_certificate leaf.raw ≡ ok leaf
    → L.id_from_string (id_text id) ≡ ok id
    → leaf.uris ≡ id_text id ∷ []
    → F.id_from_cert leaf.raw ≡ some (id_text id)

is_spiffe : (id : SpiffeId) → starts_with (id_text id) "spiffe://" ≡ true
is_spiffe id = starts_with-append "spiffe://" (id.trust_domain <> id.path)

module _ (L : Library) (x509 : IsX509 L) (F : Platform) (reads : ReadsIds L F) where
  mint-peer_identity :
      (ca : Ca) (now : ℕ) (e : Entropy) (s : String) (svid : Svid) (cfg : Config) (r : HttpRequest)
      → IsAuthority L ca
      → mint L ca now e s ≡ ok svid
      → r.tls ≡ some (presented svid)
      → peer_identity F cfg r ≡ some s
  unfolding peer_identity
  mint-peer_identity ca now e s svid cfg r auth h shown =
      let v = mint-Issued L x509 ca now e s svid auth h in
      let id : F.id_from_cert v.leaf.raw ≡ some s =
        reads v.leaf svid.id v.parsed
          (subst (λ t. L.id_from_string t ≡ ok svid.id) (sym v.named) v.asked)
          (v.uris ∙ ap (λ t. t ∷ []) (sym v.named))
        ∙ ap some v.named in
      rw (shown, v.chain, id) refl

  -- A workload that the authority gave an SVID for an id, and that shows it to a sidecar, passes the
  -- sidecar's L0: whatever its headers claim, the check goes on to the route guard with exactly that
  -- id as its caller, after one call of the attestor.
  pub mint-check :
      (ca : Ca) (now : ℕ) (e : Entropy) (s : String) (svid : Svid) (cfg : Config) (random : Bytes)
      (r : HttpRequest)
      → IsAuthority L ca
      → mint L ca now e s ≡ ok svid
      → r.tls ≡ some (presented svid)
      → cfg.profile ≡ profile_east_west
      → cfg.attestor ≡ some zta_core.Sidecar.validate_svid
      → check F cfg random r ≡ check_route F cfg r (correlation random r) s (validate_svid s ∷ [])
  unfolding check zta_core.Sidecar.validate_svid
  mint-check ca now e s svid cfg random r auth h shown east wired =
      let v = mint-Issued L x509 ca now e s svid auth h in
      let who = mint-peer_identity ca now e s svid cfg r auth h shown in
      let good : starts_with s "spiffe://" ≡ true =
        subst (λ t. starts_with t "spiffe://" ≡ true) v.named (is_spiffe svid.id) in
      let valid : zta_core.Sidecar.validate_svid s ≡ ok true = ap ok good in
      rw (who, east, wired, good) refl
