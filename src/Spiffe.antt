-- ===== src/Spiffe.antt =====
-- identity/spiffe/ca.go: the development authority that mints X.509-SVIDs, and the TLS configurations.
-- crypto/x509 and go-spiffe are the parameter `Library`; what is drawn from the random source is an
-- argument. Times are nanoseconds since 1970, the first minute of 1970 left out.

pub mod Laws
pub mod Source
pub mod Rotation
pub mod Files
pub mod Peer
use zta_core.Base.{
  ℕ, String, ◌<>◌, ◌≡◌, ◌+◌, ◌-◌, ◌*◌, ◌/◌, ◌^◌, Bool, true, false, Option, none, some, List, [],
  ◌∷◌, ◌==◌, if◌then◌else◌, message, Result, ok, err, ◌>>=◌, wrap,
}
use zta_core.Base64.{Bytes}

-- `spiffeid.ID`
pub record SpiffeId : Type 0 where
  pub trust_domain : String
  pub path : String

-- `id.String()`
abbrev pub id_text : SpiffeId → String
id_text id = "spiffe://" <> (id.trust_domain <> id.path)

-- The `x509.KeyUsage` of an authority, and that of an SVID.
pub data KeyUsage : Type 0 where
  cert_sign_and_crl_sign : KeyUsage
  digital_signature : KeyUsage

pub data ExtKeyUsage : Type 0 where
  server_auth : ExtKeyUsage
  client_auth : ExtKeyUsage

-- `x509.Certificate`, the fields that the code sets and those that parsing fills.
pub record Certificate : Type 0 where
  pub raw : Bytes
  pub serial_number : Option ℕ
  pub common_name : String
  pub not_before : ℕ
  pub not_after : ℕ
  pub key_usage : KeyUsage
  pub ext_key_usage : List ExtKeyUsage
  pub is_ca : Bool
  pub uris : List String
  pub public_key : Bytes

-- What the random source gives to one call: the outcome of `ecdsa.GenerateKey`, and of `rand.Int`
-- below a bound.
pub record Entropy : Type 0 where
  pub key : Result Bytes
  pub int_below : ℕ → Option ℕ

-- The functions of crypto/x509, net/url and go-spiffe that the code calls.
pub record Library : Type 0 where
  -- `spiffeid.TrustDomainFromString`
  pub trust_domain_from_string : String → Result String
  -- `spiffeid.FromString`
  pub id_from_string : String → Result SpiffeId
  -- `url.Parse`, as the URL's text
  pub url_parse : String → Result String
  -- `key.Public()`
  pub public_of : Bytes → Bytes
  -- `x509.CreateCertificate(rand.Reader, template, parent, pub, priv)`
  pub create_certificate : Certificate → Certificate → Bytes → Bytes → Result Bytes
  pub parse_certificate : Bytes → Result Certificate
  -- `c.CheckSignatureFrom(parent) == nil`
  pub check_signature_from : Certificate → Certificate → Bool

-- `x509svid.SVID`
pub record Svid : Type 0 where
  pub id : SpiffeId
  pub certificates : List Certificate
  pub private_key : Bytes

-- `x509bundle.Bundle`
pub record Bundle : Type 0 where
  pub trust_domain : String
  pub authorities : List Certificate

-- `CA`
pub record Ca : Type 0 where
  pub td : String
  pub ca_cert : Certificate
  pub ca_key : Bytes

abbrev pub second : ℕ
second = 1000000000

abbrev pub minute : ℕ
minute = 60000000000

-- `svidTTL`: 24 hours
abbrev pub svid_ttl : ℕ
svid_ttl = 86400000000000

-- 10 * 365 * 24 hours
abbrev pub ca_ttl : ℕ
ca_ttl = 315360000000000000

-- `serial`; a failed draw leaves nil.
unfoldable pub serial : Entropy → Option ℕ
serial e = e.int_below (2 ^ 128)

abbrev pub ca_template : String → ℕ → Entropy → Certificate
ca_template trust_domain now e = record {
  raw = [];
  serial_number = serial e;
  common_name = trust_domain <> " CA";
  not_before = now - minute;
  not_after = now + ca_ttl;
  key_usage = cert_sign_and_crl_sign;
  ext_key_usage = [];
  is_ca = true;
  uris = [];
  public_key = [];
}

abbrev pub svid_template : String → ℕ → Entropy → Certificate
svid_template uri now e = record {
  raw = [];
  serial_number = serial e;
  common_name = "";
  not_before = now - minute;
  not_after = now + svid_ttl;
  key_usage = digital_signature;
  ext_key_usage = server_auth ∷ client_auth ∷ [];
  is_ca = false;
  uris = uri ∷ [];
  public_key = [];
}

module _ (L : Library) where
  -- `NewCA`
  unfoldable pub new_ca : ℕ → Entropy → String → Result Ca
  new_ca now e trust_domain = do
    td ← wrap "spiffe: trust domain" (L.trust_domain_from_string trust_domain)
    key ← e.key
    let tmpl = ca_template trust_domain now e
    der ← L.create_certificate tmpl tmpl (L.public_of key) key
    cert ← L.parse_certificate der
    ok (record { td = td; ca_cert = cert; ca_key = key })

  -- `Bundle`, of one authority
  unfoldable pub bundle : Ca → Bundle
  bundle ca = record { trust_domain = ca.td; authorities = ca.ca_cert ∷ [] }

  abbrev pub leaf_of : Ca → ℕ → Entropy → SpiffeId → Result Svid
  leaf_of ca now e id = do
    uri ← L.url_parse (id_text id)
    key ← e.key
    der ← L.create_certificate (svid_template uri now e) ca.ca_cert (L.public_of key) ca.ca_key
    leaf ← L.parse_certificate der
    ok (record { id = id; certificates = leaf ∷ []; private_key = key })

  -- `id.MemberOf(ca.td)`
  abbrev pub if_member : Ca → ℕ → Entropy → SpiffeId → Result Svid
  if_member ca now e id =
      if id.trust_domain == ca.td
      then leaf_of ca now e id
      else err (message "spiffe: id is not a member of trust domain")

  -- `Mint`
  unfoldable pub mint : Ca → ℕ → Entropy → String → Result Svid
  mint ca now e spiffe_id = do
    id ← wrap "spiffe: parse id" (L.id_from_string spiffe_id)
    if_member ca now e id

-- Where a TLS configuration takes its SVID from when a handshake asks: one SVID, a connected
-- `workloadapi.X509Source` (by its number), or the rotation of Source.
pub data SvidSource : Type 0 where
  static : Svid → SvidSource
  workload_api : ℕ → SvidSource
  rotated : SvidSource

pub data BundleSource : Type 0 where
  roots : Bundle → BundleSource
  workload_roots : ℕ → BundleSource

pub data Role : Type 0 where
  server : Role
  client : Role

-- What `tlsconfig.MTLSServerConfig` and `tlsconfig.MTLSClientConfig` are called with: the peer's
-- SVID must chain to the bundle and be a member of the trust domain.
pub record TlsConfig : Type 0 where
  pub role : Role
  pub svid : SvidSource
  pub bundle : BundleSource
  pub member_of : String

-- `MTLSServerConfig` and `MTLSClientConfig`
unfoldable pub mtls_config : Role → Svid → Bundle → TlsConfig
mtls_config role svid b = record {
  role = role;
  svid = static svid;
  bundle = roots b;
  member_of = b.trust_domain;
}
