-- ===== src/Spiffe/Files.antt =====
-- identity/spiffe/pem.go: SVIDs and bundles in PEM files. The file system is a parameter, and so are
-- the PEM and PKCS#8 encodings and go-spiffe's loading.
use zta_core.Base.{
  ℕ, String, ◌<>◌, ◌≡◌, ◌≢◌, false, Option, some, List, [], ◌∷◌, Result, ok, ◌>>=◌, wrap,
  or_message,
}
use zta_core.Base64.{Bytes}
use zta_core.Spiffe.{id_text, Certificate, Svid, Bundle, Library}

-- The texts of the files, by path.
abbrev pub Files : Type 0
Files = String → Option String

-- `os.WriteFile` with a mode, and the encodings
pub record Encodings : Type 0 where
  pub write_file : String → ℕ → String → Files → Result Files
  -- `pem.EncodeToMemory` of a block of type CERTIFICATE, and of type PRIVATE KEY
  pub pem_certificate : Bytes → String
  pub pem_private_key : Bytes → String
  -- `x509.MarshalPKCS8PrivateKey`
  pub marshal_pkcs8 : Bytes → Result Bytes
  -- `bundle.Marshal`
  pub marshal_bundle : Bundle → Result String
  -- `x509svid.Load` and `x509bundle.Load`, from the texts of the files that they read
  pub parse_svid : String → String → Result Svid
  pub parse_bundle : String → String → Result Bundle

module _ (E : Encodings) where
  -- `certPEM`
  unfoldable pub certificates_pem : List Certificate → String
  certificates_pem [] = ""
  certificates_pem (c ∷ cs) = E.pem_certificate c.raw <> certificates_pem cs

  -- `WriteSVID`; the modes are 0o644 and 0o600.
  unfoldable pub write_svid : String → String → Svid → Files → Result Files
  write_svid cert_path key_path svid files = do
    with_cert ←
        wrap "spiffe: write cert"
          (E.write_file cert_path 420 (certificates_pem svid.certificates) files)
    key ← wrap "spiffe: marshal key" (E.marshal_pkcs8 svid.private_key)
    wrap "spiffe: write key" (E.write_file key_path 384 (E.pem_private_key key) with_cert)

  -- `WriteBundle`
  unfoldable pub write_bundle : String → Bundle → Files → Result Files
  write_bundle path b files = do
    text ← wrap "spiffe: marshal bundle" (E.marshal_bundle b)
    wrap "spiffe: write bundle" (E.write_file path 420 text files)

  abbrev read : String → Files → Result String
  read path files = or_message "open" (files path)

  -- `LoadSVID`
  unfoldable pub load_svid : String → String → Files → Result Svid
  load_svid cert_path key_path files = do
    cert ← read cert_path files
    key ← read key_path files
    E.parse_svid cert key

  -- `LoadBundle`
  unfoldable pub load_bundle : Library → String → String → Files → Result Bundle
  load_bundle L trust_domain path files = do
    td ← wrap "spiffe: trust domain" (L.trust_domain_from_string trust_domain)
    text ← read path files
    E.parse_bundle td text

-- A leaf that `x509svid` accepts with a key: its own id, its own key, and no authority.
pub record IsLoadable (L : Library) (svid : Svid) (leaf : Certificate) : Type 0 where
  pub chain : svid.certificates ≡ leaf ∷ []
  pub parsed : L.parse_certificate leaf.raw ≡ ok leaf
  pub read : L.id_from_string (id_text svid.id) ≡ ok svid.id
  pub uris : leaf.uris ≡ id_text svid.id ∷ []
  pub no_authority : leaf.is_ca ≡ false
  pub key : leaf.public_key ≡ L.public_of svid.private_key

-- A file that was written reads back, no other file changes, and go-spiffe reads an SVID from the PEM
-- block of its one certificate and the PEM block of its key.
pub record IsPem (L : Library) (E : Encodings) : Type 0 where
  pub written :
      (path : String) (mode : ℕ) (text : String) (files left : Files)
      → E.write_file path mode text files ≡ ok left
      → left path ≡ some text
  pub others :
      (path other : String) (mode : ℕ) (text : String) (files left : Files)
      → E.write_file path mode text files ≡ ok left
      → other ≢ path
      → left other ≡ files other
  pub loads :
      (svid : Svid) (leaf : Certificate) (key : Bytes)
      → IsLoadable L svid leaf
      → E.marshal_pkcs8 svid.private_key ≡ ok key
      → E.parse_svid (E.pem_certificate leaf.raw) (E.pem_private_key key) ≡ ok svid
