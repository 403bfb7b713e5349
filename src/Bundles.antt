-- ===== src/Bundles.antt =====
-- policystore/bundlestore/s3.go and cmd/bundlepush/main.go: the policy bundle in its object store, as
-- it is published and as it is read. The store is a service; the S3 client that reaches it is a
-- parameter, and so are the files. The state is that of the service at the endpoint.
pub mod Laws
pub mod Command
use mathlib.Core.Option
use zta_core.Base.{
  ℕ, String, Bool, true, false, Option, none, some, List, length, Error, wrapped, Result, ok, err,
  ◌>>=◌, wrap,
}
use zta_core.Base.Int.{ℤ, int64, scaled, shifted}
use zta_core.Base64.{Bytes}

-- `Config`, without the endpoint's transport
pub record Address : Type 0 where
  pub endpoint : String
  pub access_key : String
  pub secret_key : String
  pub bucket : String
  pub object : String
  pub use_ssl : Bool

-- `minio.PutObjectOptions` in GOVERNANCE mode, and the size that goes with it
pub record PutOptions : Type 0 where
  pub size : ℕ
  pub content_type : String
  pub retain_until : ℤ

-- `minio.Object`: what reading it gives, and the version id of its `Stat`.
pub record Object : Type 0 where
  pub content : Result Bytes
  pub version : Result String

-- minio-go. A call that changes the service gives its outcome and the state that it leaves.
pub record Minio : Type 1 where
  pub State : Type 0
  pub Client : Type 0
  pub connect : String → String → String → Bool → Result Client
  pub bucket_exists : Client → String → State → Result Bool
  pub make_bucket : Client → String → Bool → State → Option Error × State
  pub put_object : Client → String → String → Bytes → PutOptions → State → Result String × State
  pub get_object : Client → String → String → State → Result Object

-- `time.Duration(retainDays) * 24 * time.Hour`
unfoldable pub retention : ℤ → ℤ
retention days = int64 (scaled 86400000000000 days)

-- `time.Now().Add(…)`
abbrev pub retain_until : ℕ → ℤ → ℤ
retain_until now days = shifted now (retention days)

module _ (M : Minio) where
  -- `Store`
  pub record Store : Type 0 where
    pub address : Address
    pub client : M.Client

  -- `New`
  unfoldable pub new_store : Address → Result Store
  new_store a = do
    client ← wrap "bundlestore: connect" (M.connect a.endpoint a.access_key a.secret_key a.use_ssl)
    ok (record { address = a; client = client })

  -- `LatestBundle`
  unfoldable pub latest_bundle : Store → M.State → Result (Bytes × String)
  latest_bundle s state = do
    obj ← wrap "bundlestore: get" (M.get_object s.client s.address.bucket s.address.object state)
    found ← wrap "bundlestore: read bundle" obj.content
    version ← wrap "bundlestore: stat bundle" obj.version
    ok (found, version)

  abbrev pub ensured : M.Client → String → M.State → Result Bool → Option Error × M.State
  ensured c bucket state (err e) = (some e, state)
  ensured c bucket state (ok true) = (none, state)
  ensured c bucket state (ok false) =
      let (out, left) = M.make_bucket c bucket true state in
      (Option.map (wrapped "make bucket") out, left)

  abbrev pub put : M.Client → Address → Bytes → ℤ → M.State → Result String × M.State
  put c a content until state =
      let (out, left) =
        M.put_object c a.bucket a.object content
          (record {
            size = length content;
            content_type = "application/gzip";
            retain_until = until;
          })
          state in
      (wrap "put object" out, left)

  abbrev pub upload :
      M.Client → Address → Result Bytes → ℤ → Option Error × M.State → Result String × M.State
  upload c a file until (some e, state) = (err e, state)
  upload c a (err e) until (none, state) = (err e, state)
  upload c a (ok content) until (none, state) = put c a content until state

  abbrev pub publish_with :
      Result M.Client → Address → Result Bytes → ℤ → M.State → Result String × M.State
  publish_with (err e) a file until state = (err e, state)
  publish_with (ok c) a file until state =
      upload c a file until (ensured c a.bucket state (M.bucket_exists c a.bucket state))

  -- `run` of cmd/bundlepush, from the file as it opens to the version that is published
  unfoldable pub publish : Address → Result Bytes → ℤ → ℕ → M.State → Result String × M.State
  publish a file retain_days now state =
      publish_with (M.connect a.endpoint a.access_key a.secret_key false) a file
        (retain_until now retain_days) state
