-- ===== src/Bundles/Command.antt =====
-- cmd/bundlepush/main.go: where a bundle goes if no flag says otherwise. `env` is the `envOr` of the
-- other commands.
use zta_core.Base.{false}
use zta_core.Services.Tls.{World, env_or}
use zta_core.Bundles.{Address}

-- The defaults of the flags.
unfoldable pub push_address : World → Address
push_address W = record {
  endpoint = env_or W "S3_ENDPOINT" "localhost:9000";
  access_key = env_or W "S3_ACCESS_KEY" "minioadmin";
  secret_key = env_or W "S3_SECRET_KEY" "minioadmin";
  bucket = env_or W "S3_BUCKET" "vsp-policy-bundles";
  object = env_or W "S3_OBJECT" "bundle.tar.gz";
  use_ssl = false;
}
