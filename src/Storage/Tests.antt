-- ===== src/Storage/Tests.antt =====
-- An upload below a prefix, and the theorem on it.
use tracedown_probe_agent.Base.{◌≡◌, refl, none, codes}
use tracedown_probe_agent.Storage.{
  S3Storage, upload, full_key, parse_uri, split_once, new_storage, without_slashes,
}

abbrev bodies : S3Storage
bodies = record { bucket = codes "bodies"; prefix = codes "probe/eu" }

stripped_prefix : new_storage (codes "bodies") (codes "probe/eu//") ≡ bodies
unfolding new_storage without_slashes
stripped_prefix = refl

upload_run : (upload bodies (codes "call_0.json")).0 ≡ codes "s3://bodies/probe/eu/call_0.json"
unfolding upload full_key
upload_run = refl

no_slash : parse_uri (codes "s3://bodies") ≡ none
unfolding parse_uri split_once
no_slash = refl
