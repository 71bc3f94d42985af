-- ===== src/Storage.antt =====
-- src/storage/s3.py: the address of an uploaded body, and what is asked for to download it.
pub mod Addressed
pub mod Contract
pub mod Directory
pub mod Kept
mod Tests
use mathlib.Core.List.{reverse}
use tracedown_probe_agent.Base.{
  ℕ, Bool, true, false, Option, none, some, List, [], ◌∷◌, ◌++◌, Text, codes, ◌==◌, if◌then◌else◌,
}
use tracedown_probe_agent.Config.{is_truthy}

-- `S3Storage`, the attributes that name a place; the client is boto3's.
pub record S3Storage : Type 0 where
  pub bucket : Text
  pub prefix : Text

unfoldable pub without_slashes : Text → Text
without_slashes [] = []
without_slashes (c ∷ s) = elim (c == b'/') [ true ↦ without_slashes s | false ↦ c ∷ s ]

-- `S3Storage(bucket, …, prefix)`, with `prefix.rstrip("/")`.
unfoldable pub new_storage : Text → Text → S3Storage
unfolding without_slashes
new_storage bucket prefix = record {
  bucket = bucket;
  prefix = reverse (without_slashes (reverse prefix));
}

abbrev pub scheme : Text
scheme = codes "s3://"

-- `_full_key`
unfoldable pub full_key : S3Storage → Text → Text
full_key s key = if is_truthy s.prefix then s.prefix ++ (b'/' ∷ key) else key

-- `upload`: the URI that is returned, and the bucket and the key that the client is given.
unfoldable pub upload : S3Storage → Text → Text × (Text × Text)
unfolding full_key
upload s key = (scheme ++ (s.bucket ++ (b'/' ∷ full_key s key)), (s.bucket, full_key s key))

-- What is behind the prefix; none where the text does not begin with it.
abbrev behind_prefix : Text → Text → Option Text
behind_prefix [] s = some s
behind_prefix (c ∷ p) [] = none
behind_prefix (c ∷ p) (d ∷ s) = let rest = behind_prefix p s in if c == d then rest else none

-- `uri.removeprefix(prefix)`
abbrev pub remove_prefix : Text → Text → Text
remove_prefix p s = elim (behind_prefix p s) [ none ↦ s | some r ↦ r ]

abbrev pub onto_first : ℕ → Option (Text × Text) → Option (Text × Text)
onto_first c none = none
onto_first c (some (s, t)) = some (c ∷ s, t)

-- `uri.split("/", 1)`; none where there is no slash, and so one part only.
unfoldable pub split_once : Text → Option (Text × Text)
split_once [] = none
split_once (c ∷ s) = if c == b'/' then some ([], s) else onto_first c (split_once s)

-- `_parse_uri`; none where it raises ValueError.
unfoldable pub parse_uri : Text → Option (Text × Text)
unfolding split_once
parse_uri uri = split_once (remove_prefix scheme uri)

-- `download_url`: the bucket and the key of the presigned URL; none where `_parse_uri` raises.
unfoldable pub download_place : Text → Option (Text × Text)
unfolding parse_uri
download_place uri = parse_uri uri
