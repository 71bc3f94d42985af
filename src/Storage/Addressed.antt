-- ===== src/Storage/Addressed.antt =====
-- The URI of an upload leads back to the place of the upload.
use tracedown_probe_agent.Base.{
  ◌≡◌, refl, ap, true, not, some, [], ◌∷◌, ◌++◌, Text, all, ◌==◌, arith,
}
use tracedown_probe_agent.Storage.{S3Storage, full_key, upload, onto_first, split_once, parse_uri}

split_once_lem :
    (b k : Text) → all (λ c. not (c == b'/')) b ≡ true → split_once (b ++ (b'/' ∷ k)) ≡ some (b, k)
unfolding split_once
split_once_lem [] k h = refl
split_once_lem (c ∷ b) k h =
    let ih = ap (onto_first c) (split_once_lem b k (ground arith)) in ground arith

-- The URI that an upload returns is parsed into the bucket and the key of that upload, with or
-- without a prefix, for every bucket whose name holds no slash.
pub parse_uri-upload :
    (s : S3Storage) (key : Text)
    → all (λ c. not (c == b'/')) s.bucket ≡ true
    → parse_uri (upload s key).0 ≡ some (upload s key).1
unfolding parse_uri upload
parse_uri-upload s key h = split_once_lem s.bucket (full_key s key) h
