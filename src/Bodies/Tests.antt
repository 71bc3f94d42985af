-- ===== src/Bodies/Tests.antt =====
-- Uploads of a reflected secret, and the theorem on them.
use tracedown_probe_agent.Base.{
  ℕ, ◌≡◌, refl, Option, none, some, List, [], ◌∷◌, ◌++◌, Text, codes, true, here, if◌then◌else◌,
}
use tracedown_probe_agent.Bytes.{text_eq}
use tracedown_probe_agent.Redact.{
  mask, encode, encode_point, is_surrogate, redact_body_bytes, mask_all, mask_one, replace,
  replace_from, longest_first, insert,
}
use tracedown_probe_agent.Bodies.{Call, Outside, upload_bodies}
use tracedown_probe_agent.Bodies.Replayed.{storing, replay, AreResolved}
use tracedown_probe_agent.Bodies.Resolved.{upload_bodies-AreResolved}
use tracedown_probe_agent.Storage.Contract.{BodyStorage}
use tracedown_probe_agent.Storage.Directory.{Paths}
use tracedown_probe_agent.Storage.Kept.{filesystem_storage, s3_storage, put_object, fetch_object}
use tracedown_probe_agent.Storage.{upload, full_key, download_place, parse_uri, split_once}
use tracedown_probe_agent.Result.{ok}
use tracedown_probe_agent.Bodies.Hidden.{IsHidden, upload_bodies-IsHidden}

abbrev store : Outside
store = record {
  name = λ path. codes "call_0.json";
  upload = λ key bytes. some (codes "s3://b/" ++ key);
}

abbrev calls : List Call
calls =
    record { response = none }
    ∷ record { response = some none }
    ∷ record { response = some (some (codes "/tmp/call_0.json")) }
    ∷ []

abbrev saved : Text → Option (List ℕ)
saved path = if text_eq path (codes "/tmp/call_0.json") then some (codes "your key") else none

upload_run :
    (upload_bodies store
      (codes "key" ∷ [])
      (codes "f00d")
      calls
      (record { files = saved; sent = [] })).1.sent
    ≡ (codes "f00d/call_0.json", codes "your " ++ mask) ∷ []
unfolding upload_bodies redact_body_bytes mask_all mask_one replace replace_from longest_first
    insert encode encode_point is_surrogate
upload_run = refl

upload_bodies-IsHidden_example :
    IsHidden
      (codes "key")
      (upload_bodies store
        (codes "key" ∷ [])
        (codes "f00d")
        calls
        (record { files = saved; sent = [] })).1
unfolding encode encode_point is_surrogate
upload_bodies-IsHidden_example =
    upload_bodies-IsHidden store (codes "f00d") (codes "key" ∷ []) calls saved here refl refl

-- A storage in a directory, and two calls whose files have two names.
abbrev paths : Paths
paths = record { join = λ root key. root ++ (b'/' ∷ key); normal = λ path. path }

abbrev directory : BodyStorage
directory = filesystem_storage paths (λ root key. refl) (codes "/var")

-- The path below `/tmp/`.
abbrev base_name : Text → Text
base_name (a ∷ b ∷ c ∷ d ∷ e ∷ rest) = rest
base_name path = path

abbrev two_calls : List Call
two_calls =
    record { response = some (some (codes "/tmp/a.json")) }
    ∷ record { response = none }
    ∷ record { response = some (some (codes "/tmp/b.json")) }
    ∷ []

abbrev two_files : Text → Option (List ℕ)
two_files path = if text_eq path (codes "/tmp/a.json") then some (codes "a key") else none

abbrev left_calls : List Call
left_calls =
    record { response = some (some (codes "file:///var/f00d/a.json")) }
    ∷ record { response = none }
    ∷ record { response = some (some (codes "/tmp/b.json")) }
    ∷ []

upload_bodies-AreResolved_example :
    AreResolved directory base_name
      (codes "key" ∷ [])
      (codes "f00d")
      two_files
      (replay directory
        (upload_bodies
          (storing directory base_name (λ key body. true))
          (codes "key" ∷ [])
          (codes "f00d")
          two_calls
          (record { files = two_files; sent = [] })).1.sent
        (λ path. none))
      two_calls
      left_calls
unfolding upload_bodies redact_body_bytes mask_all mask_one replace replace_from longest_first
    insert encode encode_point is_surrogate storing
upload_bodies-AreResolved_example =
    upload_bodies-AreResolved directory base_name (λ key body. true) (codes "key" ∷ [])
      (codes "f00d") (λ path. none) two_files two_calls left_calls
      ((tt, (refl, tt)), (tt, (tt, tt))) refl

-- The same calls over a bucket.
abbrev bucket : BodyStorage
bucket = s3_storage (record { bucket = codes "bodies"; prefix = [] }) refl

bucket_run :
    (upload_bodies
      (storing bucket base_name (λ key body. true))
      (codes "key" ∷ [])
      (codes "f00d")
      two_calls
      (record { files = two_files; sent = [] })).0
    ≡ ok (
        record { response = some (some (codes "s3://bodies/f00d/a.json")) }
        ∷ record { response = none }
        ∷ record { response = some (some (codes "/tmp/b.json")) }
        ∷ [])
unfolding upload_bodies redact_body_bytes mask_all mask_one replace replace_from longest_first
    insert encode encode_point is_surrogate storing upload full_key
bucket_run = refl

-- What the first call's URI leads to is masked.
masked_body :
    bucket.fetch (codes "s3://bodies/f00d/a.json") (
      replay bucket
        (upload_bodies
          (storing bucket base_name (λ key body. true))
          (codes "key" ∷ [])
          (codes "f00d")
          two_calls
          (record { files = two_files; sent = [] })).1.sent
        (λ b k. none))
    ≡ some (codes "a " ++ mask)
unfolding upload_bodies redact_body_bytes mask_all mask_one replace replace_from longest_first
    insert encode encode_point is_surrogate storing upload full_key put_object fetch_object
    download_place parse_uri split_once
masked_body = refl
