-- ===== src/Storage/Kept.antt =====
-- Both storages keep the contract.
use tracedown_probe_agent.Base.{
  ℕ, ◌≡◌, refl, sym, ap, ◌∙◌, true, false, not, ◌&&◌, Option, none, some, List, ◌++◌, Text, all,
  ◌==◌, if◌then◌else◌,
}
use tracedown_probe_agent.Bytes.{text_eq, text_eq_refl}
use tracedown_probe_agent.Storage.{S3Storage, upload, full_key, download_place}
use tracedown_probe_agent.Storage.Addressed.{parse_uri-upload}
use tracedown_probe_agent.Storage.Contract.{BodyStorage}
use tracedown_probe_agent.Storage.Directory.{
  Paths, IsNormal, Files, file_scheme, copy_onto, strip_scheme, upload_file, download_path,
  fetch_file,
}

-- What is read at a path that exists.
abbrev opened : Files → Option Text → Option (List ℕ)
opened files none = none
opened files (some path) = files path

content_at_lem :
    (files : Files) (path : Text) (o : Option (List ℕ))
    → files path ≡ o
    → opened files (elim o as (λ x. Option Text) [ none ↦ none | some body ↦ some path ]) ≡ o
content_at_lem files path none e = refl
content_at_lem files path (some body) e = e

abbrev content_at : Files → Text → Option (List ℕ)
content_at files path =
    opened files (elim (files path) as (λ x. Option Text) [ none ↦ none | some body ↦ some path ])

module _ (paths : Paths) (normal : IsNormal paths) (root : Text) where
  fetch_lem :
      (key : Text) (files : Files)
      → fetch_file paths root (file_scheme ++ paths.join root key) files
        ≡ files (paths.join root key)
  unfolding fetch_file download_path strip_scheme
  fetch_lem key files =
      ap (content_at files) (normal root key)
      ∙ content_at_lem files (paths.join root key) (files (paths.join root key)) refl

  -- An upload is read back by its URI.
  pub fetch_file-upload_file :
      (key : Text) (body : List ℕ) (files : Files)
      → fetch_file paths root
          (file_scheme ++ paths.join root key)
          (upload_file paths root key body files).1
        ≡ some body
  unfolding upload_file copy_onto
  fetch_file-upload_file key body files =
      fetch_lem key (upload_file paths root key body files).1
      ∙ ap (λ b. if b then some body else files (paths.join root key))
          (text_eq_refl (paths.join root key))

  pub fetch_file_other :
      (other key : Text) (body : List ℕ) (files : Files)
      → text_eq (paths.join root other) (paths.join root key) ≡ false
      → fetch_file paths root
          (file_scheme ++ paths.join root other)
          (upload_file paths root key body files).1
        ≡ fetch_file paths root (file_scheme ++ paths.join root other) files
  unfolding upload_file copy_onto
  fetch_file_other other key body files apart =
      fetch_lem other (upload_file paths root key body files).1
      ∙ ap (λ b. if b then some body else files (paths.join root other)) apart
      ∙ sym (fetch_lem other files)

  -- The storage in a directory, where `pathlib` leaves a joined path as it is.
  abbrev pub filesystem_storage : BodyStorage
  filesystem_storage = record {
    Store = Files;
    place = paths.join root;
    uri = λ key. file_scheme ++ paths.join root key;
    upload = λ key body files. (upload_file paths root key body files).1;
    fetch = fetch_file paths root;
    fetch-upload = fetch_file-upload_file;
    fetch_other = fetch_file_other;
  }

-- The objects of a client, by bucket and key.
abbrev pub Objects : Type 0
Objects = Text → Text → Option (List ℕ)

module _ (s : S3Storage) (flat : all (λ c. not (c == b'/')) s.bucket ≡ true) where
  -- `upload_file` of boto3's client, at the place that `upload` gives it.
  unfoldable pub put_object : Text → List ℕ → Objects → Objects
  put_object key body objects bucket k =
      if text_eq bucket s.bucket && text_eq k (full_key s key) then some body else objects bucket k

  abbrev object_at : Objects → Option (Text × Text) → Option (List ℕ)
  object_at objects none = none
  object_at objects (some (bucket, key)) = objects bucket key

  unfoldable pub fetch_object : Text → Objects → Option (List ℕ)
  unfolding download_place
  fetch_object uri objects = object_at objects (download_place uri)

  object_lem :
      (key : Text) (objects : Objects)
      → fetch_object (upload s key).0 objects ≡ objects s.bucket (full_key s key)
  unfolding fetch_object download_place upload
  object_lem key objects = ap (object_at objects) (parse_uri-upload s key flat)

  pub fetch_object-put_object :
      (key : Text) (body : List ℕ) (objects : Objects)
      → fetch_object (upload s key).0 (put_object key body objects) ≡ some body
  unfolding put_object
  fetch_object-put_object key body objects =
      object_lem key (put_object key body objects)
      ∙ rw (text_eq_refl s.bucket, text_eq_refl (full_key s key)) refl

  pub fetch_object_other :
      (other key : Text) (body : List ℕ) (objects : Objects)
      → text_eq (full_key s other) (full_key s key) ≡ false
      → fetch_object (upload s other).0 (put_object key body objects)
        ≡ fetch_object (upload s other).0 objects
  unfolding put_object
  fetch_object_other other key body objects apart =
      object_lem other (put_object key body objects)
      ∙ rw (text_eq_refl s.bucket, apart) refl
      ∙ sym (object_lem other objects)

  -- The storage in a bucket whose name holds no slash.
  abbrev pub s3_storage : BodyStorage
  s3_storage = record {
    Store = Objects;
    place = full_key s;
    uri = λ key. (upload s key).0;
    upload = put_object;
    fetch = fetch_object;
    fetch-upload = fetch_object-put_object;
    fetch_other = fetch_object_other;
  }
