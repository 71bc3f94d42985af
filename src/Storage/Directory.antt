-- ===== src/Storage/Directory.antt =====
-- src/storage/filesystem.py: bodies in a directory. `pathlib` is outside: the path of a text as a
-- text, and the path of a key below the root; a file system is the content of each path.
use tracedown_probe_agent.Base.{ℕ, ◌≡◌, Option, none, some, List, ◌++◌, Text, codes, if◌then◌else◌}
use tracedown_probe_agent.Bytes.{text_eq}
use tracedown_probe_agent.Storage.{remove_prefix}

pub record Paths : Type 0 where
  pub join : Text → Text → Text
  pub normal : Text → Text

-- A joined path is as `pathlib` writes it.
abbrev pub IsNormal : Paths → Type 0
IsNormal paths = (root key : Text) → paths.normal (paths.join root key) ≡ paths.join root key

abbrev pub Files : Type 0
Files = Text → Option (List ℕ)

-- `SCHEME`
abbrev pub file_scheme : Text
file_scheme = codes "file://"

-- `shutil.copy2` of a file with these bytes onto a path
unfoldable pub copy_onto : Text → List ℕ → Files → Files
copy_onto path body files p = if text_eq p path then some body else files p

-- `_strip_scheme`
unfoldable pub strip_scheme : Text → Text
strip_scheme uri = remove_prefix file_scheme uri

module _ (paths : Paths) (root : Text) where
  -- `FilesystemStorage.upload`: the URI and the files
  unfoldable pub upload_file : Text → List ℕ → Files → Text × Files
  unfolding copy_onto
  upload_file key body files =
      let dest = paths.join root key in (file_scheme ++ dest, copy_onto dest body files)

  -- `FilesystemStorage.download_url`
  unfoldable pub download_path : Text → Files → Option Text
  unfolding strip_scheme
  download_path uri files =
      let path = paths.normal (strip_scheme uri) in
      elim (files path) [ none ↦ none | some body ↦ some path ]

  -- The content of the file that it names.
  unfoldable pub fetch_file : Text → Files → Option (List ℕ)
  unfolding download_path
  fetch_file uri files = elim (download_path uri files) [ none ↦ none | some path ↦ files path ]
