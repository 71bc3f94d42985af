-- ===== src/Bodies.antt =====
-- src/services/executor.py, `_upload_bodies`: the saved bodies of a run are masked and handed to the
-- storage. A file is its bytes; the storage and the name of a path are outside.
pub mod Hidden
pub mod Resolved
pub mod Left
pub mod Replayed
mod Tests
use tracedown_probe_agent.Base.{
  ℕ, Bool, true, false, Option, none, some, List, [], ◌∷◌, ◌++◌, Text, if◌then◌else◌,
}
use tracedown_probe_agent.Bytes.{text_eq}
use tracedown_probe_agent.Result.{Result, ok, err}
use tracedown_probe_agent.Redact.{EncodeError, redact_body_bytes}

-- `call.get("response")` with its `bodyPath`; none where there is none.
pub record Call : Type 0 where
  pub response : Option (Option Text)

pub record State : Type 0 where
  pub files : Text → Option (List ℕ)
  -- what was handed to the storage: the key and the bytes of the file at that time
  pub sent : List (Text × List ℕ)

pub data UploadError : Type 0 where
  unicode_encode_error upload_failed : UploadError

pub record Outside : Type 0 where
  -- `Path(path).name`
  pub name : Text → Text
  -- `_storage.upload` of a key and a file's bytes: the reference, none where it raises
  pub upload : Text → List ℕ → Option Text

module _ (o : Outside) (secrets : List Text) (run_prefix : Text) where
  abbrev key_of : Text → Text
  key_of path = run_prefix ++ (b'/' ∷ o.name path)

  abbrev pub referred : Option Text → Result UploadError Call
  referred none = err upload_failed
  referred (some ref) = ok (record { response = some (some ref) })

  -- `_storage.upload(local, key)`
  unfoldable pub store : Text → List ℕ → State → Result UploadError Call × State
  store path bytes st = (
    referred (o.upload (key_of path) bytes),
    record st { sent = st.sent ++ (key_of path, bytes) ∷ [] },
  )

  -- `local.write_bytes(redacted)`
  abbrev write_bytes : Text → List ℕ → State → State
  write_bytes path bytes st = record st {
    files = λ p. if text_eq path p then some bytes else st.files p;
  }

  -- The file is written where masking changed its bytes, and so holds the masked ones either way.
  unfoldable pub store_masked :
      Text → Result EncodeError (List ℕ) → State → Result UploadError Call × State
  unfolding store
  store_masked path (err e) st = (err unicode_encode_error, st)
  store_masked path (ok redacted) st = store path redacted (write_bytes path redacted st)

  -- Without secrets masking leaves the bytes as they are.
  unfoldable pub upload_file : Text → Option (List ℕ) → State → Result UploadError Call × State
  unfolding store_masked
  upload_file path none st = (ok (record { response = some (some path) }), st)
  upload_file path (some original) st = store_masked path (redact_body_bytes original secrets) st

  -- The body of the loop.
  unfoldable pub upload_call : Option (Option Text) → State → Result UploadError Call × State
  unfolding upload_file
  upload_call none st = (ok (record { response = none }), st)
  upload_call (some none) st = (ok (record { response = some none }), st)
  upload_call (some (some path)) st = upload_file path (st.files path) st

  abbrev onto :
      Call → Result UploadError (List Call) × State → Result UploadError (List Call) × State
  onto c (err e, st) = (err e, st)
  onto c (ok cs, st) = (ok (c ∷ cs), st)

  abbrev proceed :
      (State → Result UploadError (List Call) × State)
      → Result UploadError Call × State
      → Result UploadError (List Call) × State
  proceed rest (err e, st) = (err e, st)
  proceed rest (ok c, st) = onto c (rest st)

  -- `_upload_bodies`: the calls with their references, and the files and uploads.
  unfoldable pub upload_bodies : List Call → State → Result UploadError (List Call) × State
  unfolding upload_call
  upload_bodies [] st = (ok [], st)
  upload_bodies (c ∷ cs) st = proceed (upload_bodies cs) (upload_call c.response st)
