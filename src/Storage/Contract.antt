-- ===== src/Storage/Contract.antt =====
-- src/storage/base.py: what the upload of bodies may expect of a storage.
use tracedown_probe_agent.Base.{ℕ, ◌≡◌, false, Option, some, List, Text}
use tracedown_probe_agent.Bytes.{text_eq}

-- `BodyStorage` over a store of bodies: an upload of bytes under a key that does not raise, the URI
-- that it returns, and the content to which `download_url` of a URI leads, none where there is none.
-- An upload is found by its URI, and leaves those at other places as they were.
pub record BodyStorage : Type 1 where
  pub Store : Type 0
  pub place : Text → Text
  pub uri : Text → Text
  pub upload : Text → List ℕ → Store → Store
  pub fetch : Text → Store → Option (List ℕ)
  pub fetch-upload :
      (key : Text) (body : List ℕ) (st : Store) → fetch (uri key) (upload key body st) ≡ some body
  pub fetch_other :
      (other key : Text) (body : List ℕ) (st : Store)
      → text_eq (place other) (place key) ≡ false
      → fetch (uri other) (upload key body st) ≡ fetch (uri other) st
