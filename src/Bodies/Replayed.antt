-- ===== src/Bodies/Replayed.antt =====
-- src/services/executor.py, `_upload_bodies` as a client of src/storage/base.py: what the rewritten
-- references lead to, for any storage that keeps the contract.
use tracedown_probe_agent.Base.{
  ℕ, ◌≡◌, refl, ap, ◌∙◌, Bool, false, Option, none, some, List, [], ◌∷◌, ◌++◌, Text, All,
  if◌then◌else◌,
}
use tracedown_probe_agent.Bytes.{text_eq}
use tracedown_probe_agent.Result.{Result, ok, err}
use tracedown_probe_agent.Redact.{EncodeError, redact_body_bytes}
use tracedown_probe_agent.Bodies.{
  Call, State, UploadError, Outside, store, store_masked, upload_file, upload_call, upload_bodies,
  proceed, onto, write_bytes,
}
use tracedown_probe_agent.Storage.Contract.{BodyStorage}

-- The storage as the run sees it: an upload either raises or returns the URI of its key.
unfoldable pub storing : BodyStorage → (Text → Text) → (Text → List ℕ → Bool) → Outside
storing s name takes = record {
  name = name;
  upload = λ key body. if takes key body then some (s.uri key) else none;
}

-- The store after the uploads of a run.
abbrev pub replay : (s : BodyStorage) → List (Text × List ℕ) → s.Store → s.Store
replay s [] st = st
replay s ((key, body) ∷ sent) st = replay s sent (s.upload key body st)

pub replay_last :
    (s : BodyStorage) (sent : List (Text × List ℕ)) (key : Text) (body : List ℕ) (st : s.Store)
    → replay s (sent ++ (key, body) ∷ []) st ≡ s.upload key body (replay s sent st)
replay_last s [] key body st = refl
replay_last s ((k, b) ∷ sent) key body st = replay_last s sent key body (s.upload k b st)

module _ (s : BodyStorage) (name : Text → Text) (secrets : List Text) (run_prefix : Text) where
  abbrev pub key_at : Text → Text
  key_at path = run_prefix ++ (b'/' ∷ name path)

  -- A call's file would go to another place than the key.
  abbrev pub IsAside : Text → Option (Option Text) → Type 0
  IsAside key none = Unit
  IsAside key (some none) = Unit
  IsAside key (some (some path)) = text_eq (s.place key) (s.place (key_at path)) ≡ false

  abbrev pub AllAside : Text → List Call → Type 0
  AllAside key = All (λ c. IsAside key c.response)

  abbrev pub FirstApart : Option (Option Text) → List Call → Type 0
  FirstApart none cs = Unit
  FirstApart (some none) cs = Unit
  FirstApart (some (some path)) cs = AllAside (key_at path) cs

  -- No two calls' files go to one place.
  abbrev pub IsApart : List Call → Type 0
  IsApart [] = Unit
  IsApart (c ∷ cs) = FirstApart c.response cs × IsApart cs

  -- A file that is there is referred to by what leads to its masked bytes.
  abbrev pub IsStored : Text → Option (List ℕ) → s.Store → Option (Option Text) → Type 0
  IsStored path none final response = response ≡ some (some path)
  IsStored path (some body) final response =
      (out : List ℕ) × (response ≡ some (some (s.uri (key_at path))))
      × (redact_body_bytes body secrets ≡ ok out)
      × (s.fetch (s.uri (key_at path)) final ≡ some out)

  abbrev pub IsResolved :
      (Text → Option (List ℕ)) → s.Store → Option (Option Text) → Option (Option Text) → Type 0
  IsResolved files final none response = response ≡ none
  IsResolved files final (some none) response = response ≡ some none
  IsResolved files final (some (some path)) response = IsStored path (files path) final response

  -- Call by call, as many as there were.
  abbrev pub AreResolved : (Text → Option (List ℕ)) → s.Store → List Call → List Call → Type 0
  AreResolved files final [] [] = Unit
  AreResolved files final [] (d ∷ ds) = ⊥
  AreResolved files final (c ∷ cs) [] = ⊥
  AreResolved files final (c ∷ cs) (d ∷ ds) =
      IsResolved files final c.response d.response × AreResolved files final cs ds

  module _ (takes : Text → List ℕ → Bool) (initial : s.Store) where
    abbrev pub outside : Outside
    outside = storing s name takes

    abbrev pub one : Option (Option Text) → State → Result UploadError Call × State
    one = upload_call outside secrets run_prefix

    abbrev pub whole : List Call → State → Result UploadError (List Call) × State
    whole = upload_bodies outside secrets run_prefix

    abbrev pub kept : State → s.Store
    kept st = replay s st.sent initial

    -- What stands elsewhere is found as before.
    store_other :
        (key path : Text) (out : List ℕ) (st : State)
        → text_eq (s.place key) (s.place (key_at path)) ≡ false
        → s.fetch (s.uri key) (kept (store outside secrets run_prefix path out st).1)
          ≡ s.fetch (s.uri key) (kept st)
    unfolding store storing
    store_other key path out st aside =
        ap (s.fetch (s.uri key)) (replay_last s st.sent (key_at path) out initial)
        ∙ s.fetch_other key (key_at path) out (kept st) aside

    store_masked_other :
        (key path : Text) (r : Result EncodeError (List ℕ)) (st : State)
        → text_eq (s.place key) (s.place (key_at path)) ≡ false
        → s.fetch (s.uri key) (kept (store_masked outside secrets run_prefix path r st).1)
          ≡ s.fetch (s.uri key) (kept st)
    unfolding store_masked
    store_masked_other key path (err e) st aside = refl
    store_masked_other key path (ok out) st aside =
        store_other key path out (write_bytes outside secrets run_prefix path out st) aside

    upload_file_other :
        (key path : Text) (file : Option (List ℕ)) (st : State)
        → text_eq (s.place key) (s.place (key_at path)) ≡ false
        → s.fetch (s.uri key) (kept (upload_file outside secrets run_prefix path file st).1)
          ≡ s.fetch (s.uri key) (kept st)
    unfolding upload_file
    upload_file_other key path none st aside = refl
    upload_file_other key path (some body) st aside =
        store_masked_other key path (redact_body_bytes body secrets) st aside

    upload_call_other :
        (key : Text) (response : Option (Option Text)) (st : State)
        → IsAside key response
        → s.fetch (s.uri key) (kept (one response st).1) ≡ s.fetch (s.uri key) (kept st)
    unfolding upload_call
    upload_call_other key none st aside = refl
    upload_call_other key (some none) st aside = refl
    upload_call_other key (some (some path)) st aside =
        upload_file_other key path (st.files path) st aside

    pub onto_other :
        (key : Text) (c : Call) (r : Result UploadError (List Call) × State)
        → (onto outside secrets run_prefix c r).1 ≡ r.1
    onto_other key c (err e, st) = refl
    onto_other key c (ok cs, st) = refl

    proceed_other :
        (key : Text) (cs : List Call) (r : Result UploadError Call) (st : State)
        → ((after : State)
            → s.fetch (s.uri key) (kept (whole cs after).1) ≡ s.fetch (s.uri key) (kept after))
        → s.fetch (s.uri key) (kept (proceed outside secrets run_prefix (whole cs) (r, st)).1)
          ≡ s.fetch (s.uri key) (kept st)
    proceed_other key cs (err e) st rest = refl
    proceed_other key cs (ok c) st rest =
        ap (λ after. s.fetch (s.uri key) (kept after)) (onto_other key c (whole cs st)) ∙ rest st

    pub upload_bodies_other :
        (key : Text) (cs : List Call) (st : State)
        → AllAside key cs
        → s.fetch (s.uri key) (kept (whole cs st).1) ≡ s.fetch (s.uri key) (kept st)
    unfolding upload_bodies
    upload_bodies_other key [] st aside = refl
    upload_bodies_other key (c ∷ cs) st (aside, asides) =
        let (r, after) = one c.response st in
        proceed_other key cs r after (λ next. upload_bodies_other key cs next asides)
        ∙ upload_call_other key c.response st aside
