-- ===== src/Bodies/Left.antt =====
-- One call of the loop in `_upload_bodies`: what it refers to, and which files stay.
use tracedown_probe_agent.Base.{
  ℕ, ◌≡◌, refl, sym, ap, ◌∙◌, subst, Bool, true, false, Option, none, some, List, [], ◌∷◌, Text,
  All, if◌then◌else◌,
}
use tracedown_probe_agent.Bytes.{text_eq, text_eq_sound, text_eq_refl}
use tracedown_probe_agent.Result.{Result, ok, err}
use tracedown_probe_agent.Redact.{EncodeError, redact_body_bytes}
use tracedown_probe_agent.Bodies.{
  Call, State, UploadError, Outside, store, store_masked, upload_file, upload_call, write_bytes,
  referred,
}
use tracedown_probe_agent.Bodies.Replayed.{
  storing, replay_last, key_at, IsAside, AllAside, FirstApart, IsStored, IsResolved, outside, one,
  whole, kept,
}
use tracedown_probe_agent.Storage.Contract.{BodyStorage}

module _ (s : BodyStorage) (name : Text → Text) (secrets : List Text) (run_prefix : Text) where
  -- The file of a call is as it was at first.
  abbrev pub IsFresh : (Text → Option (List ℕ)) → State → Option (Option Text) → Type 0
  IsFresh files st none = Unit
  IsFresh files st (some none) = Unit
  IsFresh files st (some (some path)) = st.files path ≡ files path

  abbrev pub AllFresh : (Text → Option (List ℕ)) → State → List Call → Type 0
  AllFresh files st = All (λ c. IsFresh files st c.response)

  abbrev place_of : Text → Text
  place_of path = s.place (key_at s name secrets run_prefix path)

  places_differ :
      (path other : Text) (b : Bool)
      → text_eq (place_of path) (place_of other) ≡ false
      → text_eq path other ≡ b
      → b ≡ false
  places_differ path other false aside e = refl
  places_differ path other true aside e =
      sym (text_eq_refl (place_of path))
      ∙ ap (λ q. text_eq (place_of path) (place_of q)) (text_eq_sound path other e)
      ∙ aside

  module _ (takes : Text → List ℕ → Bool) (initial : s.Store) (files : Text → Option (List ℕ)) where
    abbrev pub here_outside : Outside
    here_outside = outside s name secrets run_prefix takes initial

    abbrev pub uploads : Option (Option Text) → State → Result UploadError Call × State
    uploads = one s name secrets run_prefix takes initial

    abbrev pub loop : List Call → State → Result UploadError (List Call) × State
    loop = whole s name secrets run_prefix takes initial

    abbrev pub final : State → s.Store
    final = kept s name secrets run_prefix takes initial

    store_masked_files :
        (path other : Text) (r : Result EncodeError (List ℕ)) (st : State)
        → text_eq path other ≡ false
        → (store_masked here_outside secrets run_prefix path r st).1.files other ≡ st.files other
    unfolding store_masked store
    store_masked_files path other (err e) st apart = refl
    store_masked_files path other (ok out) st apart =
        ap (λ b. if b then some out else st.files other) apart

    upload_file_files :
        (path other : Text) (file : Option (List ℕ)) (st : State)
        → text_eq path other ≡ false
        → (upload_file here_outside secrets run_prefix path file st).1.files other ≡ st.files other
    unfolding upload_file
    upload_file_files path other none st apart = refl
    upload_file_files path other (some body) st apart =
        store_masked_files path other (redact_body_bytes body secrets) st apart

    upload_file_fresh :
        (path : Text) (file : Option (List ℕ)) (st : State) (cs : List Call)
        → AllAside s name secrets run_prefix (key_at s name secrets run_prefix path) cs
        → AllFresh files st cs
        → AllFresh files (upload_file here_outside secrets run_prefix path file st).1 cs
    upload_file_fresh path file st [] aside fresh = tt
    upload_file_fresh path file st (c ∷ cs) (aside, asides) (fresh, rest) =
        (one_fresh c.response aside fresh, upload_file_fresh path file st cs asides rest)
      where
        one_fresh :
            (response : Option (Option Text))
            → IsAside s name secrets run_prefix (key_at s name secrets run_prefix path) response
            → IsFresh files st response
            → IsFresh files (upload_file here_outside secrets run_prefix path file st).1 response
        one_fresh none a f = tt
        one_fresh (some none) a f = tt
        one_fresh (some (some other)) a f =
            upload_file_files path other file st
              (places_differ path other (text_eq path other) a refl)
            ∙ f

    pub upload_call_fresh :
        (response : Option (Option Text)) (st : State) (cs : List Call)
        → FirstApart s name secrets run_prefix response cs
        → AllFresh files st cs
        → AllFresh files (uploads response st).1 cs
    unfolding upload_call
    upload_call_fresh none st cs aside fresh = fresh
    upload_call_fresh (some none) st cs aside fresh = fresh
    upload_call_fresh (some (some path)) st cs aside fresh =
        upload_file_fresh path (st.files path) st cs aside fresh

    -- What one call is left with, where it did not raise.
    abbrev Stored : Text → Option (List ℕ) → Result UploadError Call × State → Type 0
    Stored path file (err e, st) = Unit
    Stored path file (ok c, st) = IsStored s name secrets run_prefix path file (final st) c.response

    abbrev pub Resolved : Option (Option Text) → Result UploadError Call × State → Type 0
    Resolved response (err e, st) = Unit
    Resolved response (ok c, st) =
        IsResolved s name secrets run_prefix files (final st) response c.response

    referred-Stored :
        (path : Text) (body out : List ℕ) (taken : Bool) (st : State)
        → redact_body_bytes body secrets ≡ ok out
        → s.fetch (s.uri (key_at s name secrets run_prefix path)) (final st) ≡ some out
        → Stored path (some body) (
          referred here_outside secrets run_prefix
              (if taken then some (s.uri (key_at s name secrets run_prefix path)) else none),
          st,
        )
    referred-Stored path body out false st masked found = tt
    referred-Stored path body out true st masked found = (out, refl, masked, found)

    store_masked-Stored :
        (path : Text) (body : List ℕ) (r : Result EncodeError (List ℕ)) (st : State)
        → redact_body_bytes body secrets ≡ r
        → Stored path (some body) (store_masked here_outside secrets run_prefix path r st)
    unfolding store_masked store storing
    store_masked-Stored path body (err e) st masked = tt
    store_masked-Stored path body (ok out) st masked =
        let key = key_at s name secrets run_prefix path in
        referred-Stored path body out (takes key out)
          (store here_outside secrets run_prefix path out
            (write_bytes here_outside secrets run_prefix path out st)).1
          masked
          (ap (s.fetch (s.uri key)) (replay_last s st.sent key out initial)
            ∙ s.fetch-upload key out (final st))

    upload_file-Stored :
        (path : Text) (file : Option (List ℕ)) (st : State)
        → Stored path file (upload_file here_outside secrets run_prefix path file st)
    unfolding upload_file
    upload_file-Stored path none st = refl
    upload_file-Stored path (some body) st =
        store_masked-Stored path body (redact_body_bytes body secrets) st refl

    Stored-Resolved :
        (path : Text) (r : Result UploadError Call × State)
        → Stored path (files path) r
        → Resolved (some (some path)) r
    Stored-Resolved path (err e, st) h = h
    Stored-Resolved path (ok c, st) h = h

    pub upload_call-Resolved :
        (response : Option (Option Text)) (st : State)
        → IsFresh files st response
        → Resolved response (uploads response st)
    unfolding upload_call
    upload_call-Resolved none st fresh = refl
    upload_call-Resolved (some none) st fresh = refl
    upload_call-Resolved (some (some path)) st fresh =
        let r = upload_file here_outside secrets run_prefix path (st.files path) st in
        Stored-Resolved path r
          (subst (λ file. Stored path file r) fresh (upload_file-Stored path (st.files path) st))
