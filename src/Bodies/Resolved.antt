-- ===== src/Bodies/Resolved.antt =====
-- The references that `_upload_bodies` leaves lead to the masked bodies.
use tracedown_probe_agent.Base.{
  ℕ, ◌≡◌, refl, ◌∙◌, subst, Bool, Option, none, some, List, [], ◌∷◌, Text,
}
use tracedown_probe_agent.Result.{Result, ok, err, ok_injective}
use tracedown_probe_agent.Bodies.{Call, State, UploadError, upload_bodies, proceed, onto}
use tracedown_probe_agent.Bodies.Replayed.{
  storing, replay, key_at, AllAside, FirstApart, IsApart, IsStored, IsResolved, AreResolved,
  upload_bodies_other,
}
use tracedown_probe_agent.Bodies.Left.{
  IsFresh, AllFresh, here_outside, uploads, loop, final, Resolved, upload_call-Resolved,
  upload_call_fresh,
}
use tracedown_probe_agent.Storage.Contract.{BodyStorage}

module _ (s : BodyStorage) (name : Text → Text) (secrets : List Text) (run_prefix : Text) where
  module _ (takes : Text → List ℕ → Bool) (initial : s.Store) (files : Text → Option (List ℕ)) where
    -- What is stored stays stored behind the uploads s name secrets run_prefix takes initial files to other places.
    IsStored-moves :
        (path : Text) (file : Option (List ℕ)) (response : Option (Option Text)) (st : State)
        (cs : List Call)
        → AllAside s name secrets run_prefix (key_at s name secrets run_prefix path) cs
        → IsStored s name secrets run_prefix path file
            (final s name secrets run_prefix takes initial files st)
            response
        → IsStored s name secrets run_prefix path file
            (final s name secrets run_prefix takes initial files
              (loop s name secrets run_prefix takes initial files cs st).1)
            response
    IsStored-moves path none response st cs aside h = h
    IsStored-moves path (some body) response st cs aside (out, refers, masked, found) = (
      out,
      refers,
      masked,
      upload_bodies_other s name secrets run_prefix takes initial
            (key_at s name secrets run_prefix path) cs st aside
          ∙ found,
    )

    IsResolved-moves :
        (response left : Option (Option Text)) (st : State) (cs : List Call)
        → FirstApart s name secrets run_prefix response cs
        → IsResolved s name secrets run_prefix files
            (final s name secrets run_prefix takes initial files st)
            response
            left
        → IsResolved s name secrets run_prefix files
            (final s name secrets run_prefix takes initial files
              (loop s name secrets run_prefix takes initial files cs st).1)
            response
            left
    IsResolved-moves none left st cs aside h = h
    IsResolved-moves (some none) left st cs aside h = h
    IsResolved-moves (some (some path)) left st cs aside h =
        IsStored-moves path (files path) left st cs aside h

    abbrev AllResolved : List Call → Result UploadError (List Call) × State → Type 0
    AllResolved cs (err e, st) = Unit
    AllResolved cs (ok ds, st) =
        AreResolved s name secrets run_prefix files
          (final s name secrets run_prefix takes initial files st) cs ds

    onto-AllResolved :
        (c d : Call) (cs : List Call) (r : Result UploadError (List Call) × State)
        → IsResolved s name secrets run_prefix files
            (final s name secrets run_prefix takes initial files r.1)
            c.response
            d.response
        → AllResolved cs r
        → AllResolved (c ∷ cs) (
            onto
              (here_outside s name secrets run_prefix takes initial files)
              secrets
              run_prefix
              d
              r)
    onto-AllResolved c d cs (err e, st) h hs = tt
    onto-AllResolved c d cs (ok ds, st) h hs = (h, hs)

    proceed-AllResolved :
        (c : Call) (cs : List Call) (r : Result UploadError Call) (st : State)
        → FirstApart s name secrets run_prefix c.response cs
        → Resolved s name secrets run_prefix takes initial files c.response (r, st)
        → AllResolved cs (loop s name secrets run_prefix takes initial files cs st)
        → AllResolved (c ∷ cs) (
            proceed
              (here_outside s name secrets run_prefix takes initial files)
              secrets
              run_prefix
              (loop s name secrets run_prefix takes initial files cs)
              (r, st))
    proceed-AllResolved c cs (err e) st aside h hs = tt
    proceed-AllResolved c cs (ok d) st aside h hs =
        onto-AllResolved c d cs (loop s name secrets run_prefix takes initial files cs st)
          (IsResolved-moves c.response d.response st cs aside h) hs

    loop-AllResolved :
        (cs : List Call) (st : State)
        → IsApart s name secrets run_prefix cs
        → AllFresh s name secrets run_prefix files st cs
        → AllResolved cs (loop s name secrets run_prefix takes initial files cs st)
    unfolding upload_bodies
    loop-AllResolved [] st apart fresh = tt
    loop-AllResolved (c ∷ cs) st (first, apart) (now, fresh) =
        let (r, after) = uploads s name secrets run_prefix takes initial files c.response st in
        proceed-AllResolved c cs r after first
          (upload_call-Resolved s name secrets run_prefix takes initial files c.response st now)
          (loop-AllResolved cs after apart (
            upload_call_fresh s name secrets run_prefix takes initial files c.response st cs first
              fresh))

    AllFresh-files :
        (cs : List Call)
        → AllFresh s name secrets run_prefix files (record { files = files; sent = [] }) cs
    AllFresh-files [] = tt
    AllFresh-files (c ∷ cs) = (IsFresh-files c.response, AllFresh-files cs)
      where
        IsFresh-files :
            (response : Option (Option Text))
            → IsFresh s name secrets run_prefix files (record { files = files; sent = [] }) response
        IsFresh-files none = tt
        IsFresh-files (some none) = tt
        IsFresh-files (some (some path)) = refl

    returned_resolved :
        (cs ds : List Call) (r : Result UploadError (List Call) × State)
        → r.0 ≡ ok ds
        → AllResolved cs r
        → AreResolved s name secrets run_prefix files
            (final s name secrets run_prefix takes initial files r.1)
            cs
            ds
    returned_resolved cs ds (err e, st) returned h = cc returned
    returned_resolved cs ds (ok es, st) returned h =
        subst
          (λ x.
            AreResolved s name secrets run_prefix files
              (final s name secrets run_prefix takes initial files st) cs x)
          (ok_injective returned) h

-- Over any storage that keeps the contract: where the upload of the bodies raises nothing and the
-- files of the calls go to places that are pairwise distinct, there are as many calls as before, and
-- each is left with its response; one whose file was there refers to the URI of its key, at which
-- the storage, after all the uploads of the run, finds the masked bytes of that file; one whose file
-- was not there keeps its path.
pub upload_bodies-AreResolved :
    (s : BodyStorage) (name : Text → Text) (takes : Text → List ℕ → Bool) (secrets : List Text)
    (run_prefix : Text) (initial : s.Store) (files : Text → Option (List ℕ))
    (calls left : List Call)
    → IsApart s name secrets run_prefix calls
    → (upload_bodies
        (storing s name takes)
        secrets
        run_prefix
        calls
        (record { files = files; sent = [] })).0
      ≡ ok left
    → AreResolved s name secrets run_prefix files
        (replay s
          (upload_bodies
            (storing s name takes)
            secrets
            run_prefix
            calls
            (record { files = files; sent = [] })).1.sent
          initial)
        calls
        left
upload_bodies-AreResolved s name takes secrets run_prefix initial files calls left apart returned =
    returned_resolved s name secrets run_prefix takes initial files calls left
      (upload_bodies (storing s name takes) secrets run_prefix calls
        (record { files = files; sent = [] }))
      returned
      (loop-AllResolved s name secrets run_prefix takes initial files calls
        (record { files = files; sent = [] }) apart
        (AllFresh-files s name secrets run_prefix takes initial files calls))
