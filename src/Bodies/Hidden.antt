-- ===== src/Bodies/Hidden.antt =====
-- No secret of the run leaves with a body.
use tracedown_probe_agent.Base.{
  ℕ, ◌≡◌, refl, true, false, Option, none, some, List, [], ◌∷◌, ◌++◌, Text, All, In,
}
use tracedown_probe_agent.Bytes.{contains, disjoint}
use tracedown_probe_agent.Result.{Result, ok, err}
use tracedown_probe_agent.Redact.{EncodeError, encode, mask, redact_body_bytes}
use tracedown_probe_agent.Redact.Masked.{redact_body_bytes_masks}
use tracedown_probe_agent.Bodies.{
  Call, State, UploadError, Outside, store, store_masked, upload_file, upload_call, upload_bodies,
  proceed, onto, key_of, write_bytes,
}

-- The bytes stand in no body that was handed to the storage.
abbrev pub IsHidden : List ℕ → State → Type 0
IsHidden n st = All (λ (u : Text × List ℕ). contains n u.1 ≡ false) st.sent

All-snoc {ℓ κ} :
    {A : Type ℓ} (P : A → Type κ) (xs : List A) (x : A) → All P xs → P x → All P (xs ++ x ∷ [])
All-snoc P [] x h p = (p, tt)
All-snoc P (y ∷ ys) x h p = (h.0, All-snoc P ys x h.1 p)

module _ (o : Outside) (run_prefix : Text) (n : List ℕ) where
  store-IsHidden :
      (secrets : List Text) (path : Text) (bytes : List ℕ) (st : State)
      → contains n bytes ≡ false
      → IsHidden n st
      → IsHidden n (store o secrets run_prefix path bytes st).1
  unfolding store
  store-IsHidden secrets path bytes st clean h =
      All-snoc (λ (u : Text × List ℕ). contains n u.1 ≡ false) st.sent
        (key_of o secrets run_prefix path, bytes) h clean

  -- Masking clears the bytes of each file.
  module _ (secrets : List Text)
      (clears : (body out : List ℕ)
        → redact_body_bytes body secrets ≡ ok out
        → contains n out ≡ false) where
    store_masked-IsHidden :
        (path : Text) (body : List ℕ) (r : Result EncodeError (List ℕ)) (st : State)
        → redact_body_bytes body secrets ≡ r
        → IsHidden n st
        → IsHidden n (store_masked o secrets run_prefix path r st).1
    unfolding store_masked
    store_masked-IsHidden path body (err e) st same h = h
    store_masked-IsHidden path body (ok out) st same h =
        store-IsHidden secrets path out (write_bytes o secrets run_prefix path out st)
          (clears body out same) h

    upload_file-IsHidden :
        (path : Text) (file : Option (List ℕ)) (st : State)
        → IsHidden n st
        → IsHidden n (upload_file o secrets run_prefix path file st).1
    unfolding upload_file
    upload_file-IsHidden path none st h = h
    upload_file-IsHidden path (some body) st h =
        store_masked-IsHidden path body (redact_body_bytes body secrets) st refl h

    upload_call-IsHidden :
        (response : Option (Option Text)) (st : State)
        → IsHidden n st
        → IsHidden n (upload_call o secrets run_prefix response st).1
    unfolding upload_call
    upload_call-IsHidden none st h = h
    upload_call-IsHidden (some none) st h = h
    upload_call-IsHidden (some (some path)) st h = upload_file-IsHidden path (st.files path) st h

    onto-IsHidden :
        (c : Call) (r : Result UploadError (List Call)) (st : State)
        → IsHidden n st
        → IsHidden n (onto o secrets run_prefix c (r, st)).1
    onto-IsHidden c (err e) st h = h
    onto-IsHidden c (ok cs) st h = h

    proceed-IsHidden :
        (rest : State → Result UploadError (List Call) × State)
        → ((st : State) → IsHidden n st → IsHidden n (rest st).1)
        → (r : Result UploadError Call) (st : State) → IsHidden n st
        → IsHidden n (proceed o secrets run_prefix rest (r, st)).1
    proceed-IsHidden rest keeps (err e) st h = h
    proceed-IsHidden rest keeps (ok c) st h =
        let (r, after) = rest st in onto-IsHidden c r after (keeps st h)

    upload_bodies-keeps :
        (calls : List Call) (st : State)
        → IsHidden n st
        → IsHidden n (upload_bodies o secrets run_prefix calls st).1
    unfolding upload_bodies
    upload_bodies-keeps [] st h = h
    upload_bodies-keeps (c ∷ cs) st h =
        let (r, after) = upload_call o secrets run_prefix c.response st in
        proceed-IsHidden (upload_bodies o secrets run_prefix cs) (upload_bodies-keeps cs) r after
          (upload_call-IsHidden c.response st h)

-- Whatever the run saved and wherever the upload ends, no body that is handed to the storage holds a
-- secret of the run that is not empty, as its UTF-8 bytes, if those share no byte with the mask.
pub upload_bodies-IsHidden :
    (o : Outside) (run_prefix : Text) (secrets : List Text) (calls : List Call)
    (files : Text → Option (List ℕ)) {c d : ℕ} {s n : List ℕ}
    → In (c ∷ s) secrets
    → encode (c ∷ s) ≡ ok (d ∷ n)
    → disjoint (d ∷ n) mask ≡ true
    → IsHidden
        (d ∷ n)
        (upload_bodies o secrets run_prefix calls (record { files = files; sent = [] })).1
upload_bodies-IsHidden o run_prefix secrets calls files {c} {d} {s} {n} m enc apart =
    upload_bodies-keeps o run_prefix (d ∷ n) secrets
      (λ body out e. redact_body_bytes_masks body out secrets e m enc apart) calls
      (record { files = files; sent = [] }) tt
