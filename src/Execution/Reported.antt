-- ===== src/Execution/Reported.antt =====
-- What holds of a run of `_run_sync` however it ends.
use tracedown_probe_agent.Base.{
  ℕ, ◌≡◌, refl, false, Option, none, some, List, [], ◌∷◌, Text, All, In, here, there, map, arith,
  Bool, ◌&&◌, any, Bool-cases, inl, inr,
}
use tracedown_probe_agent.Bytes.{contains, disjoint}
use tracedown_probe_agent.Result.{Result, ok, err}
use tracedown_probe_agent.Redact.{EncodeError, encode, mask}
use tracedown_probe_agent.Bodies
use tracedown_probe_agent.Bodies.{UploadError, upload_bodies}
use tracedown_probe_agent.Bodies.Hidden.{upload_bodies-IsHidden}
use tracedown_probe_agent.Attribution.{Attribution, attribute_call_timeouts}
use tracedown_probe_agent.Json.{Members}
use tracedown_probe_agent.Progress.{Progress, step, enter}
use tracedown_probe_agent.Wire.{Thread, Totals, traced_run}
use tracedown_probe_agent.Wire.Counted.{CountsNothing, IsTotal, traced_run-totals}
use tracedown_probe_agent.Execution.{active_extensions, configure}
use tracedown_probe_agent.Execution.Synchronous.{
  JobPayload, LaceCall, Outside, Setup, SyncError, SyncResult, Synced, timeouts_of, storing,
  with_bodies, finish, report, run_configured, run_sync,
}

-- The totals of a result are what the record has grown by.
abbrev pub Tallies : Progress → Option Progress → Result SyncError SyncResult → Type 0
Tallies p₀ p (err e) = Unit
Tallies p₀ p (ok r) = IsTotal p₀ r.totals p

-- The body holds the secret, as its UTF-8 bytes, where those are not empty and share none with the
-- mask.
abbrev pub is_bare : Result EncodeError (List ℕ) → List ℕ → Bool
is_bare (ok (d ∷ n)) body = disjoint (d ∷ n) mask && contains (d ∷ n) body
is_bare _ body = false

abbrev pub leaks : List Text → List ℕ → Bool
leaks secrets body = any (λ s. is_bare (encode s) body) secrets

abbrev pub AllMasked : List Text → List (Text × List ℕ) → Type 0
AllMasked secrets = All (λ (u : Text × List ℕ). leaks secrets u.1 ≡ false)

-- The thread is as it was, no upload holds a secret, and the result's totals are the record's.
abbrev pub IsReported : List Text → Progress → Thread → Synced → Type 0
IsReported secrets p₀ th s =
    (s.thread.counter ≡ th.counter)
    × (s.thread.progress ≡ th.progress)
    × AllMasked secrets s.sent
    × Tallies p₀ s.progress s.outcome

-- A body without any of the secrets, by one secret after the other.
AllMasked-none : (sent : List (Text × List ℕ)) → AllMasked [] sent
AllMasked-none [] = tt
AllMasked-none (u ∷ sent) = (refl, AllMasked-none sent)

one_more :
    (s : Text) (secrets : List Text) (sent : List (Text × List ℕ))
    → All (λ (u : Text × List ℕ). is_bare (encode s) u.1 ≡ false) sent
    → AllMasked secrets sent
    → AllMasked (s ∷ secrets) sent
one_more s secrets [] h k = tt
one_more s secrets (u ∷ sent) h k = (ground (arith, h.0, k.0), one_more s secrets sent h.1 k.1)

module _ (storage : Bodies.Outside) (run_prefix : Text) (secrets : List Text)
    (calls : List Bodies.Call) (files : Text → Option (List ℕ)) where
  abbrev uploads : List (Text × List ℕ)
  uploads =
      (upload_bodies storage secrets run_prefix calls (record { files = files; sent = [] })).1.sent

  never_bare :
      (e : Result EncodeError (List ℕ)) (sent : List (Text × List ℕ))
      → ((body : List ℕ) → is_bare e body ≡ false)
      → All (λ (u : Text × List ℕ). is_bare e u.1 ≡ false) sent
  never_bare e [] h = tt
  never_bare e (u ∷ sent) h = (h u.1, never_bare e sent h)

  not_contained :
      (d : ℕ) (n : List ℕ) (sent : List (Text × List ℕ))
      → All (λ (u : Text × List ℕ). contains (d ∷ n) u.1 ≡ false) sent
      → All (λ (u : Text × List ℕ). is_bare (ok (d ∷ n)) u.1 ≡ false) sent
  not_contained d n [] h = tt
  not_contained d n (u ∷ sent) h = (ground (arith, h.0), not_contained d n sent h.1)

  bare_one :
      (c : ℕ) (s : Text) (e : Result EncodeError (List ℕ))
      → In (c ∷ s) secrets
      → encode (c ∷ s) ≡ e
      → All (λ (u : Text × List ℕ). is_bare e u.1 ≡ false) uploads
  bare_one c s (err x) m enc = never_bare (err x) uploads (λ body. refl)
  bare_one c s (ok []) m enc = never_bare (ok []) uploads (λ body. refl)
  bare_one c s (ok (d ∷ n)) m enc = elim (Bool-cases (disjoint (d ∷ n) mask)) [
    | inl apart ↦
        not_contained d n uploads
          (upload_bodies-IsHidden storage run_prefix secrets calls files m enc apart)
    | inr shared ↦ never_bare (ok (d ∷ n)) uploads (λ body. ground (arith, shared))
  ]

  secret_masked :
      (s : Text)
      → In s secrets
      → All (λ (u : Text × List ℕ). is_bare (encode s) u.1 ≡ false) uploads
  unfolding encode
  secret_masked [] m = never_bare (ok []) uploads (λ body. refl)
  secret_masked (c ∷ s) m = bare_one c s (encode (c ∷ s)) m refl

  some_masked : (ss : List Text) → ((s : Text) → In s ss → In s secrets) → AllMasked ss uploads
  some_masked [] sub = AllMasked-none uploads
  some_masked (s ∷ ss) sub =
      one_more s ss uploads (secret_masked s (sub s here)) (some_masked ss (λ t m. sub t (there m)))

  upload_bodies-AllMasked : AllMasked secrets uploads
  upload_bodies-AllMasked = some_masked secrets (λ s m. m)

storing-IsTotal :
    (now : ℕ) (p₀ : Progress) (t : Totals) (p : Option Progress)
    → IsTotal p₀ t p
    → IsTotal p₀ t (storing now p)
unfolding storing step enter
storing-IsTotal now p₀ t none h = h
storing-IsTotal now p₀ t (some p) h = (ground (arith, h.0), ground (arith, h.1))

with_bodies-Tallies :
    (p₀ : Progress) (p : Option Progress) (t : Totals) (verdict : Option Attribution)
    (r : Result UploadError (List Bodies.Call))
    → IsTotal p₀ t p
    → Tallies p₀ p (with_bodies t verdict r)
with_bodies-Tallies p₀ p t verdict (err e) h = tt
with_bodies-Tallies p₀ p t verdict (ok calls) h = h

module _ (o : Outside) (setup : Setup) (job : JobPayload) (p₀ : Progress) (th : Thread) where
  finish-IsReported :
      (storage : Option Bodies.Outside) (t : Totals) (verdict : Option Attribution)
      (calls : List Bodies.Call) (files : Text → Option (List ℕ)) (p : Option Progress)
      (after : Thread)
      → IsTotal p₀ t p × (after.counter ≡ th.counter) × (after.progress ≡ th.progress)
      → IsReported job.secret_values p₀ th (finish o storage job t verdict calls files p after)
  unfolding finish
  finish-IsReported none t verdict calls files p after (total, counter, progress) =
      (counter, progress, tt, total)
  finish-IsReported (some storage) t verdict calls files p after (total, counter, progress) = (
    counter,
    progress,
    upload_bodies-AllMasked storage o.run_prefix job.secret_values calls files,
    with_bodies-Tallies p₀ (storing o.now p) t verdict _ (storing-IsTotal o.now p₀ t p total),
  )

  report-IsReported :
      (files : Text → Option (List ℕ)) (calls : Option (List LaceCall))
      (out : (Option Progress × Totals) × Thread)
      → IsTotal p₀ out.0.1 out.0.0 × (out.1.counter ≡ th.counter) × (out.1.progress ≡ th.progress)
      → IsReported job.secret_values p₀ th (report o setup job files calls out)
  unfolding report
  report-IsReported files none out (total, counter, progress) = (counter, progress, tt, tt)
  report-IsReported files (some calls) out h =
      finish-IsReported setup.storage out.0.1
        (attribute_call_timeouts o.fromisoformat (map (λ c. c.timed) calls) (timeouts_of out.0.0))
        (map (λ c. c.body) calls) files out.0.0 out.1 h

  configured-IsReported :
      (config : Option Members)
      → ((c : Members) → All CountsNothing (o.execute c job.script job.variables job.prev).ops)
      → IsReported job.secret_values p₀ th (run_configured o setup job p₀ th config)
  unfolding run_configured
  configured-IsReported none quiet = (refl, refl, tt, tt)
  configured-IsReported (some c) quiet =
      let lace = o.execute c job.script job.variables job.prev in
      report-IsReported lace.files lace.calls (traced_run p₀ lace.ops th)
        (traced_run-totals p₀ lace.ops th (quiet c))

-- However a run of a job ends, with secrets or without, by a result, by an exception of the executor
-- or in the upload: the thread's counter and record are as they were; no body that was uploaded holds
-- a secret of the job, as its UTF-8 bytes, where those are not empty and share none with the mask; and
-- the totals of a result are what the job's record has grown by, which the result for a run that is
-- given up is read from. The condition on the executor is that its hooks count no bytes of their own.
pub run_sync-IsReported :
    (o : Outside) (setup : Setup) (job : JobPayload) (p₀ : Progress) (th : Thread)
    → ((config : Members)
        → All CountsNothing (o.execute config job.script job.variables job.prev).ops)
    → IsReported job.secret_values p₀ th (run_sync o setup job p₀ th)
unfolding run_sync
run_sync-IsReported o setup job p₀ th quiet =
    configured-IsReported o setup job p₀ th
      (configure setup.user_agent job.allow_body_save o.bodies_dir job.variables
        (o.load (active_extensions job.variables)))
      quiet
