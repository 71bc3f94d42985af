-- ===== src/Execution/Synchronous.antt =====
-- `_run_sync` of src/services/executor.py as a whole: the configuration, the run on a measured and
-- tracked thread, the verdict on its timeouts and the upload of its bodies.
--
-- An empty dictionary of variables stands for the None that the executor is given instead. The
-- directory for the bodies is removed at the end, whatever it holds, and is not modelled.
--
-- The Lace executor is outside: what it does on the wire, and the call records it returns. The
-- egress guard around the run is that of Egress; here it is among what the calls come to.
use tracedown_probe_agent.Base.{ℕ, Bool, Option, none, some, List, [], Text, map}
use tracedown_probe_agent.Result.{Result, ok, err}
use tracedown_probe_agent.Json.{Members}
use tracedown_probe_agent.Attribution
use tracedown_probe_agent.Attribution.{Attribution, attribute_call_timeouts}
use tracedown_probe_agent.Bodies
use tracedown_probe_agent.Bodies.{UploadError, upload_bodies}
use tracedown_probe_agent.Progress.{Progress, Timeout, stores_bodies, step}
use tracedown_probe_agent.Wire.{Op, Thread, Totals, traced_run}
use tracedown_probe_agent.Execution.{active_extensions, configure}

-- `JobPayload`, what `_run_sync` reads; the budget is `execute_probe`'s.
pub record JobPayload : Type 0 where
  pub script : Text
  pub variables : Members
  pub prev : Option Members
  pub allow_body_save : Bool
  pub secret_values : List Text

-- A call record of the executor's result, by what is read of it.
pub record LaceCall : Type 0 where
  pub timed : Attribution.Call
  pub body : Bodies.Call

-- What `executor.run` does: its calls of the wire, the files it saves, and its call records, none
-- where it raises.
pub record LaceRun : Type 0 where
  pub ops : List Op
  pub files : Text → Option (List ℕ)
  pub calls : Option (List LaceCall)

pub record Outside : Type 0 where
  -- `LaceExecutor(extensions=…)._config`
  pub load : List Text → Members
  pub execute : Members → Text → Members → Option Members → LaceRun
  pub fromisoformat : Text → Option ℕ
  -- `tempfile.mkdtemp` and `uuid.uuid4().hex`
  pub bodies_dir : Text
  pub run_prefix : Text
  -- `time.monotonic()` at the upload
  pub now : ℕ

-- What `_run_sync` was set up with at startup: `_user_agent` and `_storage`.
pub record Setup : Type 0 where
  pub user_agent : Text
  pub storage : Option Bodies.Outside

pub data SyncError : Type 0 where
  unusable_config raised : SyncError
  upload : UploadError → SyncError

pub record SyncResult : Type 0 where
  pub totals : Totals
  pub attribution : Option Attribution
  pub bodies : List Bodies.Call

-- How `_run_sync` ends: with the record of the run, what was uploaded, and the thread.
pub record Synced : Type 0 where
  pub outcome : Result SyncError SyncResult
  pub progress : Option Progress
  pub sent : List (Text × List ℕ)
  pub thread : Thread

abbrev pub timeouts_of : Option Progress → List Timeout
timeouts_of none = []
timeouts_of (some p) = p.timeouts

-- `progress.enter(STORING_BODIES)`
unfoldable pub storing : ℕ → Option Progress → Option Progress
storing now none = none
storing now (some p) = some (step p (stores_bodies now))

abbrev pub with_bodies :
    Totals
    → Option Attribution
    → Result UploadError (List Bodies.Call)
    → Result SyncError SyncResult
with_bodies totals verdict (err e) = err (upload e)
with_bodies totals verdict (ok calls) =
    ok (record { totals = totals; attribution = verdict; bodies = calls })

module _ (o : Outside) where
  -- Behind the run: the upload, if there is a storage.
  unfoldable pub finish :
      Option Bodies.Outside
      → JobPayload
      → Totals
      → Option Attribution
      → List Bodies.Call
      → (Text → Option (List ℕ))
      → Option Progress
      → Thread
      → Synced
  unfolding storing
  finish none job totals verdict calls files p th = record {
    outcome = ok (record { totals = totals; attribution = verdict; bodies = calls });
    progress = p;
    sent = [];
    thread = th;
  }
  finish (some storage) job totals verdict calls files p th =
      let (r, st) =
        upload_bodies storage job.secret_values o.run_prefix calls
          (record { files = files; sent = [] }) in
      record {
        outcome = with_bodies totals verdict r;
        progress = storing o.now p;
        sent = st.sent;
        thread = th;
      }

  unfoldable pub report :
      Setup
      → JobPayload
      → (Text → Option (List ℕ))
      → Option (List LaceCall)
      → (Option Progress × Totals) × Thread
      → Synced
  unfolding finish
  report setup job files none ((p, totals), th) = record {
    outcome = err raised;
    progress = p;
    sent = [];
    thread = th;
  }
  report setup job files (some calls) ((p, totals), th) =
      finish setup.storage job totals
        (attribute_call_timeouts o.fromisoformat (map (λ c. c.timed) calls) (timeouts_of p))
        (map (λ c. c.body) calls) files p th

  unfoldable pub run_configured : Setup → JobPayload → Progress → Thread → Option Members → Synced
  unfolding report traced_run
  run_configured setup job p th none = record {
    outcome = err unusable_config;
    progress = some p;
    sent = [];
    thread = th;
  }
  run_configured setup job p th (some config) =
      let lace = o.execute config job.script job.variables job.prev in
      report setup job lace.files lace.calls (traced_run p lace.ops th)

  -- `_run_sync`, on the thread's record.
  unfoldable pub run_sync : Setup → JobPayload → Progress → Thread → Synced
  unfolding run_configured configure
  run_sync setup job p th = run_configured setup job p th (
      configure setup.user_agent job.allow_body_save o.bodies_dir job.variables
        (o.load (active_extensions job.variables)))
