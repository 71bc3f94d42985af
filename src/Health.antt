-- ===== src/Health.antt =====
-- src/routes/health.py, and `_run_health_sync` of src/services/executor.py: the challenge by which
-- the scheduler learns whether the agent can run probes, and whether it can open a sealed one.
--
-- What the Lace executor does with the script comes as an argument, and so do the readings of the
-- clock, in milliseconds.
pub mod Honest
mod Tests
use tracedown_probe_agent.Base.{
  ℕ, zero, suc, ◌-◌, Bool, true, false, not, Option, none, some, [], ◌∷◌, Text, codes, ◌==◌,
  if◌then◌else◌,
}
use tracedown_probe_agent.Int.{ℤ, pos, negsuc}
use tracedown_probe_agent.Job.{Float, finite}
use tracedown_probe_agent.Result.{Result, ok, err}
use tracedown_probe_agent.Json.{
  Json, null, bool, int, float, str, array, object, Items, nil, cons, Members, empty, member, find,
  is_text,
}

-- Whether Python takes a value for true.
abbrev pub is_true : Json → Bool
is_true null = false
is_true (bool b) = b
is_true (int (pos zero)) = false
is_true (float (finite sign zero places)) = false
is_true (str []) = false
is_true (array nil) = false
is_true (object empty) = false
is_true _ = true

-- What is raised: the two RuntimeErrors, of a script that failed with the error of its first call
-- (none for "unknown error") and of one that left no token; and anything else, a missing key or a
-- part of an unexpected type among it.
pub data HealthError : Type 0 where
  script_failed : Option Json → HealthError
  no_token raised : HealthError

-- `calls[0].get("error", "unknown error")`
abbrev error_of : Json → HealthError
error_of (object call) = script_failed (find (codes "error") call)
error_of _ = raised

abbrev pub error_of_first : Option Json → HealthError
error_of_first none = script_failed none
error_of_first (some (array (cons call calls))) = error_of call
error_of_first (some _) = raised

-- `.get("token")` on the run's variables, and the test of it.
abbrev pub token_found : Option Json → Result HealthError Json
token_found none = err no_token
token_found (some token) = if is_true token then ok token else err no_token

abbrev pub token_of : Option Json → Result HealthError Json
token_of none = err no_token
token_of (some (object vars)) = token_found (find (codes "token") vars)
token_of (some _) = err raised

-- `_run_health_sync`, from what the executor's run comes to.
unfoldable pub run_health_sync : Result HealthError Members → Result HealthError Json
run_health_sync (err e) = err e
run_health_sync (ok result) = elim (find (codes "outcome") result) [
  | none ↦ err raised
  | some outcome ↦
      if not (is_text (codes "success") (some outcome))
      then err (error_of_first (find (codes "calls") result))
      else token_of (find (codes "runVars") result)
]

-- `ChallengeResponse`
pub record ChallengeResponse : Type 0 where
  pub challenge_id : Text
  pub token : Option Text
  pub elapsed : ℕ
  pub success : Bool
  pub error : Option HealthError
  pub payload_encryption : Bool

-- `_can_open_sealed`, from `agent_private_key` of the application.
abbrev pub can_open_sealed {ℓ} : {Key : Type ℓ} → Option Key → Bool
can_open_sealed none = false
can_open_sealed (some key) = true

abbrev failure : Text → ℕ → Bool → HealthError → ChallengeResponse
failure id elapsed encryption e = record {
  challenge_id = id;
  token = none;
  elapsed = elapsed;
  success = false;
  error = some e;
  payload_encryption = encryption;
}

-- The answer for a token; one that is no text is refused by pydantic, inside the `try`.
abbrev passing : Text → ℕ → Bool → Json → ChallengeResponse
passing id elapsed encryption (str t) = record {
  challenge_id = id;
  token = some t;
  elapsed = elapsed;
  success = true;
  error = none;
  payload_encryption = encryption;
}
passing id elapsed encryption _ = failure id elapsed encryption raised

-- The answer from what the `try` comes to.
unfoldable pub answer : Text → ℕ → Bool → Result HealthError Json → ChallengeResponse
answer id elapsed encryption (ok token) = passing id elapsed encryption token
answer id elapsed encryption (err e) = failure id elapsed encryption e

-- `challenge`
unfoldable pub challenge {ℓ} :
    {Key : Type ℓ} → Option Key → Text → ℕ → ℕ → Result HealthError Members → ChallengeResponse
unfolding answer run_health_sync
challenge key id start now run = answer id (now - start) (can_open_sealed key) (run_health_sync run)

pub record HealthResponse : Type 0 where
  pub status : Text
  pub version : Text
  pub executor_version : Text
  pub payload_encryption : Bool

-- GET /health, with the versions of the agent and of the executor.
unfoldable pub health {ℓ} : {Key : Type ℓ} → Option Key → Text → Text → HealthResponse
health key version executor_version = record {
  status = codes "ok";
  version = version;
  executor_version = executor_version;
  payload_encryption = can_open_sealed key;
}
