-- ===== src/Startup.antt =====
-- src/main.py: how the agent comes up, with src/mtls/ssl_context.py's test of the files.
--
-- uvicorn, the TLS library and the reading of the key are outside.
pub mod Modes
mod Tests
use tracedown_probe_agent.Base.{
  ℕ, Bool, true, false, not, ◌&&◌, Option, none, some, Text, codes, if◌then◌else◌,
}
use tracedown_probe_agent.Bytes.{text_eq}
use tracedown_probe_agent.Config.{AgentSettings, is_truthy, egress_guard_enabled}
use tracedown_probe_agent.Trust.{Verify}
use tracedown_probe_agent.Writes.{Disk, Outcome, done}
use tracedown_probe_agent.Storage.{S3Storage, new_storage}
use tracedown_probe_agent.Bootstrap
use tracedown_probe_agent.Bootstrap.{Run, RegisterError, exists, ensure_registered}

pub record Outside : Type 0 where
  pub bootstrap : Bootstrap.Outside
  -- whether `build_server_context` loads the files
  pub server_context : Disk → Bool
  -- `envelope.load_private_key` of the key file, none where it raises
  pub load_key : Disk → Option Text

-- How the server listens: over plain HTTP, or with the agent's certificate, and the key for sealed
-- dispatches where it could be loaded; or the process has ended by an exception.
pub data Mode : Type 0 where
  plain_http crashed : Mode
  mutual_tls : Option Text → Mode

pub record Started : Type 0 where
  pub mode : Mode
  pub disk : Disk
  pub sent : Option Verify

-- `certs_exist`
unfoldable pub certs_exist : Disk → Bool
certs_exist d = elim d.ca [
  | none ↦ false
  | some ca ↦ elim d.cert [
    | none ↦ false
    | some cert ↦ elim d.key [ none ↦ false | some key ↦ true ]
  ]
]

-- `s.bootstrap_token and s.scheduler_url`
abbrev pub is_enrolling : AgentSettings → Bool
is_enrolling s = is_truthy s.bootstrap_token && is_truthy s.scheduler_url

-- `_create_storage`
pub data Backend : Type 0 where
  s3 : S3Storage → Backend
  filesystem : Text → Backend

unfoldable pub create_storage : AgentSettings → Backend
create_storage s =
    if text_eq s.storage_backend (codes "s3")
    then s3 (new_storage s.s3_bucket s.s3_prefix)
    else filesystem s.storage_dir

-- What `lifespan` sets for the executor, before it registers.
pub record Services : Type 0 where
  pub max_workers : ℕ
  pub storage : Backend
  pub user_agent : Text
  pub egress_enabled : Bool

unfoldable pub services : AgentSettings → Services
unfolding create_storage
services s = record {
  max_workers = s.max_concurrency;
  storage = create_storage s;
  user_agent = s.user_agent;
  egress_enabled = egress_guard_enabled s;
}

module _ (o : Outside) where
  -- `if … and not certs_exist(s): asyncio.run(ensure_registered(s))`
  unfoldable pub enrol : AgentSettings → Disk → Run
  unfolding certs_exist
  enrol s d =
      if is_enrolling s && not (certs_exist d)
      then ensure_registered o.bootstrap s d
      else record { sent = none; outcome = done d }

  -- The choice of the listener.
  unfoldable pub listen : Disk → Mode
  unfolding certs_exist
  listen d =
      if certs_exist d
      then (if o.server_context d then mutual_tls (o.load_key d) else crashed)
      else plain_http

  unfoldable pub after_enrolment : Run → Started
  unfolding listen
  after_enrolment r = elim r.outcome.error [
    | none ↦ record { mode = listen r.outcome.disk; disk = r.outcome.disk; sent = r.sent }
    | some e ↦ record { mode = crashed; disk = r.outcome.disk; sent = r.sent }
  ]

  -- `if __name__ == "__main__"`
  unfoldable pub start : AgentSettings → Disk → Started
  unfolding enrol after_enrolment
  start s d = after_enrolment (enrol s d)

  -- What `lifespan` comes to, before it serves; none where its registration raises.
  unfoldable pub lifespan : AgentSettings → Disk → Option (Services × Disk)
  unfolding services
  lifespan s d =
      if is_enrolling s
      then (let r = ensure_registered o.bootstrap s d in
          elim r.outcome.error [ none ↦ some (services s, r.outcome.disk) | some e ↦ none ])
      else some (services s, d)
