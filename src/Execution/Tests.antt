-- ===== src/Execution/Tests.antt =====
-- A job with a secret, an operator's own text, and the theorems at them.
use tracedown_probe_agent.Base.{
  ◌≡◌, refl, true, false, none, some, [], ◌∷◌, codes, List, Text, All, if◌then◌else◌, ◌++◌, Option,
}
use tracedown_probe_agent.Bytes.{text_eq}
use tracedown_probe_agent.Config.{AgentSettings, is_production, egress_guard_enabled}
use tracedown_probe_agent.Egress.{ip_is_blocked, before_zone}
use tracedown_probe_agent.Egress.Addresses.{Addr, v4, quad, address_is_blocked}
use tracedown_probe_agent.Egress.Guard.{
  Sockaddr, inet, Program, finish, connect, guarded_connect, target_is_blocked, run_guarded,
  IsAllowed,
}
use tracedown_probe_agent.Startup.{services}
use tracedown_probe_agent.Bootstrap.Samples.{settings}
use tracedown_probe_agent.Execution.Guarded.{
  followed, under_policy, job_program, reach_sync, production-IsAllowed,
}
use tracedown_probe_agent.Json.{str, object, Members, empty, member, find}
use tracedown_probe_agent.Attribution.{success}
use tracedown_probe_agent.Progress.{init}
use tracedown_probe_agent.Wire.{Thread, sends, opens, reads, bytes, passed}
use tracedown_probe_agent.Execution.{
  tracks_baseline, emits_recovery, active_extensions, set_item, set_default, in_section,
  set_user_agent, set_bodies, set_timeout_message, set_recovery_message, set_messages, configure,
  recovery_message,
}
use tracedown_probe_agent.Execution.Configured.{IsConfigured, configure-IsConfigured}
use tracedown_probe_agent.Execution.Synchronous.{JobPayload, LaceRun, Outside, Setup, run_sync}
use tracedown_probe_agent.Execution.Reported.{IsReported, run_sync-IsReported}

abbrev variables : Members
variables = member (codes "trackBaseline") (str (codes "true")) empty

chosen :
    active_extensions variables
    ≡ codes "laceNotifications" ∷ codes "laceBaseline" ∷ codes "laceEmitRecovery" ∷ []
unfolding active_extensions tracks_baseline emits_recovery find
chosen = refl

-- The operator's text for timeouts.
abbrev own_config : Members
own_config =
    member (codes "extensions")
      (object (
        member (codes "laceNotifications")
          (object (member (codes "timeout_message") (str (codes "slow")) empty)) empty))
      empty

abbrev own_configured : Members
own_configured =
    member (codes "extensions")
      (object (
        member (codes "laceNotifications")
          (object (member (codes "timeout_message") (str (codes "slow")) empty))
          (member (codes "laceEmitRecovery")
            (object (member (codes "recovery_message") (str recovery_message) empty)) empty)))
      (member (codes "executor") (object (member (codes "user_agent") (str (codes "ua")) empty))
        (member (codes "result") (object empty) empty))

configured :
    configure (codes "ua") false (codes "/tmp/b") variables own_config ≡ some own_configured
unfolding configure set_user_agent set_bodies set_messages set_timeout_message set_recovery_message
    emits_recovery in_section set_default set_item find
configured = refl

configure-IsConfigured_example :
    (c : Members) × (configure (codes "ua") true (codes "/tmp/b") variables own_config ≡ some c)
    × IsConfigured (codes "ua") true (codes "/tmp/b") variables own_config c
unfolding find
configure-IsConfigured_example =
    configure-IsConfigured (codes "ua") true (codes "/tmp/b") variables own_config
      (refl, refl, refl, refl, refl)

abbrev job : JobPayload
job = record {
  script = codes "get(u)";
  variables = variables;
  prev = none;
  allow_body_save = true;
  secret_values = codes "key" ∷ [];
}

abbrev lace : LaceRun
lace = record {
  ops = sends 20 (bytes (codes "GET")) (passed 0) ∷ opens true ∷ reads 0 30 (passed 15) ∷ [];
  files = λ path. some (codes "your key");
  calls = some (
      record {
        timed = record { index = none; outcome = success; started_at = none; ended_at = none };
        body = record { response = some (some (codes "/tmp/b/call_0.json")) };
      }
      ∷ []);
}

abbrev outside : Outside
outside = record {
  load = λ extensions. own_config;
  execute = λ config script vars prev. lace;
  fromisoformat = λ text. none;
  bodies_dir = codes "/tmp/b";
  run_prefix = codes "f00d";
  now = 90;
}

abbrev setup : Setup
setup = record {
  user_agent = codes "ua";
  storage = some (record { name = λ path. codes "call_0.json"; upload = λ key body. some key });
}

abbrev idle : Thread
idle = record {
  counter = record { active = false; ingress = 0; egress = 0 };
  progress = none;
  readers = [];
}

run_sync-IsReported_example :
    IsReported job.secret_values (init 0) idle (run_sync outside setup job (init 0) idle)
run_sync-IsReported_example =
    run_sync-IsReported outside setup job (init 0) idle (λ config. (tt, (tt, (tt, tt))))

abbrev parser : Text → Option Addr
parser s = if text_eq s (codes "192.0.2.1") then some (v4 (quad 192 0 2 1)) else none

abbrev production_settings : AgentSettings
production_settings = record settings { deployment_env = codes "production"; egress_guard = none }

abbrev script : Program
script = connect (inet (codes "192.0.2.1")) (connect (inet (codes "10.0.0.1")) finish)

abbrev uploads : List Sockaddr
uploads = inet (codes "10.0.0.9") ∷ []

script_run :
    run_guarded parser false (job_program (services production_settings) script uploads)
    ≡ (false, inet (codes "192.0.2.1") ∷ inet (codes "10.0.0.9") ∷ [])
unfolding run_guarded guarded_connect target_is_blocked ip_is_blocked before_zone address_is_blocked
    job_program under_policy followed services egress_guard_enabled is_production
script_run = refl

production-IsAllowed_example :
    ((inside : List Sockaddr) × ((run_guarded parser false
          (job_program (services production_settings) script uploads)).1
        ≡ inside ++ uploads)
      × All (IsAllowed parser) inside)
    × All
        (IsAllowed parser)
        (run_guarded parser false (reach_sync (services production_settings) script)).1
unfolding is_production
production-IsAllowed_example =
    production-IsAllowed parser production_settings script script uploads refl refl
