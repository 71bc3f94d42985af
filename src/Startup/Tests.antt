-- ===== src/Startup/Tests.antt =====
-- Starts of the agent, and the theorems on them.
use tracedown_probe_agent.Base.{◌≡◌, ◌↔◌, refl, true, ◌&&◌, none, some, codes}
use tracedown_probe_agent.Spaces.{strip, strip_left, is_blank}
use tracedown_probe_agent.Trust.{is_production, gateway_trust_context, resolve_bootstrap_verify}
use tracedown_probe_agent.CaPins.{ca_fingerprints}
use tracedown_probe_agent.Bootstrap.{exists, ensure_registered}
use tracedown_probe_agent.Bootstrap
use tracedown_probe_agent.Startup.{Outside, plain_http, crashed, mutual_tls, start}
use tracedown_probe_agent.Startup.Modes.{start-plain_http_iff}
use tracedown_probe_agent.Bootstrap.Samples.{settings, world, blank, granted, rootless}

abbrev host : Bootstrap.Registration → Outside
host a = record { bootstrap = world a; server_context = λ d. true; load_key = λ d. d.key }

-- After a registration that an answer without a bundle ended, the next start does not register, and
-- listens over plain HTTP.
restart_run :
    ((start (host rootless) settings blank).mode ≡ crashed)
    × ((start (host granted) settings (start (host rootless) settings blank).disk).mode
        ≡ plain_http)
    × ((start (host granted) settings (start (host rootless) settings blank).disk).sent ≡ none)
unfolding start ensure_registered resolve_bootstrap_verify gateway_trust_context is_production strip
    strip_left is_blank
restart_run = (refl, refl, refl)

first_run : (start (host granted) settings blank).mode ≡ mutual_tls (some (codes "key1"))
unfolding start ensure_registered resolve_bootstrap_verify gateway_trust_context is_production strip
    strip_left is_blank ca_fingerprints
first_run = refl

start-plain_http_iff_example :
    ((start (host granted) settings blank).mode ≡ plain_http)
    ↔ (((exists blank.cert && exists blank.key) ≡ true) × (blank.ca ≡ none))
start-plain_http_iff_example = start-plain_http_iff (host granted) settings blank refl
