-- ===== src/Bootstrap/Tests.antt =====
-- Registrations of a new agent, and the theorems on them.
use tracedown_probe_agent.Base.{◌≡◌, refl, false, ◌&&◌, none, some, codes}
use tracedown_probe_agent.Spaces.{strip, strip_left, is_blank}
use tracedown_probe_agent.Result.{ok}
use tracedown_probe_agent.Trust.{
  system_trust_context, is_production, gateway_trust_context, resolve_bootstrap_verify,
}
use tracedown_probe_agent.CaPins.{ca_fingerprints}
use tracedown_probe_agent.Bootstrap.{no_ca_root, advertised_agent_uri, exists, ensure_registered}
use tracedown_probe_agent.Bootstrap.Samples.{settings, world, blank, granted, rootless}
use tracedown_probe_agent.Bootstrap.Registered.{ensure_registered-sent}

advertised :
    advertised_agent_uri (codes "host.local") settings ≡ codes "https://probe.example.com:443"
unfolding advertised_agent_uri strip strip_left is_blank
advertised = refl

granted_run :
    ((ensure_registered (world granted) settings blank).outcome.error ≡ none)
    × ((ensure_registered (world granted) settings blank).sent ≡ some system_trust_context)
    × ((ensure_registered (world granted) settings blank).outcome.disk.slug
        ≡ some (codes "agent-1"))
unfolding ensure_registered resolve_bootstrap_verify gateway_trust_context is_production strip
    strip_left is_blank ca_fingerprints
granted_run = (refl, refl, refl)

-- An answer without a bundle leaves the new key and the certificate.
rootless_run :
    ((ensure_registered (world rootless) settings blank).outcome.error ≡ some no_ca_root)
    × ((ensure_registered (world rootless) settings blank).outcome.disk
        ≡ record blank { key = some (codes "key1"); cert = some (codes "cert1") })
unfolding ensure_registered resolve_bootstrap_verify gateway_trust_context is_production strip
    strip_left is_blank
rootless_run = (refl, refl)

ensure_registered-sent_example :
    (resolve_bootstrap_verify (world granted).trust settings ≡ ok system_trust_context)
    × ((exists (blank.cert) && exists (blank.key)) ≡ false)
ensure_registered-sent_example =
    ensure_registered-sent (world granted) settings blank system_trust_context granted_run.1
