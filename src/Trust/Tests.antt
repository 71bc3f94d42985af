-- ===== src/Trust/Tests.antt =====
-- Runs of the bootstrap's trust on a pinned gateway, and the theorems on them.
use tracedown_probe_agent.Base.{
  ◌≡◌, ◌↔◌, ◌⊎◌, refl, Bool, true, false, none, some, [], ◌∷◌, Text, codes,
}
use tracedown_probe_agent.Spaces.{strip, strip_left, is_blank}
use tracedown_probe_agent.Result.{ok}
use tracedown_probe_agent.Config.{AgentSettings, egress_guard_enabled}
use tracedown_probe_agent.Config
use tracedown_probe_agent.Trust.{
  Outside, unverified, pinned_context, is_production, is_https, pins_of, host_and_port,
  fetch_peer_certificate, pin_and_bind, pinned, gateway_trust_context, resolve_bootstrap_verify,
}
use tracedown_probe_agent.Trust.Pins.{
  normalize_fingerprints, pins_from, chunks_from, candidate_of, without_label, without_colons,
  add_pin, nonempty,
}
use tracedown_probe_agent.Trust.Resolved.{resolve_bootstrap_verify-unverified_iff}

abbrev digest : Text
digest = codes "00112233445566778899aabbccddeeff00112233445566778899aabbccddeeff"

abbrev gateway : Outside
gateway = record {
  scheme = λ url. codes "https";
  host_port = λ url. some (codes "gateway.example.com", 443);
  peer_certificate = λ host port. some (48 ∷ 130 ∷ []);
  sha256 = λ der. digest;
  is_file = λ path. false;
}

abbrev settings : Text → Text → Bool → AgentSettings
settings pin env skip = record {
  bootstrap_token = codes "token";
  scheduler_url = codes "https://gateway.example.com";
  bootstrap_ca_bundle = [];
  bootstrap_pin_sha256 = pin;
  insecure_skip_bootstrap_tls_verify = skip;
  deployment_env = env;
  slug = [];
  renew_before_days = 30;
  egress_guard = none;
  host = codes "0.0.0.0";
  port = 8443;
  advertised_host = [];
  advertised_port = none;
  storage_backend = codes "filesystem";
  storage_dir = codes "/data/bodies";
  s3_bucket = [];
  s3_prefix = [];
  user_agent = [];
  max_concurrency = 256;
}

abbrev pin : Text
pin = codes "SHA256:00112233445566778899AABBCCDDEEFF00112233445566778899AABBCCDDEEFF"

-- The setting `Production` arms the bootstrap checks but not the egress guard.
production_spellings :
    (is_production (settings [] (codes " Production") false) ≡ true)
    × (Config.is_production (settings [] (codes " Production") false) ≡ false)
    × (egress_guard_enabled (settings [] (codes " Production") false) ≡ false)
unfolding is_production Config.is_production egress_guard_enabled strip strip_left is_blank
production_spellings = (refl, refl, refl)

digests_of_pin : normalize_fingerprints pin ≡ ok (digest ∷ [])
unfolding normalize_fingerprints pins_from chunks_from candidate_of without_label without_colons
    add_pin nonempty is_blank
digests_of_pin = refl

pinned_run :
    gateway_trust_context gateway (settings pin (codes "dev") false)
    ≡ ok (pinned_context (48 ∷ 130 ∷ []))
unfolding gateway_trust_context pinned pins_of host_and_port fetch_peer_certificate pin_and_bind
    normalize_fingerprints pins_from chunks_from candidate_of without_label without_colons add_pin
    nonempty is_blank
pinned_run = refl

abbrev production_settings : AgentSettings
production_settings = settings pin (codes "production") false

resolved_run :
    (resolve_bootstrap_verify gateway production_settings ≡ ok (pinned_context (48 ∷ 130 ∷ [])))
    × (egress_guard_enabled production_settings ≡ true)
unfolding resolve_bootstrap_verify is_production strip strip_left egress_guard_enabled
    Config.is_production gateway_trust_context pinned pins_of host_and_port fetch_peer_certificate
    pin_and_bind normalize_fingerprints pins_from chunks_from candidate_of without_label
    without_colons add_pin nonempty is_blank
resolved_run = (refl, refl)

resolve_bootstrap_verify-unverified_iff_example :
    resolve_bootstrap_verify gateway (settings pin (codes "dev") true) ≡ ok unverified
    ↔ (is_production (settings pin (codes "dev") true) ≡ false)
      × ((is_https gateway (settings pin (codes "dev") true) ≡ false) ⊎ (true ≡ true))
resolve_bootstrap_verify-unverified_iff_example =
    resolve_bootstrap_verify-unverified_iff gateway (settings pin (codes "dev") true)
