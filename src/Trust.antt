-- ===== src/Trust.antt =====
-- src/mtls/bootstrap_trust.py: how the gateway is authenticated before the token is sent.
--
-- The network, the file system, SHA-256 and `urlsplit` are outside and stand in one record.
pub mod Pins
pub mod Resolved
pub mod Production
mod Tests
use mathlib.Core.List.{reverse}
use tracedown_probe_agent.Base.{
  ℕ, Bool, true, false, ◌&&◌, Option, none, some, List, [], ◌∷◌, Text, codes, any, map,
  if◌then◌else◌,
}
use tracedown_probe_agent.Bytes.{text_eq}
use tracedown_probe_agent.Result.{Result, ok, err, ◌>>=◌}
use tracedown_probe_agent.Spaces.{strip}
use tracedown_probe_agent.Egress.{lower}
use tracedown_probe_agent.Config.{AgentSettings, is_truthy, production}
use Pins.{normalize_fingerprints, PinError}

-- What `ssl`, `socket`, `hashlib`, `pathlib` and `urllib.parse` do.
pub record Outside : Type 0 where
  -- `urlsplit(url).scheme`, `.hostname` and `.port or 443`
  pub scheme : Text → Text
  pub host_port : Text → Option (Text × ℕ)
  -- the DER certificate that a peer presents; none where the connection fails or shows none
  pub peer_certificate : Text → ℕ → Option (List ℕ)
  -- `hashlib.sha256(der).hexdigest()`
  pub sha256 : List ℕ → Text
  pub is_file : Text → Bool

-- The `verify` argument of the request.
pub data Verify : Type 0 where
  unverified : Verify
  pinned_context : List ℕ → Verify
  ca_bundle_context : Text → Verify
  system_trust_context : Verify

pub data TrustError : Type 0 where
  insecure_in_production clear_in_production : TrustError
  bad_pin : PinError → TrustError
  unusable_url no_certificate pin_mismatch missing_bundle : TrustError

-- `is_production`: `deployment_env.strip().lower() == PRODUCTION`.
unfoldable pub is_production : AgentSettings → Bool
unfolding strip
is_production s = text_eq (map lower (strip s.deployment_env)) production

module _ (outside : Outside) where
  open outside use {scheme, host_port, peer_certificate, sha256, is_file}

  -- `_host_port`
  pub host_and_port : Text → Result TrustError (Text × ℕ)
  host_and_port url = elim (host_port url) [ none ↦ err unusable_url | some hp ↦ ok hp ]

  -- `fetch_peer_certificate`
  pub fetch_peer_certificate : Text → ℕ → Result TrustError (List ℕ)
  fetch_peer_certificate host port = elim (peer_certificate host port) [
    | none ↦ err no_certificate
    | some der ↦ ok der
  ]

  -- `_pin_and_bind`
  pub pin_and_bind : List Text → List ℕ → Result TrustError Verify
  pin_and_bind pins der =
      if any (text_eq (sha256 der)) pins then ok (pinned_context der) else err pin_mismatch

  pub pins_of : Text → Result TrustError (List Text)
  pins_of raw = elim (normalize_fingerprints raw) [ ok pins ↦ ok pins | err e ↦ err (bad_pin e) ]

  -- `ca_bundle_context`
  pub bundle_context : Text → Result TrustError Verify
  bundle_context path = if is_file path then ok (ca_bundle_context path) else err missing_bundle

  -- The branch of `gateway_trust_context` for a configured pin.
  pub pinned : AgentSettings → Result TrustError Verify
  unfolding pins_of host_and_port fetch_peer_certificate pin_and_bind
  pinned s = do
    pins ← pins_of s.bootstrap_pin_sha256
    hp ← host_and_port s.scheduler_url
    der ← fetch_peer_certificate hp.0 hp.1
    pin_and_bind pins der

  -- `gateway_trust_context`
  unfoldable pub gateway_trust_context : AgentSettings → Result TrustError Verify
  unfolding bundle_context
  gateway_trust_context s =
      if is_truthy s.bootstrap_pin_sha256
      then pinned s
      else if is_truthy s.bootstrap_ca_bundle
      then bundle_context s.bootstrap_ca_bundle
      else ok system_trust_context

  -- `urlsplit(settings.scheduler_url).scheme.lower() == "https"`
  abbrev pub is_https : AgentSettings → Bool
  is_https s = text_eq (map lower (scheme s.scheduler_url)) (codes "https")

  -- `resolve_bootstrap_verify`
  unfoldable pub resolve_bootstrap_verify : AgentSettings → Result TrustError Verify
  resolve_bootstrap_verify s =
      if s.insecure_skip_bootstrap_tls_verify && is_production s
      then err insecure_in_production
      else if is_https s
      then (if s.insecure_skip_bootstrap_tls_verify then ok unverified else gateway_trust_context s)
      else if is_production s
      then err clear_in_production
      else ok unverified
