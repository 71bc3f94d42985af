-- ===== src/Trust/Resolved.antt =====
-- Which trust a configuration resolves to.
use tracedown_probe_agent.Base.{ℕ, ◌≡◌, ◌≢◌, ◌↔◌, ◌⊎◌, true, false, List, Text, any, arith}
use tracedown_probe_agent.Bytes.{text_eq}
use tracedown_probe_agent.Result.{ok, >>=-eq-ok}
use tracedown_probe_agent.Config.{AgentSettings, is_truthy}
use tracedown_probe_agent.Trust.Pins.{normalize_fingerprints}
use tracedown_probe_agent.Trust.{
  Outside, Verify, unverified, pinned_context, is_production, is_https, pin_and_bind, pinned,
  pins_of, host_and_port, fetch_peer_certificate, bundle_context, gateway_trust_context,
  resolve_bootstrap_verify,
}

module _ (o : Outside) where
  pin_and_bind_lem :
      (pins : List Text) (der : List ℕ) (v : Verify)
      → pin_and_bind o pins der ≡ ok v
      → (v ≡ pinned_context der) × (any (text_eq (o.sha256 der)) pins ≡ true)
  unfolding pin_and_bind
  pin_and_bind_lem pins der v h = ground arith

  pins_of_ok :
      (raw : Text) (pins : List Text)
      → pins_of o raw ≡ ok pins
      → normalize_fingerprints raw ≡ ok pins
  unfolding pins_of
  pins_of_ok raw pins h = ground arith

  -- With a pin configured the request is bound to one certificate, whose fingerprint is among the
  -- configured ones.
  pub pinned_lem :
      (s : AgentSettings) (v : Verify)
      → pinned o s ≡ ok v
      → (pins : List Text) × (der : List ℕ) × (normalize_fingerprints s.bootstrap_pin_sha256
          ≡ ok pins)
        × (v ≡ pinned_context der)
        × (any (text_eq (o.sha256 der)) pins ≡ true)
  unfolding pinned
  pinned_lem s v h =
      let (pins, ep, h1) = >>=-eq-ok (pins_of o s.bootstrap_pin_sha256) _ h in
      let (hp, eh, h2) = >>=-eq-ok (host_and_port o s.scheduler_url) _ h1 in
      let (der, ed, h3) = >>=-eq-ok (fetch_peer_certificate o hp.0 hp.1) _ h2 in
      let (bound, hit) = pin_and_bind_lem pins der v h3 in
      (pins, der, pins_of_ok _ pins ep, bound, hit)

  -- A fingerprint that is configured is always the way the certificate is judged: the bundle and
  -- the system's trust store are not consulted.
  pub pinned_first :
      (s : AgentSettings) (v : Verify)
      → is_truthy s.bootstrap_pin_sha256 ≡ true
      → gateway_trust_context o s ≡ ok v
      → (pins : List Text) × (der : List ℕ) × (normalize_fingerprints s.bootstrap_pin_sha256
          ≡ ok pins)
        × (v ≡ pinned_context der)
        × (any (text_eq (o.sha256 der)) pins ≡ true)
  unfolding gateway_trust_context
  pinned_first s v t h = pinned_lem s v (ground arith)

  bundle_verified : (path : Text) → bundle_context o path ≢ ok unverified
  unfolding bundle_context
  bundle_verified path h = ground arith

  pinned_verified : (s : AgentSettings) → pinned o s ≢ ok unverified
  pinned_verified s h = let (_, _, _, bound, _) = pinned_lem s unverified h in ground arith

  -- The context for the gateway always verifies it.
  pub context_verified : (s : AgentSettings) → gateway_trust_context o s ≢ ok unverified
  unfolding gateway_trust_context
  context_verified s h =
      let pv = pinned_verified s in let bv = bundle_verified s.bootstrap_ca_bundle in ground arith

  -- The bootstrap request is sent unverified exactly outside production, and there only over clear
  -- HTTP or where the setting asks to skip the check.
  pub resolve_bootstrap_verify-unverified_iff :
      (s : AgentSettings)
      → resolve_bootstrap_verify o s ≡ ok unverified
        ↔ (is_production s ≡ false)
          × ((is_https o s ≡ false) ⊎ (s.insecure_skip_bootstrap_tls_verify ≡ true))
  unfolding resolve_bootstrap_verify
  resolve_bootstrap_verify-unverified_iff s = let cv = context_verified s in ground arith
