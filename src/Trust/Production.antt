-- ===== src/Trust/Production.antt =====
-- What production means to the bootstrap checks and to the egress guard.
use tracedown_probe_agent.Base.{ℕ, List, ◌≡◌, ◌≢◌, refl, ◌∙◌, ap, true, none, map, arith}
use tracedown_probe_agent.Bytes.{text_eq, text_eq_sound}
use tracedown_probe_agent.Spaces.{strip, strip_left, is_blank}
use tracedown_probe_agent.Result.{ok}
use tracedown_probe_agent.Egress.{lower}
use tracedown_probe_agent.Config.{AgentSettings, is_truthy, production, egress_guard_enabled}
use tracedown_probe_agent.Config
use tracedown_probe_agent.Trust.{
  Outside, Verify, unverified, is_production, resolve_bootstrap_verify,
}
use tracedown_probe_agent.Trust.Resolved.{resolve_bootstrap_verify-unverified_iff}

abbrev normalised : List ℕ → List ℕ
normalised t = map lower (strip t)

normalised-production : text_eq (normalised production) production ≡ true
unfolding strip strip_left is_blank
normalised-production = refl

-- What is production by the setting's own reading is production to the bootstrap checks.
pub is_production_stricter :
    (s : AgentSettings) → Config.is_production s ≡ true → is_production s ≡ true
unfolding Config.is_production is_production
is_production_stricter s h =
    ap (λ t. text_eq (normalised t) production) (text_eq_sound s.deployment_env production h)
    ∙ normalised-production

egress_guard_production :
    (s : AgentSettings)
    → s.egress_guard ≡ none
    → egress_guard_enabled s ≡ true
    → Config.is_production s ≡ true
unfolding egress_guard_enabled
egress_guard_production s n h = ground arith

-- Where the egress guard is left to its default and is on, the bootstrap request is never sent
-- unverified.
pub egress_guard-resolve_bootstrap_verify :
    (o : Outside) (s : AgentSettings) (v : Verify)
    → s.egress_guard ≡ none
    → egress_guard_enabled s ≡ true
    → resolve_bootstrap_verify o s ≡ ok v
    → v ≢ unverified
egress_guard-resolve_bootstrap_verify o s v n g h bad =
    let strict = is_production_stricter s (egress_guard_production s n g) in
    let (outside, _) = (resolve_bootstrap_verify-unverified_iff o s).0 (h ∙ ap ok bad) in
    ground arith
