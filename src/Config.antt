-- ===== src/Config.antt =====
-- src/config.py: the settings that the modelled code reads, and their derived properties.
use tracedown_probe_agent.Base.{ℕ, Bool, true, false, Option, none, some, [], ◌∷◌, Text, codes}
use tracedown_probe_agent.Bytes.{text_eq}
use tracedown_probe_agent.Json.{Json, object, Members, find, nonempty_text}
use tracedown_probe_agent.Spaces.{strip_left}

-- `AgentSettings`, the fields that are read below.
pub record AgentSettings : Type 0 where
  pub bootstrap_token : Text
  pub scheduler_url : Text
  pub bootstrap_ca_bundle : Text
  pub bootstrap_pin_sha256 : Text
  pub insecure_skip_bootstrap_tls_verify : Bool
  pub deployment_env : Text
  pub slug : Text
  pub renew_before_days : ℕ
  pub egress_guard : Option Bool
  pub host : Text
  pub port : ℕ
  pub advertised_host : Text
  pub advertised_port : Option ℕ
  pub storage_backend : Text
  pub storage_dir : Text
  pub s3_bucket : Text
  pub s3_prefix : Text
  pub user_agent : Text
  pub max_concurrency : ℕ

-- A text that Python takes for true.
abbrev pub is_truthy : Text → Bool
is_truthy [] = false
is_truthy (c ∷ s) = true

abbrev pub production : Text
production = codes "production"

-- `AgentSettings.is_production`: the exact value.
unfoldable pub is_production : AgentSettings → Bool
is_production s = text_eq s.deployment_env production

-- `AgentSettings.egress_guard_enabled`
unfoldable pub egress_guard_enabled : AgentSettings → Bool
unfolding is_production
egress_guard_enabled s = elim s.egress_guard [ some b ↦ b | none ↦ is_production s ]

-- A value of the environment or of a constructor's argument for `advertised_port`.
pub data PortValue : Type 0 where
  unset : PortValue
  number : ℕ → PortValue
  text : Text → PortValue

-- `_blank_advertised_port_is_unset`, before pydantic's own conversion.
unfoldable pub blank_advertised_port_is_unset : PortValue → PortValue
unfolding strip_left
blank_advertised_port_is_unset (text s) = elim (strip_left s) [ [] ↦ unset | c ∷ r ↦ text s ]
blank_advertised_port_is_unset v = v

-- The version that a loaded project file declares, or the default.
abbrev declared : Option Json → Text
declared (some (object project)) = elim (nonempty_text (find (codes "version") project)) [
  | none ↦ codes "0.0.0"
  | some version ↦ version
]
declared _ = codes "0.0.0"

-- `_agent_version`, of what `tomllib.load` returns; none where the file cannot be read or parsed.
unfoldable pub agent_version : Option Members → Text
agent_version none = codes "0.0.0"
agent_version (some file) = declared (find (codes "project") file)
