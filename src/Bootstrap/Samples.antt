-- ===== src/Bootstrap/Samples.antt =====
-- A new agent, a gateway and two answers, for the runs in the tests.
use tracedown_probe_agent.Base.{true, false, none, some, [], ◌∷◌, codes}
use tracedown_probe_agent.Config.{AgentSettings}
use tracedown_probe_agent.Writes.{Disk}
use tracedown_probe_agent.Bootstrap.{no_slug, named, Registration, Outside}

abbrev pub settings : AgentSettings
settings = record {
  bootstrap_token = codes "token";
  scheduler_url = codes "https://gateway.example.com";
  bootstrap_ca_bundle = [];
  bootstrap_pin_sha256 = [];
  insecure_skip_bootstrap_tls_verify = false;
  deployment_env = codes "production";
  slug = [];
  renew_before_days = 30;
  egress_guard = none;
  host = codes "0.0.0.0";
  port = 8443;
  advertised_host = codes " probe.example.com ";
  advertised_port = some 443;
  storage_backend = codes "filesystem";
  storage_dir = codes "/data/bodies";
  s3_bucket = [];
  s3_prefix = [];
  user_agent = [];
  max_concurrency = 256;
}

-- A gateway behind a public certificate, which answers every registration alike.
abbrev pub world : Registration → Outside
world a = record {
  trust = record {
    scheme = λ url. codes "https";
    host_port = λ url. none;
    peer_certificate = λ host port. none;
    sha256 = λ der. codes "ab";
    is_file = λ path. false;
  };
  certificates = record { load_pem = λ bundle. some (bundle ∷ []); sha256 = λ der. codes "ab" };
  fqdn = codes "host.local";
  new_key = codes "key1";
  new_csr = codes "csr1";
  post = λ v r. some a;
  takes = λ f t. true;
  leaves = λ f t. none;
}

abbrev pub blank : Disk
blank = record { key = none; cert = none; ca = none; pins = none; slug = none }

abbrev pub granted : Registration
granted = record {
  certificate_pem = some (codes "cert1");
  ca_root_pem = some (codes "ca1");
  slug = named (codes "agent-1");
}

abbrev pub rootless : Registration
rootless = record { certificate_pem = some (codes "cert1"); ca_root_pem = none; slug = no_slug }
