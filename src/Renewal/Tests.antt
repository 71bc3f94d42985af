-- ===== src/Renewal/Tests.antt =====
-- Renewals of a small agent, and the theorems on them.
use tracedown_probe_agent.Writes.{Disk}
use tracedown_probe_agent.Base.{
  ◌≡◌, ◌≢◌, refl, sym, ap, ◌∙◌, Bool, true, false, Option, none, some, List, [], ◌∷◌, Text, codes,
  any, all,
}
use tracedown_probe_agent.Bytes.{text_eq}
use tracedown_probe_agent.Spaces.{strip, strip_left, is_blank}
use tracedown_probe_agent.Config.{AgentSettings}
use tracedown_probe_agent.Trust.{gateway_trust_context}
use tracedown_probe_agent.CaPins.{
  read_pins, write_pins, ca_fingerprints, bundle_preserves_pins, split_lines,
}
use tracedown_probe_agent.CaPins.Stored.{in_set, read_pins-write_pins}
use tracedown_probe_agent.Renewal.{
  absent, a_string, not_a_string, bad_ca_root, Transport, clear, mutual_tls, front, Answer, Post,
  answered, connect_error, failed, drops_trust_anchor, no_certificate, Listener, Outside, Payload,
  over_https, post_front, after_mutual, post_renewal, resolve_slug,
}
use tracedown_probe_agent.Renewal.Causes.{
  Exception, Raised, walk, take_out, is_certificate_rejection,
}
use tracedown_probe_agent.Renewal.Posting.{is_verified, is_front, post_renewal_verified}
use tracedown_probe_agent.Renewal.Install.{
  renew_files, sign_and_send, send, receive, accept, keeps_anchor, preserves, write_root, install,
  write_ca, advance_pins, write_certificate, atomic_write, renew, is_early, renew_named, renew_due,
  renew_present, renew_if_needed,
}
use tracedown_probe_agent.Renewal.Endings.{renew_files-refused}
use tracedown_probe_agent.Renewal.Installed.{IsInstalled, renew_files-IsInstalled}
use tracedown_probe_agent.Renewal.Continuity.{Continues, IsAnswered}
use tracedown_probe_agent.Renewal.Listening.{renew_if_needed-Continues}

abbrev settings : AgentSettings
settings = record {
  bootstrap_token = [];
  scheduler_url = codes "https://gateway.example.com";
  bootstrap_ca_bundle = [];
  bootstrap_pin_sha256 = [];
  insecure_skip_bootstrap_tls_verify = false;
  deployment_env = codes "production";
  slug = codes "agent-1";
  renew_before_days = 30;
  egress_guard = none;
  host = codes "0.0.0.0";
  port = 8443;
  advertised_host = [];
  advertised_port = none;
  storage_backend = codes "filesystem";
  storage_dir = codes "/data/bodies";
  s3_bucket = [];
  s3_prefix = [];
  user_agent = [];
  max_concurrency = 256;
}

-- Two objects that are one another's cause.
abbrev cycle : List Exception
cycle =
    record { id = 0; is_certificate = false; cause = some 1; context = none }
    ∷ record { id = 1; is_certificate = false; cause = none; context = some 0 }
    ∷ []

-- A connection error whose context is a certificate's rejection.
abbrev rejection : Raised
rejection = record {
  current = 7;
  objects =
      record { id = 7; is_certificate = false; cause = none; context = some 3 }
      ∷ record { id = 3; is_certificate = true; cause = none; context = none }
      ∷ [];
}

abbrev by_transport : Answer → Transport → Post
by_transport a clear = failed
by_transport a mutual_tls = connect_error rejection
by_transport a (front v) = answered a

-- A platform whose bundle's text is its only certificate, behind a proxy that terminates TLS.
abbrev platform : Answer → Outside
platform a = record {
  trust = record {
    scheme = λ url. codes "https";
    host_port = λ url. none;
    peer_certificate = λ host port. none;
    sha256 = λ der. der;
    is_file = λ path. false;
  };
  certificates = record { load_pem = λ bundle. some (bundle ∷ []); sha256 = λ der. der };
  new_key = codes "key2";
  new_csr = codes "csr2";
  sign = λ key csr. some key;
  client_context = λ d. true;
  post = λ t p. by_transport a t;
  takes = λ f t. true;
  leaves = λ t. none;
  loads_chain = λ cert key. true;
  loads_bundle = λ ca. true;
  not_after = λ cert. some 1000;
  now = 500;
}

abbrev disk : Disk
disk = record {
  key = some (codes "key1");
  cert = some (codes "cert1");
  ca = some (codes "ca1");
  pins = some (codes "ca1\n");
  slug = none;
}

abbrev good : Answer
good = record { certificate_pem = some (codes "cert2"); ca_root_pem = a_string (codes "ca1") }

abbrev swapped : Answer
swapped = record { certificate_pem = some (codes "cert2"); ca_root_pem = a_string (codes "ca9") }

abbrev bare : Answer
bare = record { certificate_pem = none; ca_root_pem = absent }

abbrev request : Payload
request = record { slug = codes "agent-1"; csr = codes "csr2"; signature = codes "key1" }

fronted_run :
    (over_https (platform good) settings ≡ true)
    × (any is_front (post_renewal (platform good) settings disk request).0 ≡ true)
    × (is_certificate_rejection rejection ≡ true)
unfolding over_https post_renewal after_mutual post_front gateway_trust_context
    is_certificate_rejection walk take_out
fronted_run = (refl, refl, refl)

good_run : (renew_files (platform good) settings (codes "agent-1") disk).error ≡ none
unfolding renew_files sign_and_send send receive post_renewal over_https after_mutual post_front
    gateway_trust_context is_certificate_rejection walk take_out accept keeps_anchor preserves
    install write_root write_ca advance_pins write_certificate atomic_write ca_fingerprints
    bundle_preserves_pins read_pins split_lines strip strip_left is_blank
good_run = refl

swapped_run :
    (renew_files (platform swapped) settings (codes "agent-1") disk).error ≡ some drops_trust_anchor
unfolding renew_files sign_and_send send receive post_renewal over_https after_mutual post_front
    gateway_trust_context is_certificate_rejection walk take_out accept keeps_anchor preserves
    install write_root write_ca advance_pins write_certificate atomic_write ca_fingerprints
    bundle_preserves_pins read_pins split_lines strip strip_left is_blank
swapped_run = refl

-- An answer without a certificate leaves the new key beside the old certificate.
bare_run :
    ((renew_files (platform bare) settings (codes "agent-1") disk).error ≡ some no_certificate)
    × ((renew_files (platform bare) settings (codes "agent-1") disk).disk.key ≡ some (codes "key2"))
    × ((renew_files (platform bare) settings (codes "agent-1") disk).disk.cert
        ≡ some (codes "cert1"))
unfolding renew_files sign_and_send send receive post_renewal over_https after_mutual post_front
    gateway_trust_context is_certificate_rejection walk take_out accept keeps_anchor preserves
    install write_root write_ca advance_pins write_certificate atomic_write ca_fingerprints
    bundle_preserves_pins read_pins split_lines strip strip_left is_blank
bare_run = (refl, refl, refl)

-- One whose bundle is no string is refused where pins are recorded, and else found out too late.
abbrev odd : Answer
odd = record { certificate_pem = some (codes "cert2"); ca_root_pem = not_a_string }

odd_run :
    ((renew_files (platform odd) settings (codes "agent-1") disk).error ≡ some drops_trust_anchor)
    × ((renew_files (platform odd) settings (codes "agent-1") (record disk { pins = none })).error
        ≡ some bad_ca_root)
    × ((renew_files
          (platform odd)
          settings
          (codes "agent-1")
          (record disk { pins = none })).disk.cert
        ≡ some (codes "cert2"))
unfolding renew_files sign_and_send send receive post_renewal over_https after_mutual post_front
    gateway_trust_context is_certificate_rejection walk take_out accept keeps_anchor preserves
    install write_root write_ca advance_pins write_certificate atomic_write ca_fingerprints
    bundle_preserves_pins read_pins split_lines strip strip_left is_blank
odd_run = (refl, refl, refl)

renewed_key : (renew_if_needed (platform good) settings none disk).0.key ≡ some (codes "key2")
unfolding renew_if_needed renew_present renew_due renew_named resolve_slug renew is_early
    renew_files sign_and_send send receive post_renewal over_https after_mutual post_front
    gateway_trust_context is_certificate_rejection walk take_out accept keeps_anchor preserves
    install write_root write_ca advance_pins write_certificate atomic_write ca_fingerprints
    bundle_preserves_pins read_pins split_lines strip strip_left is_blank
renewed_key = refl

abbrev is_second : Option Text → Bool
is_second none = false
is_second (some t) = text_eq t (codes "key2")

renewed_run : (renew_if_needed (platform good) settings none disk).0 ≢ disk
renewed_run h =
    let same : true ≡ false = ap is_second (sym renewed_key ∙ ap (λ d. d.key) h) in cc same

read_pins-write_pins_example :
    in_set (codes "ca1") (read_pins (some (write_pins (codes "ca2" ∷ codes "ca1" ∷ []))))
    ≡ in_set (codes "ca1") (codes "ca2" ∷ codes "ca1" ∷ [])
unfolding is_blank
read_pins-write_pins_example =
    read_pins-write_pins (codes "ca2" ∷ codes "ca1" ∷ [])
      (((λ e. cc e), refl), (((λ e. cc e), refl), tt)) (codes "ca1")

post_renewal_verified_example :
    all is_verified (post_renewal (platform good) settings disk request).0 ≡ true
post_renewal_verified_example =
    post_renewal_verified (platform good) settings disk request fronted_run.0

renew_files-refused_example :
    (renew_files (platform swapped) settings (codes "agent-1") disk).disk ≡ disk
renew_files-refused_example =
    renew_files-refused (platform swapped) settings (codes "agent-1") disk drops_trust_anchor
      swapped_run (λ e. cc e) (λ e. cc e) (λ e. cc e)

renew_files-IsInstalled_example :
    (a : Answer) × IsAnswered (platform good) a
    × IsInstalled
        (platform good)
        a
        (renew_files (platform good) settings (codes "agent-1") disk).disk
renew_files-IsInstalled_example =
    renew_files-IsInstalled (platform good) settings (codes "agent-1") disk good_run

renew_if_needed-Continues_example :
    Continues (platform swapped) disk (renew_if_needed (platform swapped) settings none disk).0
renew_if_needed-Continues_example = renew_if_needed-Continues (platform swapped) settings none disk

abbrev listener : Listener
listener = record {
  served_cert = some (codes "cert1");
  served_key = some (codes "key1");
  bundles = [];
}
