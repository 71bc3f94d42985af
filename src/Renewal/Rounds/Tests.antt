-- ===== src/Renewal/Rounds/Tests.antt =====
-- Rounds of the renewal loop, and the theorem on them. Every character of a bundle is a certificate
-- here, and its own digest.
use tracedown_probe_agent.Writes.{FileName, pins_file, Disk}
use tracedown_probe_agent.Base.{
  ◌≡◌, refl, Bool, true, false, Option, none, some, [], ◌∷◌, Text, codes, map, subst, sym, ◌||◌,
  Bool-cases, inl, inr, if◌then◌else◌,
}
use tracedown_probe_agent.Bytes.{text_eq}
use tracedown_probe_agent.Spaces.{strip, strip_left, is_blank}
use tracedown_probe_agent.Config.{AgentSettings}
use tracedown_probe_agent.CaPins.{
  Certificates, read_pins, write_pins, ca_fingerprints, bundle_preserves_pins, split_lines,
  sorted_pins, insert_pin, join_lines,
}
use tracedown_probe_agent.CaPins.Stored.{IsWord}
use tracedown_probe_agent.Renewal.{
  a_string, Answer, answered, Outside, over_https, after_mutual, post_renewal, resolve_slug,
}
use tracedown_probe_agent.Renewal.Install
use tracedown_probe_agent.Renewal.Rounds.{renewal_rounds}
use tracedown_probe_agent.Renewal.Anchored.{AllGood, IsUnmixed, IsRooted, renewal_rounds-IsRooted}

abbrev settings : AgentSettings
settings = record {
  bootstrap_token = [];
  scheduler_url = codes "https://gateway.example.com";
  bootstrap_ca_bundle = [];
  bootstrap_pin_sha256 = [];
  insecure_skip_bootstrap_tls_verify = false;
  deployment_env = codes "production";
  slug = codes "agent-1";
  renew_before_days = 30;
  egress_guard = none;
  host = codes "0.0.0.0";
  port = 8443;
  advertised_host = [];
  advertised_port = none;
  storage_backend = codes "filesystem";
  storage_dir = codes "/data/bodies";
  s3_bucket = [];
  s3_prefix = [];
  user_agent = [];
  max_concurrency = 256;
}

-- Digests that tell the CAs `a` and `c` from one another and from all others.
abbrev digest : Text → Text
digest der =
    if text_eq der (codes "a")
    then codes "a"
    else if text_eq der (codes "c")
    then codes "c"
    else codes "x"

abbrev certificates : Certificates
certificates = record { load_pem = λ bundle. some (map (λ c. c ∷ []) bundle); sha256 = digest }

abbrev characters : Certificates
characters = record { load_pem = λ bundle. some (map (λ c. c ∷ []) bundle); sha256 = λ der. der }

abbrev not_pins : FileName → Bool
not_pins pins_file = false
not_pins _ = true

-- A round that is answered with the bundle; `full` says whether the disk is too full for the pins,
-- whose file is then left empty.
abbrev round : Certificates → Bool → Text → Outside
round c full bundle = record {
  trust = record {
    scheme = λ url. codes "https";
    host_port = λ url. none;
    peer_certificate = λ host port. none;
    sha256 = λ der. der;
    is_file = λ path. false;
  };
  certificates = c;
  new_key = codes "key2";
  new_csr = codes "csr2";
  sign = λ key csr. some key;
  client_context = λ d. true;
  post = λ t p.
      answered (record { certificate_pem = some (codes "cert2"); ca_root_pem = a_string bundle });
  takes = λ f t. if full then not_pins f else true;
  leaves = λ t. some [];
  loads_chain = λ cert key. true;
  loads_bundle = λ ca. true;
  not_after = λ cert. some 1000;
  now = 500;
}

abbrev disk : Disk
disk = record {
  key = some (codes "key1");
  cert = some (codes "cert1");
  ca = some (codes "a");
  pins = some (codes "a\n");
  slug = none;
}

-- A bundle of the pinned CA and another is taken, and pins both: the next bundle is the other alone.
two_answers :
    (renewal_rounds settings
      (round characters false (codes "ab") ∷ round characters false (codes "b") ∷ [])
      none
      disk).0.ca
    ≡ some (codes "b")
unfolding renewal_rounds Install.renew_if_needed Install.renew_present Install.renew_due
    Install.renew_named resolve_slug Install.renew Install.is_early Install.renew_files
    Install.sign_and_send Install.send Install.receive post_renewal over_https after_mutual
    Install.accept Install.keeps_anchor Install.install Install.write_ca Install.advance_pins
    Install.write_pins_file Install.write_certificate Install.atomic_write ca_fingerprints
    bundle_preserves_pins read_pins write_pins sorted_pins insert_pin join_lines split_lines strip
    strip_left is_blank
two_answers = refl

one_answer :
    (renewal_rounds settings (round characters false (codes "b") ∷ []) none disk).0.ca
    ≡ some (codes "a")
unfolding renewal_rounds Install.renew_if_needed Install.renew_present Install.renew_due
    Install.renew_named resolve_slug Install.renew Install.is_early Install.renew_files
    Install.sign_and_send Install.send Install.receive post_renewal over_https after_mutual
    Install.accept Install.keeps_anchor Install.install Install.write_ca Install.advance_pins
    Install.write_pins_file Install.write_certificate Install.atomic_write ca_fingerprints
    bundle_preserves_pins read_pins write_pins sorted_pins insert_pin join_lines split_lines strip
    strip_left is_blank
one_answer = refl

-- A disk that is full while the pins are written leaves none, and the next bundle is taken whatever
-- it holds.
emptied_pins :
    (renewal_rounds settings
      (round characters true (codes "a") ∷ round characters false (codes "b") ∷ [])
      none
      disk).0.ca
    ≡ some (codes "b")
unfolding renewal_rounds Install.renew_if_needed Install.renew_present Install.renew_due
    Install.renew_named resolve_slug Install.renew Install.is_early Install.renew_files
    Install.sign_and_send Install.send Install.receive post_renewal over_https after_mutual
    Install.accept Install.keeps_anchor Install.install Install.write_ca Install.advance_pins
    Install.write_pins_file Install.write_certificate Install.atomic_write ca_fingerprints
    bundle_preserves_pins read_pins write_pins sorted_pins insert_pin join_lines split_lines strip
    strip_left is_blank
emptied_pins = refl

abbrev is_ours : Text → Bool
is_ours t = text_eq t (codes "a") || text_eq t (codes "c")

digest-IsWord : (der : Text) → IsWord (certificates.sha256 der)
unfolding is_blank
digest-IsWord der = elim (Bool-cases (text_eq der (codes "a"))) [
  | inl e ↦ rw e ((λ k. cc k), refl)
  | inr e ↦ elim (Bool-cases (text_eq der (codes "c"))) [
    | inl h ↦ rw (e, h) ((λ k. cc k), refl)
    | inr h ↦ rw (e, h) ((λ k. cc k), refl)
  ]
]

abbrev rotation : Outside
rotation = round certificates false (codes "ac")

answered_injective : {a b : Answer} → answered a ≡ answered b → a ≡ b
answered_injective h = cc h

some_injective : {s t : Text} → ◌≡◌ {A = Option Text} (some s) (some t) → s ≡ t
some_injective h = cc h

unmixed : IsUnmixed is_ours certificates rotation
unfolding ca_fingerprints
unmixed = (
  refl,
  λ t. refl,
  λ a (transport, request, e) t root shared.
      let same =
        some_injective
          (subst (λ b. Install.ca_root_of b ≡ some t) (sym (answered_injective e)) root) in
      subst (λ u. AllGood is_ours (ca_fingerprints certificates u)) same (refl, (refl, tt)),
)

renewal_rounds-IsRooted_example :
    IsRooted is_ours certificates
      (some (codes "a"))
      (renewal_rounds settings (rotation ∷ []) none disk).0.ca
      (renewal_rounds settings (rotation ∷ []) none disk).0.pins
unfolding read_pins split_lines strip strip_left is_blank
renewal_rounds-IsRooted_example =
    renewal_rounds-IsRooted is_ours certificates digest-IsWord settings (rotation ∷ []) none disk
      (unmixed, tt) (λ e. cc e) (refl, tt)
