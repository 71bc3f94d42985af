-- ===== src/Contexts/Tests.antt =====
-- A library of contexts that are what is read of them, and the theorems at it.
use tracedown_probe_agent.Base.{
  ◌≡◌, refl, sym, true, false, Option, none, some, [], ◌∷◌, codes, if◌then◌else◌,
}
use tracedown_probe_agent.Writes.{Disk}
use tracedown_probe_agent.Trust.{pinned_context}
use tracedown_probe_agent.Contexts.{
  cert_none, cert_required, Anchor, bundle_file, bundle, system, Settings, refuses, new_context,
  with_tls12, with_hostname, with_mode, with_partial_chain, without_strict, with_chain, with_anchor,
  Ssl, IsSsl, context_of, build_pinned_context, build_server_context, build_client_context,
}
use tracedown_probe_agent.Contexts.Verifying.{
  gateway_settings, context_of-settings, mutual_settings, mutual_contexts,
}

abbrev begin_with : Anchor → Settings
begin_with a = record {
  is_server = false;
  at_least_tls12 = true;
  check_hostname = true;
  verify_mode = cert_required;
  partial_chain = true;
  strict = true;
  anchors = a ∷ [];
  chain = none;
}

abbrev library : Ssl
library = record {
  Context = Settings;
  view = λ c. c;
  begins_tls12 = true;
  begins_partial_chain = true;
  begins_strict = true;
  client = new_context true false true cert_required;
  server = new_context true true false cert_none;
  default_with = λ file. some (begin_with (bundle_file file));
  default_system = begin_with system;
  require_tls12 = λ c. with_tls12 c;
  set_check_hostname = with_hostname;
  set_verify_mode =
      λ mode c. if refuses mode c.check_hostname then none else some (with_mode mode c);
  add_partial_chain = λ c. with_partial_chain c;
  drop_strict = λ c. without_strict c;
  load_cert_chain = λ cert key c. some (with_chain cert key c);
  load_verify_locations = λ a c. some (with_anchor a c);
}

some_injective : {a b : Settings} → ◌≡◌ {A = Option Settings} (some a) (some b) → a ≡ b
some_injective h = cc h

library-IsSsl : IsSsl library
library-IsSsl = record {
  view-client = refl;
  view-server = refl;
  view-default_system = refl;
  view-default_with = λ file c e. sym (some_injective e);
  view-require_tls12 = λ c. refl;
  view-set_check_hostname = λ checks c. refl;
  set_verify_mode-refuses = λ mode c h. rw h refl;
  view-set_verify_mode = λ mode c h. (with_mode mode c, rw h refl, refl);
  view-add_partial_chain = λ c. refl;
  view-drop_strict = λ c. refl;
  view-load_cert_chain = λ cert key c c' e. sym (some_injective e);
  view-load_verify_locations = λ a c c' e. sym (some_injective e);
}

abbrev der : Settings
der = gateway_settings library (pinned_context (codes "cert"))

-- Setting CERT_NONE while names are checked raises.
too_early : library.set_verify_mode cert_none library.client ≡ none
too_early = refl

context_of-settings_example :
    library.view der ≡ gateway_settings library (pinned_context (codes "cert"))
unfolding context_of build_pinned_context
context_of-settings_example =
    context_of-settings library library-IsSsl (pinned_context (codes "cert")) der refl

abbrev disk : Disk
disk = record {
  key = some (codes "key");
  cert = some (codes "cert");
  ca = some (codes "ca");
  pins = none;
  slug = none;
}

mutual_contexts_example :
    ((c : Settings) × (build_server_context library disk ≡ some c)
      × (c ≡ mutual_settings library library-IsSsl true disk))
    × ((c : Settings) × (build_client_context library disk ≡ some c)
        × (c ≡ mutual_settings library library-IsSsl false disk))
mutual_contexts_example =
    mutual_contexts library library-IsSsl disk
      (λ c. (with_chain disk.cert disk.key c, refl), λ c. (with_anchor (bundle disk.ca) c, refl))
