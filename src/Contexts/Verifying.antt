-- ===== src/Contexts/Verifying.antt =====
-- What the contexts accept, by the documented behaviour of `ssl`.
use tracedown_probe_agent.Base.{
  ℕ, ◌≡◌, refl, sym, ap, ◌∙◌, Bool, true, false, Option, none, some, List, [], ◌∷◌, Text,
}
use tracedown_probe_agent.Writes.{Disk}
use tracedown_probe_agent.Trust.{
  Verify, unverified, pinned_context, ca_bundle_context, system_trust_context,
}
use tracedown_probe_agent.Contexts.{
  VerifyMode, cert_none, cert_required, certificate, bundle_file, bundle, system, Settings, refuses,
  new_context, with_tls12, with_hostname, with_mode, with_partial_chain, without_strict, with_chain,
  with_anchor, Ssl, IsSsl, and_call, build_server_context, build_client_context, peek_context,
  build_pinned_context, build_bundle_context, build_system_context, context_of,
}

-- What a context for the gateway comes to: the peer is verified, over TLS 1.2 at least, against the
-- one thing that is configured, and by its name but for a pinned certificate.
abbrev pub gateway_settings : Ssl → Verify → Settings
gateway_settings ssl unverified =
    with_tls12
      (with_mode cert_none (with_hostname false (new_context true false true cert_required)))
gateway_settings ssl (pinned_context der) = record {
  is_server = false;
  at_least_tls12 = true;
  check_hostname = false;
  verify_mode = cert_required;
  partial_chain = true;
  strict = false;
  anchors = certificate der ∷ [];
  chain = none;
}
gateway_settings ssl (ca_bundle_context path) = record {
  is_server = false;
  at_least_tls12 = true;
  check_hostname = true;
  verify_mode = cert_required;
  partial_chain = ssl.begins_partial_chain;
  strict = false;
  anchors = bundle_file path ∷ [];
  chain = none;
}
gateway_settings ssl system_trust_context = record {
  is_server = false;
  at_least_tls12 = true;
  check_hostname = true;
  verify_mode = cert_required;
  partial_chain = ssl.begins_partial_chain;
  strict = ssl.begins_strict;
  anchors = system ∷ [];
  chain = none;
}

-- A call that is made behind another, and does not raise.
and_call-some {ℓ} :
    {C : Type ℓ} (o : Option C) (call : C → Option C) (c : C)
    → and_call o call ≡ some c
    → (b : C) × (o ≡ some b) × (call b ≡ some c)
and_call-some none call c h = cc h
and_call-some (some b) call c h = (b, refl, h)

some_injective {ℓ} : {C : Type ℓ} {a b : C} → ◌≡◌ {A = Option C} (some a) (some b) → a ≡ b
some_injective h = cc h

module _ (ssl : Ssl) (lib : IsSsl ssl) where
  -- A client's context that checks no names.
  abbrev nameless : ssl.Context
  nameless = ssl.set_check_hostname false (ssl.require_tls12 ssl.client)

  view-nameless :
      ssl.view nameless
      ≡ with_hostname false (with_tls12 (new_context ssl.begins_tls12 false true cert_required))
  view-nameless =
      lib.view-set_check_hostname false (ssl.require_tls12 ssl.client)
      ∙ ap (with_hostname false) (lib.view-require_tls12 ssl.client ∙ ap with_tls12 lib.view-client)

  not_refused : (mode : VerifyMode) → refuses mode (ssl.view nameless).check_hostname ≡ false
  not_refused cert_none = ap (λ (v : Settings). v.check_hostname) view-nameless
  not_refused cert_required = refl

  view_mode :
      (mode : VerifyMode) (c c' : ssl.Context)
      → refuses mode (ssl.view c).check_hostname ≡ false
      → ssl.set_verify_mode mode c ≡ some c'
      → ssl.view c' ≡ with_mode mode (ssl.view c)
  view_mode mode c c' free h =
      let (b, made, seen) = lib.view-set_verify_mode mode c free in
      ap ssl.view (some_injective (sym h ∙ made)) ∙ seen

  pinned-settings :
      (der : List ℕ) (c : ssl.Context)
      → build_pinned_context ssl der ≡ some c
      → ssl.view c ≡ gateway_settings ssl (pinned_context der)
  unfolding build_pinned_context
  pinned-settings der c h =
      let (b, made, loaded) =
        and_call-some (ssl.set_verify_mode cert_required nameless)
          (λ x. ssl.load_verify_locations (certificate der) (ssl.add_partial_chain x)) c h in
      lib.view-load_verify_locations (certificate der) (ssl.add_partial_chain b) c loaded
      ∙ ap (with_anchor (certificate der)) (
          lib.view-add_partial_chain b
          ∙ ap (λ v. with_partial_chain v)
              (view_mode cert_required nameless b refl made
                ∙ ap (with_mode cert_required) view-nameless))

  bundle-settings :
      (path : Text) (c : ssl.Context)
      → build_bundle_context ssl path ≡ some c
      → ssl.view c ≡ gateway_settings ssl (ca_bundle_context path)
  unfolding build_bundle_context
  bundle-settings path c h =
      let (b, made, same) =
        and_call-some (ssl.default_with path) (λ x. some (ssl.drop_strict (ssl.require_tls12 x))) c
          h in
      ap ssl.view (sym (some_injective same))
      ∙ lib.view-drop_strict (ssl.require_tls12 b)
      ∙ ap (λ v. without_strict v)
          (lib.view-require_tls12 b ∙ ap (λ v. with_tls12 v) (lib.view-default_with path b made))

  system-settings : ssl.view (build_system_context ssl) ≡ gateway_settings ssl system_trust_context
  unfolding build_system_context
  system-settings =
      lib.view-require_tls12 ssl.default_system ∙ ap (λ v. with_tls12 v) lib.view-default_system

  -- A context that is built for the gateway verifies its peer, over TLS 1.2 at least: for a pinned
  -- certificate against that certificate alone, whatever its name; for a bundle against that bundle,
  -- and else against the system's trust store, with the peer's name.
  pub context_of-settings :
      (v : Verify) (c : ssl.Context)
      → context_of ssl v ≡ some c
      → ssl.view c ≡ gateway_settings ssl v
  unfolding context_of
  context_of-settings unverified c h = cc h
  context_of-settings (pinned_context der) c h = pinned-settings der c h
  context_of-settings (ca_bundle_context path) c h = bundle-settings path c h
  context_of-settings system_trust_context c h =
      ap ssl.view (sym (some_injective h)) ∙ system-settings

  -- The context that looks at a certificate can be built, and verifies nothing.
  pub peek_context_lem :
      (c : ssl.Context) × (peek_context ssl ≡ some c) × ((ssl.view c).verify_mode ≡ cert_none)
  unfolding peek_context
  peek_context_lem =
      let (c, made, seen) = lib.view-set_verify_mode cert_none nameless (not_refused cert_none) in
      (c, made, ap (λ (v : Settings). v.verify_mode) seen)

  -- What the agent's own files make of a context, for its server or its client.
  abbrev pub mutual_settings : Bool → Disk → Settings
  mutual_settings is_server d = record {
    is_server = is_server;
    at_least_tls12 = true;
    check_hostname = false;
    verify_mode = cert_required;
    partial_chain = false;
    strict = false;
    anchors = bundle d.ca ∷ [];
    chain = some (d.cert, d.key);
  }

  chained :
      (start : Settings) (base c1 c2 : ssl.Context) (d : Disk)
      → ssl.view base ≡ start
      → ssl.load_cert_chain d.cert d.key (ssl.require_tls12 base) ≡ some c1
      → ssl.load_verify_locations (bundle d.ca) c1 ≡ some c2
      → ssl.view c2 ≡ with_anchor (bundle d.ca) (with_chain d.cert d.key (with_tls12 start))
  chained start base c1 c2 d e chain anchors =
      lib.view-load_verify_locations (bundle d.ca) c1 c2 anchors
      ∙ ap (with_anchor (bundle d.ca)) (
          lib.view-load_cert_chain d.cert d.key (ssl.require_tls12 base) c1 chain
          ∙ ap (with_chain d.cert d.key) (lib.view-require_tls12 base ∙ ap (λ v. with_tls12 v) e))

  server-settings :
      (d : Disk) (c : ssl.Context)
      → build_server_context ssl d ≡ some c
      → ssl.view c ≡ mutual_settings true d
  unfolding build_server_context
  server-settings d c h =
      let (c1, chain, h1) =
        and_call-some (ssl.load_cert_chain d.cert d.key (ssl.require_tls12 ssl.server)) _ c h in
      let (c2, anchors, h2) = and_call-some (ssl.load_verify_locations (bundle d.ca) c1) _ c h1 in
      let (c3, made, same) = and_call-some (ssl.set_verify_mode cert_required c2) _ c h2 in
      ap ssl.view (sym (some_injective same))
      ∙ lib.view-set_check_hostname false c3
      ∙ ap (with_hostname false) (
          view_mode cert_required c2 c3 refl made
          ∙ ap (with_mode cert_required) (
              chained (new_context ssl.begins_tls12 true false cert_none) ssl.server c1 c2 d
                lib.view-server chain anchors))

  client-settings :
      (d : Disk) (c : ssl.Context)
      → build_client_context ssl d ≡ some c
      → ssl.view c ≡ mutual_settings false d
  unfolding build_client_context
  client-settings d c h =
      let (c1, chain, h1) =
        and_call-some (ssl.load_cert_chain d.cert d.key (ssl.require_tls12 ssl.client)) _ c h in
      let (c2, anchors, h2) = and_call-some (ssl.load_verify_locations (bundle d.ca) c1) _ c h1 in
      view_mode cert_required (ssl.set_check_hostname false c2) c refl h2
      ∙ ap (with_mode cert_required) (
          lib.view-set_check_hostname false c2
          ∙ ap (with_hostname false) (
              chained (new_context ssl.begins_tls12 false true cert_required) ssl.client c1 c2 d
                lib.view-client chain anchors))

  -- The files can be loaded.
  abbrev pub Loads : Disk → Type 0
  Loads d =
      ((c : ssl.Context) → (c' : ssl.Context) × (ssl.load_cert_chain d.cert d.key c ≡ some c'))
      × ((c : ssl.Context)
          → (c' : ssl.Context) × (ssl.load_verify_locations (bundle d.ca) c ≡ some c'))

  -- A step that is taken with what the calls before it gave.
  and_call_by {ℓ} :
      {C : Type ℓ} (o : Option C) (call : C → Option C) (b : C)
      → o ≡ some b
      → and_call o call ≡ call b
  and_call_by o call b e = ap (λ x. and_call x call) e

  server_total : (d : Disk) → Loads d → (c : ssl.Context) × (build_server_context ssl d ≡ some c)
  unfolding build_server_context
  server_total d (chain, anchors) =
      let (c1, e1) = chain (ssl.require_tls12 ssl.server) in
      let (c2, e2) = anchors c1 in
      let (c3, e3, seen) = lib.view-set_verify_mode cert_required c2 refl in
      (
        ssl.set_check_hostname false c3,
        and_call_by (ssl.load_cert_chain d.cert d.key (ssl.require_tls12 ssl.server)) _ c1 e1
            ∙ and_call_by (ssl.load_verify_locations (bundle d.ca) c1) _ c2 e2
            ∙ and_call_by (ssl.set_verify_mode cert_required c2) _ c3 e3,
      )

  client_total : (d : Disk) → Loads d → (c : ssl.Context) × (build_client_context ssl d ≡ some c)
  unfolding build_client_context
  client_total d (chain, anchors) =
      let (c1, e1) = chain (ssl.require_tls12 ssl.client) in
      let (c2, e2) = anchors c1 in
      let (c3, e3, seen) =
        lib.view-set_verify_mode cert_required (ssl.set_check_hostname false c2) refl in
      (
        c3,
        and_call_by (ssl.load_cert_chain d.cert d.key (ssl.require_tls12 ssl.client)) _ c1 e1
            ∙ and_call_by (ssl.load_verify_locations (bundle d.ca) c1) _ c2 e2
            ∙ e3,
      )

  -- Where the files can be loaded, the contexts for mutual TLS are built, the server's and the
  -- client's; each presents the agent's pair, requires a certificate of its peer, whatever the name in
  -- it, and trusts the CA bundle on disk and nothing else, over TLS 1.2 at least.
  pub mutual_contexts :
      (d : Disk)
      → Loads d
      → ((c : ssl.Context) × (build_server_context ssl d ≡ some c)
          × (ssl.view c ≡ mutual_settings true d))
        × ((c : ssl.Context) × (build_client_context ssl d ≡ some c)
            × (ssl.view c ≡ mutual_settings false d))
  mutual_contexts d loads =
      let (c, e) = server_total d loads in
      let (b, h) = client_total d loads in
      ((c, e, server-settings d c e), (b, h, client-settings d b h))
