-- ===== src/Contexts.antt =====
-- src/mtls/ssl_context.py, and of src/mtls/bootstrap_trust.py the contexts for the gateway: how the
-- TLS contexts are built, call by call.
--
-- The `ssl` library is outside: its contexts, the calls and what is read of a context. A call that
-- raises is none; among its rules is that a context which checks hostnames refuses CERT_NONE.
pub mod Verifying
mod Tests
use tracedown_probe_agent.Base.{
  ℕ, ◌≡◌, Bool, true, false, Option, none, some, List, [], ◌∷◌, ◌++◌, Text, if◌then◌else◌,
}
use tracedown_probe_agent.Writes.{Disk}
use tracedown_probe_agent.Trust.{
  Verify, unverified, pinned_context, ca_bundle_context, system_trust_context,
}

pub data VerifyMode : Type 0 where
  cert_none cert_required : VerifyMode

-- What a context trusts: a certificate in DER, a bundle's file, a bundle's content, the system.
pub data Anchor : Type 0 where
  certificate : List ℕ → Anchor
  bundle_file : Text → Anchor
  bundle : Option Text → Anchor
  system : Anchor

-- What is read of a context.
pub record Settings : Type 0 where
  pub is_server : Bool
  pub at_least_tls12 : Bool
  pub check_hostname : Bool
  pub verify_mode : VerifyMode
  pub partial_chain : Bool
  pub strict : Bool
  pub anchors : List Anchor
  -- the certificate and the key that it presents
  pub chain : Option (Option Text × Option Text)

-- Whether `verify_mode = mode` raises ValueError.
abbrev pub refuses : VerifyMode → Bool → Bool
refuses cert_none checks = checks
refuses cert_required checks = false

-- `check_hostname = True` on a context that verifies nothing makes it verify.
abbrev pub mode_with : Bool → VerifyMode → VerifyMode
mode_with true mode = cert_required
mode_with false mode = mode

pub record Ssl : Type 1 where
  pub Context : Type 0
  pub view : Context → Settings
  -- whether the contexts of this version begin with TLS 1.2
  pub begins_tls12 : Bool
  -- and its default contexts with the flags VERIFY_X509_PARTIAL_CHAIN and VERIFY_X509_STRICT
  pub begins_partial_chain : Bool
  pub begins_strict : Bool
  -- `SSLContext(PROTOCOL_TLS_CLIENT)` and `SSLContext(PROTOCOL_TLS_SERVER)`
  pub client : Context
  pub server : Context
  -- `create_default_context(cafile=…)` and without a file
  pub default_with : Text → Option Context
  pub default_system : Context
  -- `minimum_version = TLSv1_2` and the other attributes
  pub require_tls12 : Context → Context
  pub set_check_hostname : Bool → Context → Context
  pub set_verify_mode : VerifyMode → Context → Option Context
  pub add_partial_chain : Context → Context
  pub drop_strict : Context → Context
  -- `load_cert_chain` and `load_verify_locations`
  pub load_cert_chain : Option Text → Option Text → Context → Option Context
  pub load_verify_locations : Anchor → Context → Option Context

abbrev pub new_context : Bool → Bool → Bool → VerifyMode → Settings
new_context tls12 is_server checks mode = record {
  is_server = is_server;
  at_least_tls12 = tls12;
  check_hostname = checks;
  verify_mode = mode;
  partial_chain = false;
  strict = false;
  anchors = [];
  chain = none;
}

abbrev pub with_tls12 : Settings → Settings
with_tls12 v = record v { at_least_tls12 = true }

abbrev pub with_hostname : Bool → Settings → Settings
with_hostname checks v = record v {
  check_hostname = checks;
  verify_mode = mode_with checks v.verify_mode;
}

abbrev pub with_mode : VerifyMode → Settings → Settings
with_mode mode v = record v { verify_mode = mode }

abbrev pub with_partial_chain : Settings → Settings
with_partial_chain v = record v { partial_chain = true }

abbrev pub without_strict : Settings → Settings
without_strict v = record v { strict = false }

abbrev pub with_chain : Option Text → Option Text → Settings → Settings
with_chain cert key v = record v { chain = some (cert, key) }

abbrev pub with_anchor : Anchor → Settings → Settings
with_anchor a v = record v { anchors = v.anchors ++ a ∷ [] }

-- A default context, with the flags that this version gives it.
abbrev pub default_settings : Ssl → Anchor → Settings
default_settings ssl a = record {
  is_server = false;
  at_least_tls12 = ssl.begins_tls12;
  check_hostname = true;
  verify_mode = cert_required;
  partial_chain = ssl.begins_partial_chain;
  strict = ssl.begins_strict;
  anchors = a ∷ [];
  chain = none;
}

-- What the documentation of `ssl` says of the calls. A client's and a default context verify and
-- check hostnames to begin with, and a server's does neither.
pub record IsSsl (ssl : Ssl) : Type 0 where
  pub view-client : ssl.view ssl.client ≡ new_context ssl.begins_tls12 false true cert_required
  pub view-server : ssl.view ssl.server ≡ new_context ssl.begins_tls12 true false cert_none
  pub view-default_system : ssl.view ssl.default_system ≡ default_settings ssl system
  pub view-default_with :
      (file : Text) (c : ssl.Context)
      → ssl.default_with file ≡ some c
      → ssl.view c ≡ default_settings ssl (bundle_file file)
  pub view-require_tls12 :
      (c : ssl.Context) → ssl.view (ssl.require_tls12 c) ≡ with_tls12 (ssl.view c)
  pub view-set_check_hostname :
      (checks : Bool) (c : ssl.Context)
      → ssl.view (ssl.set_check_hostname checks c) ≡ with_hostname checks (ssl.view c)
  pub set_verify_mode-refuses :
      (mode : VerifyMode) (c : ssl.Context)
      → refuses mode (ssl.view c).check_hostname ≡ true
      → ssl.set_verify_mode mode c ≡ none
  pub view-set_verify_mode :
      (mode : VerifyMode) (c : ssl.Context)
      → refuses mode (ssl.view c).check_hostname ≡ false
      → (c' : ssl.Context) × (ssl.set_verify_mode mode c ≡ some c')
        × (ssl.view c' ≡ with_mode mode (ssl.view c))
  pub view-add_partial_chain :
      (c : ssl.Context) → ssl.view (ssl.add_partial_chain c) ≡ with_partial_chain (ssl.view c)
  pub view-drop_strict :
      (c : ssl.Context) → ssl.view (ssl.drop_strict c) ≡ without_strict (ssl.view c)
  pub view-load_cert_chain :
      (cert key : Option Text) (c c' : ssl.Context)
      → ssl.load_cert_chain cert key c ≡ some c'
      → ssl.view c' ≡ with_chain cert key (ssl.view c)
  pub view-load_verify_locations :
      (a : Anchor) (c c' : ssl.Context)
      → ssl.load_verify_locations a c ≡ some c'
      → ssl.view c' ≡ with_anchor a (ssl.view c)

-- One call behind another, which may have raised.
abbrev pub and_call {ℓ} : {C : Type ℓ} → Option C → (C → Option C) → Option C
and_call none call = none
and_call (some c) call = call c

module _ (ssl : Ssl) where
  open ssl use {
    Context, client, server, default_with, default_system, require_tls12, set_check_hostname,
    set_verify_mode, add_partial_chain, drop_strict, load_cert_chain, load_verify_locations,
  }

  -- `build_server_context`, of the files on disk
  unfoldable pub build_server_context : Disk → Option Context
  build_server_context d = and_call (load_cert_chain d.cert d.key (require_tls12 server)) λ c1.
      and_call (load_verify_locations (bundle d.ca) c1)
        λ c2. and_call (set_verify_mode cert_required c2) λ c3. some (set_check_hostname false c3)

  -- `build_client_context`
  unfoldable pub build_client_context : Disk → Option Context
  build_client_context d = and_call (load_cert_chain d.cert d.key (require_tls12 client)) λ c1.
      and_call (load_verify_locations (bundle d.ca) c1)
        λ c2. set_verify_mode cert_required (set_check_hostname false c2)

  -- The context of `fetch_peer_certificate`.
  unfoldable pub peek_context : Option Context
  peek_context = set_verify_mode cert_none (set_check_hostname false (require_tls12 client))

  -- `pinned_context`
  unfoldable pub build_pinned_context : List ℕ → Option Context
  build_pinned_context der =
      and_call (set_verify_mode cert_required (set_check_hostname false (require_tls12 client)))
        λ c. load_verify_locations (certificate der) (add_partial_chain c)

  -- `ca_bundle_context`, of a file that is there
  unfoldable pub build_bundle_context : Text → Option Context
  build_bundle_context path = and_call (default_with path) λ c. some (drop_strict (require_tls12 c))

  -- `system_trust_context`
  unfoldable pub build_system_context : Context
  build_system_context = require_tls12 default_system

  -- The context that stands for a `verify` argument; none where building it raises, and none for
  -- False, which is no context.
  unfoldable pub context_of : Verify → Option Context
  unfolding build_pinned_context build_bundle_context build_system_context
  context_of unverified = none
  context_of (pinned_context der) = build_pinned_context der
  context_of (ca_bundle_context path) = build_bundle_context path
  context_of system_trust_context = some build_system_context
